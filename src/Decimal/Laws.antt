-- ===== src/Decimal/Laws.antt =====
-- Reading back what was written in decimal.
use synapse_media_worker.Base.{
  ℕ, zero, suc, ◌+◌, ◌/◌, ◌%◌, ◌<◌, ◌≡◌, ◌≢◌, refl, ap, ◌∙◌, some, [], ◌∷◌, ltb, Bytes, is_digit,
  two63, arith, inl, inr, Bool-cases, All, true, sym,
}
use synapse_media_worker.Decimal.{itoa_from, itoa, digits_value, parse_digits, parse_int}

digits_value-itoa_from :
    (f n : ℕ) (acc : Bytes) → n < f → digits_value 0 (itoa_from f n acc) ≡ digits_value n acc
unfolding itoa_from digits_value is_digit
digits_value-itoa_from zero n acc h = absurd (omega arith)
digits_value-itoa_from (suc f) n acc h = elim (Bool-cases (ltb n 10)) [
  | inl small ↦ rw small (ground arith)
  | inr big ↦ ground (arith, digits_value-itoa_from f (n / 10) ((b'0' + n % 10) ∷ acc))
]

-- Every byte written is a digit.
itoa_from-digits :
    (f n : ℕ) (acc : Bytes)
    → n < f
    → All (λ c. is_digit c ≡ true) acc
    → All (λ c. is_digit c ≡ true) (itoa_from f n acc)
unfolding itoa_from is_digit
itoa_from-digits zero n acc h k = absurd (omega arith)
itoa_from-digits (suc f) n acc h k =
    ground (arith, itoa_from-digits f (n / 10) ((b'0' + n % 10) ∷ acc))

pub itoa-digits : (n : ℕ) → All (λ c. is_digit c ≡ true) (itoa n)
unfolding itoa
itoa-digits n = itoa_from-digits (suc n) n [] (omega arith) tt

itoa_from-ne-nil : (f n : ℕ) (acc : Bytes) → acc ≢ [] → itoa_from f n acc ≢ []
unfolding itoa_from
itoa_from-ne-nil zero n acc h = h
itoa_from-ne-nil (suc f) n acc h =
    ground (arith, itoa_from-ne-nil f (n / 10) ((b'0' + n % 10) ∷ acc))

pub itoa-ne-nil : (n : ℕ) → itoa n ≢ []
unfolding itoa itoa_from
itoa-ne-nil n = ground (arith, itoa_from-ne-nil n (n / 10) ((b'0' + n % 10) ∷ []))

parse_digits_of_ne : (s : Bytes) → s ≢ [] → parse_digits s ≡ digits_value 0 s
unfolding parse_digits
parse_digits_of_ne [] h = absurd (h refl)
parse_digits_of_ne (c ∷ s) h = refl

pub parse_digits-itoa : (n : ℕ) → parse_digits (itoa n) ≡ some n
unfolding itoa digits_value
parse_digits-itoa n =
    parse_digits_of_ne (itoa n) (itoa-ne-nil n) ∙ digits_value-itoa_from (suc n) n [] (omega arith)

parse_int_of_digits :
    (s : Bytes) (n : ℕ)
    → All (λ c. is_digit c ≡ true) s
    → parse_digits s ≡ some n
    → n < two63
    → parse_int s ≡ some n
unfolding parse_int is_digit
parse_int_of_digits [] n d e h = ground arith
parse_int_of_digits (c ∷ s) n (d, ds) e h = ground arith

-- A number below 2^63 is read back from its decimal text.
pub parse_int-itoa : (n : ℕ) → n < two63 → parse_int (itoa n) ≡ some n
parse_int-itoa n h = parse_int_of_digits (itoa n) n (itoa-digits n) (parse_digits-itoa n) h

-- Different numbers have different texts.
pub itoa-injective : (m n : ℕ) → itoa m ≡ itoa n → m ≡ n
itoa-injective m n e = cc (sym (parse_digits-itoa m) ∙ ap parse_digits e ∙ parse_digits-itoa n)
