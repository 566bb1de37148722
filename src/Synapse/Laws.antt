-- ===== src/Synapse/Laws.antt =====
-- What a size or a duration that homeserver.yaml writes with a suffix comes to.
use synapse_media_worker.Base.{
  ℕ, suc, zero, ◌*◌, ◌^◌, ◌<◌, ◌≡◌, ◌≢◌, refl, ◌⊎◌, Bool, true, some, [], ◌∷◌, ◌++◌, get_elem?, All,
  All-append, All-imp, Bytes, bytes, is_digit, ok, arith, two63, two64, mul64, ltb, lt→ltb, ◌%◌, ap,
  ◌∙◌,
}
use synapse_media_worker.Decimal.{itoa, parse_int}
use synapse_media_worker.Decimal.Laws.{itoa-digits, itoa-ne-nil, parse_int-itoa}
use synapse_media_worker.Serve.{is_space, trim_space}
use synapse_media_worker.Serve.Disposition.{IsTypeChar, trim_space_of}
use synapse_media_worker.Synapse.{
  text, last_byte, drop_last, size_multiplier, scaled, without_suffix, size_of_text,
  parse_synapse_size,
}

last_byte-append : (d : ℕ) (s : Bytes) (c : ℕ) → last_byte d (s ++ c ∷ []) ≡ c
unfolding last_byte
last_byte-append d [] c = refl
last_byte-append d (x ∷ s) c = last_byte-append x s c

drop_last-append : (s : Bytes) (c : ℕ) → drop_last (s ++ c ∷ []) ≡ s
unfolding drop_last
drop_last-append [] c = refl
drop_last-append (x ∷ []) c = refl
drop_last-append (x ∷ y ∷ s) c = rw (drop_last-append (y ∷ s) c) refl

-- The text of a number before a suffix is neither empty nor trimmed.
is_digit-IsTypeChar : (c : ℕ) → is_digit c ≡ true → IsTypeChar c
unfolding is_digit is_space
is_digit-IsTypeChar c h = ground arith

itoa-IsTypeChar : (n : ℕ) → All IsTypeChar (itoa n)
itoa-IsTypeChar n = All-imp (itoa n) is_digit-IsTypeChar (itoa-digits n)

without_suffix_of_append :
    (b : Bool) (s : Bytes) (c : ℕ)
    → b ≡ true
    → trim_space s ≡ s
    → without_suffix b (s ++ c ∷ []) ≡ s
unfolding without_suffix
without_suffix_of_append b s c h t = rw (h, drop_last-append s c) t

size_of_text_of_suffix :
    (s : Bytes) (n c : ℕ)
    → s ≢ []
    → 1 < size_multiplier c
    → trim_space s ≡ s
    → parse_int s ≡ some n
    → size_of_text (s ++ c ∷ []) ≡ ok (mul64 n (size_multiplier c))
unfolding size_of_text scaled
size_of_text_of_suffix [] n c h k t p = absurd (h refl)
size_of_text_of_suffix (x ∷ s) n c h k t p =
    rw
      (
        last_byte-append x s c,
        without_suffix_of_append (ltb 1 (size_multiplier c)) (x ∷ s) c (lt→ltb _ _ k) t,
        p,
      )
      refl

-- A digit string and a letter after it are left alone by `TrimSpace`.
itoa-suffix-trimmed : (n c : ℕ) → IsTypeChar c → trim_space (itoa n ++ c ∷ []) ≡ itoa n ++ c ∷ []
itoa-suffix-trimmed n c h =
    trim_space_of (itoa n ++ c ∷ [])
      (All-append IsTypeChar (itoa n) (c ∷ []) (itoa-IsTypeChar n) (h, tt))

abbrev BinarySuffix : ℕ → ℕ → Type 0
BinarySuffix i c = (get_elem? (bytes "KMGT") i ≡ some c) ⊎ (get_elem? (bytes "kmgt") i ≡ some c)

size_multiplier-BinarySuffix : (i c : ℕ) → BinarySuffix i c → size_multiplier c ≡ 1024 ^ suc i
unfolding size_multiplier
size_multiplier-BinarySuffix zero c h = ground arith
size_multiplier-BinarySuffix (suc zero) c h = ground arith
size_multiplier-BinarySuffix (suc (suc zero)) c h = ground arith
size_multiplier-BinarySuffix (suc (suc (suc zero))) c h = ground arith
size_multiplier-BinarySuffix (suc (suc (suc (suc i)))) c h = ground arith

BinarySuffix-IsTypeChar : (i c : ℕ) → BinarySuffix i c → IsTypeChar c
unfolding is_space
BinarySuffix-IsTypeChar zero c h = ground arith
BinarySuffix-IsTypeChar (suc zero) c h = ground arith
BinarySuffix-IsTypeChar (suc (suc zero)) c h = ground arith
BinarySuffix-IsTypeChar (suc (suc (suc zero))) c h = ground arith
BinarySuffix-IsTypeChar (suc (suc (suc (suc i)))) c h = ground arith

BinarySuffix-large : (i c : ℕ) → BinarySuffix i c → 1 < 1024 ^ suc i
BinarySuffix-large zero c h = ground arith
BinarySuffix-large (suc zero) c h = ground arith
BinarySuffix-large (suc (suc zero)) c h = ground arith
BinarySuffix-large (suc (suc (suc zero))) c h = ground arith
BinarySuffix-large (suc (suc (suc (suc i)))) c h = ground arith

size_of_suffix :
    (n i c : ℕ)
    → n < two63
    → BinarySuffix i c
    → size_of_text (itoa n ++ c ∷ []) ≡ ok (n * 1024 ^ suc i % two64)
unfolding mul64
size_of_suffix n i c small h =
    let e = size_multiplier-BinarySuffix i c h in
    let large : 1 < size_multiplier c = rw e (BinarySuffix-large i c h) in
    size_of_text_of_suffix (itoa n) n c (itoa-ne-nil n) large
      (trim_space_of (itoa n) (itoa-IsTypeChar n)) (parse_int-itoa n small)
    ∙ rw e refl

last_byte-All : (P : ℕ → Type 0) (c : ℕ) (s : Bytes) → All P (c ∷ s) → P (last_byte c s)
unfolding last_byte
last_byte-All P c [] h = h.0
last_byte-All P c (d ∷ s) h = last_byte-All P d s h.1

is_digit-multiplier : (c : ℕ) → is_digit c ≡ true → size_multiplier c ≡ 1
unfolding is_digit size_multiplier
is_digit-multiplier c h = ground arith

size_of_digits :
    (s : Bytes) (n : ℕ)
    → s ≢ []
    → All (λ c. is_digit c ≡ true) s
    → trim_space s ≡ s
    → parse_int s ≡ some n
    → n < two63
    → size_of_text s ≡ ok n
unfolding size_of_text scaled without_suffix mul64
size_of_digits [] n h d t p small = absurd (h refl)
size_of_digits (c ∷ s) n h d t p small =
    rw (is_digit-multiplier _ (last_byte-All (λ c. is_digit c ≡ true) c s d), t, p)
      (ap ok (omega arith))

-- The size that a number below 2^63 with the i-th of the suffixes K, M, G and T, in either case,
-- counted from zero, stands for is that number times 1024^(i+1), reduced to 64 bits. Without
-- a suffix it is the number.
pub parse_synapse_size-itoa :
    (n i c : ℕ)
    → n < two63
    → BinarySuffix i c
    → (parse_synapse_size (text (itoa n ++ c ∷ [])) ≡ ok (n * 1024 ^ suc i % two64))
      × (parse_synapse_size (text (itoa n)) ≡ ok n)
unfolding parse_synapse_size
parse_synapse_size-itoa n i c small h = (
  rw (itoa-suffix-trimmed n c (BinarySuffix-IsTypeChar i c h)) (size_of_suffix n i c small h),
  rw (trim_space_of (itoa n) (itoa-IsTypeChar n)) (
      size_of_digits (itoa n) n (itoa-ne-nil n) (itoa-digits n)
        (trim_space_of (itoa n) (itoa-IsTypeChar n)) (parse_int-itoa n small) small),
)
