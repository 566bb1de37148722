-- ===== src/Decimal.antt =====
-- Decimal text of numbers, as `strconv` and `%d` write and read it (used by paths.go, multipart.go,
-- thumbnail.go and synapseconfig.go).
pub mod Laws
use synapse_media_worker.Base.{
  ℕ, zero, suc, ◌+◌, ◌-◌, ◌*◌, ◌/◌, ◌%◌, ◌≡◌, Bool, Option, none, some, List, [], ◌∷◌, ltb, leb,
  ◌==◌, if◌then◌else◌, Bytes, is_digit, two63, two64, ◌&&◌,
}

itoa_from : ℕ → ℕ → Bytes → Bytes
itoa_from zero n acc = acc
itoa_from (suc f) n acc =
    let rest = itoa_from f (n / 10) ((b'0' + n % 10) ∷ acc) in
    if ltb n 10 then (b'0' + n) ∷ acc else rest

-- `strconv.Itoa` of a number that is not negative.
unfoldable pub itoa : ℕ → Bytes
unfolding itoa_from
itoa n = itoa_from (suc n) n []

-- The value of a run of digits, read after the digits of `acc`.
digits_value : ℕ → Bytes → Option ℕ
digits_value acc [] = some acc
digits_value acc (c ∷ s) =
    let rest = digits_value (acc * 10 + (c - b'0')) s in if is_digit c then rest else none

unfoldable pub parse_digits : Bytes → Option ℕ
unfolding digits_value is_digit
parse_digits [] = none
parse_digits (c ∷ s) = digits_value 0 (c ∷ s)

abbrev non_negative : Option ℕ → Option ℕ
non_negative none = none
non_negative (some n) = if ltb n two63 then some n else none

abbrev negative : Option ℕ → Option ℕ
negative none = none
negative (some n) = if leb n two63 then some ((two64 - n) % two64) else none

-- `strconv.ParseInt(s, 10, 64)` and `strconv.Atoi`: the 64-bit pattern of the number, or an error.
unfoldable pub parse_int : Bytes → Option ℕ
unfolding parse_digits
parse_int [] = none
parse_int (c ∷ s) =
    if c == b'-'
    then negative (parse_digits s)
    else if c == b'+'
    then non_negative (parse_digits s)
    else non_negative (parse_digits (c ∷ s))

-- `strconv.Itoa` and `strconv.FormatInt(n, 10)` of an int64, given by its 64-bit pattern.
unfoldable pub itoa_int64 : ℕ → Bytes
unfolding itoa
itoa_int64 n = if ltb n two63 then itoa n else b'-' ∷ itoa (two64 - n)
