-- ===== src/Resolver/CachePeriod.antt =====
-- `cachePeriodFromHeaders` of resolver.go.
use synapse_media_worker.Base.{
  ℕ, ◌==◌, Bool, false, ◌||◌, Option, none, some, List, [], ◌∷◌, ◌++◌, if◌then◌else◌, Bytes, bytes,
  str_eq, cut, or_else, to_lower, mul64,
}
use synapse_media_worker.Decimal.{parse_int}
use synapse_media_worker.Serve.{trim_space}
use synapse_media_worker.Synapse.{is_empty, second}

-- The values of the two headers, in the order in which they came.
pub record Headers : Type 0 where
  pub cache_control : List Bytes
  pub expires : List Bytes

abbrev in_front : ℕ → List Bytes → List Bytes
in_front c [] = (c ∷ []) ∷ []
in_front c (x ∷ xs) = (c ∷ x) ∷ xs

-- `strings.Split(s, ",")`.
unfoldable pub split_commas : Bytes → List Bytes
split_commas [] = [] ∷ []
split_commas (c ∷ s) = let rest = split_commas s in if c == b',' then [] ∷ rest else in_front c rest

-- A directive's name and value, with what `strings.Cut` gives where there is no `=`.
abbrev cut_directive : Bytes → Option (Bytes × Bytes) → Bytes × Bytes
cut_directive s none = (s, [])
cut_directive s (some parts) = parts

unfoldable pub read_directive : Bytes → Bytes × Bytes
unfolding to_lower trim_space cut
read_directive s =
    let (name, value) = cut_directive s (cut b'=' s) in
    (to_lower (trim_space name), trim_space value)

unfoldable pub read_directives : List Bytes → List (Bytes × Bytes)
unfolding read_directive
read_directives [] = []
read_directives (s ∷ rest) = read_directive s ∷ read_directives rest

-- All directives of all values, in order.
unfoldable pub directives : List Bytes → List (Bytes × Bytes)
unfolding read_directives split_commas
directives [] = []
directives (value ∷ values) = read_directives (split_commas value) ++ directives values

unfoldable pub is_present : Bytes → List (Bytes × Bytes) → Bool
unfolding str_eq
is_present key [] = false
is_present key ((k, v) ∷ rest) = str_eq k key || is_present key rest

-- The map's value, the last that was set; empty where there is none.
unfoldable pub last_value : Bytes → Bytes → List (Bytes × Bytes) → Bytes
unfolding str_eq
last_value key found [] = found
last_value key found ((k, v) ∷ rest) = last_value key (if str_eq k key then v else found) rest

-- The period that Expires gives: `time_left` is the time from now to the date that a text means.
unfoldable pub expires_period : (Bytes → ℕ → Option ℕ) → List Bytes → ℕ → Option ℕ
expires_period time_left [] now = none
expires_period time_left (s ∷ []) now = some (or_else (time_left s now) 0)
expires_period time_left (s ∷ t ∷ rest) now = expires_period time_left (t ∷ rest) now

unfoldable pub max_age : Bytes → Option ℕ
unfolding is_empty parse_int
max_age value = if is_empty value then none else parse_int value

abbrev pub or_expires : Option ℕ → Option ℕ → Option ℕ
or_expires none otherwise = otherwise
or_expires (some n) otherwise = some (mul64 n second)

unfoldable pub cache_period_from_headers : (Bytes → ℕ → Option ℕ) → Headers → ℕ → Option ℕ
unfolding directives is_present last_value max_age expires_period mul64
cache_period_from_headers time_left h now =
    let all = directives h.cache_control in
    if is_present (bytes "no-store") all
    then some 0
    else or_expires (max_age (last_value (bytes "max-age") [] all))
        (expires_period time_left h.expires now)
