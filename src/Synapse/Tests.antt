-- ===== src/Synapse/Tests.antt =====
-- A size, a duration and a database of homeserver.yaml.
use synapse_media_worker.Base.{
  ◌*◌, ◌^◌, ◌%◌, ◌≡◌, refl, inl, [], ◌∷◌, ◌++◌, bytes, ok, err, arith, two64, mul64, is_digit,
}
use synapse_media_worker.Decimal.{itoa, parse_int, parse_digits}
use synapse_media_worker.Serve.{is_space, trim_left, trim_space}
use synapse_media_worker.Synapse.{
  text, malformed, last_byte, drop_last, size_multiplier, scaled, without_suffix, size_of_text,
  parse_synapse_size, duration_unit, duration_of_text, parse_synapse_duration, hour,
}
use synapse_media_worker.Synapse.Laws

size_test : parse_synapse_size (text (bytes " 100 M ")) ≡ ok 104857600
unfolding parse_synapse_size size_of_text without_suffix drop_last last_byte size_multiplier scaled
    trim_space trim_left is_space parse_int parse_digits is_digit mul64
size_test = refl

-- The suffixes of durations are in lower case only.
duration_test : parse_synapse_duration (text (bytes "24H")) ≡ err malformed
unfolding parse_synapse_duration duration_of_text without_suffix drop_last last_byte duration_unit
    scaled trim_space trim_left is_space parse_int parse_digits is_digit mul64
duration_test = refl

day_test : parse_synapse_duration (text (bytes "24h")) ≡ ok (24 * hour)
unfolding parse_synapse_duration duration_of_text without_suffix drop_last last_byte duration_unit
    scaled trim_space trim_left is_space parse_int parse_digits is_digit mul64
day_test = refl

-- A size above 2^64 wraps without an error.
wrapping_test : parse_synapse_size (text (bytes "16777217T")) ≡ ok (1024 ^ 4)
unfolding parse_synapse_size size_of_text without_suffix drop_last last_byte size_multiplier scaled
    trim_space trim_left is_space parse_int parse_digits is_digit mul64
wrapping_test = refl

parse_synapse_size-itoa_example :
    (parse_synapse_size (text (itoa 50 ++ b'M' ∷ [])) ≡ ok (50 * 1024 ^ 2 % two64))
    × (parse_synapse_size (text (itoa 50)) ≡ ok 50)
parse_synapse_size-itoa_example = Laws.parse_synapse_size-itoa 50 1 b'M' (omega arith) (inl refl)
