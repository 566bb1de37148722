-- ===== src/Resolver/Tests.antt =====
-- A server that is delegated for a day, with a .well-known that is down.
use synapse_media_worker.Base.{
  ◌+◌, ◌*◌, ◌/◌, ◌<◌, ◌≡◌, refl, ℕ, true, false, Option, none, some, [], ◌∷◌, Bytes, bytes, str_eq,
  to_lower, lower, cut, mul64, is_digit, arith, two64, str_eq-ne, ◌≢◌,
}
use synapse_media_worker.Decimal.{parse_int, parse_digits}
use synapse_media_worker.Serve.{trim_space, trim_left, is_space}
use synapse_media_worker.Synapse.{second, hour, is_empty}
use synapse_media_worker.Resolver.CachePeriod.{
  split_commas, read_directive, read_directives, directives, is_present, last_value, max_age,
  cache_period_from_headers,
}
use synapse_media_worker.Resolver.{
  WellKnownEntry, Discovery, find_host, no_reply, Context, temporary_failure,
  request_well_known_once, judge_once, request_loop, request_well_known,
}
use synapse_media_worker.Resolver.WellKnown.{Library, had_valid_well_known, get_well_known}
use synapse_media_worker.Resolver.Attempts.{IsSettled}
use synapse_media_worker.Resolver.Attempts
use synapse_media_worker.Resolver.Period.{IsJitter, IsKept}
use synapse_media_worker.Resolver.Period
use synapse_media_worker.Resolver.Cache
use synapse_media_worker.Resolver.Target.{Answer, failure, resolve_srv}
use synapse_media_worker.Resolver.Srv

abbrev no_dates : Bytes → ℕ → Option ℕ
no_dates s now = none

header_test :
    cache_period_from_headers no_dates
      (record { cache_control = bytes "public, Max-Age = 600" ∷ []; expires = bytes "never" ∷ [] })
      0
    ≡ some (600 * second)
unfolding cache_period_from_headers directives split_commas read_directives read_directive cut
    to_lower lower trim_space trim_left is_space is_present last_value max_age is_empty parse_int
    parse_digits is_digit mul64 str_eq
header_test = refl

abbrev down : Context
down = record { replies = λ i. no_reply; cancelled = λ i. false; slept = λ i. true }

down_test : request_well_known true down ≡ temporary_failure
unfolding request_well_known request_loop judge_once request_well_known_once
down_test = refl

-- No jitter.
abbrev library : Library
library = record {
  parse_server = λ body. none;
  time_left = no_dates;
  jittered = λ p. p;
  grace = λ p. p / 5;
}

abbrev day : WellKnownEntry
day = record { delegated = bytes "m.b.org"; expires = 100 * hour; ttl = 24 * hour }

abbrev known : Discovery
known = record { well_known = (bytes "b.org", day) ∷ []; had_valid = [] }

found_test : find_host (bytes "b.org") known.well_known ≡ some day
unfolding find_host str_eq
found_test = refl

outage_test :
    request_well_known (had_valid_well_known known (bytes "b.org") (99 * hour)) down
    ≡ temporary_failure
unfolding request_well_known request_loop judge_once request_well_known_once had_valid_well_known
    find_host
outage_test = refl

named_test : day.delegated ≢ []
unfolding str_eq
named_test = str_eq-ne day.delegated [] refl

get_well_known-keeps_example :
    get_well_known library true (λ d. d) (bytes "b.org") (99 * hour) (99 * hour + second) down known
    ≡ (bytes "m.b.org", known)
get_well_known-keeps_example =
    Cache.get_well_known-keeps library (bytes "b.org") (99 * hour) (99 * hour + second) down known
      day found_test (omega arith) true named_test outage_test

no_jitter : (p : ℕ) → IsJitter library.jittered p
no_jitter p = omega arith

no_left : (s : Bytes) (now p : ℕ) → no_dates s now ≡ some p → p < two64
no_left s now p e = cc

known-IsBounded : Period.IsBounded library no_left no_jitter (200 * hour) known
known-IsBounded = ((omega arith, omega arith, (76 * hour, omega arith, refl)), tt)

get_well_known-IsBounded_example :
    Period.IsBounded library no_left no_jitter
      (200 * hour + second)
      (get_well_known library true
        (λ d. d)
        (bytes "b.org")
        (200 * hour)
        (200 * hour + second)
        down
        known).1
get_well_known-IsBounded_example =
    Period.get_well_known-IsBounded library no_left no_jitter true (λ d. d) (bytes "b.org")
      (200 * hour) (200 * hour + second) down known (omega arith)
      (λ d h. Period.IsBounded-later library no_left no_jitter _ _ d.well_known (omega arith) h)
      known-IsBounded

request_well_known-IsSettled_example : IsSettled 3 down (request_well_known true down)
request_well_known-IsSettled_example = Attempts.request_well_known-IsSettled true down

abbrev no_dns : Bytes → Bytes → Answer
no_dns service host = failure false []

resolve_srv-IsResolved_example :
    Srv.IsResolved no_dns (bytes "b.org") [] (resolve_srv no_dns (bytes "b.org") [])
resolve_srv-IsResolved_example = Srv.resolve_srv-IsResolved no_dns (bytes "b.org") []
