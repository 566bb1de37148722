-- ===== src/Resolver.antt =====
-- resolver.go: the state of server discovery and the request for a .well-known, with its retries. The
-- children: CachePeriod reads cache headers, WellKnown is the cache, Target is the resolution of
-- names and SRV records; Attempts, Period, Cache and Srv are what they guarantee. What the network
-- answers is an input. Times are nanoseconds.
pub mod CachePeriod
pub mod WellKnown
pub mod Target
pub mod Attempts
pub mod Period
pub mod Cache
pub mod Srv
mod Tests
use synapse_media_worker.Base.{
  ℕ, zero, suc, ◌+◌, ◌-◌, ◌*◌, Bool, true, false, not, ◌&&◌, ◌||◌, Option, none, some, List, [],
  ◌∷◌, ◌++◌, ltb, leb, ◌==◌, if◌then◌else◌, Bytes, bytes, str_eq, length, slt64, Result, err, ok,
  ◌>>=◌,
}
use synapse_media_worker.Synapse.{is_empty, second, minute, hour}
use synapse_media_worker.Resolver.CachePeriod.{Headers, cache_period_from_headers}

abbrev pub default_cache_period : ℕ
default_cache_period = 24 * hour

abbrev pub invalid_cache_period : ℕ
invalid_cache_period = hour

abbrev pub down_cache_period : ℕ
down_cache_period = 2 * minute

abbrev pub remember_had_valid : ℕ
remember_had_valid = 2 * hour

abbrev pub max_cache_period : ℕ
max_cache_period = 48 * hour

abbrev pub min_cache_period : ℕ
min_cache_period = 5 * minute

abbrev pub well_known_max_size : ℕ
well_known_max_size = 51200

abbrev pub retry_attempts : ℕ
retry_attempts = 3

pub record WellKnownEntry : Type 0 where
  pub delegated : Bytes
  pub expires : ℕ
  pub ttl : ℕ

-- The two maps of FederationTransport, by host; of two entries for one host the first counts.
pub record Discovery : Type 0 where
  pub well_known : List (Bytes × WellKnownEntry)
  pub had_valid : List (Bytes × ℕ)

unfoldable pub find_host : {V : Type 0} → Bytes → List (Bytes × V) → Option V
unfolding str_eq
find_host host [] = none
find_host host ((h, v) ∷ rest) =
    let later = find_host host rest in if str_eq h host then some v else later

unfoldable pub delete_host : {V : Type 0} → Bytes → List (Bytes × V) → List (Bytes × V)
unfolding str_eq
delete_host host [] = []
delete_host host ((h, v) ∷ rest) =
    let later = delete_host host rest in if str_eq h host then later else (h, v) ∷ later

unfoldable pub put_host : {V : Type 0} → Bytes → V → List (Bytes × V) → List (Bytes × V)
put_host host v entries = (host, v) ∷ entries

-- What the client's request comes to.
pub data Reply : Type 0 where
  no_reply body_failed : Reply
  reply : (status : ℕ) (headers : Headers) (body : Bytes) → Reply

pub data Once : Type 0 where
  given : (status : ℕ) (headers : Headers) (body : Bytes) → Once
  too_large : Once
  unavailable : Once

-- `requestWellKnownOnce`.
unfoldable pub request_well_known_once : Reply → Once
request_well_known_once no_reply = unavailable
request_well_known_once body_failed = unavailable
request_well_known_once (reply status headers body) =
    if ltb well_known_max_size (length body)
    then too_large
    else if leb 500 status && ltb status 600
    then unavailable
    else given status headers body

-- The state of the request's context: after which attempt it has been cancelled, and which wait
-- between two attempts is cut short.
pub record Context : Type 0 where
  pub replies : ℕ → Reply
  pub cancelled : ℕ → Bool
  pub slept : ℕ → Bool

-- The outcome of a request; `unfinished` is a loop that has not come to its end.
pub data Requested : Type 0 where
  got : (status : ℕ) (headers : Headers) (body : Bytes) → Requested
  temporary_failure : Requested
  unfinished : Requested

unfoldable pub judge_once : Bool → Context → ℕ → (ℕ → Requested) → Once → Requested
judge_once retry ctx attempt again (given status headers body) = got status headers body
judge_once retry ctx attempt again too_large = temporary_failure
judge_once retry ctx attempt again unavailable =
    if ctx.cancelled attempt || (not retry || leb retry_attempts attempt)
    then temporary_failure
    else if ctx.slept attempt
    then again (attempt + 1)
    else temporary_failure

-- The loop of `requestWellKnown`, from `attempt` on.
unfoldable pub request_loop : ℕ → Bool → Context → ℕ → Requested
unfolding judge_once request_well_known_once
request_loop zero retry ctx attempt = unfinished
request_loop (suc fuel) retry ctx attempt =
    judge_once retry ctx attempt (request_loop fuel retry ctx)
      (request_well_known_once (ctx.replies attempt))

unfoldable pub request_well_known : Bool → Context → Requested
unfolding request_loop
request_well_known retry ctx = request_loop retry_attempts retry ctx 1
