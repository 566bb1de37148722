-- ===== src/Resolver/WellKnown.antt =====
-- resolver.go: fetching a .well-known and the cache of delegations. The time before and after a fetch
-- and what other requests do meanwhile are inputs. A duration is a 64-bit pattern.
use synapse_media_worker.Base.{
  ℕ, ◌+◌, ◌-◌, Bool, false, not, ◌||◌, Option, none, some, List, [], ltb, ◌==◌, if◌then◌else◌,
  Bytes, slt64, Result, err, ok,
}
use synapse_media_worker.Synapse.{is_empty}
use synapse_media_worker.Resolver.CachePeriod.{Headers, cache_period_from_headers}
use synapse_media_worker.Resolver.{
  default_cache_period, invalid_cache_period, down_cache_period, remember_had_valid,
  max_cache_period, min_cache_period, WellKnownEntry, Discovery, find_host, delete_host, put_host,
  Context, Requested, got, temporary_failure, unfinished, request_well_known,
}

-- Whether a failure may pass.
pub data Failure : Type 0 where
  temporary lasting : Failure

-- `min` and `max` of two durations.
unfoldable pub min64 : ℕ → ℕ → ℕ
unfolding slt64
min64 a b = if slt64 b a then b else a

unfoldable pub max64 : ℕ → ℕ → ℕ
unfolding slt64
max64 a b = if slt64 a b then b else a

unfoldable pub had_valid_well_known : Discovery → Bytes → ℕ → Bool
unfolding find_host
had_valid_well_known d host now = elim (find_host host d.had_valid) [
  | none ↦ false
  | some until ↦ ltb now until
]

-- What is fixed for a transport: the JSON decoder (`none` where the text is not such an object, or
-- `m.server` is not there), `http.ParseTime` with the time that is left until then, the product of a
-- duration and `jitter()`, and a fifth of a duration, which Go takes in floating point.
pub record Library : Type 0 where
  pub parse_server : Bytes → Option Bytes
  pub time_left : Bytes → ℕ → Option ℕ
  pub jittered : ℕ → ℕ
  pub grace : ℕ → ℕ

unfoldable pub clamped_period : (ℕ → ℕ) → Option ℕ → ℕ
unfolding min64 max64
clamped_period jittered none = jittered default_cache_period
clamped_period jittered (some period) = max64 (min64 period max_cache_period) min_cache_period

module _ (lib : Library) where
  -- How long a result is kept.
  unfoldable pub well_known_period : Headers → ℕ → ℕ
  unfolding cache_period_from_headers clamped_period
  well_known_period headers now =
      clamped_period lib.jittered (cache_period_from_headers lib.time_left headers now)

  -- The record of valid answers after one that names a server, or none.
  unfoldable pub remember : Bytes → Bytes → ℕ → List (Bytes × ℕ) → List (Bytes × ℕ)
  unfolding is_empty put_host delete_host
  remember host server until had =
      if is_empty server then delete_host host had else put_host host until had

  -- A fetch that gave a body, at `later`.
  unfoldable pub parse_well_known :
      Bytes → ℕ → Headers → Option Bytes → Discovery → Result Failure (Bytes × ℕ) × Discovery
  unfolding well_known_period remember
  parse_well_known host later headers none d = (err lasting, d)
  parse_well_known host later headers (some server) d =
      let period = well_known_period headers later in
      (
        ok (server, period),
        record d {
          had_valid = remember host server (later + period + remember_had_valid) d.had_valid;
        },
      )

  unfoldable pub judge_well_known :
      Bytes → ℕ → Requested → Discovery → Result Failure (Bytes × ℕ) × Discovery
  unfolding parse_well_known
  judge_well_known host later (got status headers body) d =
      if status == 200
      then parse_well_known host later headers (lib.parse_server body) d
      else (err lasting, d)
  judge_well_known host later temporary_failure d = (err temporary, d)
  judge_well_known host later unfinished d = (err temporary, d)

  -- `fetchWellKnown`: the request is made at `now` and answered at `later`.
  unfoldable pub fetch_well_known :
      Bytes → ℕ → ℕ → Context → Discovery → Result Failure (Bytes × ℕ) × Discovery
  unfolding judge_well_known request_well_known had_valid_well_known
  fetch_well_known host now later ctx d =
      judge_well_known host later (request_well_known (had_valid_well_known d host now) ctx) d

  -- `cachedWellKnown`.
  unfoldable pub cached_entry : ℕ → Option WellKnownEntry → Bytes × Bool
  cached_entry now none = ([], false)
  cached_entry now (some e) =
      if ltb now e.expires
      then (e.delegated, ltb now (e.expires - lib.grace e.ttl))
      else ([], false)

  unfoldable pub cached_well_known : ℕ → Bytes → Discovery → Bytes × Bool
  unfolding cached_entry find_host
  cached_well_known now host d = cached_entry now (find_host host d.well_known)

  unfoldable pub store_well_known : Bytes → Bytes → ℕ → ℕ → Discovery → Discovery
  unfolding put_host slt64
  store_well_known host delegated period later d =
      if slt64 0 period
      then record d {
        well_known =
            put_host host (record { delegated = delegated; expires = later + period; ttl = period })
              d.well_known;
      }
      else d

  -- The delegation that is still cached when the fetch begins.
  unfoldable pub previous : ℕ → Option WellKnownEntry → Bytes
  previous now none = []
  previous now (some e) = if ltb now e.expires then e.delegated else []

  unfoldable pub failure_period : Bool → ℕ
  failure_period had = lib.jittered (if had then down_cache_period else invalid_cache_period)

  unfoldable pub no_delegation : Bytes → ℕ → Discovery → Bytes × Discovery
  unfolding store_well_known failure_period had_valid_well_known
  no_delegation host later d =
      ([], store_well_known host [] (failure_period (had_valid_well_known d host later)) later d)

  unfoldable pub settle_well_known :
      Bytes → ℕ → Bytes → Result Failure (Bytes × ℕ) → Discovery → Bytes × Discovery
  unfolding store_well_known no_delegation is_empty
  settle_well_known host later prev (ok (server, period)) d =
      (server, store_well_known host server period later d)
  settle_well_known host later prev (err temporary) d =
      if is_empty prev then no_delegation host later d else (prev, d)
  settle_well_known host later prev (err lasting) d = no_delegation host later d

  unfoldable pub refresh_well_known : Bytes → ℕ → ℕ → Context → Discovery → Bytes × Discovery
  unfolding fetch_well_known settle_well_known previous find_host
  refresh_well_known host now later ctx d =
      let (outcome, after) = fetch_well_known host now later ctx d in
      settle_well_known host later (previous now (find_host host d.well_known)) outcome after

  -- `getWellKnown`: `acquired` is whether the wait for other fetches of the host ends before the
  -- request is cancelled, and `between` what they do meanwhile.
  unfoldable pub get_well_known :
      (acquired : Bool) (between : Discovery → Discovery)
      → Bytes
      → ℕ
      → ℕ
      → Context
      → Discovery
      → Bytes × Discovery
  unfolding cached_well_known refresh_well_known
  get_well_known acquired between host now later ctx d =
      if (cached_well_known now host d).1
      then ((cached_well_known now host d).0, d)
      else (let meanwhile = between d in
          if not acquired || (cached_well_known now host meanwhile).1
          then ((cached_well_known now host meanwhile).0, meanwhile)
          else refresh_well_known host now later ctx meanwhile)
