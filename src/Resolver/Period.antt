-- ===== src/Resolver/Period.antt =====
-- How long an outcome is cached.
use synapse_media_worker.Base.{
  ℕ, ◌+◌, ◌*◌, ◌≤◌, ◌<◌, ◌≡◌, refl, Bool, true, false, Option, none, some, List, [], ◌∷◌, Bytes,
  not, ◌||◌, ◌==◌, if◌then◌else◌, arith, Result, ok, err, two64, slt64, mul64, or_else, bytes, All,
  Bool-cases, inl, inr, subst,
}
use synapse_media_worker.Synapse.{second, minute, hour, is_empty}
use synapse_media_worker.Resolver.CachePeriod.{
  Headers, cache_period_from_headers, or_expires, expires_period, is_present, directives,
}
use synapse_media_worker.Resolver.{
  WellKnownEntry, Discovery, Context, Requested, got, temporary_failure, unfinished, put_host,
  find_host, request_well_known, down_cache_period, invalid_cache_period, max_cache_period,
  min_cache_period,
}
use synapse_media_worker.Resolver.WellKnown.{
  Failure, temporary, lasting, min64, max64, clamped_period, Library, well_known_period,
  parse_well_known, judge_well_known, fetch_well_known, store_well_known, failure_period,
  no_delegation, settle_well_known, refresh_well_known, get_well_known, previous, cached_well_known,
  had_valid_well_known,
}

-- Jitter changes a duration by a fifth at most.
abbrev pub IsJitter : (ℕ → ℕ) → ℕ → Type 0
IsJitter jittered p = (4 * p ≤ 5 * jittered p) × (5 * jittered p ≤ 6 * p)

-- Between five minutes and two days.
abbrev pub IsPeriod : ℕ → Type 0
IsPeriod p = (5 * minute ≤ p) × (p ≤ 48 * hour)

clamped-IsPeriod :
    (p : ℕ) → p < two64 → IsPeriod (max64 (min64 p max_cache_period) min_cache_period)
unfolding min64 max64 slt64
clamped-IsPeriod p h = ground arith

clamped_period-IsPeriod :
    (jittered : ℕ → ℕ) (given : Option ℕ)
    → IsJitter jittered (24 * hour)
    → ((p : ℕ) → given ≡ some p → p < two64)
    → IsPeriod (clamped_period jittered given)
unfolding clamped_period
clamped_period-IsPeriod jittered none j fits = omega arith
clamped_period-IsPeriod jittered (some p) j fits = clamped-IsPeriod p (fits p refl)

abbrev pub Fits : Option ℕ → Type 0
Fits given = (p : ℕ) → given ≡ some p → p < two64

module _ (lib : Library) (fits : (s : Bytes) (now : ℕ) → Fits (lib.time_left s now)) where
  or_expires-Fits : (age otherwise : Option ℕ) → Fits otherwise → Fits (or_expires age otherwise)
  unfolding mul64
  or_expires-Fits none otherwise h p e = h p e
  or_expires-Fits (some n) otherwise h p e = let is : p ≡ mul64 n second = cc in omega (arith, is)

  left-small : (left : Option ℕ) → Fits left → or_else left 0 < two64
  left-small none h = omega arith
  left-small (some t) h = h t refl

  expires_period-Fits :
      (dates : List Bytes) (now : ℕ) → Fits (expires_period lib.time_left dates now)
  unfolding expires_period
  expires_period-Fits [] now p e = cc
  expires_period-Fits (s ∷ []) now p e =
      let is : or_else (lib.time_left s now) 0 ≡ p = cc in
      subst (λ q. q < two64) is (left-small (lib.time_left s now) (fits s now))
  expires_period-Fits (s ∷ t ∷ rest) now p e = expires_period-Fits (t ∷ rest) now p e

  choose-Fits : (b : Bool) (x y : Option ℕ) → Fits x → Fits y → Fits (if b then x else y)
  choose-Fits true x y h k = h
  choose-Fits false x y h k = k

  header_period-Fits :
      (h : Headers) (now : ℕ) → Fits (cache_period_from_headers lib.time_left h now)
  unfolding cache_period_from_headers
  header_period-Fits h now =
      choose-Fits (is_present (bytes "no-store") (directives h.cache_control)) (some 0) _
        (λ p e. let is : 0 ≡ p = cc in omega arith)
        (or_expires-Fits _ _ (expires_period-Fits h.expires now))

  module _ (jitter : (p : ℕ) → IsJitter lib.jittered p) where
    well_known_period-IsPeriod : (h : Headers) (now : ℕ) → IsPeriod (well_known_period lib h now)
    unfolding well_known_period
    well_known_period-IsPeriod h now =
        clamped_period-IsPeriod lib.jittered _ (jitter (24 * hour)) (header_period-Fits h now)

    -- What is cached about a host at a time expires no less than a minute and no more than two days
    -- after it was stored, which was at that time or before.
    abbrev pub IsKept : ℕ → Bytes × WellKnownEntry → Type 0
    IsKept at (host, e) =
        (minute ≤ e.ttl)
        × (e.ttl ≤ 48 * hour)
        × ((stored : ℕ) × (stored ≤ at) × (e.expires ≡ stored + e.ttl))

    abbrev pub IsBounded : ℕ → Discovery → Type 0
    IsBounded at d = All (IsKept at) d.well_known

    pub IsBounded-later :
        (now later : ℕ) (entries : List (Bytes × WellKnownEntry))
        → now ≤ later
        → All (IsKept now) entries
        → All (IsKept later) entries
    IsBounded-later now later [] le h = tt
    IsBounded-later now later (e ∷ entries) le ((low, high, (stored, past, due)), h) =
        ((low, high, (stored, omega arith, due)), IsBounded-later now later entries le h)

    store_well_known-IsBounded :
        (host delegated : Bytes) (period later : ℕ) (d : Discovery)
        → (minute ≤ period) × (period ≤ 48 * hour)
        → IsBounded later d
        → IsBounded later (store_well_known lib host delegated period later d)
    unfolding store_well_known put_host
    store_well_known-IsBounded host delegated period later d p h =
        elim (Bool-cases (slt64 0 period)) [
          | inl some_time ↦ rw some_time ((p.0, p.1, (later, omega arith, refl)), h)
          | inr no_time ↦ rw no_time h
        ]

    failure_period-kept :
        (had : Bool) → (minute ≤ failure_period lib had) × (failure_period lib had ≤ 48 * hour)
    unfolding failure_period
    failure_period-kept true = let j = jitter down_cache_period in omega arith
    failure_period-kept false = let j = jitter invalid_cache_period in omega arith

    no_delegation-IsBounded :
        (host : Bytes) (later : ℕ) (d : Discovery)
        → IsBounded later d
        → IsBounded later (no_delegation lib host later d).1
    unfolding no_delegation
    no_delegation-IsBounded host later d =
        store_well_known-IsBounded host [] _ later d
          (failure_period-kept (had_valid_well_known d host later))

    -- A fetch leaves the cached entries alone; its period is one of a result.
    abbrev IsFetched : Discovery → Result Failure (Bytes × ℕ) × Discovery → Type 0
    IsFetched d (err failure, after) = after.well_known ≡ d.well_known
    IsFetched d (ok (server, period), after) = IsPeriod period × (after.well_known ≡ d.well_known)

    parse_well_known-IsFetched :
        (host : Bytes) (later : ℕ) (headers : Headers) (server : Option Bytes) (d : Discovery)
        → IsFetched d (parse_well_known lib host later headers server d)
    unfolding parse_well_known
    parse_well_known-IsFetched host later headers none d = refl
    parse_well_known-IsFetched host later headers (some server) d =
        (well_known_period-IsPeriod headers later, refl)

    judge_well_known-IsFetched :
        (host : Bytes) (later : ℕ) (answer : Requested) (d : Discovery)
        → IsFetched d (judge_well_known lib host later answer d)
    unfolding judge_well_known
    judge_well_known-IsFetched host later (got status headers body) d =
        elim (Bool-cases (status == 200)) [
          | inl fine ↦
              rw fine (parse_well_known-IsFetched host later headers (lib.parse_server body) d)
          | inr other ↦ rw other refl
        ]
    judge_well_known-IsFetched host later temporary_failure d = refl
    judge_well_known-IsFetched host later unfinished d = refl

    settle_well_known-IsBounded :
        (host : Bytes) (later : ℕ) (prev : Bytes) (d : Discovery)
        (fetched : Result Failure (Bytes × ℕ) × Discovery)
        → IsFetched d fetched
        → IsBounded later d
        → IsBounded later (settle_well_known lib host later prev fetched.0 fetched.1).1
    unfolding settle_well_known
    settle_well_known-IsBounded host later prev d (ok (server, period), after) (p, same) h =
        store_well_known-IsBounded host server period later after (omega arith) (rw same h)
    settle_well_known-IsBounded host later prev d (err temporary, after) same h =
        elim (Bool-cases (is_empty prev)) [
          | inl nothing ↦ rw nothing (no_delegation-IsBounded host later after (rw same h))
          | inr kept ↦ rw kept (rw same h)
        ]
    settle_well_known-IsBounded host later prev d (err lasting, after) same h =
        no_delegation-IsBounded host later after (rw same h)

    refresh_well_known-IsBounded :
        (host : Bytes) (now later : ℕ) (ctx : Context) (d : Discovery)
        → IsBounded later d
        → IsBounded later (refresh_well_known lib host now later ctx d).1
    unfolding refresh_well_known fetch_well_known
    refresh_well_known-IsBounded host now later ctx d h =
        settle_well_known-IsBounded host later (previous lib now (find_host host d.well_known)) d _
          (judge_well_known-IsFetched host later
            (request_well_known (had_valid_well_known d host now) ctx) d)
          h

    -- Whatever a server's headers say and however a fetch ends, every entry of the cache expires at
    -- least a minute and at most two days after it was stored, which lies in the past. Jitter changes a
    -- duration by a fifth at most, the time to a date fits 64 bits, and what happens while other
    -- fetches are waited for keeps the bounds.
    pub get_well_known-IsBounded :
        (acquired : Bool) (between : Discovery → Discovery) (host : Bytes) (now later : ℕ)
        (ctx : Context) (d : Discovery)
        → now ≤ later
        → ((d : Discovery) → IsBounded now d → IsBounded later (between d))
        → IsBounded now d
        → IsBounded later (get_well_known lib acquired between host now later ctx d).1
    unfolding get_well_known
    get_well_known-IsBounded acquired between host now later ctx d le keeps h =
        elim (Bool-cases (cached_well_known lib now host d).1) [
          | inl fresh ↦ rw fresh (IsBounded-later now later d.well_known le h)
          | inr stale ↦
              elim (Bool-cases (not acquired || (cached_well_known lib now host (between d)).1)) [
                | inl done ↦ rw (stale, done) (keeps d h)
                | inr fetch ↦
                    rw (stale, fetch)
                      (refresh_well_known-IsBounded host now later ctx (between d) (keeps d h))
              ]
        ]
