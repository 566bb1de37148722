-- ===== src/Resolver/Cache.antt =====
-- A short outage of a .well-known is not noticed.
use synapse_media_worker.Base.{
  ℕ, ◌<◌, ◌≡◌, ◌≢◌, refl, ap, Bool, false, not, ◌||◌, some, Bytes, [], ◌∷◌, lt→ltb, Bool-cases, inl,
  inr,
}
use synapse_media_worker.Synapse.{is_empty}
use synapse_media_worker.Resolver.{
  WellKnownEntry, Discovery, Context, temporary_failure, find_host, request_well_known,
}
use synapse_media_worker.Resolver.WellKnown.{
  Library, judge_well_known, fetch_well_known, cached_entry, cached_well_known, previous,
  settle_well_known, refresh_well_known, get_well_known, had_valid_well_known,
}

is_empty-ne : (s : Bytes) → s ≢ [] → is_empty s ≡ false
unfolding is_empty
is_empty-ne [] h = absurd (h refl)
is_empty-ne (c ∷ s) h = refl

module _ (lib : Library) (host : Bytes) (now later : ℕ) (ctx : Context) (d : Discovery)
    (e : WellKnownEntry) (cached : find_host host d.well_known ≡ some e)
    (alive : now < e.expires) where
  delegated_from_cache : (cached_well_known lib now host d).0 ≡ e.delegated
  unfolding cached_well_known cached_entry
  delegated_from_cache = rw (cached, cached_entry, lt→ltb now e.expires alive) refl

  refresh_well_known-failing :
      e.delegated ≢ []
      → request_well_known (had_valid_well_known d host now) ctx ≡ temporary_failure
      → refresh_well_known lib host now later ctx d ≡ (e.delegated, d)
  unfolding refresh_well_known fetch_well_known judge_well_known settle_well_known previous
  refresh_well_known-failing named failed =
      rw (failed, cached, lt→ltb now e.expires alive, is_empty-ne e.delegated named) refl

  -- While a delegation is cached and has not expired, a fetch that fails for a reason that may pass
  -- changes nothing: the answer is the cached delegation, and the cache stays as it is, so that the
  -- next request tries again.
  pub get_well_known-keeps :
      (acquired : Bool)
      → e.delegated ≢ []
      → request_well_known (had_valid_well_known d host now) ctx ≡ temporary_failure
      → get_well_known lib acquired (λ d. d) host now later ctx d ≡ (e.delegated, d)
  unfolding get_well_known
  get_well_known-keeps acquired named failed =
      elim (Bool-cases (cached_well_known lib now host d).1) [
        | inl fresh ↦ rw fresh (ap (λ s. (s, d)) delegated_from_cache)
        | inr stale ↦ elim (Bool-cases (not acquired || false)) [
          | inl done ↦ rw (stale, done) (ap (λ s. (s, d)) delegated_from_cache)
          | inr fetch ↦ rw (stale, fetch) (refresh_well_known-failing named failed)
        ]
      ]
