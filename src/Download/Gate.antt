-- ===== src/Download/Gate.antt =====
-- Which media is never handed out.
use synapse_media_worker.Base.{
  ◌≡◌, refl, subst, Bool, true, false, not, Option, none, some, List, if◌then◌else◌, Bytes, bytes,
  Result, ok, err, inl, inr, ◌⊎◌,
}
use synapse_media_worker.Paths.{MediaPaths, remote_media}
use synapse_media_worker.Database.{LocalMedia, RemoteMedia, quarantined, is_null}
use synapse_media_worker.Store.{Files, StoreError}
use synapse_media_worker.Download.{
  Found, broken, missing, found, Reply, ServerConfig, Tick, not_found, internal_error,
  not_yet_uploaded, too_large_remote, unreachable, proxied, unchanged, served, await_upload,
  awaited, resolve_local_media, hidden_from_legacy, serve_remote_row, serve_remote_download,
  serve_fetched, fetch_failure, respond_remote, open_at, is_located, is_too_large,
  is_origin_not_found,
}

-- An answer that confirms the content to the client.
abbrev pub IsHandedOut : Reply → Type 0
IsHandedOut (unchanged h) = Unit {0}
IsHandedOut (served h content) = Unit {0}
IsHandedOut not_found = ⊥
IsHandedOut not_yet_uploaded = ⊥
IsHandedOut internal_error = ⊥
IsHandedOut too_large_remote = ⊥
IsHandedOut unreachable = ⊥
IsHandedOut (proxied reason) = ⊥

-- What a served remote row is like: not quarantined, not hidden, complete, and its file is there.
pub record IsServable (c : ServerConfig) (p : MediaPaths) (files : Files) (server : Bytes)
    (allow : Bool) (m : RemoteMedia) : Type 0 where
  pub clear : quarantined m.quarantined_by ≡ false
  pub visible : hidden_from_legacy c m.authenticated allow ≡ false
  pub complete : is_null m.length ≡ false
  pub stored :
      (content : Bytes) × (open_at files (remote_media p server m.filesystem_id) ≡ some content)

module _ (c : ServerConfig) (p : MediaPaths) (files : Files) (if_none_match boundary : Bytes) where
  respond_remote-content :
      (m : RemoteMedia) (content : Option Bytes)
      → IsHandedOut (respond_remote c p files if_none_match boundary m content)
      → (x : Bytes) × (content ≡ some x)
  unfolding respond_remote
  respond_remote-content m none h = absurd h
  respond_remote-content m (some x) h = (x, refl)

  guard :
      (b : Bool) (x y : Reply)
      → ¬ IsHandedOut x
      → IsHandedOut (if b then x else y)
      → (b ≡ false) × IsHandedOut y
  guard true x y h k = absurd (h k)
  guard false x y h k = (refl, k)

  neither :
      (b : Bool) (x y : Reply)
      → ¬ IsHandedOut x
      → ¬ IsHandedOut y
      → ¬ IsHandedOut (if b then x else y)
  neither true x y h k = h
  neither false x y h k = k

  first :
      (b : Bool) (x y : Reply)
      → ¬ IsHandedOut y
      → IsHandedOut (if b then x else y)
      → (b ≡ true) × IsHandedOut x
  first true x y h k = (refl, k)
  first false x y h k = absurd (h k)

  serve_remote_row-IsServable :
      (server : Bytes) (m : RemoteMedia) (allow : Bool)
      → IsHandedOut (serve_remote_row c p files if_none_match boundary server m allow)
      → IsServable c p files server allow m
  unfolding serve_remote_row
  serve_remote_row-IsServable server m allow h =
      let (q, h1) = guard (quarantined m.quarantined_by) not_found _ (λ z. z) h in
      let (v, h2) = guard (hidden_from_legacy c m.authenticated allow) not_found _ (λ z. z) h1 in
      let (l, h3) = guard (is_null m.length) (proxied (bytes "remote_incomplete")) _ (λ z. z) h2 in
      let (x, h4) =
        guard
          (not
            (is_located c p files if_none_match boundary (remote_media p server m.filesystem_id)))
          not_found _ (λ z. z) h3 in
      record {
        clear = q;
        visible = v;
        complete = l;
        stored =
            respond_remote-content m (open_at files (remote_media p server m.filesystem_id)) h4;
      }

  pub fetch_failure-refused :
      (e : StoreError) → ¬ IsHandedOut (fetch_failure c p files if_none_match boundary e)
  unfolding fetch_failure
  fetch_failure-refused e =
      neither (is_too_large c p files if_none_match boundary e) _ _ (λ z. z)
        (neither c.proxy_fetch_failures _ _ (λ z. z)
          (neither (is_origin_not_found c p files if_none_match boundary e) _ _ (λ z. z) (λ z. z)))

  -- Whatever the database and the fetch bring, remote media is handed out only from a row that is not
  -- quarantined, not hidden from the endpoint and complete, and only where its file is there; and the
  -- row is the one that the lookup or, if there was none and fetching is on, the fetch brought.
  pub serve_remote_download-IsServable :
      (server : Bytes) (row : Found RemoteMedia) (fetched : Result StoreError RemoteMedia)
      (allow : Bool)
      → IsHandedOut
          (serve_remote_download c p files if_none_match boundary server row fetched allow)
      → (m : RemoteMedia) × ((row ≡ found m)
          ⊎ ((row ≡ missing) × (c.fetch_remote ≡ true) × (fetched ≡ ok m)))
        × IsServable c p files server allow m
  unfolding serve_remote_download serve_fetched
  serve_remote_download-IsServable server broken fetched allow h = absurd h
  serve_remote_download-IsServable server missing (err e) allow h = absurd (
      neither c.fetch_remote (fetch_failure c p files if_none_match boundary e)
        (proxied (bytes "remote_not_cached")) (fetch_failure-refused e) (λ z. z) h)
  serve_remote_download-IsServable server missing (ok m) allow h =
      let (on, h1) =
        first c.fetch_remote (serve_remote_row c p files if_none_match boundary server m allow)
          (proxied (bytes "remote_not_cached")) (λ z. z) h in
      (m, inr (refl, on, refl), serve_remote_row-IsServable server m allow h1)
  serve_remote_download-IsServable server (found m) fetched allow h =
      (m, inl refl, serve_remote_row-IsServable server m allow h)

-- The gates that a local row passes before it is returned at once.
pub record IsCleared (c : ServerConfig) (allow : Bool) (m : LocalMedia) : Type 0 where
  pub clear : quarantined m.quarantined_by ≡ false
  pub visible : hidden_from_legacy c m.authenticated allow ≡ false

refused_first :
    (b : Bool) (reply : Reply) (x : Result Reply LocalMedia) (m : LocalMedia)
    → (if b then err reply else x) ≡ ok m
    → (b ≡ false) × (x ≡ ok m)
refused_first true reply x m h = cc h
refused_first false reply x m h = (refl, h)

choice :
    (b : Bool) (x y : Result Reply LocalMedia) (m : LocalMedia)
    → (if b then x else y) ≡ ok m
    → ((b ≡ true) × (x ≡ ok m)) ⊎ ((b ≡ false) × (y ≡ ok m))
choice true x y m h = inl (refl, h)
choice false x y m h = inr (refl, h)

awaited-some : (r : Option LocalMedia) (m : LocalMedia) → awaited r ≡ ok m → r ≡ some m
unfolding awaited
awaited-some none m h = cc h
awaited-some (some x) m h = cc h

-- A local row that is resolved is either the row that was looked up, complete and past both gates, or
-- the row that waiting for the upload brought, where the pending row had passed both gates.
pub resolve_local_media-IsCleared :
    (c : ServerConfig) (row : Found LocalMedia) (ticks : List Tick) (allow : Bool) (m : LocalMedia)
    → resolve_local_media c row ticks allow ≡ ok m
    → (first : LocalMedia) × (row ≡ found first)
      × IsCleared c allow first
      × (((first ≡ m) × (is_null m.length ≡ false))
          ⊎ ((is_null first.length ≡ true) × (await_upload ticks ≡ some m)))
unfolding resolve_local_media
resolve_local_media-IsCleared c broken ticks allow m h = cc h
resolve_local_media-IsCleared c missing ticks allow m h = cc h
resolve_local_media-IsCleared c (found x) ticks allow m h =
    let (q, h1) = refused_first (quarantined x.quarantined_by) not_found _ m h in
    let (v, h2) = refused_first (hidden_from_legacy c x.authenticated allow) not_found _ m h1 in
    (
      x,
      refl,
      record { clear = q; visible = v },
      elim (choice (is_null x.length) (awaited (await_upload ticks)) (ok x) m h2) [
        | inl (pending, a) ↦ inr (pending, awaited-some (await_upload ticks) m a)
        | inr (complete, a) ↦
            let same : x ≡ m = cc a in
            inl (same, subst (λ y. is_null y.length ≡ false) same complete)
      ],
    )
