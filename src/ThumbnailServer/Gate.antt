-- ===== src/ThumbnailServer/Gate.antt =====
-- Of which remote media a thumbnail is handed out.
use synapse_media_worker.Base.{
  ◌≡◌, refl, Bool, true, false, Bytes, Result, ok, err, inl, inr, ◌⊎◌, Bool-cases, if◌then◌else◌,
  bytes,
}
use synapse_media_worker.Database.{RemoteMedia, quarantined}
use synapse_media_worker.Store.{StoreError}
use synapse_media_worker.Download.{
  Found, broken, missing, found, Reply, proxied, hidden_from_legacy,
}
use synapse_media_worker.Download.Gate.{IsHandedOut, fetch_failure-refused}
use synapse_media_worker.Thumbnail.{ThumbnailRequest}
use synapse_media_worker.WriteThrough.{Shelf}
use synapse_media_worker.ThumbnailServer.{ThumbnailServer, Call}
use synapse_media_worker.ThumbnailServer.Remote.{
  serve_remote_media, serve_fetched_thumbnail, serve_remote_thumbnail,
}

-- The media that a thumbnail is made from: its row is the one that was looked up, or, where there
-- was none and fetching is on, the one that was fetched; it is not quarantined, and the endpoint may show it.
pub record IsShowable (s : ThumbnailServer) (row : Found RemoteMedia)
    (fetched : Result StoreError RemoteMedia) (allow : Bool) : Type 0 where
  pub media : RemoteMedia
  pub known :
      (row ≡ found media)
      ⊎ ((row ≡ missing) × (s.config.fetch_remote ≡ true) × (fetched ≡ ok media))
  pub clear : quarantined media.quarantined_by ≡ false
  pub visible : hidden_from_legacy s.config media.authenticated allow ≡ false

-- No thumbnail is handed out, and nothing is generated or stored: the files and the table are as they
-- were.
abbrev pub IsUntouched : Shelf → Reply × Shelf → Type 0
IsUntouched shelf r = (¬ IsHandedOut r.0) × (r.1 ≡ shelf)

module _ (s : ThumbnailServer) (call : Call) (server id : Bytes) (req : ThumbnailRequest)
    (rows_ok allow : Bool) (shelf : Shelf) where
  abbrev IsVisible : RemoteMedia → Type 0
  IsVisible m =
      (quarantined m.quarantined_by ≡ false)
      × (hidden_from_legacy s.config m.authenticated allow ≡ false)

  serve_remote_media-gated :
      (m : RemoteMedia)
      → IsVisible m
        ⊎ IsUntouched shelf (serve_remote_media s call server id req rows_ok allow shelf m)
  unfolding serve_remote_media
  serve_remote_media-gated m = elim (Bool-cases (quarantined m.quarantined_by)) [
    | inl taken ↦ inr (rw taken ((λ z. z), refl))
    | inr clear ↦ elim (Bool-cases (hidden_from_legacy s.config m.authenticated allow)) [
      | inl hidden ↦ inr (rw (clear, hidden) ((λ z. z), refl))
      | inr visible ↦ inl (clear, visible)
    ]
  ]

  fetched_when :
      (on : Bool)
      → s.config.fetch_remote ≡ on
      → (r : Result StoreError RemoteMedia)
      → IsShowable s missing r allow
        ⊎ IsUntouched shelf (
            if on
            then serve_fetched_thumbnail s call server id req rows_ok allow shelf r
            else (proxied (bytes "remote_not_cached"), shelf))
  unfolding serve_fetched_thumbnail
  fetched_when false e r = inr ((λ z. z), refl)
  fetched_when true e (err x) =
      inr (
        fetch_failure-refused s.config s.paths shelf.files call.if_none_match call.boundary x,
        refl,
      )
  fetched_when true e (ok m) = elim (serve_remote_media-gated m) [
    | inl (q, v) ↦ inl (record { media = m; known = inr (refl, e, refl); clear = q; visible = v })
    | inr same ↦ inr same
  ]

  -- Whatever the lookups bring, one of two holds. Either the media's row, the one looked up or, where
  -- there is none and fetching is on, the one fetched, is not quarantined and not hidden from the
  -- endpoint; or no thumbnail is handed out, none is generated or stored, and the files and the table
  -- are as they were.
  pub serve_remote_thumbnail-IsShowable :
      (row : Found RemoteMedia) (fetched : Result StoreError RemoteMedia)
      → IsShowable s row fetched allow
        ⊎ IsUntouched shelf
            (serve_remote_thumbnail s call server id req row fetched rows_ok allow shelf)
  unfolding serve_remote_thumbnail serve_fetched_thumbnail
  serve_remote_thumbnail-IsShowable broken fetched = inr ((λ z. z), refl)
  serve_remote_thumbnail-IsShowable (found m) fetched = elim (serve_remote_media-gated m) [
    | inl (q, v) ↦ inl (record { media = m; known = inl refl; clear = q; visible = v })
    | inr same ↦ inr same
  ]
  serve_remote_thumbnail-IsShowable missing fetched =
      fetched_when s.config.fetch_remote refl fetched
