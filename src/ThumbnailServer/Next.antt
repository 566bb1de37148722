-- ===== src/ThumbnailServer/Next.antt =====
-- The request that comes after a write-through.
use synapse_media_worker.Base.{
  ◌≡◌, refl, subst, Bool, true, false, Bytes, str_eq, List, [], ok, some, none, Bool-cases, inl,
  inr, Result, length,
}
use synapse_media_worker.Paths.{remote_thumbnail}
use synapse_media_worker.Database.{RemoteMedia, quarantined}
use synapse_media_worker.Store.{Files, find_file, StoreError}
use synapse_media_worker.Download.{found, hidden_from_legacy, open_at}
use synapse_media_worker.Thumbnail.{ThumbnailRequest, ThumbnailRow, find_exact}
use synapse_media_worker.Thumbnail.Choice.{
  Agrees, FirstAgreeing, here, later, Finds, find_exact_lem,
}
use synapse_media_worker.WriteThrough.{
  Shelf, WriteOutcomes, get_remote_thumbnails, write_through_remote_thumbnail,
}
use synapse_media_worker.WriteThrough.Rows.{Replaces}
use synapse_media_worker.WriteThrough.Recorded.{
  Described, Wrote, write_through_remote_thumbnail-Wrote,
}
use synapse_media_worker.ThumbnailServer.{ThumbnailServer, Call, with_type, respond_thumbnail}
use synapse_media_worker.ThumbnailServer.Remote.{
  first_opened, thumbnail_fs_id, open_remote, remote_stored_or, serve_remote_media,
  serve_remote_thumbnail,
}

FirstAgreeing-Agrees :
    (req : ThumbnailRequest) (rows : List ThumbnailRow) (row : ThumbnailRow)
    → FirstAgreeing req rows row
    → Agrees row req
FirstAgreeing-Agrees req _ _ (here row rows a) = a
FirstAgreeing-Agrees req _ _ (later row rows f n k) = FirstAgreeing-Agrees req rows f k

found-Agrees :
    (req : ThumbnailRequest) (rows : List ThumbnailRow) (row : ThumbnailRow)
    → find_exact rows req ≡ some row
    → Agrees row req
found-Agrees req rows row h =
    FirstAgreeing-Agrees req rows row (subst (Finds rows req) h (find_exact_lem rows req))

module _ (s : ThumbnailServer) (call : Call) (server id : Bytes) (req : ThumbnailRequest)
    (m : RemoteMedia) where
  same_fs_id :
      (row : ThumbnailRow)
      → row.filesystem_id ≡ m.filesystem_id
      → thumbnail_fs_id s call row m ≡ m.filesystem_id
  unfolding thumbnail_fs_id
  same_fs_id row h = elim (Bool-cases (str_eq row.filesystem_id [])) [
    | inl e ↦ rw e refl
    | inr n ↦ rw n h
  ]

  open_remote-found :
      (files : Files) (row : ThumbnailRow) (path content : Bytes)
      → Agrees row req
      → row.filesystem_id ≡ m.filesystem_id
      → remote_thumbnail s.paths server m.filesystem_id req.width req.height req.type req.method
        ≡ ok path
      → find_file path files ≡ some content
      → open_remote s call server id req m files (some row) ≡ some (req.type, content)
  unfolding open_remote first_opened open_at with_type
  open_remote-found files row path content a f located stored =
      rw
        (
          open_remote,
          same_fs_id row f,
          a.same_width,
          a.same_height,
          a.same_method,
          a.same_type,
          located,
          stored,
        )
        refl

  served_from :
      (files : Shelf) (row : ThumbnailRow) (path content : Bytes)
      (fetched : Result StoreError RemoteMedia) (allow : Bool)
      → quarantined m.quarantined_by ≡ false
      → hidden_from_legacy s.config m.authenticated allow ≡ false
      → find_exact (get_remote_thumbnails files.rows server id) req ≡ some row
      → row.filesystem_id ≡ m.filesystem_id
      → remote_thumbnail s.paths server m.filesystem_id req.width req.height req.type req.method
        ≡ ok path
      → find_file path files.files ≡ some content
      → serve_remote_thumbnail s call server id req (found m) fetched true allow files
        ≡ (respond_thumbnail call false req.type content, files)
  unfolding serve_remote_thumbnail serve_remote_media remote_stored_or
  served_from files row path content fetched allow clear visible is f located stored =
      let a = found-Agrees req (get_remote_thumbnails files.rows server id) row is in
      rw (clear, visible, is, open_remote-found files.files row path content a f located stored)
        refl

  -- What the next request for the thumbnail is answered with: what is in its file.
  pub record IsServedNext (after : Shelf) (fetched : Result StoreError RemoteMedia) (allow : Bool)
      : Type 0 where
    pub path : Bytes
    pub content : Bytes
    pub located :
        remote_thumbnail s.paths server m.filesystem_id req.width req.height req.type req.method
        ≡ ok path
    pub stored : find_file path after.files ≡ some content
    pub answer :
        serve_remote_thumbnail s call server id req (found m) fetched true allow after
        ≡ (respond_thumbnail call false req.type content, after)

  -- After a thumbnail that had no row before is written through, under the filesystem ID of its media,
  -- the next request for it is answered from the media store with what is in the thumbnail's file,
  -- and changes nothing; unless the media is quarantined or hidden from the endpoint, or the query of
  -- the thumbnails fails.
  pub write_through-IsServedNext :
      (o : WriteOutcomes) (between : Files → Files) (made : Bytes) (before after : Shelf)
      (fetched : Result StoreError RemoteMedia) (allow : Bool)
      → write_through_remote_thumbnail s.paths o between server id m.filesystem_id req made before
        ≡ (after, ok tt)
      → find_exact (get_remote_thumbnails before.rows server id) req ≡ none
      → quarantined m.quarantined_by ≡ false
      → hidden_from_legacy s.config m.authenticated allow ≡ false
      → IsServedNext after fetched allow
  write_through-IsServedNext o between made before after fetched allow h fresh clear visible =
      let d : Described s.paths server id m.filesystem_id req before after =
        subst (Wrote s.paths o between server id m.filesystem_id req made before) h (
          write_through_remote_thumbnail-Wrote s.paths o between server id m.filesystem_id req made
            before) in
      let new =
        subst (λ old. Replaces old m.filesystem_id (length d.there) d.row) fresh d.replaces in
      record {
        path = d.path;
        content = d.there;
        located = d.located;
        stored = d.stored;
        answer =
            served_from after d.row d.path d.there fetched allow clear visible d.found new.1
              d.located d.stored;
      }
