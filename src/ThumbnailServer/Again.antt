-- ===== src/ThumbnailServer/Again.antt =====
-- The same request again, once its thumbnail is in the worker's cache.
use synapse_media_worker.Base.{
  ◌≡◌, ◌≢◌, refl, sym, ap, ◌∙◌, Bool, true, false, Option, none, some, Bytes, Result, ok, err,
  bytes, not, if◌then◌else◌,
}
use synapse_media_worker.Store.{Files, find_file, write_file, rename_file, is_some}
use synapse_media_worker.Store.Files.{find-write_file, find-remove_file_other, find-rename_file}
use synapse_media_worker.Download.{Reply, proxied}
use synapse_media_worker.Download.Gate.{IsHandedOut}
use synapse_media_worker.Thumbnail.{ThumbnailRequest, GenerateError, can_generate}
use synapse_media_worker.ThumbCache.{
  CacheOutcomes, cache_key, path_for, open_entry, put_entry, put_temp,
}
use synapse_media_worker.WriteThrough.{Shelf, shelf_files}
use synapse_media_worker.ThumbnailServer.{
  ThumbnailServer, Call, respond_thumbnail, write_through_remote, put_in_cache,
  store_generated_thumbnail, generate_from, respond_generated, in_flight, unless_cached,
  serve_generated_thumbnail,
}

-- Every call of Put succeeds, and its temporary file is not the entry's own.
pub record CacheWorks (o : CacheOutcomes) (path tmp : Bytes) : Type 0 where
  pub made : o.mkdir ≡ true
  pub temporary : o.temp ≡ some tmp
  pub written : o.write ≡ true
  pub closed : o.close ≡ true
  pub moved : o.rename ≡ true
  pub apart : tmp ≢ path

put_entry-opens :
    (dir key content tmp : Bytes) (o : CacheOutcomes) (files : Files)
    → CacheWorks o (path_for dir key) tmp
    → open_entry dir key (put_entry dir key content o files).1 ≡ some content
unfolding open_entry put_entry put_temp
put_entry-opens dir key content tmp o files w =
    let full = write_file tmp content files in
    rw (w.made, w.temporary, w.written, w.closed, w.moved)
      (find-remove_file_other tmp (path_for dir key) (rename_file tmp (path_for dir key) full)
          w.apart
        ∙ find-rename_file tmp (path_for dir key) content full (find-write_file tmp content files))

module _ (s : ThumbnailServer) (call : Call) (federation : Bool)
    (origin id fs_id source_path source_type : Bytes) (req : ThumbnailRequest) (tmp : Bytes)
    (cached_only : write_through_remote s call origin fs_id ≡ false)
    (works : CacheWorks call.cache
      (path_for s.cache_dir (cache_key s.hash origin id req))
      tmp) where
  abbrev key : Bytes
  key = cache_key s.hash origin id req

  -- An answer that hands a thumbnail out leaves it in the cache.
  abbrev Keeps : Reply × Shelf → Type 0
  Keeps r =
      IsHandedOut r.0
      → (content : Bytes) × (r.0 ≡ respond_thumbnail call federation req.type content)
        × (open_entry s.cache_dir key r.1.files ≡ some content)

  respond_generated-Keeps :
      (there : Bool) (shelf : Shelf) (r : Result GenerateError Bytes)
      → Keeps (
          respond_generated s call federation origin id fs_id source_path source_type req key there
            shelf r)
  unfolding respond_generated store_generated_thumbnail put_in_cache shelf_files
  respond_generated-Keeps there shelf (err e) h = absurd h
  respond_generated-Keeps there shelf (ok content) h = (
    content,
    refl,
    rw cached_only (put_entry-opens s.cache_dir key content tmp call.cache shelf.files works),
  )

  in_flight-Keeps :
      (shelf : Shelf) (o : Option Bytes)
      → open_entry s.cache_dir key shelf.files ≡ o
      → Keeps (in_flight s call federation origin id fs_id source_path source_type req key shelf o)
  unfolding in_flight
  in_flight-Keeps shelf (some content) e h = (content, refl, e)
  in_flight-Keeps shelf none e h =
      let source = find_file source_path shelf.files in
      respond_generated-Keeps (is_some source) shelf (generate_from s call source source_type req) h

  either :
      (b : Bool) (x y : Reply × Shelf) → ¬ IsHandedOut x.0 → Keeps y → Keeps (if b then x else y)
  either true x y h k c = absurd (h c)
  either false x y h k c = k c

  unless_cached-Keeps :
      (shelf : Shelf) (o : Option Bytes)
      → open_entry s.cache_dir key shelf.files ≡ o
      → Keeps
          (unless_cached s call federation origin id fs_id source_path source_type req key shelf o)
  unfolding unless_cached shelf_files
  unless_cached-Keeps shelf (some content) e h = (content, refl, e)
  unless_cached-Keeps shelf none e h =
      let later = shelf_files shelf (call.waited shelf.files) in
      either (not (can_generate source_type req))
        (proxied (if req.animated then bytes "animated" else bytes "unsupported_format"), shelf)
        (in_flight s call federation origin id fs_id source_path source_type req key later
          (open_entry s.cache_dir key later.files))
        (λ z. z) (in_flight-Keeps later (open_entry s.cache_dir key later.files) refl) h

  abbrev serve : Shelf → Reply × Shelf
  serve shelf =
      serve_generated_thumbnail s call federation origin id fs_id source_path source_type req shelf

  cached-serve :
      (shelf : Shelf) (content : Bytes)
      → open_entry s.cache_dir key shelf.files ≡ some content
      → serve shelf ≡ (respond_thumbnail call federation req.type content, shelf)
  unfolding serve_generated_thumbnail unless_cached
  cached-serve shelf content e = rw e refl

  -- Where a thumbnail goes to the worker's cache and every step of storing it succeeds, an answer
  -- that hands one out is repeated: the same request gets the same answer again, with nothing
  -- generated and no file changed, whether the first one was cached, found in the cache after
  -- waiting for another request, or generated.
  pub serve_generated_thumbnail-again :
      (shelf : Shelf)
      → IsHandedOut
          (serve_generated_thumbnail s call federation origin id fs_id source_path source_type req
            shelf).0
      → serve_generated_thumbnail s call federation origin id fs_id source_path source_type req
          (serve_generated_thumbnail s call federation origin id fs_id source_path source_type req
            shelf).1
        ≡ serve_generated_thumbnail s call federation origin id fs_id source_path source_type req
            shelf
  unfolding serve_generated_thumbnail
  serve_generated_thumbnail-again shelf h =
      let (content, same, there) =
        unless_cached-Keeps shelf (open_entry s.cache_dir key shelf.files) refl h in
      cached-serve (serve shelf).1 content there ∙ ap (λ r. (r, (serve shelf).1)) (sym same)
