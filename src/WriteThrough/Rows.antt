-- ===== src/WriteThrough/Rows.antt =====
-- The table after a thumbnail is stored.
use synapse_media_worker.Base.{
  ℕ, ◌≡◌, refl, sym, ◌∙◌, Bool, true, false, Option, none, some, List, [], ◌∷◌, Bytes, str_eq_refl,
  str_eq_iff, Bool-cases, inl, inr, arith,
}
use synapse_media_worker.Thumbnail.{ThumbnailRequest, ThumbnailRow, matches, find_exact}
use synapse_media_worker.Thumbnail.Choice.{Agrees}
use synapse_media_worker.WriteThrough.{
  Columns, RemoteThumbnail, scan_row, put_scanned, scan_thumbnails, is_of, select_thumbnails,
  get_remote_thumbnails, conflicts, new_row, with_length, store_remote_thumbnail,
}

matched : Option ThumbnailRow → ThumbnailRequest → Bool
matched none req = false
matched (some row) req = matches row req

-- A row is in conflict with a new one exactly where a request for the new one matches it.
conflicts-matched :
    (w h : Option ℕ) (ty m : Option Bytes) (l : Option ℕ) (f : Option Bytes) (t : ThumbnailRow)
    (req : ThumbnailRequest)
    → Agrees t req
    → conflicts
        (record { width = w; height = h; type = ty; method = m; length = l; filesystem_id = f })
        t
      ≡ matched
          (scan_row (record {
            width = w;
            height = h;
            type = ty;
            method = m;
            length = l;
            filesystem_id = f;
          }))
          req
unfolding conflicts scan_row matched matches
conflicts-matched none h ty m l f t req a = refl
conflicts-matched (some w) none ty m l f t req a = ground arith
conflicts-matched (some w) (some h) none m l f t req a = ground arith
conflicts-matched (some w) (some h) (some ty) none l f t req a = ground arith
conflicts-matched (some w) (some h) (some ty) (some m) l f t req a =
    rw (a.same_width, a.same_height, a.same_method, a.same_type) refl

find-matched :
    (o : Option ThumbnailRow) (rows : List ThumbnailRow) (req : ThumbnailRequest)
    → matched o req ≡ true
    → find_exact (put_scanned o rows) req ≡ o
unfolding matched find_exact
find-matched none rows req h = cc h
find-matched (some row) rows req h = rw h refl

find-unmatched :
    (o : Option ThumbnailRow) (rows : List ThumbnailRow) (req : ThumbnailRequest)
    → matched o req ≡ false
    → find_exact (put_scanned o rows) req ≡ find_exact rows req
unfolding matched find_exact
find-unmatched none rows req h = refl
find-unmatched (some row) rows req h = rw h refl

-- A row that replaces `before`: with the new length, and the filesystem ID that was there.
abbrev pub Replaces : Option ThumbnailRow → Bytes → ℕ → ThumbnailRow → Type 0
Replaces none fs_id n row = (row.length ≡ n) × (row.filesystem_id ≡ fs_id)
Replaces (some old) fs_id n row = (row.length ≡ n) × (row.filesystem_id ≡ old.filesystem_id)

matched-Replaces :
    (w h : Option ℕ) (ty m : Option Bytes) (l : Option ℕ) (f : Option Bytes)
    (req : ThumbnailRequest) (fs_id : Bytes) (n : ℕ)
    → matched
        (scan_row
          (record { width = w; height = h; type = ty; method = m; length = l; filesystem_id = f }))
        req
      ≡ true
    → (row : ThumbnailRow) × (scan_row (record {
      width = w;
      height = h;
      type = ty;
      method = m;
      length = some n;
      filesystem_id = f;
    })
        ≡ some row)
      × Replaces
          (scan_row (record {
            width = w;
            height = h;
            type = ty;
            method = m;
            length = l;
            filesystem_id = f;
          }))
          fs_id
          n
          row
unfolding scan_row matched
matched-Replaces none h ty m l f req fs_id n e = cc e
matched-Replaces (some w) none ty m l f req fs_id n e = cc e
matched-Replaces (some w) (some h) none m l f req fs_id n e = cc e
matched-Replaces (some w) (some h) (some ty) none l f req fs_id n e = cc e
matched-Replaces (some w) (some h) (some ty) (some m) l f req fs_id n e = (_, refl, (refl, refl))

module _ (origin id fs_id : Bytes) (t : ThumbnailRow) (req : ThumbnailRequest)
    (same : Agrees t req) where
  abbrev stored : List RemoteThumbnail → List RemoteThumbnail
  stored rs = store_remote_thumbnail rs origin id fs_id t

  -- What a lookup finds in the table afterwards.
  abbrev FindsNew : List RemoteThumbnail → Type 0
  FindsNew rs =
      (row : ThumbnailRow) × (find_exact (get_remote_thumbnails (stored rs) origin id) req
        ≡ some row)
      × Replaces (find_exact (get_remote_thumbnails rs origin id) req) fs_id t.length row

  new_scanned : ThumbnailRow
  new_scanned = record {
    width = t.width;
    height = t.height;
    type = t.type;
    method = t.method;
    length = t.length;
    filesystem_id = fs_id;
  }

  new_scanned-matches : matches new_scanned req ≡ true
  unfolding matches new_scanned
  new_scanned-matches = ground (
    arith,
    same.same_width,
    same.same_height,
    str_eq_iff t.method req.method,
    str_eq_iff t.type req.type,
    same.same_method,
    same.same_type,
  )

  stored-nil : FindsNew []
  unfolding store_remote_thumbnail get_remote_thumbnails select_thumbnails scan_thumbnails is_of
      new_row scan_row find_exact new_scanned
  stored-nil =
      (new_scanned, rw (str_eq_refl origin, str_eq_refl id, new_scanned-matches) refl, (refl, refl))

  is_of-with_length :
      (r : RemoteThumbnail) (n : ℕ) → is_of (with_length r n) origin id ≡ is_of r origin id
  unfolding is_of with_length
  is_of-with_length r n = refl

  conflicts-with_length :
      (r : RemoteThumbnail) (n : ℕ) → conflicts (with_length r n).columns t ≡ conflicts r.columns t
  unfolding conflicts with_length
  conflicts-with_length r n = refl

  scanned-matched : (c : Columns) → conflicts c t ≡ matched (scan_row c) req
  scanned-matched c =
      conflicts-matched c.width c.height c.type c.method c.length c.filesystem_id t req same

  with_length-Replaces :
      (r : RemoteThumbnail) (n : ℕ)
      → matched (scan_row r.columns) req ≡ true
      → (row : ThumbnailRow) × (scan_row (with_length r n).columns ≡ some row)
        × Replaces (scan_row r.columns) fs_id n row
  unfolding with_length
  with_length-Replaces r n h =
      let c = r.columns in
      matched-Replaces c.width c.height c.type c.method c.length c.filesystem_id req fs_id n h

  stored-clash :
      (r : RemoteThumbnail) (rs : List RemoteThumbnail)
      → is_of r origin id ≡ true
      → conflicts r.columns t ≡ true
      → FindsNew (r ∷ rs)
  unfolding store_remote_thumbnail get_remote_thumbnails select_thumbnails scan_thumbnails
  stored-clash r rs mine clash =
      let hit = sym (scanned-matched r.columns) ∙ clash in
      let (row, scanned, replaces) = with_length-Replaces r t.length hit in
      let also =
        sym (scanned-matched (with_length r t.length).columns)
        ∙ conflicts-with_length r t.length
        ∙ clash in
      let rest = scan_thumbnails (select_thumbnails rs origin id) in
      (
        row,
        rw (mine, clash, is_of-with_length r t.length, mine)
            (find-matched (scan_row (with_length r t.length).columns) rest req also ∙ scanned),
        rw (mine, find-matched (scan_row r.columns) rest req hit) replaces,
      )

  stored-clear :
      (r : RemoteThumbnail) (rs : List RemoteThumbnail)
      → is_of r origin id ≡ true
      → conflicts r.columns t ≡ false
      → FindsNew rs
      → FindsNew (r ∷ rs)
  unfolding store_remote_thumbnail get_remote_thumbnails select_thumbnails scan_thumbnails
  stored-clear r rs mine clear (row, found, replaces) =
      let miss = sym (scanned-matched r.columns) ∙ clear in
      let skip = λ (rest : List ThumbnailRow). find-unmatched (scan_row r.columns) rest req miss in
      (
        row,
        rw (mine, clear, mine)
            (skip (scan_thumbnails (select_thumbnails (stored rs) origin id)) ∙ found),
        rw (mine, skip (scan_thumbnails (select_thumbnails rs origin id))) replaces,
      )

  -- After a thumbnail is stored, a request that agrees with it finds a row with its length. The row
  -- keeps the filesystem ID of the one that was found before, if there was one, and has the new one
  -- otherwise.
  pub store_remote_thumbnail-Replaces :
      (rs : List RemoteThumbnail)
      → (row : ThumbnailRow) × (find_exact
            (get_remote_thumbnails (store_remote_thumbnail rs origin id fs_id t) origin id)
            req
          ≡ some row)
        × Replaces (find_exact (get_remote_thumbnails rs origin id) req) fs_id t.length row
  unfolding store_remote_thumbnail get_remote_thumbnails select_thumbnails scan_thumbnails
  store_remote_thumbnail-Replaces [] = stored-nil
  store_remote_thumbnail-Replaces (r ∷ rs) =
      let (row, found, replaces) = store_remote_thumbnail-Replaces rs in
      elim (Bool-cases (is_of r origin id)) [
        | inr other ↦ rw (other, other) (row, found, replaces)
        | inl mine ↦ elim (Bool-cases (conflicts r.columns t)) [
          | inl clash ↦ stored-clash r rs mine clash
          | inr clear ↦ stored-clear r rs mine clear (row, found, replaces)
        ]
      ]
