-- ===== src/Paths/Guard.antt =====
-- What `WritablePath` lets through, and where temporary files go.
use synapse_media_worker.Base.{
  ◌≡◌, ◌≢◌, ◌↔◌, refl, sym, ap, map, str_eq_sound, ◌⊎◌, subst, ◌∙◌, Bool, true, false, inl, inr,
  List, [], ◌∷◌, ◌++◌, Bytes, bytes, str_eq, ok, err, All, Free, arith, Bool-cases, cut,
  cut_of_Free, cut-none, contains, All-append, All-right, ensure, Result, str_eq_refl,
}
use synapse_media_worker.Filepath.{join_slash, rooted, join, elements, relative, rel}
use synapse_media_worker.Filepath.Laws.{
  IsElement, clean-rooted, clean-IsElement, clean-absolute, rel-rooted, join-elements,
}
use synapse_media_worker.Paths.{
  PathError, refused, MediaPaths, inside, writable_prefixes, cut_top, writable_path,
  create_temp_dir, temp_dir_name, temp_dirs, local_media, shard, Shard,
}
use synapse_media_worker.Paths.Component.{NoDots}
use synapse_media_worker.Paths.Location.{
  IsBased, base_elements, inside-elements, inside-rooted, local_media-rooted, local_parts,
  local_parts-IsElement,
}

pub cut_top-join_slash :
    (top : Bytes) (rest : List Bytes)
    → Free b'/' top
    → cut_top (join_slash (top ∷ rest)) ≡ (top, join_slash rest)
unfolding cut_top join_slash
cut_top-join_slash top [] h = rw (cut-none b'/' top h, cut_top)
cut_top-join_slash top (x ∷ rest) h = rw (cut_of_Free b'/' top (join_slash (x ∷ rest)) h, cut_top)

-- The first directory below the base, and the rest, of a path that lies below the base.
top_of_rooted :
    (p : MediaPaths) (h : IsBased p) (top : Bytes) (rest : List Bytes)
    → All IsElement (top ∷ rest)
    → cut_top (rel p.base (rooted (base_elements h ++ (top ∷ rest)))) ≡ (top, join_slash rest)
unfolding relative
top_of_rooted p h top rest k = rw (
  h.is_base,
  rel-rooted (base_elements h) (top ∷ rest) h.plain
      (All-append IsElement (base_elements h) (top ∷ rest) h.plain k),
  cut_top-join_slash top rest k.0.1,
)

dot_refused : (p : MediaPaths) → contains (writable_prefixes p) (bytes ".") ≡ false
unfolding writable_prefixes contains str_eq
dot_refused p = ground arith

top_of_base :
    (p : MediaPaths) (h : IsBased p)
    → (cut_top (rel p.base (rooted (base_elements h ++ [])))).0 ≡ bytes "."
unfolding relative cut_top cut
top_of_base p h = rw (
  h.is_base,
  rel-rooted (base_elements h) [] h.plain (All-append IsElement (base_elements h) [] h.plain tt),
)

-- A path below the base is writable exactly when its first directory is in the list.
writable_path-rooted :
    (p : MediaPaths) (h : IsBased p) (top : Bytes) (rest : List Bytes)
    → All IsElement (top ∷ rest)
    → writable_path p (rooted (base_elements h ++ (top ∷ rest)))
      ≡ ensure (contains (writable_prefixes p) top) refused
unfolding writable_path
writable_path-rooted p h top rest k = rw (
  clean-rooted _ (All-append IsElement (base_elements h) (top ∷ rest) h.plain k),
  inside-rooted p h top rest,
  top_of_rooted p h top rest k,
)

writable_path-absolute :
    (p : MediaPaths) (q : Bytes)
    → writable_path p (b'/' ∷ q) ≡ writable_path p (rooted (elements (b'/' ∷ q)))
unfolding writable_path
writable_path-absolute p q =
    rw (clean-absolute q, clean-rooted (elements (b'/' ∷ q)) (clean-IsElement q))

writable_path-inside :
    (p : MediaPaths) (xs : List Bytes)
    → All IsElement xs
    → writable_path p (rooted xs) ≡ ok tt
    → inside p (rooted xs) ≡ true
unfolding writable_path
writable_path-inside p xs k e =
    let f = rw (clean-rooted xs k) at e in
    elim (Bool-cases (inside p (rooted xs))) [ inl i ↦ i | inr o ↦ ground arith ]

not_writable_base :
    (p : MediaPaths) (h : IsBased p) → writable_path p (rooted (base_elements h ++ [])) ≢ ok tt
unfolding writable_path
not_writable_base p h e =
    let f =
      rw
        (
          clean-rooted _ (All-append IsElement (base_elements h) [] h.plain tt),
          top_of_base p h,
          dot_refused p,
        )
        at e in
    ground arith

ensure-ok : (b : Bool) → ◌≡◌ {A = Result PathError (Unit {0})} (ensure b refused) (ok tt) → b ≡ true
ensure-ok b e = ground arith

writable-elements :
    (p : MediaPaths) (h : IsBased p) (xs rest : List Bytes)
    → All IsElement xs
    → xs ≡ base_elements h ++ rest
    → writable_path p (rooted xs) ≡ ok tt
    → (top : Bytes) × (below : List Bytes) × (xs ≡ base_elements h ++ (top ∷ below))
      × (contains (writable_prefixes p) top ≡ true)
writable-elements p h xs [] k e w =
    absurd (not_writable_base p h (subst (λ z. writable_path p (rooted z) ≡ ok tt) e w))
writable-elements p h xs (top ∷ rest) k e w =
    let plain = All-right IsElement (base_elements h) (top ∷ rest) (subst (All IsElement) e k) in
    (
      top,
      rest,
      e,
      ensure-ok _ (
          sym (writable_path-rooted p h top rest plain)
          ∙ subst (λ z. writable_path p (rooted z) ≡ ok tt) e w),
    )

-- The guard lets an absolute path through exactly when it lies in a directory below the base whose
-- first element is in the list of writable directories.
pub writable_path_iff :
    (p : MediaPaths) (h : IsBased p) (q : Bytes)
    → (writable_path p (b'/' ∷ q) ≡ ok tt) ↔ (
        (top : Bytes) × (rest : List Bytes) × (elements (b'/' ∷ q)
          ≡ base_elements h ++ (top ∷ rest))
        × (contains (writable_prefixes p) top ≡ true))
writable_path_iff p h q = (to, from)
  where
    k : All IsElement (elements (b'/' ∷ q))
    k = clean-IsElement q

    to :
        writable_path p (b'/' ∷ q) ≡ ok tt
        → (top : Bytes) × (rest : List Bytes) × (elements (b'/' ∷ q)
            ≡ base_elements h ++ (top ∷ rest))
          × (contains (writable_prefixes p) top ≡ true)
    to e =
        let w = sym (writable_path-absolute p q) ∙ e in
        let (rest, parts) = inside-elements p h _ k (writable_path-inside p _ k w) in
        writable-elements p h _ rest k parts w

    from :
        (top : Bytes) × (rest : List Bytes) × (elements (b'/' ∷ q)
            ≡ base_elements h ++ (top ∷ rest))
          × (contains (writable_prefixes p) top ≡ true)
        → writable_path p (b'/' ∷ q) ≡ ok tt
    from (top, rest, e, c) =
        let plain =
          All-right IsElement (base_elements h) (top ∷ rest) (subst (All IsElement) e k) in
        writable_path-absolute p q
        ∙ ap (λ z. writable_path p (rooted z)) e
        ∙ writable_path-rooted p h top rest plain
        ∙ rw c

-- The directories of URL previews are never writable, whatever the configuration.
pub url_cache_refused :
    (p : MediaPaths) (h : IsBased p) (top : Bytes) (rest : List Bytes)
    → (top ≡ bytes "url_cache") ⊎ (top ≡ bytes "url_cache_thumbnails")
    → All IsElement rest
    → writable_path p (rooted (base_elements h ++ (top ∷ rest))) ≡ err refused
unfolding writable_prefixes contains str_eq
url_cache_refused p h top rest (inl e) k =
    writable_path-rooted p h top rest (rw e (((λ z. cc z, λ z. cc z, λ z. cc z), ground arith), k))
    ∙ rw e (ground arith)
url_cache_refused p h top rest (inr e) k =
    writable_path-rooted p h top rest (rw e (((λ z. cc z, λ z. cc z, λ z. cc z), ground arith), k))
    ∙ rw e (ground arith)

-- The path of local media is writable exactly when uploads are allowed, for an ID that shards into
-- names other than . and .., below an absolute base.
pub writable_path-local_media :
    (p : MediaPaths) (h : IsBased p) (id path : Bytes) (s : Shard)
    → shard id ≡ ok s
    → NoDots s
    → local_media p id ≡ ok path
    → writable_path p path ≡ ensure p.uploads_allowed refused
unfolding writable_prefixes contains str_eq
writable_path-local_media p h id path s e n m =
    let same : path ≡ rooted (base_elements h ++ local_parts s) =
      cc (local_media-rooted p h id s e n) in
    rw same (
      writable_path-rooted p h (bytes "local_content") (s.first ∷ s.second ∷ s.rest ∷ [])
        (local_parts-IsElement id s e n)
      ∙ ground arith)

contains-map :
    (f : Bytes → Bytes) (xs : List Bytes) (x : Bytes)
    → contains xs x ≡ true
    → contains (map f xs) (f x) ≡ true
unfolding contains
contains-map f [] x h = cc
contains-map f (y ∷ xs) x h = elim (Bool-cases (str_eq y x)) [
  | inl same ↦ rw (ap f (str_eq_sound y x same), str_eq_refl (f x)) refl
  | inr other ↦ rw (contains-map f xs x (ground arith)) (ground arith)
]

tmp_IsElement : IsElement temp_dir_name
tmp_IsElement = ((λ z. cc z, λ z. cc z, λ z. cc z), ground arith)

join_slash-ne-nil :
    (x : Bytes) (xs : List Bytes) → IsElement x → str_eq (join_slash (x ∷ xs)) [] ≡ false
unfolding join_slash str_eq
join_slash-ne-nil [] xs h = absurd (h.0.0 refl)
join_slash-ne-nil (c ∷ x) [] h = refl
join_slash-ne-nil (c ∷ x) (y ∷ xs) h = refl

temp_dir-rooted :
    (p : MediaPaths) (h : IsBased p) (top : Bytes)
    → IsElement top
    → join (p.base ∷ top ∷ temp_dir_name ∷ [])
      ≡ rooted (base_elements h ++ (top ∷ temp_dir_name ∷ []))
temp_dir-rooted p h top k =
    rw h.is_base
      (join-elements (base_elements h) top (temp_dir_name ∷ []) h.plain (k, (tmp_IsElement, tt)))

-- The temporary file of a writable path is made in .tmp below that path's own top directory, one of
-- the directories that `TempDirs` lists.
pub create_temp_dir-rooted :
    (p : MediaPaths) (h : IsBased p) (top x : Bytes) (rest : List Bytes)
    → All IsElement (top ∷ x ∷ rest)
    → contains (writable_prefixes p) top ≡ true
    → (create_temp_dir p (rooted (base_elements h ++ (top ∷ x ∷ rest)))
        ≡ ok (rooted (base_elements h ++ (top ∷ temp_dir_name ∷ []))))
      × (contains (temp_dirs p) (rooted (base_elements h ++ (top ∷ temp_dir_name ∷ []))) ≡ true)
unfolding create_temp_dir temp_dirs
create_temp_dir-rooted p h top x rest k c = (
  rw (
    writable_path-rooted p h top (x ∷ rest) k,
    c,
    clean-rooted _ (All-append IsElement (base_elements h) (top ∷ x ∷ rest) h.plain k),
    top_of_rooted p h top (x ∷ rest) k,
    join_slash-ne-nil x rest k.1.0,
    temp_dir-rooted p h top k.0,
  ),
  rw (← temp_dir-rooted p h top k.0)
      (contains-map (λ t. join (p.base ∷ t ∷ temp_dir_name ∷ [])) (writable_prefixes p) top c),
)
