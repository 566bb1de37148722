-- ===== src/Paths/Contained.antt =====
-- No path that `MediaPaths` builds leaves the media store, whatever the IDs and names are.
use synapse_media_worker.Base.{
  ℕ, ◌≡◌, sym, ap, subst, ◌∙◌, true, inl, inr, ◌⊎◌, List, [], ◌∷◌, ◌++◌, Bytes, ok, All, reverse,
  Bool-cases, All-reverse_aux, All-right, bind-ok,
}
use synapse_media_worker.Filepath.{join_slash, rooted, clean, join, resolve_all, split_slash}
use synapse_media_worker.Filepath.Laws.{
  IsElement, clean-rooted, join-rooted, resolve_all-IsElement, split_slash-Free,
}
use synapse_media_worker.Paths.{
  MediaPaths, inside, join_in, shard, local_media, remote_media, local_thumbnail, remote_thumbnail,
  validate_path_component, remote_thumbnail_dir, thumbnail_file_name,
}
use synapse_media_worker.Paths.Location.{IsBased, base_elements, inside-elements}

-- The base directory or a path below it, element by element.
abbrev pub Contained : (p : MediaPaths) → IsBased p → Bytes → Type 0
Contained p h x = (rest : List Bytes) × (x ≡ rooted (base_elements h ++ rest)) × All IsElement rest

reverse-IsElement : (xs : List Bytes) → All IsElement xs → All IsElement (reverse xs)
reverse-IsElement xs k = All-reverse_aux IsElement xs [] k tt

inside-Contained :
    (p : MediaPaths) (h : IsBased p) (xs : List Bytes)
    → All IsElement xs
    → inside p (rooted xs) ≡ true
    → Contained p h (rooted xs)
inside-Contained p h xs k e =
    let (rest, parts) = inside-elements p h xs k e in
    (
      rest,
      ap rooted parts,
      All-right IsElement (base_elements h) rest (subst (All IsElement) parts k),
    )

join_in-ok :
    (p : MediaPaths) (cs : List Bytes) (x : Bytes)
    → join_in p cs ≡ ok x
    → (clean (join (p.base ∷ cs)) ≡ x) × (inside p x ≡ true)
unfolding join_in
join_in-ok p cs x e = elim (Bool-cases (inside p (clean (join (p.base ∷ cs))))) [
  | inl i ↦
      let same : clean (join (p.base ∷ cs)) ≡ x = cc (rw i at e) in
      (same, subst (λ y. inside p y ≡ true) same i)
  | inr o ↦ cc (rw o at e)
]

join_in-Contained :
    (p : MediaPaths) (h : IsBased p) (c : Bytes) (cs : List Bytes) (x : Bytes)
    → join_in p (c ∷ cs) ≡ ok x
    → Contained p h x
join_in-Contained p h c cs x e =
    let parts = split_slash (join_slash (c ∷ cs)) in
    let stack = resolve_all true (reverse (base_elements h)) parts in
    let plain : All IsElement (reverse stack) = reverse-IsElement stack (
      resolve_all-IsElement (reverse (base_elements h)) parts
        (reverse-IsElement (base_elements h) h.plain) (split_slash-Free (join_slash (c ∷ cs)))) in
    let full : clean (join (p.base ∷ c ∷ cs)) ≡ rooted (reverse stack) =
      ap (λ b. clean (join (b ∷ c ∷ cs))) h.is_base
      ∙ ap clean (join-rooted (base_elements h) c cs h.plain)
      ∙ clean-rooted (reverse stack) plain in
    let (made, i) = join_in-ok p (c ∷ cs) x e in
    let same : rooted (reverse stack) ≡ x = sym full ∙ made in
    subst (Contained p h) same
      (inside-Contained p h (reverse stack) plain (subst (λ y. inside p y ≡ true) (sym same) i))

module _ (p : MediaPaths) (h : IsBased p) (id : Bytes) (x : Bytes) where
  local_media-Contained : local_media p id ≡ ok x → Contained p h x
  unfolding local_media
  local_media-Contained e = let (s, _, f) = bind-ok (shard id) _ e in join_in-Contained p h _ _ x f

  remote_media-Contained : (server : Bytes) → remote_media p server id ≡ ok x → Contained p h x
  unfolding remote_media
  remote_media-Contained server e =
      let (_, _, f) = bind-ok (validate_path_component server) _ e in
      let (s, _, g) = bind-ok (shard id) _ f in join_in-Contained p h _ _ x g

  module _ (width height : ℕ) (content_type method : Bytes) where
    local_thumbnail-Contained :
        local_thumbnail p id width height content_type method ≡ ok x → Contained p h x
    unfolding local_thumbnail
    local_thumbnail-Contained e =
        let (s, _, f) = bind-ok (shard id) _ e in
        let (name, _, g) = bind-ok (thumbnail_file_name width height content_type method) _ f in
        join_in-Contained p h _ _ x g

    remote_thumbnail-Contained :
        (server : Bytes)
        → remote_thumbnail p server id width height content_type method ≡ ok x
        → Contained p h x
    unfolding remote_thumbnail
    remote_thumbnail-Contained server e =
        let (dir, _, f) = bind-ok (remote_thumbnail_dir server id) _ e in
        let (name, _, g) = bind-ok (thumbnail_file_name width height content_type method) _ f in
        join_in-Contained p h _ _ x g

-- Each path that is built for local or remote media or for a thumbnail of it is the base directory
-- or lies below it, for every server name, ID, size and media type, where the base is an absolute
-- directory.
pub built-Contained :
    (p : MediaPaths) (h : IsBased p) (server id : Bytes) (width height : ℕ)
    (content_type method x : Bytes)
    → (local_media p id ≡ ok x)
      ⊎ (remote_media p server id ≡ ok x)
      ⊎ (local_thumbnail p id width height content_type method ≡ ok x)
      ⊎ (remote_thumbnail p server id width height content_type method ≡ ok x)
    → Contained p h x
built-Contained p h server id width height content_type method x (inl e) =
    local_media-Contained p h id x e
built-Contained p h server id width height content_type method x (inr (inl e)) =
    remote_media-Contained p h id x server e
built-Contained p h server id width height content_type method x (inr (inr (inl e))) =
    local_thumbnail-Contained p h id x width height content_type method e
built-Contained p h server id width height content_type method x (inr (inr (inr e))) =
    remote_thumbnail-Contained p h id x width height content_type method server e
