-- ===== src/Paths/Location.antt =====
-- Which path each kind of media has, and that different media have different paths.
use synapse_media_worker.Base.{
  ◌≡◌, sym, ap, subst, ◌∙◌, true, inl, inr, List, [], ◌∷◌, ◌++◌, Bytes, bytes, str_eq_iff,
  has_prefix-append_both, has_prefix_sound, ok, All, arith, Bool-cases, append_assoc, append-nil,
  append-left_cancel, All-append, has_prefix, str_eq,
}
use synapse_media_worker.Filepath.{join_slash, rooted, clean, join, elements, split_slash, is_abs}
use synapse_media_worker.Filepath.Laws.{
  IsElement, clean-rooted, join-elements, rooted-append, elements-rooted, split_slash-rooted,
  rooted_nil-ne, join-dotdot, clean-IsElement, clean-absolute, clean_idempotent, split_slash-append,
}
use synapse_media_worker.Paths.{
  MediaPaths, inside, join_in, Shard, shard, local_media, remote_media, validate_path_component,
  new_media_paths,
}
use synapse_media_worker.Paths.Component.{
  NoDots, shard-IsElement, shard-append, validate_path_component-IsElement,
}

-- The base directory is absolute and cleaned, and is not the root directory.
pub record IsBased (p : MediaPaths) : Type 0 where
  pub top : Bytes
  pub below : List Bytes
  pub plain : All IsElement (top ∷ below)
  pub is_base : p.base ≡ rooted (top ∷ below)

abbrev pub base_elements : {p : MediaPaths} → IsBased p → List Bytes
base_elements h = h.top ∷ h.below

-- `inside` holds below the base directory.
pub inside-rooted :
    (p : MediaPaths) (h : IsBased p) (c : Bytes) (cs : List Bytes)
    → inside p (rooted (base_elements h ++ (c ∷ cs))) ≡ true
unfolding inside has_prefix
inside-rooted p h c cs =
    let base = rooted (base_elements h) in
    let rest = join_slash (c ∷ cs) in
    rw (h.is_base, rooted-append h.top h.below c cs)
      (ground (arith, has_prefix-append_both base (b'/' ∷ rest) (bytes "/")))

-- Plain components are joined to the base as they are.
pub join_in-elements :
    (p : MediaPaths) (h : IsBased p) (c : Bytes) (cs : List Bytes)
    → All IsElement (c ∷ cs)
    → join_in p (c ∷ cs) ≡ ok (rooted (base_elements h ++ (c ∷ cs)))
unfolding join_in
join_in-elements p h c cs k =
    let joined : join (p.base ∷ c ∷ cs) ≡ rooted (base_elements h ++ (c ∷ cs)) =
      rw h.is_base (join-elements (base_elements h) c cs h.plain k) in
    rw (
      joined,
      clean-rooted _ (All-append IsElement (base_elements h) (c ∷ cs) h.plain k),
      inside-rooted p h c cs,
    )

-- Paths below the base with the same text have the same elements below it.
rooted-injective :
    (p : MediaPaths) (h : IsBased p) (xs ys : List Bytes)
    → All IsElement xs
    → All IsElement ys
    → rooted (base_elements h ++ xs) ≡ rooted (base_elements h ++ ys)
    → xs ≡ ys
rooted-injective p h xs ys k l e =
    let same : base_elements h ++ xs ≡ base_elements h ++ ys =
      sym (
        elements-rooted (base_elements h ++ xs)
          (All-append IsElement (base_elements h) xs h.plain k))
      ∙ ap elements e
      ∙ elements-rooted (base_elements h ++ ys)
          (All-append IsElement (base_elements h) ys h.plain l) in
    append-left_cancel (base_elements h) xs ys same

abbrev pub local_parts : Shard → List Bytes
local_parts s = bytes "local_content" ∷ s.first ∷ s.second ∷ s.rest ∷ []

pub local_parts-IsElement :
    (id : Bytes) (s : Shard) → shard id ≡ ok s → NoDots s → All IsElement (local_parts s)
local_parts-IsElement id s e n =
    let (f, g, r) = shard-IsElement id s e n in
    (((λ z. cc z, λ z. cc z, λ z. cc z), ground arith), (f, (g, (r, tt))))

-- An ID that shards into three names other than . and .. has the path
-- local_content/<aa>/<bb>/<rest> below an absolute base.
pub local_media-exact :
    (p : MediaPaths) (h : IsBased p) (id : Bytes) (s : Shard)
    → shard id ≡ ok s
    → NoDots s
    → local_media p id ≡ ok (p.base ++ (b'/' ∷ join_slash (local_parts s)))
unfolding local_media
local_media-exact p h id s e n = rw e (
    join_in-elements p h (bytes "local_content") (s.first ∷ s.second ∷ s.rest ∷ [])
      (local_parts-IsElement id s e n)
    ∙ rw (h.is_base, rooted-append h.top h.below))

abbrev pub remote_parts : Bytes → Shard → List Bytes
remote_parts server s = bytes "remote_content" ∷ server ∷ s.first ∷ s.second ∷ s.rest ∷ []

remote_parts-IsElement :
    (server id : Bytes) (s : Shard)
    → validate_path_component server ≡ ok tt
    → shard id ≡ ok s
    → NoDots s
    → All IsElement (remote_parts server s)
remote_parts-IsElement server id s v e n =
    let (f, g, r) = shard-IsElement id s e n in
    (
      ((λ z. cc z, λ z. cc z, λ z. cc z), ground arith),
      (validate_path_component-IsElement server v, (f, (g, (r, tt)))),
    )

pub local_media-rooted :
    (p : MediaPaths) (h : IsBased p) (id : Bytes) (s : Shard)
    → shard id ≡ ok s
    → NoDots s
    → local_media p id ≡ ok (rooted (base_elements h ++ local_parts s))
unfolding local_media
local_media-rooted p h id s e n = rw e (
    join_in-elements p h (bytes "local_content") (s.first ∷ s.second ∷ s.rest ∷ [])
      (local_parts-IsElement id s e n))

pub remote_media-rooted :
    (p : MediaPaths) (h : IsBased p) (server id : Bytes) (s : Shard)
    → validate_path_component server ≡ ok tt
    → shard id ≡ ok s
    → NoDots s
    → remote_media p server id ≡ ok (rooted (base_elements h ++ remote_parts server s))
unfolding remote_media
remote_media-rooted p h server id s v e n =
    rw (v, e)
      (join_in-elements p h (bytes "remote_content") (server ∷ s.first ∷ s.second ∷ s.rest ∷ [])
        (remote_parts-IsElement server id s v e n))

-- Two pieces of remote media with one path are the same: their servers and filesystem IDs agree,
-- for validated server names and IDs that shard into names other than . and .., below an absolute
-- base.
pub remote_media-injective :
    (p : MediaPaths) (h : IsBased p) (server1 server2 id1 id2 : Bytes) (s1 s2 : Shard)
    → validate_path_component server1 ≡ ok tt
    → validate_path_component server2 ≡ ok tt
    → shard id1 ≡ ok s1
    → shard id2 ≡ ok s2
    → NoDots s1
    → NoDots s2
    → remote_media p server1 id1 ≡ remote_media p server2 id2
    → (server1 ≡ server2) × (id1 ≡ id2)
remote_media-injective p h server1 server2 id1 id2 s1 s2 v1 v2 e1 e2 n1 n2 same =
    let paths : rooted (base_elements h ++ remote_parts server1 s1)
        ≡ rooted (base_elements h ++ remote_parts server2 s2) =
      cc (
        remote_media-rooted p h server1 id1 s1 v1 e1 n1,
        remote_media-rooted p h server2 id2 s2 v2 e2 n2,
      ) in
    let parts : remote_parts server1 s1 ≡ remote_parts server2 s2 =
      rooted-injective p h (remote_parts server1 s1) (remote_parts server2 s2)
        (remote_parts-IsElement server1 id1 s1 v1 e1 n1)
        (remote_parts-IsElement server2 id2 s2 v2 e2 n2) paths in
    (cc, cc (shard-append id1 s1 e1, shard-append id2 s2 e2))

-- Local media IDs that have one path are equal, where both shard into names other than . and ..
-- and the base is an absolute directory.
pub local_media-injective :
    (p : MediaPaths) (h : IsBased p) (id1 id2 : Bytes) (s1 s2 : Shard)
    → shard id1 ≡ ok s1
    → shard id2 ≡ ok s2
    → NoDots s1
    → NoDots s2
    → local_media p id1 ≡ local_media p id2
    → id1 ≡ id2
local_media-injective p h id1 id2 s1 s2 e1 e2 n1 n2 same =
    let paths : rooted (base_elements h ++ local_parts s1)
        ≡ rooted (base_elements h ++ local_parts s2) =
      cc (local_media-rooted p h id1 s1 e1 n1, local_media-rooted p h id2 s2 e2 n2) in
    let parts : local_parts s1 ≡ local_parts s2 =
      rooted-injective p h (local_parts s1) (local_parts s2) (local_parts-IsElement id1 s1 e1 n1)
        (local_parts-IsElement id2 s2 e2 n2) paths in
    cc (shard-append id1 s1 e1, shard-append id2 s2 e2)

-- The test by text means containment by elements: an absolute path that it accepts has the base's
-- elements first.
pub inside-elements :
    (p : MediaPaths) (h : IsBased p) (xs : List Bytes)
    → All IsElement xs
    → inside p (rooted xs) ≡ true
    → (rest : List Bytes) × (xs ≡ base_elements h ++ rest)
unfolding inside
inside-elements p h xs k e = elim (Bool-cases (str_eq (rooted xs) p.base)) [
  | inl same ↦
      let path : rooted xs ≡ rooted (base_elements h) = (str_eq_iff _ _).0 same ∙ h.is_base in
      (
        [],
        sym (elements-rooted xs k)
            ∙ ap elements path
            ∙ elements-rooted (base_elements h) h.plain
            ∙ sym (append-nil _),
      )
  | inr other ↦
      let prefix : has_prefix (rooted xs) (p.base ++ bytes "/") ≡ true = ground arith in
      let (rest, path) = has_prefix_sound (rooted xs) (p.base ++ bytes "/") prefix in
      (
        split_slash rest,
        below xs k rest
            (path ∙ ap (λ b. (b ++ bytes "/") ++ rest) h.is_base ∙ append_assoc _ _ rest),
      )
]
  where
    below :
        (ys : List Bytes)
        → All IsElement ys
        → (rest : Bytes) → rooted ys ≡ rooted (base_elements h) ++ (b'/' ∷ rest)
        → ys ≡ base_elements h ++ split_slash rest
    below [] l rest path = absurd (rooted_nil-ne (base_elements h) rest path)
    below (y ∷ ys) l rest path =
        let parts : [] ∷ y ∷ ys ≡ ([] ∷ base_elements h) ++ split_slash rest =
          sym (split_slash-rooted y ys l)
          ∙ ap split_slash path
          ∙ split_slash-append (rooted (base_elements h)) rest
          ∙ rw (split_slash-rooted h.top h.below h.plain) in
        cc

-- An ID whose first two bytes are ".." is a valid component, and its file would lie outside
-- local_content, directly below the base.
pub local_media-dotdot :
    (p : MediaPaths) (h : IsBased p) (id : Bytes) (s : Shard)
    → shard id ≡ ok s
    → s.first ≡ bytes ".."
    → IsElement s.second
    → IsElement s.rest
    → local_media p id ≡ ok (rooted (base_elements h ++ (s.second ∷ s.rest ∷ [])))
unfolding local_media join_in
local_media-dotdot p h id s e first second rest =
    let plain : IsElement (bytes "local_content") =
      ((λ z. cc z, λ z. cc z, λ z. cc z), ground arith) in
    let parts = base_elements h ++ (s.second ∷ s.rest ∷ []) in
    let joined : join (p.base ∷ local_parts s) ≡ rooted parts =
      rw (h.is_base, first)
        (join-dotdot (base_elements h) (bytes "local_content") s.second s.rest h.plain plain second
          rest) in
    let cleaned : clean (rooted parts) ≡ rooted parts = clean-rooted parts (
      All-append IsElement (base_elements h) (s.second ∷ s.rest ∷ []) h.plain
        (second, (rest, tt))) in
    rw (e, joined, cleaned, inside-rooted p h s.second (s.rest ∷ []))

-- What `NewMediaPaths` makes of an absolute path other than the root directory is such a base.
pub new_media_paths-IsBased :
    (cwd q : Bytes) (top : Bytes) (below : List Bytes)
    → elements (b'/' ∷ q) ≡ top ∷ below
    → IsBased (new_media_paths cwd (b'/' ∷ q))
unfolding new_media_paths is_abs
new_media_paths-IsBased cwd q top below e = record {
  top = top;
  below = below;
  plain = subst (All IsElement) e (clean-IsElement q);
  is_base = clean_idempotent q ∙ clean-absolute q ∙ ap rooted e;
}
