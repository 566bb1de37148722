-- ===== src/Paths/Component.antt =====
-- What a validated path component and a sharded media ID look like.
use synapse_media_worker.Base.{
  ℕ, ◌≤◌, ◌≡◌, ◌≢◌, refl, ap, subst, true, false, [], ◌∷◌, ◌++◌, Bytes, bytes, str_eq_iff, length,
  take, drop, ok, Free, arith, ◌==◌,
}
use synapse_media_worker.Filepath.Laws.{IsElement, IsPlain}
use synapse_media_worker.Paths.{
  valid_path_component_char, valid_chars, validate_path_component, Shard, shard,
}

valid_char-ne-slash : (c : ℕ) → valid_path_component_char c ≡ true → (c == b'/') ≡ false
unfolding valid_path_component_char
valid_char-ne-slash c h = ground arith

valid_chars-Free : (s : Bytes) → valid_chars s ≡ true → Free b'/' s
unfolding valid_chars
valid_chars-Free [] h = tt
valid_chars-Free (c ∷ s) h =
    (valid_char-ne-slash c (ground arith), valid_chars-Free s (ground arith))

-- A validated component is one element of a path: it is not empty, not "." or "..", and holds no
-- slash.
pub validate_path_component-IsElement :
    (c : Bytes) → validate_path_component c ≡ ok tt → IsElement c
unfolding validate_path_component
validate_path_component-IsElement c h = (
  (
    ground (arith, str_eq_iff c []),
    ground (arith, str_eq_iff c (bytes ".")),
    ground (arith, str_eq_iff c (bytes "..")),
  ),
  valid_chars-Free c (ground arith),
)

abbrev pub three_parts : Bytes → Shard
three_parts id = record { first = take 2 id; second = take 2 (drop 2 id); rest = drop 4 id }

pub record IsShard (id : Bytes) (s : Shard) : Type 0 where
  pub valid : validate_path_component id ≡ ok tt
  pub long : 5 ≤ length id
  pub parts : s ≡ three_parts id

pub shard-IsShard : (id : Bytes) (s : Shard) → shard id ≡ ok s → IsShard id s
unfolding shard
shard-IsShard id s h = record { valid = ground arith; long = ground arith; parts = ground arith }

-- The three parts of a shard make up the ID.
pub shard-append : (id : Bytes) (s : Shard) → shard id ≡ ok s → s.first ++ (s.second ++ s.rest) ≡ id
shard-append id s h = let v = shard-IsShard id s h in rw v.parts (go id)
  where
    go : (x : Bytes) → take 2 x ++ (take 2 (drop 2 x) ++ drop 4 x) ≡ x
    go [] = refl
    go (a ∷ []) = refl
    go (a ∷ b ∷ []) = refl
    go (a ∷ b ∷ c ∷ []) = refl
    go (a ∷ b ∷ c ∷ d ∷ x) = refl

-- None of the parts is a "." or ".." to the file system. (The first two can only be "..".)
pub record NoDots (s : Shard) : Type 0 where
  pub first_name : s.first ≢ bytes ".."
  pub second_name : s.second ≢ bytes ".."
  pub rest_not_dot : s.rest ≢ bytes "."
  pub rest_not_dotdot : s.rest ≢ bytes ".."

two_IsPlain : (x : Bytes) → length x ≡ 2 → x ≢ bytes ".." → IsPlain x
two_IsPlain x e h =
    (λ z. absurd (omega (arith, ap length z)), λ z. absurd (omega (arith, ap length z)), h)

three_parts-IsElement :
    (x : Bytes)
    → 5 ≤ length x
    → Free b'/' x
    → NoDots (three_parts x)
    → IsElement (take 2 x) × IsElement (take 2 (drop 2 x)) × IsElement (drop 4 x)
three_parts-IsElement (a ∷ b ∷ c ∷ d ∷ e ∷ x) h (fa, (fb, (fc, (fd, (fe, f))))) n = (
  (two_IsPlain (a ∷ b ∷ []) refl n.first_name, (fa, (fb, tt))),
  (two_IsPlain (c ∷ d ∷ []) refl n.second_name, (fc, (fd, tt))),
  (((λ z. cc z), n.rest_not_dot, n.rest_not_dotdot), (fe, f)),
)
three_parts-IsElement _ h f n = absurd (omega arith)

-- Then each part is one element of a path.
pub shard-IsElement :
    (id : Bytes) (s : Shard)
    → shard id ≡ ok s
    → NoDots s
    → IsElement s.first × IsElement s.second × IsElement s.rest
shard-IsElement id s h n =
    let v = shard-IsShard id s h in
    let f = (validate_path_component-IsElement id v.valid).1 in
    rw v.parts (three_parts-IsElement id v.long f (subst NoDots v.parts n))
