-- ===== src/ThumbCache/Order.antt =====
-- The order in which a sweep takes the entries.
use mathlib.Core.List.{Permᴰ}
use synapse_media_worker.Base.{
  ℕ, ◌≤◌, ◌<◌, ◌≡◌, sym, subst, ◌∙◌, Bool, true, false, List, [], ◌∷◌, ltb, All, arith, two63,
  sub64, slt64,
}
use synapse_media_worker.ThumbCache.{Entry, compare_entries, SortFunc}

-- Oldest access first.
abbrev pub IsOldestFirst : List Entry → Type 0
IsOldestFirst [] = Unit {0}
IsOldestFirst (e ∷ entries) = All (λ x. e.atime ≤ x.atime) entries × IsOldestFirst entries

pub All-Permᴰ : (P : Entry → Type 0) {xs ys : List Entry} → Permᴰ xs ys → All P ys → All P xs
All-Permᴰ P Permᴰ.nil h = tt
All-Permᴰ P (Permᴰ.cons e p) (h, k) = (subst P (sym e) h, All-Permᴰ P p k)
All-Permᴰ P (Permᴰ.swap e f) (h, (k, rest)) = (subst P (sym e) k, (subst P (sym f) h, rest))
All-Permᴰ P (Permᴰ.trans p q) h = All-Permᴰ P p (All-Permᴰ P q h)

-- Whether a comparison puts `a` before `b`.
abbrev pub is_before : (Entry → Entry → ℕ) → Entry → Entry → Bool
is_before compare a b = slt64 (compare a b) 0

-- A strict weak order on the entries with `P`.
pub record IsStrictWeak (P : Entry → Type 0) (compare : Entry → Entry → ℕ) : Type 0 where
  pub irreflexive : (a : Entry) → P a → is_before compare a a ≡ false
  pub transitive :
      (a b c : Entry)
      → P a
      → P b
      → P c
      → is_before compare a b ≡ true
      → is_before compare b c ≡ true
      → is_before compare a c ≡ true
  pub incomparable :
      (a b c : Entry)
      → P a
      → P b
      → P c
      → (is_before compare a b ≡ false) × (is_before compare b a ≡ false)
      → (is_before compare b c ≡ false) × (is_before compare c b ≡ false)
      → (is_before compare a c ≡ false) × (is_before compare c a ≡ false)

-- No entry is before an earlier one.
abbrev pub IsAscending : (Entry → Entry → ℕ) → List Entry → Type 0
IsAscending compare [] = Unit {0}
IsAscending compare (e ∷ entries) =
    All (λ x. is_before compare x e ≡ false) entries × IsAscending compare entries

-- What the documentation of `slices.SortFunc` says: where the comparison is a strict weak order on the
-- entries, they are put in ascending order by it.
abbrev pub Sorts : SortFunc → (Entry → Type 0) → (Entry → Entry → ℕ) → List Entry → Type 0
Sorts sort P compare entries =
    IsStrictWeak P compare
    → All P entries
    → Permᴰ (sort compare entries) entries × IsAscending compare (sort compare entries)

-- An access time since 1970.
abbrev pub IsTimed : Entry → Type 0
IsTimed e = e.atime < two63

compare_entries-before :
    (a b : Entry) → IsTimed a → IsTimed b → is_before compare_entries a b ≡ ltb a.atime b.atime
unfolding compare_entries slt64 sub64
compare_entries-before a b h k = ground arith

-- The comparison of access times is a strict weak order.
pub compare_entries-IsStrictWeak : IsStrictWeak IsTimed compare_entries
compare_entries-IsStrictWeak = record {
  irreflexive = λ a h. compare_entries-before a a h h ∙ ground arith;
  transitive = λ a b c h k l x y.
      (let x1 = sym (compare_entries-before a b h k) ∙ x in
        let y1 = sym (compare_entries-before b c k l) ∙ y in
        compare_entries-before a c h l ∙ ground arith);
  incomparable = λ a b c h k l (x, x2) (y, y2).
      (let x1 = sym (compare_entries-before a b h k) ∙ x in
        let x3 = sym (compare_entries-before b a k h) ∙ x2 in
        let y1 = sym (compare_entries-before b c k l) ∙ y in
        let y3 = sym (compare_entries-before c b l k) ∙ y2 in
        (
          compare_entries-before a c h l ∙ ground arith,
          compare_entries-before c a l h ∙ ground arith,
        ));
}

older_than :
    (e : Entry) (entries : List Entry)
    → IsTimed e
    → All IsTimed entries
    → All (λ x. is_before compare_entries x e ≡ false) entries
    → All (λ x. e.atime ≤ x.atime) entries
older_than e [] t ts h = tt
older_than e (x ∷ entries) t (u, ts) (h, k) =
    let first = sym (compare_entries-before x e u t) ∙ h in
    (ground arith, older_than e entries t ts k)

pub IsAscending-IsOldestFirst :
    (entries : List Entry)
    → All IsTimed entries
    → IsAscending compare_entries entries
    → IsOldestFirst entries
IsAscending-IsOldestFirst [] ts h = tt
IsAscending-IsOldestFirst (e ∷ entries) (t, ts) (h, k) =
    (older_than e entries t ts h, IsAscending-IsOldestFirst entries ts k)
