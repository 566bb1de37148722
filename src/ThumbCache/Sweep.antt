-- ===== src/ThumbCache/Sweep.antt =====
-- A sweep brings the cache below its limit, and takes the entries that were used longest ago.
use mathlib.Core.List.{Permᴰ}
use synapse_media_worker.Base.{
  ℕ, ◌+◌, ◌≤◌, ◌<◌, ◌≡◌, refl, sym, ap, ◌∙◌, ◌⊎◌, inl, inr, Bool, true, false, List, [], ◌∷◌, ltb,
  lt→ltb, Bytes, length, All, All-imp, arith, Bool-cases, two63, add64, sub64, slt64, add64_exact,
  sub64_exact, slt64_exact,
}
use synapse_media_worker.ThumbCache.Order.{
  IsOldestFirst, All-Permᴰ, Sorts, IsTimed, compare_entries-IsStrictWeak, IsAscending-IsOldestFirst,
}
use synapse_media_worker.ThumbCache.{
  Entry, Swept, nothing_removed, with_removed, with_kept, evict, total_size, sweep_entries,
  compare_entries, SortFunc,
}

-- The size of entries as it is, without wrapping.
unfoldable pub sum : List Entry → ℕ
sum [] = 0
sum (e ∷ entries) = e.size + sum entries

total_size-exact : (entries : List Entry) → sum entries < two63 → total_size entries ≡ sum entries
unfolding total_size sum
total_size-exact [] h = refl
total_size-exact (e ∷ entries) h =
    ap (add64 e.size) (total_size-exact entries (omega arith))
    ∙ add64_exact e.size (sum entries) (omega arith)

-- Each entry is in one of the two lists, in the order of the whole.
pub data Split : List Entry → List Entry → List Entry → Type 0 where
  end : Split [] [] []
  removes :
      {e : Entry} {entries removed kept : List Entry}
      → Split entries removed kept
      → Split (e ∷ entries) (e ∷ removed) kept
  keeps :
      {e : Entry} {entries removed kept : List Entry}
      → Split entries removed kept
      → Split (e ∷ entries) removed (e ∷ kept)

keeps_all : (entries : List Entry) → Split entries [] entries
keeps_all [] = end
keeps_all (e ∷ entries) = keeps (keeps_all entries)

Split-All :
    (P : Entry → Type 0) {entries removed kept : List Entry}
    → Split entries removed kept
    → All P entries
    → All P kept
Split-All P end h = tt
Split-All P (removes s) (h, k) = Split-All P s k
Split-All P (keeps s) (h, k) = (h, Split-All P s k)

module _ (remove : Bytes → Bool) (max : ℕ) where
  -- `k` was used no earlier than `e`, or cannot be removed.
  abbrev pub Spares : Entry → Entry → Type 0
  Spares e k = (remove k.path ≡ false) ⊎ (e.atime ≤ k.atime)

  -- What is kept besides `stuck` bytes is below the limit, or none of it can be removed.
  abbrev pub IsBelow : ℕ → List Entry → Type 0
  IsBelow stuck kept = (stuck + sum kept ≤ max) ⊎ All (λ k. remove k.path ≡ false) kept

  -- What a sweep comes to: nothing is lost; the counts are those of what was removed; what is left is
  -- below the limit, or cannot be removed; and nothing removable that was used earlier is left.
  pub record IsSwept (stuck : ℕ) (entries : List Entry) (s : Swept) : Type 0 where
    pub split : Split entries s.removed s.kept
    pub counted : s.evicted ≡ length s.removed
    pub freed : s.freed + sum s.kept ≡ sum entries
    pub below : IsBelow stuck s.kept
    pub oldest : All (λ e. All (Spares e) s.kept) s.removed

  nothing_removed-IsSwept :
      (stuck : ℕ) (entries : List Entry)
      → IsBelow stuck entries
      → IsSwept stuck entries (nothing_removed entries)
  unfolding nothing_removed
  nothing_removed-IsSwept stuck entries h = record {
    split = keeps_all entries;
    counted = refl;
    freed = omega arith;
    below = h;
    oldest = tt;
  }

  with_removed-IsSwept :
      (stuck : ℕ) (e : Entry) (entries : List Entry) (s : Swept)
      → e.size + sum entries < two63
      → All (λ x. e.atime ≤ x.atime) entries
      → IsSwept stuck entries s
      → IsSwept stuck (e ∷ entries) (with_removed e s)
  unfolding with_removed sum
  with_removed-IsSwept stuck e entries s small older h = record {
    split = removes h.split;
    counted = omega (arith, h.counted);
    freed = omega (arith, add64_exact e.size s.freed (omega (arith, h.freed)), h.freed);
    below = h.below;
    oldest = (All-imp s.kept (λ k p. inr p) (Split-All _ h.split older), h.oldest);
  }

  with_kept-IsSwept :
      (stuck : ℕ) (e : Entry) (entries : List Entry) (s : Swept)
      → remove e.path ≡ false
      → IsSwept (stuck + e.size) entries s
      → IsSwept stuck (e ∷ entries) (with_kept e s)
  unfolding with_kept sum
  with_kept-IsSwept stuck e entries s fails h = record {
    split = keeps h.split;
    counted = h.counted;
    freed = omega (arith, h.freed);
    below = elim h.below [ inl p ↦ inl (omega arith) | inr p ↦ inr (fails, p) ];
    oldest = All-imp s.removed (λ r p. (inl fails, p)) h.oldest;
  }

  evict-IsSwept :
      (stuck total : ℕ) (entries : List Entry)
      → total ≡ stuck + sum entries
      → total < two63
      → max < two63
      → IsOldestFirst entries
      → IsSwept stuck entries (evict remove max total entries)
  unfolding evict sum
  evict-IsSwept stuck total [] e small limit sorted = nothing_removed-IsSwept stuck [] (inr tt)
  evict-IsSwept stuck total (x ∷ entries) e small limit (older, sorted) =
      elim (Bool-cases (slt64 max total)) [
        | inr under ↦
            let le : ltb max total ≡ false = sym (slt64_exact max total limit small) ∙ under in
            let fits : total ≤ max = ground arith in
            rw under (nothing_removed-IsSwept stuck (x ∷ entries) (inl (omega arith)))
        | inl over ↦ elim (Bool-cases (remove x.path)) [
          | inl gone ↦
              let left = sub64_exact total x.size (omega arith) (omega arith) in
              rw (over, gone)
                (with_removed-IsSwept stuck x entries _ (omega arith) older (
                  evict-IsSwept stuck (sub64 total x.size) entries (omega arith) (omega arith) limit
                    sorted))
          | inr stays ↦
              rw (over, stays)
                (with_kept-IsSwept stuck x entries _ stays
                  (evict-IsSwept (stuck + x.size) total entries (omega arith) small limit sorted))
        ]
      ]

sum-Permᴰ : {xs ys : List Entry} → Permᴰ xs ys → sum xs ≡ sum ys
unfolding sum
sum-Permᴰ Permᴰ.nil = refl
sum-Permᴰ (Permᴰ.cons e p) = omega (arith, ap (λ x. x.size) e, sum-Permᴰ p)
sum-Permᴰ (Permᴰ.swap e f) = omega (arith, ap (λ x. x.size) e, ap (λ x. x.size) f)
sum-Permᴰ (Permᴰ.trans p q) = sum-Permᴰ p ∙ sum-Permᴰ q

-- A sweep over a cache that is above its limit, which is positive, brings what is left below the
-- limit, or leaves only what cannot be removed. Its counts are the number and the size of what it
-- removed, everything else is kept, and it removes nothing that was used later than anything
-- removable that it keeps. The library's sorting puts the entries in ascending order by a comparison
-- that is a strict weak order; sizes stay below 2^63, and access times are not before 1970.
pub sweep_entries-IsSwept :
    (sort : SortFunc) (remove : Bytes → Bool) (max : ℕ) (entries : List Entry)
    → Sorts sort IsTimed compare_entries entries
    → All IsTimed entries
    → 0 < max
    → max < sum entries
    → sum entries < two63
    → IsSwept remove max 0 (sort compare_entries entries) (sweep_entries sort remove max entries)
unfolding sweep_entries
sweep_entries-IsSwept sort remove max entries sorts timed positive above small =
    let (same, ascending) = sorts compare_entries-IsStrictWeak timed in
    let sorted =
      IsAscending-IsOldestFirst (sort compare_entries entries) (All-Permᴰ IsTimed same timed)
        ascending in
    let total = total_size-exact entries small in
    let limited : slt64 0 max ≡ true =
      slt64_exact 0 max (omega arith) (omega arith) ∙ lt→ltb 0 max positive in
    let over : slt64 max (total_size entries) ≡ true =
      rw total (slt64_exact max (sum entries) (omega arith) small ∙ lt→ltb max _ above) in
    let whole = sum-Permᴰ same in
    rw (limited, over)
      (evict-IsSwept remove max 0 (total_size entries) (sort compare_entries entries) (omega arith)
        (omega arith) (omega arith) sorted)
