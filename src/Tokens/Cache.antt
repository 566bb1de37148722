-- ===== src/Tokens/Cache.antt =====
-- The cache of verdicts stays bounded, holds each key once and never answers with an expired verdict.
use synapse_media_worker.Base.{
  ℕ, zero, suc, ◌+◌, ◌≤◌, ◌≡◌, refl, sym, subst, true, false, none, some, List, [], ◌∷◌, ltb, Bytes,
  str_eq, str_eq_iff, take, length, length-take, arith, Bool-cases, Option-cases, inl, inr,
}
use synapse_media_worker.Tokens.{
  CacheEntry, TokenVerdict, find_entry, remove_entry, lookup_entry, evict, store_entry,
}

-- No two entries share a key.
abbrev pub IsDistinct : List CacheEntry → Type 0
IsDistinct [] = Unit {0}
IsDistinct (e ∷ order) = (find_entry e.key order ≡ none) × IsDistinct order

-- Distinct keys, and no more entries than allowed, if there is a limit.
pub record IsCache (max_entries : ℕ) (order : List CacheEntry) : Type 0 where
  pub distinct : IsDistinct order
  pub bounded : ltb 0 max_entries ≡ true → length order ≤ max_entries

remove_entry-find :
    (k x : Bytes) (order : List CacheEntry)
    → find_entry x order ≡ none
    → find_entry x (remove_entry k order) ≡ none
unfolding find_entry remove_entry
remove_entry-find k x [] h = refl
remove_entry-find k x (e ∷ order) h = elim (Bool-cases (str_eq e.key k)) [
  | inl same ↦ rw same (ground arith)
  | inr other ↦ elim (Bool-cases (str_eq e.key x)) [
    | inl is ↦ ground arith
    | inr differs ↦ rw (other, differs) (remove_entry-find k x order (ground arith))
  ]
]

remove_entry-IsDistinct :
    (k : Bytes) (order : List CacheEntry) → IsDistinct order → IsDistinct (remove_entry k order)
unfolding remove_entry
remove_entry-IsDistinct k [] d = tt
remove_entry-IsDistinct k (e ∷ order) (fresh, d) = elim (Bool-cases (str_eq e.key k)) [
  | inl same ↦ rw same d
  | inr other ↦ rw other (remove_entry-find k e.key order fresh, remove_entry-IsDistinct k order d)
]

-- The removed key is gone.
find-remove_entry :
    (k : Bytes) (order : List CacheEntry)
    → IsDistinct order
    → find_entry k (remove_entry k order) ≡ none
unfolding find_entry remove_entry
find-remove_entry k [] d = refl
find-remove_entry k (e ∷ order) (fresh, d) = elim (Bool-cases (str_eq e.key k)) [
  | inl same ↦ rw same (subst (λ x. find_entry x order ≡ none) ((str_eq_iff e.key k).0 same) fresh)
  | inr other ↦ rw (other, other) (find-remove_entry k order d)
]

length-remove_entry :
    (k : Bytes) (order : List CacheEntry) (e : CacheEntry)
    → find_entry k order ≡ some e
    → 1 + length (remove_entry k order) ≡ length order
unfolding find_entry remove_entry
length-remove_entry k [] e h = cc
length-remove_entry k (x ∷ order) e h = elim (Bool-cases (str_eq x.key k)) [
  | inl same ↦ rw same (omega arith)
  | inr other ↦ rw other (omega (arith, length-remove_entry k order e (ground arith)))
]

pub found_key :
    (k : Bytes) (order : List CacheEntry) (e : CacheEntry) → find_entry k order ≡ some e → e.key ≡ k
unfolding find_entry
found_key k [] e h = cc
found_key k (x ∷ order) e h = elim (Bool-cases (str_eq x.key k)) [
  | inl same ↦
      let is : x ≡ e = cc (rw same at h) in subst (λ y. y.key ≡ k) is ((str_eq_iff x.key k).0 same)
  | inr other ↦ found_key k order e (ground arith)
]

take_find :
    (n : ℕ) (k : Bytes) (order : List CacheEntry)
    → find_entry k order ≡ none
    → find_entry k (take n order) ≡ none
unfolding find_entry
take_find zero k order h = refl
take_find (suc n) k [] h = refl
take_find (suc n) k (e ∷ order) h = elim (Bool-cases (str_eq e.key k)) [
  | inl same ↦ ground arith
  | inr other ↦ rw other (take_find n k order (ground arith))
]

take-IsDistinct : (n : ℕ) (order : List CacheEntry) → IsDistinct order → IsDistinct (take n order)
take-IsDistinct zero order d = tt
take-IsDistinct (suc n) [] d = tt
take-IsDistinct (suc n) (e ∷ order) (fresh, d) =
    (take_find n e.key order fresh, take-IsDistinct n order d)

module _ (order : List CacheEntry) (k : Bytes) where
  pub lookup_entry_missing :
      (now : ℕ) → find_entry k order ≡ none → lookup_entry order k now ≡ (order, none)
  unfolding lookup_entry
  lookup_entry_missing now h = rw (h, lookup_entry) refl

  pub lookup_entry_expired :
      (now : ℕ) (e : CacheEntry)
      → find_entry k order ≡ some e
      → ltb e.verdict.expires now ≡ true
      → lookup_entry order k now ≡ (remove_entry k order, none)
  unfolding lookup_entry
  lookup_entry_expired now e h old = rw (h, lookup_entry, old) refl

  pub lookup_entry_hit :
      (now : ℕ) (e : CacheEntry)
      → find_entry k order ≡ some e
      → ltb e.verdict.expires now ≡ false
      → lookup_entry order k now ≡ (e ∷ remove_entry k order, some e.verdict)
  unfolding lookup_entry
  lookup_entry_hit now e h fresh = rw (h, lookup_entry, fresh) refl

  pub store_entry_new :
      (max_entries : ℕ) (v : TokenVerdict)
      → find_entry k order ≡ none
      → store_entry max_entries order k v
        ≡ evict max_entries (record { key = k; verdict = v } ∷ order)
  unfolding store_entry
  store_entry_new max_entries v h = rw (h, store_entry) refl

  pub store_entry_known :
      (max_entries : ℕ) (v : TokenVerdict) (e : CacheEntry)
      → find_entry k order ≡ some e
      → store_entry max_entries order k v ≡ record { key = k; verdict = v } ∷ remove_entry k order
  unfolding store_entry
  store_entry_known max_entries v e h = rw (h, store_entry) refl

-- Storing a verdict keeps the keys distinct and, where there is a limit, the number of entries within it.
pub store_entry-IsCache :
    (max_entries : ℕ) (order : List CacheEntry) (k : Bytes) (v : TokenVerdict)
    → IsCache max_entries order
    → IsCache max_entries (store_entry max_entries order k v)
unfolding evict
store_entry-IsCache max_entries order k v c = elim (Option-cases (find_entry k order)) [
  | inl missing ↦
      rw (store_entry_new order k max_entries v missing) (elim (Bool-cases (ltb 0 max_entries)) [
        | inl limited ↦ rw limited (record {
          distinct = take-IsDistinct max_entries _ (missing, c.distinct);
          bounded =
              λ h. omega (arith, length-take max_entries (record { key = k; verdict = v } ∷ order));
        })
        | inr free ↦
            rw free (record { distinct = (missing, c.distinct); bounded = λ h. cc (h, free) })
      ])
  | inr (e, found) ↦ rw (store_entry_known order k max_entries v e found) (record {
    distinct = (find-remove_entry k order c.distinct, remove_entry-IsDistinct k order c.distinct);
    bounded = λ h. omega (arith, length-remove_entry k order e found, c.bounded h);
  })
]

pub lookup_entry-IsCache :
    (max_entries : ℕ) (order : List CacheEntry) (k : Bytes) (now : ℕ)
    → IsCache max_entries order
    → IsCache max_entries (lookup_entry order k now).0
lookup_entry-IsCache max_entries order k now c = elim (Option-cases (find_entry k order)) [
  | inl missing ↦ rw (lookup_entry_missing order k now missing) c
  | inr (e, found) ↦ elim (Bool-cases (ltb e.verdict.expires now)) [
    | inl old ↦ rw (lookup_entry_expired order k now e found old) (record {
      distinct = remove_entry-IsDistinct k order c.distinct;
      bounded = λ h. omega (arith, length-remove_entry k order e found, c.bounded h);
    })
    | inr fresh ↦ rw (lookup_entry_hit order k now e found fresh) (record {
      distinct = (
        subst (λ x. find_entry x (remove_entry k order) ≡ none) (sym (found_key k order e found))
            (find-remove_entry k order c.distinct),
        remove_entry-IsDistinct k order c.distinct,
      );
      bounded = λ h. omega (arith, length-remove_entry k order e found, c.bounded h);
    })
  ]
]

-- A verdict that a lookup returns has not expired.
pub lookup_entry-fresh :
    (order : List CacheEntry) (k : Bytes) (now : ℕ) (v : TokenVerdict)
    → (lookup_entry order k now).1 ≡ some v
    → now ≤ v.expires
lookup_entry-fresh order k now v h = elim (Option-cases (find_entry k order)) [
  | inl missing ↦ cc (h, lookup_entry_missing order k now missing)
  | inr (e, found) ↦ elim (Bool-cases (ltb e.verdict.expires now)) [
    | inl old ↦ cc (h, lookup_entry_expired order k now e found old)
    | inr fresh ↦
        let is : e.verdict ≡ v = cc (h, lookup_entry_hit order k now e found fresh) in
        subst (λ w. now ≤ w.expires) is (ground arith)
  ]
]
