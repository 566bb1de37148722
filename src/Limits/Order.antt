-- ===== src/Limits/Order.antt =====
-- The order of the limits.
use synapse_media_worker.Base.{ℕ, ◌≤◌, List, [], ◌∷◌, slt64, All, arith, Bool-cases, inl, inr}
use synapse_media_worker.Limits.{MediaUploadLimit, signed, insert_limit, sort_limits}

-- Longest window first.
abbrev pub IsLongestFirst : List MediaUploadLimit → Type 0
IsLongestFirst [] = Unit {0}
IsLongestFirst (l ∷ limits) =
    All (λ x. signed x.window ≤ signed l.window) limits × IsLongestFirst limits

insert_limit-All :
    (n : ℕ) (l : MediaUploadLimit) (limits : List MediaUploadLimit)
    → signed l.window ≤ n
    → All (λ x. signed x.window ≤ n) limits
    → All (λ x. signed x.window ≤ n) (insert_limit l limits)
unfolding insert_limit slt64
insert_limit-All n l [] h k = (h, tt)
insert_limit-All n l (x ∷ limits) h k = elim (Bool-cases (slt64 l.window x.window)) [
  | inl lt ↦ rw lt (k.0, insert_limit-All n l limits h k.1)
  | inr ge ↦ rw ge (h, k)
]

All-shrink :
    (n k : ℕ) (limits : List MediaUploadLimit)
    → n ≤ k
    → All (λ x. signed x.window ≤ n) limits
    → All (λ x. signed x.window ≤ k) limits
All-shrink n k [] h a = tt
All-shrink n k (x ∷ limits) h a = (omega arith, All-shrink n k limits h a.1)

insert_limit-IsLongestFirst :
    (l : MediaUploadLimit) (limits : List MediaUploadLimit)
    → IsLongestFirst limits
    → IsLongestFirst (insert_limit l limits)
unfolding insert_limit slt64
insert_limit-IsLongestFirst l [] k = (tt, tt)
insert_limit-IsLongestFirst l (x ∷ limits) (a, k) = elim (Bool-cases (slt64 l.window x.window)) [
  | inl lt ↦ rw lt (
    insert_limit-All (signed x.window) l limits (ground arith) a,
    insert_limit-IsLongestFirst l limits k,
  )
  | inr ge ↦
      let below : signed x.window ≤ signed l.window = ground arith in
      rw ge ((below, All-shrink (signed x.window) (signed l.window) limits below a), (a, k))
]

-- Sorting puts the longest window first.
pub sort_limits-IsLongestFirst :
    (limits : List MediaUploadLimit) → IsLongestFirst (sort_limits limits)
unfolding sort_limits
sort_limits-IsLongestFirst [] = tt
sort_limits-IsLongestFirst (l ∷ limits) =
    insert_limit-IsLongestFirst l (sort_limits limits) (sort_limits-IsLongestFirst limits)
