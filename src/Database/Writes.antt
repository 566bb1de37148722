-- ===== src/Database/Writes.antt =====
-- What the conditional writes do to the rows.
use synapse_media_worker.Base.{
  ℕ, ◌≡◌, refl, ap, subst, ◌∙◌, inl, inr, true, false, none, some, List, [], ◌∷◌, Bytes, arith,
  str_eq, str_eq_iff, Bool-cases,
}
use synapse_media_worker.Database.{
  LocalMedia, Completion, get_local_media, complete_rows, complete_local_media, completed,
  is_pending,
}

-- Every media ID has at most one row.
abbrev pub IsKeyed : List LocalMedia → Type 0
IsKeyed [] = Unit {0}
IsKeyed (row ∷ rows) = (get_local_media rows row.media_id ≡ none) × IsKeyed rows

-- Of a missing ID nothing is completed.
complete_rows-absent :
    (rows : List LocalMedia) (id : Bytes) (c : Completion)
    → get_local_media rows id ≡ none
    → complete_rows rows id c ≡ (rows, 0)
unfolding get_local_media complete_rows is_pending
complete_rows-absent [] id c h = refl
complete_rows-absent (row ∷ rows) id c h = elim (Bool-cases (str_eq row.media_id id)) [
  | inl same ↦ ground arith
  | inr other ↦ rw (other, complete_rows-absent rows id c (ground arith)) refl
]

-- A completed row is not completed again.
pub complete_rows-done :
    (rows : List LocalMedia) (id : Bytes) (c : Completion) (m : LocalMedia) (n : ℕ)
    → IsKeyed rows
    → get_local_media rows id ≡ some m
    → m.length ≡ some n
    → complete_rows rows id c ≡ (rows, 0)
unfolding get_local_media complete_rows is_pending
complete_rows-done [] id c m n k h l = refl
complete_rows-done (row ∷ rows) id c m n (fresh, k) h l =
    elim (Bool-cases (str_eq row.media_id id)) [
      | inl same ↦
          let is : row ≡ m = cc (rw same at h) in
          let full : row.length ≡ some n = ap (λ r. r.length) is ∙ l in
          let absent : get_local_media rows id ≡ none =
            subst (λ x. get_local_media rows x ≡ none) ((str_eq_iff row.media_id id).0 same)
              fresh in
          rw (same, full, complete_rows-absent rows id c absent) refl
      | inr other ↦ rw (other, complete_rows-done rows id c m n k (ground arith) l) refl
    ]

-- A pending row is completed: one row changes, and it is the one of that ID.
pub complete_rows-pending :
    (rows : List LocalMedia) (id : Bytes) (c : Completion) (m : LocalMedia)
    → IsKeyed rows
    → get_local_media rows id ≡ some m
    → m.length ≡ none
    → ((complete_rows rows id c).1 ≡ 1)
      × (get_local_media (complete_rows rows id c).0 id ≡ some (completed c m))
unfolding get_local_media complete_rows is_pending completed
complete_rows-pending [] id c m k h l = cc
complete_rows-pending (row ∷ rows) id c m (fresh, k) h l =
    elim (Bool-cases (str_eq row.media_id id)) [
      | inl same ↦
          let is : row ≡ m = cc (rw same at h) in
          let pending : row.length ≡ none = ap (λ r. r.length) is ∙ l in
          let absent : get_local_media rows id ≡ none =
            subst (λ x. get_local_media rows x ≡ none) ((str_eq_iff row.media_id id).0 same)
              fresh in
          rw (same, pending, complete_rows-absent rows id c absent, same)
            (refl, ap (λ r. some (completed c r)) is)
      | inr other ↦
          let (one, found) = complete_rows-pending rows id c m k (ground arith) l in
          rw (other, other) (one, found)
    ]

complete_rows-get_none :
    (rows : List LocalMedia) (id other : Bytes) (c : Completion)
    → get_local_media rows other ≡ none
    → get_local_media (complete_rows rows id c).0 other ≡ none
unfolding get_local_media complete_rows completed
complete_rows-get_none [] id other c h = refl
complete_rows-get_none (row ∷ rows) id other c h = elim (Bool-cases (str_eq row.media_id other)) [
  | inl same ↦ ground arith
  | inr differ ↦ elim (Bool-cases (is_pending row id)) [
    | inl p ↦ rw (p, differ) (complete_rows-get_none rows id other c (ground arith))
    | inr n ↦ rw (n, differ) (complete_rows-get_none rows id other c (ground arith))
  ]
]

pub complete_rows-IsKeyed :
    (rows : List LocalMedia) (id : Bytes) (c : Completion)
    → IsKeyed rows
    → IsKeyed (complete_rows rows id c).0
unfolding complete_rows completed
complete_rows-IsKeyed [] id c k = tt
complete_rows-IsKeyed (row ∷ rows) id c (fresh, k) = elim (Bool-cases (is_pending row id)) [
  | inl p ↦
      rw p (complete_rows-get_none rows id row.media_id c fresh, complete_rows-IsKeyed rows id c k)
  | inr n ↦
      rw n (complete_rows-get_none rows id row.media_id c fresh, complete_rows-IsKeyed rows id c k)
]

-- One media ID is completed once, where it has at most one row: for a pending row
-- `complete_local_media` reports a win and stores its own values, and the next call for that ID, with
-- whatever values, reports a loss and changes no row.
pub complete_local_media_once :
    (rows : List LocalMedia) (id : Bytes) (first second : Completion) (m : LocalMedia)
    → IsKeyed rows
    → get_local_media rows id ≡ some m
    → m.length ≡ none
    → ((complete_local_media rows id first).1 ≡ true)
      × (get_local_media (complete_local_media rows id first).0 id ≡ some (completed first m))
      × (complete_local_media (complete_local_media rows id first).0 id second
          ≡ ((complete_local_media rows id first).0, false))
unfolding complete_local_media
complete_local_media_once rows id first second m k h l =
    let (one, found) = complete_rows-pending rows id first m k h l in
    let full : (completed first m).length ≡ some first.length = unfold completed in refl in
    let again =
      complete_rows-done (complete_rows rows id first).0 id second (completed first m) first.length
        (complete_rows-IsKeyed rows id first k) found full in
    (rw one refl, found, rw again refl)
