-- ===== src/Store/Files.antt =====
-- What the operations on files keep.
use synapse_media_worker.Base.{
  ◌≡◌, ◌≢◌, refl, sym, ◌∙◌, none, some, [], ◌∷◌, Bytes, str_eq, str_eq_iff, str_eq_refl, Bool-cases,
  inl, inr,
}
use synapse_media_worker.Store.{
  Files, find_file, remove_file, write_file, rename_found, rename_file,
}

pub find-write_file :
    (x content : Bytes) (files : Files) → find_file x (write_file x content files) ≡ some content
unfolding find_file write_file
find-write_file x content files = rw (str_eq_refl x) refl

pub find-write_file_other :
    (x y content : Bytes) (files : Files)
    → x ≢ y
    → find_file y (write_file x content files) ≡ find_file y files
unfolding find_file write_file
find-write_file_other x y content files h = elim (Bool-cases (str_eq x y)) [
  | inl same ↦ absurd (h ((str_eq_iff x y).0 same))
  | inr other ↦ rw other refl
]

-- A removed file is gone.
pub find-remove_file : (x : Bytes) (files : Files) → find_file x (remove_file x files) ≡ none
unfolding find_file remove_file
find-remove_file x [] = refl
find-remove_file x ((path, content) ∷ files) = elim (Bool-cases (str_eq path x)) [
  | inl same ↦ rw same (find-remove_file x files)
  | inr other ↦ rw (other, other) (find-remove_file x files)
]

-- All others stay.
pub find-remove_file_other :
    (x y : Bytes) (files : Files) → x ≢ y → find_file y (remove_file x files) ≡ find_file y files
unfolding find_file remove_file
find-remove_file_other x y [] h = refl
find-remove_file_other x y ((path, content) ∷ files) h = elim (Bool-cases (str_eq path x)) [
  | inl same ↦
      let is : path ≡ x = (str_eq_iff path x).0 same in
      elim (Bool-cases (str_eq path y)) [
        | inl also ↦ absurd (h (sym is ∙ (str_eq_iff path y).0 also))
        | inr not_y ↦ rw (same, not_y) (find-remove_file_other x y files h)
      ]
  | inr other ↦ elim (Bool-cases (str_eq path y)) [
    | inl is ↦ rw (other, is) refl
    | inr not_y ↦ rw (other, not_y) (find-remove_file_other x y files h)
  ]
]

pub find-rename_file :
    (from to content : Bytes) (files : Files)
    → find_file from files ≡ some content
    → find_file to (rename_file from to files) ≡ some content
unfolding rename_file rename_found
find-rename_file from to content files h =
    rw (h, rename_found) (find-write_file to content (remove_file from files))

pub find-rename_file_other :
    (from to y content : Bytes) (files : Files)
    → find_file from files ≡ some content
    → from ≢ y
    → to ≢ y
    → find_file y (rename_file from to files) ≡ find_file y files
unfolding rename_file rename_found
find-rename_file_other from to y content files found h k =
    rw (found, rename_found)
      (find-write_file_other to y content (remove_file from files) k
        ∙ find-remove_file_other from y files h)

pub rename_file_found :
    (from to content : Bytes) (files : Files)
    → find_file from files ≡ some content
    → rename_file from to files ≡ write_file to content (remove_file from files)
unfolding rename_file rename_found
rename_file_found from to content files h = rw (h, rename_found) refl
