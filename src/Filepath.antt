-- ===== src/Filepath.antt =====
-- The functions of Go's `path/filepath` (Unix) that paths.go, store.go, upload.go and thumbcache.go
-- call: `Clean`, `Join` and `Rel`.
pub mod Laws
use synapse_media_worker.Base.{
  ℕ, zero, suc, Bool, true, false, Option, none, some, List, [], ◌∷◌, ◌++◌, reverse, ◌==◌, map,
  if◌then◌else◌, Bytes, bytes, str_eq, ◌||◌,
}
use mathlib.Core.List.{tail}

abbrev push_head : ℕ → List Bytes → List Bytes
push_head c [] = (c ∷ []) ∷ []
push_head c (x ∷ xs) = (c ∷ x) ∷ xs

-- `strings.Split(s, "/")`.
unfoldable pub split_slash : Bytes → List Bytes
split_slash [] = [] ∷ []
split_slash (c ∷ s) = let rest = split_slash s in if c == b'/' then [] ∷ rest else push_head c rest

-- `strings.Join(parts, "/")`.
unfoldable pub join_slash : List Bytes → Bytes
join_slash [] = []
join_slash (x ∷ []) = x
join_slash (x ∷ y ∷ xs) = x ++ (b'/' ∷ join_slash (y ∷ xs))

abbrev pop_dotdot : Bool → List Bytes → List Bytes
pop_dotdot true stack = tail stack
pop_dotdot false [] = bytes ".." ∷ []
pop_dotdot false (top ∷ stack) = if str_eq top (bytes "..") then bytes ".." ∷ top ∷ stack else stack

-- One element of a path against the elements so far, the last of them first.
unfoldable pub resolve : Bool → List Bytes → Bytes → List Bytes
resolve rooted stack part =
    if str_eq part [] || str_eq part (bytes ".")
    then stack
    else if str_eq part (bytes "..")
    then pop_dotdot rooted stack
    else part ∷ stack

unfoldable pub resolve_all : Bool → List Bytes → List Bytes → List Bytes
unfolding resolve
resolve_all rooted stack [] = stack
resolve_all rooted stack (part ∷ parts) = resolve_all rooted (resolve rooted stack part) parts

unfoldable pub is_abs : Bytes → Bool
is_abs [] = false
is_abs (c ∷ s) = c == b'/'

-- The elements of a cleaned path.
unfoldable pub elements : Bytes → List Bytes
unfolding resolve_all is_abs split_slash
elements p = reverse (resolve_all (is_abs p) [] (split_slash p))

-- An absolute path with the given elements.
unfoldable pub rooted : List Bytes → Bytes
unfolding join_slash
rooted parts = b'/' ∷ join_slash parts

-- A path that is not absolute, with the given elements.
unfoldable pub relative : List Bytes → Bytes
unfolding join_slash
relative [] = bytes "."
relative (x ∷ xs) = join_slash (x ∷ xs)

-- `filepath.Clean`.
unfoldable pub clean : Bytes → Bytes
unfolding elements rooted relative
clean p = if is_abs p then rooted (elements p) else relative (elements p)

-- `filepath.Join`.
unfoldable pub join : List Bytes → Bytes
unfolding clean
join [] = []
join ([] ∷ parts) = join parts
join ((c ∷ s) ∷ parts) = clean (join_slash ((c ∷ s) ∷ parts))

rel_elements : List Bytes → List Bytes → List Bytes
rel_elements [] ys = ys
rel_elements (x ∷ xs) [] = map (λ _. bytes "..") (x ∷ xs)
rel_elements (x ∷ xs) (y ∷ ys) =
    let same = rel_elements xs ys in
    if str_eq x y then same else map (λ _. bytes "..") (x ∷ xs) ++ (y ∷ ys)

-- `filepath.Rel` of two absolute paths.
unfoldable pub rel : Bytes → Bytes → Bytes
unfolding rel_elements elements relative
rel base target = relative (rel_elements (elements base) (elements target))
