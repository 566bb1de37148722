-- ===== src/Serve/Disposition.antt =====
-- serve.go: the disposition of some media types that can carry script.
use synapse_media_worker.Base.{
  ℕ, ◌≡◌, refl, subst, true, false, List, [], ◌∷◌, ◌++◌, reverse, Bytes, bytes, All, arith, Free,
  cut_of_Free, cut-none, lower, to_lower, str_eq, str_eq_sound, Bool-cases, contains, ◌==◌, inl,
  inr, All-reverse_aux,
}
use mathlib.Core.List.{reverse-reverse}
use synapse_media_worker.Serve.{
  is_space, trim_left, trim_space, before_semicolon, base_type, content_type_or_default,
  disposition_type, inline_content_types,
}

-- Neither a space nor a semicolon.
abbrev pub IsTypeChar : ℕ → Type 0
IsTypeChar c = (is_space c ≡ false) × ((c == b';') ≡ false)

lower-IsTypeChar : (c : ℕ) → IsTypeChar (lower c) → IsTypeChar c
unfolding lower is_space
lower-IsTypeChar c h = ground arith

to_lower-IsTypeChar : (s : Bytes) → All IsTypeChar (to_lower s) → All IsTypeChar s
unfolding to_lower
to_lower-IsTypeChar [] h = tt
to_lower-IsTypeChar (c ∷ s) (p, h) = (lower-IsTypeChar c p, to_lower-IsTypeChar s h)

trim_left_of : (s : Bytes) → All IsTypeChar s → trim_left s ≡ s
unfolding trim_left
trim_left_of [] h = refl
trim_left_of (c ∷ s) (p, h) = rw p.0

pub trim_space_of : (s : Bytes) → All IsTypeChar s → trim_space s ≡ s
unfolding trim_space
trim_space_of s h = rw (
  trim_left_of s h,
  trim_left_of (reverse s) (All-reverse_aux IsTypeChar s [] h tt),
  reverse-reverse,
)

IsTypeChar-Free : (s : Bytes) → All IsTypeChar s → Free b';' s
IsTypeChar-Free [] h = tt
IsTypeChar-Free (c ∷ s) (p, h) = (p.1, IsTypeChar-Free s h)

before_semicolon_of :
    (m parameters : Bytes) → Free b';' m → before_semicolon (m ++ (b';' ∷ parameters)) ≡ m
unfolding before_semicolon
before_semicolon_of m parameters h = rw (cut_of_Free b';' m parameters h, before_semicolon)

-- A media type is looked up without its parameters and in lower case.
pub base_type-parameters :
    (m parameters : Bytes) → All IsTypeChar m → base_type (m ++ (b';' ∷ parameters)) ≡ to_lower m
unfolding base_type
base_type-parameters m parameters h =
    rw (before_semicolon_of m parameters (IsTypeChar-Free m h), trim_space_of m h)

default_of_append :
    (m : Bytes) (c : ℕ) (s : Bytes) → content_type_or_default (m ++ (c ∷ s)) ≡ m ++ (c ∷ s)
unfolding content_type_or_default
default_of_append [] c s = refl
default_of_append (d ∷ m) c s = refl

abbrev pub scripting_types : List Bytes
scripting_types =
    bytes "image/svg+xml"
    ∷ bytes "text/html"
    ∷ bytes "application/xhtml+xml"
    ∷ bytes "text/xml"
    ∷ bytes "text/javascript"
    ∷ bytes "application/pdf"
    ∷ []

-- What `contains` finds satisfies what all the list's elements do.
pub All-contains {κ} :
    (P : Bytes → Type κ) (xs : List Bytes) (x : Bytes) → All P xs → contains xs x ≡ true → P x
unfolding contains
All-contains P [] x h e = absurd (ground arith)
All-contains P (y ∷ xs) x h e = elim (Bool-cases (str_eq y x)) [
  | inl same ↦ subst P (str_eq_sound y x same) h.0
  | inr other ↦ All-contains P xs x h.1 (ground arith)
]

abbrev IsNotInline : Bytes → Type 0
IsNotInline t = All IsTypeChar t × (contains inline_content_types t ≡ false)

scripting_types-IsNotInline : All IsNotInline scripting_types
unfolding contains str_eq is_space
scripting_types-IsNotInline = ground arith

before_semicolon_none : (m : Bytes) → Free b';' m → before_semicolon m ≡ m
unfolding before_semicolon
before_semicolon_none m h = rw (cut-none b';' m h, before_semicolon)

base_type-plain : (m : Bytes) → All IsTypeChar m → base_type m ≡ to_lower m
unfolding base_type
base_type-plain m h = rw (before_semicolon_none m (IsTypeChar-Free m h), trim_space_of m h)

default_of_scripting :
    (m : Bytes) → contains scripting_types (to_lower m) ≡ true → content_type_or_default m ≡ m
unfolding content_type_or_default contains str_eq to_lower
default_of_scripting [] h = cc h
default_of_scripting (c ∷ m) h = refl

plain-attachment :
    (m : Bytes)
    → contains scripting_types (to_lower m) ≡ true
    → disposition_type m ≡ bytes "attachment"
unfolding disposition_type
plain-attachment m h =
    let (chars, listed) =
      All-contains IsNotInline scripting_types (to_lower m) scripting_types-IsNotInline h in
    rw (default_of_scripting m h, base_type-plain m (to_lower-IsTypeChar m chars), listed)

parameters-attachment :
    (m parameters : Bytes)
    → contains scripting_types (to_lower m) ≡ true
    → disposition_type (m ++ (b';' ∷ parameters)) ≡ bytes "attachment"
unfolding disposition_type
parameters-attachment m parameters h =
    let (chars, listed) =
      All-contains IsNotInline scripting_types (to_lower m) scripting_types-IsNotInline h in
    rw (
      default_of_append m b';' parameters,
      base_type-parameters m parameters (to_lower-IsTypeChar m chars),
      listed,
    )

-- Media of one of the listed types that can carry script is an attachment, for every case of the
-- type's letters, both where the type stands alone and where parameters follow behind a semicolon.
pub disposition_type-attachment :
    (m : Bytes)
    → contains scripting_types (to_lower m) ≡ true
    → (disposition_type m ≡ bytes "attachment")
      × ((parameters : Bytes) → disposition_type (m ++ (b';' ∷ parameters)) ≡ bytes "attachment")
disposition_type-attachment m h =
    (plain-attachment m h, λ parameters. parameters-attachment m parameters h)
