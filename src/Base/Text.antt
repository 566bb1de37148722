-- ===== src/Base/Text.antt =====
-- Text as the list of its bytes. A literal is ASCII wherever the program has one.
use Prim.Native.Char.{code}
use Prim.Native.Nat.{ℕ, ◌+◌}
use Prim.Native.String.{String}
use mathlib.Core.Bool.{Bool, true, false, ◌&&◌, ◌||◌}
use mathlib.Core.List.{List, [], ◌∷◌, ◌++◌}
use mathlib.Core.Logic.{◌↔◌, ◌≢◌}
use mathlib.Core.Option.{Option, none, some}
use mathlib.Core.Path.{◌≡◌, refl, sym, ap, ◌∙◌}
use native.Mathlib.Omega.{arith}
use synapse_media_worker.Base.Tests.{leb, ◌==◌, if◌then◌else◌}
use synapse_media_worker.Base.Lists.{All}

abbrev pub Bytes : Type 0
Bytes = List ℕ

abbrev pub bytes : String → Bytes
bytes String.[] = []
bytes (String.◌∷◌ c s) = code c ∷ bytes s

-- Equality of two strings.
unfoldable pub str_eq : Bytes → Bytes → Bool
str_eq [] [] = true
str_eq [] (_ ∷ _) = false
str_eq (_ ∷ _) [] = false
str_eq (a ∷ s) (b ∷ t) = a == b && str_eq s t

pub str_eq_refl : (s : Bytes) → str_eq s s ≡ true
unfolding str_eq
str_eq_refl [] = refl
str_eq_refl (a ∷ s) = ground (arith, str_eq_refl s)

pub str_eq_sound : (s t : Bytes) → str_eq s t ≡ true → s ≡ t
unfolding str_eq
str_eq_sound [] [] _ = refl
str_eq_sound [] (_ ∷ _) h = cc
str_eq_sound (_ ∷ _) [] h = cc
str_eq_sound (a ∷ s) (b ∷ t) h = ground (arith, str_eq_sound s t)

pub str_eq_iff : (s t : Bytes) → (str_eq s t ≡ true) ↔ (s ≡ t)
str_eq_iff s t = (str_eq_sound s t, λ e. rw e (str_eq_refl t))

-- A string is in a list of strings.
-- Texts that the comparison tells apart.
pub str_eq-ne : (s t : Bytes) → str_eq s t ≡ false → s ≢ t
str_eq-ne s t h e = let same : str_eq s t ≡ true = (str_eq_iff s t).1 e in cc

unfoldable pub contains : List Bytes → Bytes → Bool
contains [] s = false
contains (t ∷ ts) s = str_eq t s || contains ts s

-- `strings.HasPrefix`.
unfoldable pub has_prefix : Bytes → Bytes → Bool
has_prefix s [] = true
has_prefix [] (_ ∷ _) = false
has_prefix (a ∷ s) (b ∷ t) = a == b && has_prefix s t

pub has_prefix-append : (s t : Bytes) → has_prefix (s ++ t) s ≡ true
unfolding has_prefix
has_prefix-append [] [] = refl
has_prefix-append [] (_ ∷ _) = refl
has_prefix-append (a ∷ s) t = ground (arith, has_prefix-append s t)

pub has_prefix-append_both : (x y z : Bytes) → has_prefix (x ++ y) (x ++ z) ≡ has_prefix y z
unfolding has_prefix
has_prefix-append_both [] y z = refl
has_prefix-append_both (a ∷ x) y z = ground (arith, has_prefix-append_both x y z)

pub has_prefix_sound : (s t : Bytes) → has_prefix s t ≡ true → (r : Bytes) × (s ≡ t ++ r)
unfolding has_prefix
has_prefix_sound s [] _ = (s, refl)
has_prefix_sound [] (_ ∷ _) h = cc
has_prefix_sound (a ∷ s) (b ∷ t) h =
    let (r, e) = has_prefix_sound s t (ground arith) in (r, ground arith)

-- What stands before and after the first byte `sep`: `strings.Cut`.
unfoldable pub cut : ℕ → Bytes → Option (Bytes × Bytes)
cut sep [] = none
cut sep (c ∷ s) =
    let rest = cut sep s in
    if c == sep then some ([], s) else elim rest [ none ↦ none | some (a, b) ↦ some (c ∷ a, b) ]

-- Free of the byte `sep`.
abbrev pub Free : ℕ → Bytes → Type 0
Free sep = All (λ c. (c == sep) ≡ false)

pub cut_of_Free : (sep : ℕ) (a b : Bytes) → Free sep a → cut sep (a ++ sep ∷ b) ≡ some (a, b)
unfolding cut
cut_of_Free sep [] b _ = ground arith
cut_of_Free sep (c ∷ a) b (p, h) = rw (p, cut_of_Free sep a b h)

pub cut-none : (sep : ℕ) (a : Bytes) → Free sep a → cut sep a ≡ none
unfolding cut
cut-none sep [] _ = refl
cut-none sep (c ∷ a) (p, h) = rw (p, cut-none sep a h)

-- ASCII `strings.ToLower`.
-- The two parts of a text that is cut at its first `sep` are determined by it.
pub cut-injective :
    (sep : ℕ) (a b x y : Bytes)
    → Free sep a
    → Free sep b
    → a ++ (sep ∷ x) ≡ b ++ (sep ∷ y)
    → (a ≡ b) × (x ≡ y)
cut-injective sep a b x y h k e =
    let cuts : some (a, x) ≡ some (b, y) =
      sym (cut_of_Free sep a x h) ∙ ap (cut sep) e ∙ cut_of_Free sep b y k in
    (cc cuts, cc cuts)

unfoldable pub lower : ℕ → ℕ
lower c = if leb b'A' c && leb c b'Z' then c + 32 else c

unfoldable pub to_lower : Bytes → Bytes
unfolding lower
to_lower [] = []
to_lower (c ∷ s) = lower c ∷ to_lower s

unfoldable pub is_digit : ℕ → Bool
is_digit c = leb b'0' c && leb c b'9'
