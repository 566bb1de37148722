-- ===== src/Filepath/Laws.antt =====
-- Cleaning and joining paths, by their elements.
use synapse_media_worker.Base.{
  Bool, true, List, [], ◌∷◌, ◌++◌, reverse, ◌==◌, Bytes, bytes, str_eq, str_eq_iff, ◌≡◌, ◌≢◌, refl,
  sym, ap, ◌∙◌, subst, append-nil, append_assoc, All, Free, arith, All-reverse_aux, All-imp, length,
  length-append, Bool-cases, inl, inr,
}
use mathlib.Core.List.{reverse-reverse, reverse-cons}
use synapse_media_worker.Filepath.{
  split_slash, join_slash, resolve, resolve_all, is_abs, elements, rooted, relative, clean, join,
  rel, rel_elements,
}

-- An element that `Clean` leaves alone: not empty, not "." or "..", and with no slash.
abbrev pub IsPlain : Bytes → Type 0
IsPlain x = (x ≢ []) × (x ≢ bytes ".") × (x ≢ bytes "..")

abbrev pub IsElement : Bytes → Type 0
IsElement x = IsPlain x × Free b'/' x

split_slash_of_Free : (x : Bytes) → Free b'/' x → split_slash x ≡ x ∷ []
unfolding split_slash
split_slash_of_Free [] h = refl
split_slash_of_Free (c ∷ x) (p, h) = rw (p, split_slash_of_Free x h)

split_slash-cons : (x : Bytes) → (y : Bytes) × (ys : List Bytes) × (split_slash x ≡ y ∷ ys)
unfolding split_slash
split_slash-cons [] = ([], [], refl)
split_slash-cons (c ∷ x) =
    let (y, ys, e) = split_slash-cons x in
    elim (Bool-cases (c == b'/')) [
      | inl slash ↦ ([], split_slash x, rw slash)
      | inr other ↦ (c ∷ y, ys, rw (other, e))
    ]

pub split_slash-append :
    (x y : Bytes) → split_slash (x ++ (b'/' ∷ y)) ≡ split_slash x ++ split_slash y
unfolding split_slash
split_slash-append [] y = refl
split_slash-append (c ∷ x) y =
    let (z, zs, e) = split_slash-cons x in rw (split_slash-append x y, e) (ground arith)

pub split_slash-join_slash :
    (x : Bytes) (xs : List Bytes)
    → All (Free b'/') (x ∷ xs)
    → split_slash (join_slash (x ∷ xs)) ≡ x ∷ xs
unfolding join_slash
split_slash-join_slash x [] (h, _) = split_slash_of_Free x h
split_slash-join_slash x (y ∷ xs) (h, hs) =
    rw (split_slash-append, split_slash_of_Free x h, split_slash-join_slash y xs hs)

resolve_all-append :
    (r : Bool) (stack xs ys : List Bytes)
    → resolve_all r stack (xs ++ ys) ≡ resolve_all r (resolve_all r stack xs) ys
unfolding resolve_all
resolve_all-append r stack [] ys = refl
resolve_all-append r stack (x ∷ xs) ys = resolve_all-append r (resolve r stack x) xs ys

pub resolve_of_IsPlain :
    (r : Bool) (stack : List Bytes) (x : Bytes) → IsPlain x → resolve r stack x ≡ x ∷ stack
unfolding resolve
resolve_of_IsPlain r stack x h =
    ground (arith, str_eq_iff x [], str_eq_iff x (bytes "."), str_eq_iff x (bytes ".."))

pub resolve_all_of_IsPlain :
    (r : Bool) (stack xs : List Bytes)
    → All IsPlain xs
    → reverse (resolve_all r stack xs) ≡ reverse stack ++ xs
unfolding resolve_all
resolve_all_of_IsPlain r stack [] h = sym (append-nil _)
resolve_all_of_IsPlain r stack (x ∷ xs) (p, h) =
    rw (resolve_of_IsPlain r stack x p, resolve_all_of_IsPlain r (x ∷ stack) xs h)
      (simp (reverse-cons, append_assoc))

-- The elements of an absolute path whose elements are known.
pub elements-rooted : (xs : List Bytes) → All IsElement xs → elements (rooted xs) ≡ xs
unfolding elements rooted str_eq
elements-rooted [] h = refl
elements-rooted (x ∷ xs) h =
    rw (split_slash-join_slash x xs (All-imp (x ∷ xs) (λ _ p. p.1) h))
      (resolve_all_of_IsPlain true [] (x ∷ xs) (All-imp (x ∷ xs) (λ _ p. p.0) h))

pub split_slash-rooted :
    (x : Bytes) (xs : List Bytes)
    → All IsElement (x ∷ xs)
    → split_slash (rooted (x ∷ xs)) ≡ [] ∷ x ∷ xs
unfolding rooted split_slash
split_slash-rooted x xs h = rw (split_slash-join_slash x xs (All-imp (x ∷ xs) (λ _ p. p.1) h))

pub clean-rooted : (xs : List Bytes) → All IsElement xs → clean (rooted xs) ≡ rooted xs
unfolding clean is_abs
clean-rooted xs h = unfold rooted in ap rooted (elements-rooted xs h)

resolve_all-rooted :
    (bs : List Bytes)
    → All IsElement bs
    → resolve_all true [] (split_slash (rooted bs)) ≡ reverse bs
unfolding elements is_abs rooted
resolve_all-rooted bs h = sym (reverse-reverse _) ∙ ap reverse (elements-rooted bs h)

-- What follows a slash after an absolute path is split and resolved from there.
pub elements-append :
    (bs : List Bytes) (rest : Bytes)
    → All IsElement bs
    → elements (rooted bs ++ (b'/' ∷ rest))
      ≡ reverse (resolve_all true (reverse bs) (split_slash rest))
unfolding elements is_abs rooted
elements-append bs rest h =
    rw (split_slash-append (rooted bs) rest, resolve_all-append, resolve_all-rooted bs h)

pub clean-append :
    (bs : List Bytes) (rest : Bytes)
    → All IsElement bs
    → clean (rooted bs ++ (b'/' ∷ rest))
      ≡ rooted (reverse (resolve_all true (reverse bs) (split_slash rest)))
unfolding clean is_abs
clean-append bs rest h = unfold rooted in ap rooted (elements-append bs rest h)

pub join-rooted :
    (bs : List Bytes) (c : Bytes) (cs : List Bytes)
    → All IsElement bs
    → join (rooted bs ∷ c ∷ cs)
      ≡ rooted (reverse (resolve_all true (reverse bs) (split_slash (join_slash (c ∷ cs)))))
unfolding join
join-rooted bs c cs h = unfold rooted in clean-append bs (join_slash (c ∷ cs)) h

-- Elements joined to an absolute path are appended to its elements.
pub join-elements :
    (bs : List Bytes) (c : Bytes) (cs : List Bytes)
    → All IsElement bs
    → All IsElement (c ∷ cs)
    → join (rooted bs ∷ c ∷ cs) ≡ rooted (bs ++ (c ∷ cs))
join-elements bs c cs h k =
    join-rooted bs c cs h
    ∙ (rw (split_slash-join_slash c cs (All-imp (c ∷ cs) (λ _ p. p.1) k)) (
        rw (
          resolve_all_of_IsPlain true (reverse bs) (c ∷ cs) (All-imp (c ∷ cs) (λ _ p. p.0) k),
          reverse-reverse,
        )))

resolve-dotdot : (x : Bytes) (stack : List Bytes) → resolve true (x ∷ stack) (bytes "..") ≡ stack
unfolding resolve str_eq
resolve-dotdot x stack = refl

-- A ".." among what is joined takes back the element before it.
pub join-dotdot :
    (bs : List Bytes) (d x y : Bytes)
    → All IsElement bs
    → IsElement d
    → IsElement x
    → IsElement y
    → join (rooted bs ∷ d ∷ bytes ".." ∷ x ∷ y ∷ []) ≡ rooted (bs ++ (x ∷ y ∷ []))
unfolding resolve_all
join-dotdot bs d x y h k l m =
    join-rooted bs d (bytes ".." ∷ x ∷ y ∷ []) h
    ∙ ap (λ parts. rooted (reverse (resolve_all true (reverse bs) parts)))
        (split_slash-join_slash d (bytes ".." ∷ x ∷ y ∷ []) (k.1, (ground arith, (l.1, (m.1, tt)))))
    ∙ rw
        (
          resolve_of_IsPlain true (reverse bs) d k.0,
          resolve-dotdot d (reverse bs),
          resolve_of_IsPlain true (reverse bs) x l.0,
          resolve_of_IsPlain true (x ∷ reverse bs) y m.0,
        )
        (simp (reverse-cons, reverse-reverse, append_assoc))

pub rooted_nil-ne : (xs : List Bytes) (rest : Bytes) → rooted [] ≢ rooted xs ++ (b'/' ∷ rest)
unfolding rooted join_slash
rooted_nil-ne xs rest e =
    absurd (omega (arith, ap length e, length-append (join_slash xs) (b'/' ∷ rest)))

-- Resolving never leaves an element that `Clean` would touch.
pub split_slash-Free : (x : Bytes) → All (Free b'/') (split_slash x)
unfolding split_slash
split_slash-Free [] = (tt, tt)
split_slash-Free (c ∷ x) =
    let (y, ys, e) = split_slash-cons x in
    let ih : All (Free b'/') (y ∷ ys) = subst (All (Free b'/')) e (split_slash-Free x) in
    elim (Bool-cases (c == b'/')) [
      | inl slash ↦ rw (slash, e) (tt, ih)
      | inr other ↦ rw (other, e) ((other, ih.0), ih.1)
    ]

resolve-IsElement :
    (stack : List Bytes) (x : Bytes)
    → All IsElement stack
    → Free b'/' x
    → All IsElement (resolve true stack x)
unfolding resolve
resolve-IsElement [] x h k =
    ground (arith, str_eq_iff x [], str_eq_iff x (bytes "."), str_eq_iff x (bytes ".."))
resolve-IsElement (y ∷ stack) x h k =
    ground (arith, str_eq_iff x [], str_eq_iff x (bytes "."), str_eq_iff x (bytes ".."))

pub resolve_all-IsElement :
    (stack xs : List Bytes)
    → All IsElement stack
    → All (Free b'/') xs
    → All IsElement (resolve_all true stack xs)
unfolding resolve_all
resolve_all-IsElement stack [] h k = h
resolve_all-IsElement stack (x ∷ xs) h (k, ks) =
    resolve_all-IsElement (resolve true stack x) xs (resolve-IsElement stack x h k) ks

-- `Clean` of an absolute path is absolute, and its elements are plain.
pub clean-IsElement : (p : Bytes) → All IsElement (elements (b'/' ∷ p))
unfolding elements is_abs
clean-IsElement p =
    All-reverse_aux IsElement (resolve_all true [] (split_slash (b'/' ∷ p))) []
      (resolve_all-IsElement [] (split_slash (b'/' ∷ p)) tt (split_slash-Free (b'/' ∷ p))) tt

pub clean-absolute : (p : Bytes) → clean (b'/' ∷ p) ≡ rooted (elements (b'/' ∷ p))
unfolding clean is_abs
clean-absolute p = refl

-- Cleaning a second time changes nothing.
pub clean_idempotent : (p : Bytes) → clean (clean (b'/' ∷ p)) ≡ clean (b'/' ∷ p)
clean_idempotent p = rw (clean-absolute p) (clean-rooted (elements (b'/' ∷ p)) (clean-IsElement p))

join_slash-append :
    (b : Bytes) (bs : List Bytes) (c : Bytes) (cs : List Bytes)
    → join_slash ((b ∷ bs) ++ (c ∷ cs)) ≡ join_slash (b ∷ bs) ++ (b'/' ∷ join_slash (c ∷ cs))
unfolding join_slash
join_slash-append b [] c cs = refl
join_slash-append b (d ∷ bs) c cs = simp (join_slash-append d bs c cs, append_assoc)

-- Below a non-empty absolute path.
pub rooted-append :
    (b : Bytes) (bs : List Bytes) (c : Bytes) (cs : List Bytes)
    → rooted ((b ∷ bs) ++ (c ∷ cs)) ≡ rooted (b ∷ bs) ++ (b'/' ∷ join_slash (c ∷ cs))
unfolding rooted
rooted-append b bs c cs = ap (◌∷◌ b'/') (join_slash-append b bs c cs)

-- The way back from a path to one above it.
rel_elements-append : (bs cs : List Bytes) → rel_elements bs (bs ++ cs) ≡ cs
unfolding rel_elements
rel_elements-append [] cs = refl
rel_elements-append (b ∷ bs) cs = rw ((str_eq_iff b b).1 refl) (rel_elements-append bs cs)

pub rel-rooted :
    (bs cs : List Bytes)
    → All IsElement bs
    → All IsElement (bs ++ cs)
    → rel (rooted bs) (rooted (bs ++ cs)) ≡ relative cs
unfolding rel
rel-rooted bs cs h k =
    rw (elements-rooted bs h, elements-rooted (bs ++ cs) k, rel_elements-append bs cs)
