-- ===== src/Proxy/Pick.antt =====
-- The endpoint that is picked has the fewest requests in flight.
use native.Mathlib.Nat.{mod-add-mod, mod-eq_of_lt, add-mod_right, mod-lt}
use synapse_media_worker.Base.{
  ℕ, zero, suc, ◌+◌, ◌-◌, ◌%◌, ◌≤◌, ◌<◌, ◌≡◌, sym, ap, ◌∙◌, subst, false, Option, none, some, List,
  ltb, leb, leb→le, arith, Bool-cases, inl, inr, two64,
}
use synapse_media_worker.Proxy.{Loads, is_tried, lighter, consider, pick_loop, pick}

module _ (n : ℕ) (loads : Loads) (tried : List ℕ) where
  -- The best endpoint so far is one, has not been tried, and is no busier than `x`.
  abbrev pub IsLightest : ℕ → Option ℕ → Type 0
  IsLightest x none = ⊥
  IsLightest x (some b) = (b < n) × (is_tried tried b ≡ false) × (loads b ≤ loads x)

  lighter-IsLightest :
      (x ep : ℕ) (best : Option ℕ)
      → ep < n
      → is_tried tried ep ≡ false
      → IsLightest x best
      → IsLightest x (lighter loads ep best)
  unfolding lighter
  lighter-IsLightest x ep none small fresh h = absurd h
  lighter-IsLightest x ep (some b) small fresh (h, k, le) =
      elim (Bool-cases (ltb (loads ep) (loads b))) [
        | inl less ↦ rw less (small, fresh, ground arith)
        | inr more ↦ rw more (h, k, le)
      ]

  consider-IsLightest :
      (x ep : ℕ) (best : Option ℕ)
      → ep < n
      → IsLightest x best
      → IsLightest x (consider loads tried ep best)
  unfolding consider
  consider-IsLightest x ep best small h = elim (Bool-cases (is_tried tried ep)) [
    | inl old ↦ rw old h
    | inr fresh ↦ rw fresh (lighter-IsLightest x ep best small fresh h)
  ]

  -- What was found before, if anything.
  abbrev pub IsOpen : Option ℕ → Type 0
  IsOpen none = Unit {0}
  IsOpen (some b) = (b < n) × (is_tried tried b ≡ false)

  lighter-own :
      (x : ℕ) (best : Option ℕ)
      → x < n
      → is_tried tried x ≡ false
      → IsOpen best
      → IsLightest x (lighter loads x best)
  unfolding lighter
  lighter-own x none small fresh h = (small, fresh, omega arith)
  lighter-own x (some b) small fresh (h, k) = elim (Bool-cases (ltb (loads x) (loads b))) [
    | inl less ↦ rw less (small, fresh, omega arith)
    | inr more ↦ rw more (h, k, ground arith)
  ]

  consider-own :
      (x : ℕ) (best : Option ℕ)
      → x < n
      → is_tried tried x ≡ false
      → IsOpen best
      → IsLightest x (consider loads tried x best)
  unfolding consider
  consider-own x best small fresh h = rw fresh (lighter-own x best small fresh h)

  lighter-IsOpen :
      (ep : ℕ) (best : Option ℕ)
      → ep < n
      → is_tried tried ep ≡ false
      → IsOpen best
      → IsOpen (lighter loads ep best)
  unfolding lighter
  lighter-IsOpen ep none small fresh h = (small, fresh)
  lighter-IsOpen ep (some b) small fresh h = elim (Bool-cases (ltb (loads ep) (loads b))) [
    | inl less ↦ rw less (small, fresh)
    | inr more ↦ rw more h
  ]

  consider-IsOpen :
      (ep : ℕ) (best : Option ℕ) → ep < n → IsOpen best → IsOpen (consider loads tried ep best)
  unfolding consider
  consider-IsOpen ep best small h = elim (Bool-cases (is_tried tried ep)) [
    | inl old ↦ rw old h
    | inr fresh ↦ rw fresh (lighter-IsOpen ep best small fresh h)
  ]

  module _ (offset : ℕ) (some_n : 0 < n) where
    abbrev position : ℕ → ℕ
    position i = (offset + i) % two64 % n

    position-small : (i : ℕ) → position i < n
    position-small i = mod-lt _ some_n

    pick_loop-IsLightest :
        (x rounds i : ℕ) (best : Option ℕ)
        → IsLightest x best
        → IsLightest x (pick_loop n loads tried offset rounds i best)
    unfolding pick_loop
    pick_loop-IsLightest x zero i best h = h
    pick_loop-IsLightest x (suc rounds) i best h =
        pick_loop-IsLightest x rounds (i + 1) _
          (consider-IsLightest x (position i) best (position-small i) h)

    pick_loop-IsOpen :
        (rounds i : ℕ) (best : Option ℕ)
        → IsOpen best
        → IsOpen (pick_loop n loads tried offset rounds i best)
    unfolding pick_loop
    pick_loop-IsOpen zero i best h = h
    pick_loop-IsOpen (suc rounds) i best h =
        pick_loop-IsOpen rounds (i + 1) _ (consider-IsOpen (position i) best (position-small i) h)

    -- An endpoint that comes up in the rounds that are left is taken into account.
    pick_loop-reaches :
        (x p rounds i : ℕ) (best : Option ℕ)
        → position p ≡ x
        → is_tried tried x ≡ false
        → i ≤ p
        → p < i + rounds
        → IsOpen best
        → IsLightest x (pick_loop n loads tried offset rounds i best)
    unfolding pick_loop
    pick_loop-reaches x p zero i best at fresh low high h = absurd (omega arith)
    pick_loop-reaches x p (suc rounds) i best at fresh low high h = elim (Bool-cases (leb p i)) [
      | inl here ↦
          let same : i ≡ p = ground arith in
          let now : position i ≡ x = ap position same ∙ at in
          let small : x < n = subst (λ y. y < n) now (position-small i) in
          pick_loop-IsLightest x rounds (i + 1) _ (
            subst (λ y. IsLightest x (consider loads tried y best)) (sym now)
              (consider-own x best small fresh h))
      | inr later ↦
          pick_loop-reaches x p rounds (i + 1) _ at fresh (ground arith) (omega arith)
            (consider-IsOpen (position i) best (position-small i) h)
    ]

    -- The round in which `x` comes up.
    position-exact : (i x : ℕ) → offset + i < two64 → (offset % n + i) % n ≡ x → position i ≡ x
    position-exact i x small e =
        ap (λ t. t % n) (mod-eq_of_lt small) ∙ sym (mod-add-mod offset n i) ∙ e

    reached : (x : ℕ) → x < n → offset + n < two64 → (p : ℕ) × (p < n) × (position p ≡ x)
    reached x small no_wrap =
        let start : offset % n < n = mod-lt offset some_n in
        elim (Bool-cases (leb (offset % n) x)) [
          | inl before ↦
              let le : offset % n ≤ x = leb→le (offset % n) x before in
              let sum : offset % n + (x - offset % n) ≡ x = omega arith in
              (
                x - offset % n,
                omega arith,
                position-exact (x - offset % n) x (omega arith)
                    (ap (λ t. t % n) sum ∙ mod-eq_of_lt small),
              )
          | inr behind ↦
              let gt : x < offset % n = ground arith in
              let sum : offset % n + ((x + n) - offset % n) ≡ x + n = omega arith in
              (
                (x + n) - offset % n,
                omega arith,
                position-exact ((x + n) - offset % n) x (omega arith)
                    (ap (λ t. t % n) sum ∙ add-mod_right x n ∙ mod-eq_of_lt small),
              )
        ]

pub pick-IsOpen :
    (n : ℕ) (loads : Loads) (tried : List ℕ) (offset : ℕ)
    → 0 < n
    → IsOpen n loads tried (pick n loads tried offset)
unfolding pick
pick-IsOpen n loads tried offset some_n = pick_loop-IsOpen n loads tried offset some_n n 0 none tt

-- Of the endpoints that have not been tried, the one that is picked has no more requests in flight
-- than any other, and one is picked whenever there is one: for every untried endpoint `x` there is a
-- pick, below `n`, untried, and no busier than `x`. The counter is not about to wrap around 2^64.
pub pick-IsLightest :
    (n : ℕ) (loads : Loads) (tried : List ℕ) (offset x : ℕ)
    → offset + n < two64
    → x < n
    → is_tried tried x ≡ false
    → IsLightest n loads tried x (pick n loads tried offset)
unfolding pick
pick-IsLightest n loads tried offset x no_wrap small fresh =
    let some_n : 0 < n = omega arith in
    let (p, low, at) = reached n loads tried offset some_n x small no_wrap in
    pick_loop-reaches n loads tried offset some_n x p n 0 none at fresh (omega arith) (omega arith)
      tt
