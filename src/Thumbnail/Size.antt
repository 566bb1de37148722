-- ===== src/Thumbnail/Size.antt =====
-- The arithmetic of thumbnail sizes, wherever no product leaves the range of int64.
use synapse_media_worker.Base.{
  ℕ, ◌+◌, ◌-◌, ◌*◌, ◌/◌, ◌<◌, ◌≤◌, ◌≡◌, refl, true, false, ltb, if◌then◌else◌, Bool-cases, inl, inr,
  ◌⊎◌, arith, max, two63, mul64_exact, slt64_exact, div64_exact, sub64_exact, add64_exact, ltb→lt,
}
use native.Mathlib.Decide.{dec_lt}
use native.Mathlib.Nat.{
  le-div_iff_mul-le, div-lt_iff_lt-mul, div-mul-le_self, lt-div-mul-add, div-le_of_le-mul,
  div-eq_of_lt,
}
use synapse_media_worker.Thumbnail.{max64, aspect, rect, Crop, crop_box}

-- Sizes for which Go's arithmetic is exact: all are positive, and no product reaches 2^63.
pub record InRange (src_w src_h w h : ℕ) : Type 0 where
  pub src_w_pos : 0 < src_w
  pub src_h_pos : 0 < src_h
  pub w_pos : 0 < w
  pub h_pos : 0 < h
  pub w_product : w * src_h < two63
  pub h_product : h * src_w < two63
  pub src_w_small : src_w < two63
  pub src_h_small : src_h < two63
  pub w_small : w < two63
  pub h_small : h < two63

max64_exact : (a b : ℕ) → a < two63 → b < two63 → max64 a b ≡ max a b
unfolding max64
max64_exact a b h k = rw (slt64_exact a b h k) (elim (Bool-cases (ltb a b)) [
  | inl lt ↦ rw lt (omega (arith, ltb→lt a b lt))
  | inr ge ↦ rw ge (ground arith)
])

-- `aspect` in exact arithmetic.
aspect_exact : ℕ → ℕ → ℕ → ℕ → ℕ × ℕ
aspect_exact src_w src_h w h =
    if ltb (w * src_h) (h * src_w)
    then (w, max (w * src_h / src_w) 1)
    else (max (h * src_w / src_h) 1, h)

div-le : (a b : ℕ) → a / b ≤ a
div-le a b = omega arith

aspect-exact :
    (src_w src_h w h : ℕ)
    → InRange src_w src_h w h
    → aspect src_w src_h w h ≡ aspect_exact src_w src_h w h
unfolding aspect aspect_exact
aspect-exact src_w src_h w h r = rw (
  mul64_exact w src_h (omega arith),
  mul64_exact h src_w (omega arith),
  slt64_exact (w * src_h) (h * src_w) r.w_product r.h_product,
  div64_exact (w * src_h) src_w r.w_product r.src_w_small,
  div64_exact (h * src_w) src_h r.h_product r.src_h_small,
  max64_exact (w * src_h / src_w) 1 (omega (arith, div-le (w * src_h) src_w)) (omega arith),
  max64_exact (h * src_w / src_h) 1 (omega (arith, div-le (h * src_w) src_h)) (omega arith),
)

-- The quotient of a positive divisor lies between these products.
div_bounds : (n d : ℕ) → 0 < d → (n / d * d ≤ n) × (n < n / d * d + d)
div_bounds n d h = (div-mul-le_self n d, lt-div-mul-add h)

div-le_of_lt : (n d k : ℕ) → 0 < d → n < k * d → n / d < k
div-le_of_lt n d k h l = (div-lt_iff_lt-mul h).1 l

le-div : (n d k : ℕ) → 0 < d → k * d ≤ n → k ≤ n / d
le-div n d k h l = (le-div_iff_mul-le h).1 l

-- The exact proportional side `n / d`, rounded down and at least 1.
abbrev pub IsSide : ℕ → ℕ → ℕ → Type 0
IsSide n d q = ((q * d ≤ n) × (n < q * d + d)) ⊎ ((q ≡ 1) × (n < d))

side : (n d : ℕ) → 0 < d → IsSide n d (max (n / d) 1)
side n d h = elim (dec_lt n d) [
  | yes small ↦ let none_whole : n / d ≡ 0 = div-eq_of_lt small in inr (omega arith, small)
  | no large ↦
      let whole : 1 ≤ n / d = le-div n d 1 h (omega arith) in
      let same : max (n / d) 1 ≡ n / d = omega arith in inl (rw same (div_bounds n d h))
]

-- The size fits inside the rectangle and is not empty; one side is the rectangle's, and the other
-- is the source's proportion of it, rounded down but at least 1.
abbrev pub Fits : ℕ → ℕ → ℕ → ℕ → ℕ × ℕ → Type 0
Fits src_w src_h w h size =
    (1 ≤ size.0)
    × (size.0 ≤ w)
    × (1 ≤ size.1)
    × (size.1 ≤ h)
    × (((size.0 ≡ w) × IsSide (w * src_h) src_w size.1)
        ⊎ ((size.1 ≡ h) × IsSide (h * src_w) src_h size.0))

aspect_exact-Fits :
    (src_w src_h w h : ℕ)
    → InRange src_w src_h w h
    → Fits src_w src_h w h (aspect_exact src_w src_h w h)
unfolding aspect_exact
aspect_exact-Fits src_w src_h w h r = elim (Bool-cases (ltb (w * src_h) (h * src_w))) [
  | inl less ↦
      let below : w * src_h / src_w < h =
        div-le_of_lt (w * src_h) src_w h r.src_w_pos (ltb→lt _ _ less) in
      rw less (
        r.w_pos,
        omega arith,
        omega arith,
        omega arith,
        inl (refl, side (w * src_h) src_w r.src_w_pos),
      )
  | inr more ↦
      let ge : h * src_w ≤ src_h * w = ground arith in
      let below : h * src_w / src_h ≤ w = div-le_of_le-mul src_h ge in
      rw more (
        omega arith,
        omega arith,
        r.h_pos,
        omega arith,
        inr (refl, side (h * src_w) src_h r.src_h_pos),
      )
]

-- The scaled size fits the requested rectangle and is not empty; one side is the side of the
-- rectangle, and the other keeps the proportion of the source, rounded down but at least 1
-- (`Fits`), for positive sizes whose products are below 2^63.
pub aspect-Fits :
    (src_w src_h w h : ℕ) → InRange src_w src_h w h → Fits src_w src_h w h (aspect src_w src_h w h)
aspect-Fits src_w src_h w h r =
    rw (aspect-exact src_w src_h w h r) (aspect_exact-Fits src_w src_h w h r)

rect_ordered :
    (x0 y0 x1 y1 : ℕ)
    → x0 ≤ x1
    → y0 ≤ y1
    → x1 < two63
    → y1 < two63
    → rect x0 y0 x1 y1 ≡ record { min_x = x0; min_y = y0; max_x = x1; max_y = y1 }
unfolding rect
rect_ordered x0 y0 x1 y1 h k l m =
    rw (slt64_exact x1 x0 l (omega arith), slt64_exact y1 y0 m (omega arith)) (ground arith)

-- The image is scaled to cover the target, and the box cuts exactly the target's size out of it.
abbrev pub Covers : ℕ → ℕ → Crop → Type 0
Covers w h c =
    (w ≤ c.scaled_w)
    × (h ≤ c.scaled_h)
    × (c.box.min_x + w ≡ c.box.max_x)
    × (c.box.max_x ≤ c.scaled_w)
    × (c.box.min_y + h ≡ c.box.max_y)
    × (c.box.max_y ≤ c.scaled_h)
    × ((c.scaled_w ≡ w) ⊎ (c.scaled_h ≡ h))

crop_wide :
    (src_w src_h w h : ℕ)
    → InRange src_w src_h w h
    → ltb (h * src_w) (w * src_h) ≡ true
    → h ≤ w * src_h / src_w
    → Covers w h (crop_box src_w src_h w h)
unfolding crop_box
crop_wide src_w src_h w h r less ge =
    let s = w * src_h / src_w in
    let small : s < two63 = omega (arith, div-le (w * src_h) src_w) in
    rw
      (
        mul64_exact h src_w (omega arith),
        mul64_exact w src_h (omega arith),
        slt64_exact (h * src_w) (w * src_h) r.h_product r.w_product,
        less,
        div64_exact (w * src_h) src_w r.w_product r.src_w_small,
        sub64_exact s h ge (omega arith),
        div64_exact (s - h) 2 (omega arith) (omega arith),
        add64_exact h ((s - h) / 2) (omega arith),
        rect_ordered 0 ((s - h) / 2) w (h + (s - h) / 2) (omega arith) (omega arith) r.w_small
            (omega arith),
      )
      (omega arith, ge, omega arith, omega arith, omega arith, omega arith, inl refl)

crop_tall :
    (src_w src_h w h : ℕ)
    → InRange src_w src_h w h
    → ltb (h * src_w) (w * src_h) ≡ false
    → w ≤ h * src_w / src_h
    → Covers w h (crop_box src_w src_h w h)
unfolding crop_box
crop_tall src_w src_h w h r more ge =
    let s = h * src_w / src_h in
    let small : s < two63 = omega (arith, div-le (h * src_w) src_h) in
    rw
      (
        mul64_exact h src_w (omega arith),
        mul64_exact w src_h (omega arith),
        slt64_exact (h * src_w) (w * src_h) r.h_product r.w_product,
        more,
        div64_exact (h * src_w) src_h r.h_product r.src_h_small,
        sub64_exact s w ge (omega arith),
        div64_exact (s - w) 2 (omega arith) (omega arith),
        add64_exact w ((s - w) / 2) (omega arith),
        rect_ordered ((s - w) / 2) 0 (w + (s - w) / 2) h (omega arith) (omega arith) (omega arith)
            r.h_small,
      )
      (ge, omega arith, omega arith, omega arith, omega arith, omega arith, inr refl)

-- After scaling, a box of exactly the requested size lies inside the image, and the image is not
-- scaled beyond covering it (`Covers`), for positive sizes whose products are below 2^63.
pub crop_box-Covers :
    (src_w src_h w h : ℕ) → InRange src_w src_h w h → Covers w h (crop_box src_w src_h w h)
crop_box-Covers src_w src_h w h r = elim (Bool-cases (ltb (h * src_w) (w * src_h))) [
  | inl less ↦
      let lt = ltb→lt (h * src_w) (w * src_h) less in
      crop_wide src_w src_h w h r less (le-div (w * src_h) src_w h r.src_w_pos (omega arith))
  | inr more ↦
      let ge : w * src_h ≤ h * src_w = ground arith in
      crop_tall src_w src_h w h r more (le-div (h * src_w) src_h w r.src_h_pos ge)
]
