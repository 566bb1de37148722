-- ===== src/ThumbCache/Key.antt =====
-- Two thumbnails never share an entry of the cache.
use synapse_media_worker.Base.{
  ℕ, ◌<◌, ◌≡◌, refl, Bool, true, false, [], ◌∷◌, ◌++◌, Bytes, Free, cut-injective, All-append,
  All-imp, is_digit, two63, arith, lt→ltb, ◌==◌,
}
use synapse_media_worker.Decimal.{itoa, itoa_int64}
use synapse_media_worker.Decimal.Laws.{itoa-digits, itoa-injective}
use synapse_media_worker.Thumbnail.{ThumbnailRequest}
use synapse_media_worker.ThumbCache.{format_bool, key_text, cache_key}

itoa_int64-itoa : (n : ℕ) → n < two63 → itoa_int64 n ≡ itoa n
unfolding itoa_int64
itoa_int64-itoa n h = rw (lt→ltb n two63 h) refl

digit-other : (sep c : ℕ) → (is_digit sep ≡ false) → is_digit c ≡ true → (c == sep) ≡ false
unfolding is_digit
digit-other sep c h k = ground arith

itoa-Free : (sep n : ℕ) → is_digit sep ≡ false → Free sep (itoa n)
itoa-Free sep n h = All-imp (itoa n) (λ c k. digit-other sep c h k) (itoa-digits n)

no_digit : (is_digit 0 ≡ false) × (is_digit b'x' ≡ false)
unfolding is_digit
no_digit = (refl, refl)

-- The text of a size.
abbrev size_text : ℕ → ℕ → Bytes
size_text w h = itoa_int64 w ++ b'x' ∷ itoa_int64 h

size_text-Free : (w h : ℕ) → w < two63 → h < two63 → Free 0 (size_text w h)
size_text-Free w h small low =
    rw (itoa_int64-itoa w small, itoa_int64-itoa h low)
      (All-append (λ c. (c == 0) ≡ false) (itoa w) (b'x' ∷ itoa h) (itoa-Free 0 w no_digit.0)
        (refl, itoa-Free 0 h no_digit.0))

size_text-injective :
    (w h x y : ℕ)
    → (w < two63) × (h < two63)
    → (x < two63) × (y < two63)
    → size_text w h ≡ size_text x y
    → (w ≡ x) × (h ≡ y)
size_text-injective w h x y (sw, sh) (sx, sy) e =
    let plain : itoa w ++ b'x' ∷ itoa h ≡ itoa x ++ b'x' ∷ itoa y =
      rw (itoa_int64-itoa w sw, itoa_int64-itoa h sh, itoa_int64-itoa x sx, itoa_int64-itoa y sy) at
        e in
    let (first, second) =
      cut-injective b'x' (itoa w) (itoa x) _ _ (itoa-Free b'x' w no_digit.1)
        (itoa-Free b'x' x no_digit.1) plain in
    (itoa-injective w x first, itoa-injective h y second)

format_bool-injective : (a b : Bool) → format_bool a ≡ format_bool b → a ≡ b
unfolding format_bool
format_bool-injective true true e = refl
format_bool-injective true false e = cc
format_bool-injective false true e = cc
format_bool-injective false false e = refl

format_bool-Free : (b : Bool) → Free 0 (format_bool b)
unfolding format_bool
format_bool-Free true = (refl, (refl, (refl, (refl, tt))))
format_bool-Free false = (refl, (refl, (refl, (refl, (refl, tt)))))

-- A request whose sizes fit an int and whose texts have no NUL byte.
abbrev pub IsKeyed : ThumbnailRequest → Type 0
IsKeyed r = (r.width < two63) × (r.height < two63) × Free 0 r.method × Free 0 r.type

-- Two requests that ask for one thumbnail.
abbrev pub IsSame : ThumbnailRequest → ThumbnailRequest → Type 0
IsSame r s =
    (r.width ≡ s.width)
    × (r.height ≡ s.height)
    × (r.method ≡ s.method)
    × (r.type ≡ s.type)
    × (r.animated ≡ s.animated)

-- Thumbnails with one cache key are of one medium of one server and of the same size, method, type
-- and animation, as long as the hash has no collision, sizes are below 2^63, and no part holds a NUL
-- byte.
pub cache_key-IsSame :
    (hash : Bytes → Bytes)
    → ((x y : Bytes) → hash x ≡ hash y → x ≡ y)
    → (origin id other_origin other_id : Bytes) (r s : ThumbnailRequest) → Free 0 origin × Free 0 id
    → Free 0 other_origin × Free 0 other_id
    → IsKeyed r
    → IsKeyed s
    → cache_key hash origin id r ≡ cache_key hash other_origin other_id s
    → (origin ≡ other_origin) × (id ≡ other_id) × IsSame r s
unfolding cache_key key_text
cache_key-IsSame hash injective origin id other_origin other_id r s (o, i) (oo, oi)
      (wide, high, rm, rt) (wide', high', sm, st) e =
    let (origins, e1) = cut-injective 0 origin other_origin _ _ o oo (injective _ _ e) in
    let (ids, e2) = cut-injective 0 id other_id _ _ i oi e1 in
    let (sizes, e3) =
      cut-injective 0 (size_text r.width r.height) (size_text s.width s.height) _ _
        (size_text-Free _ _ wide high) (size_text-Free _ _ wide' high') e2 in
    let (methods, e4) = cut-injective 0 r.method s.method _ _ rm sm e3 in
    let (types, e5) = cut-injective 0 r.type s.type _ _ rt st e4 in
    let (flags, e6) =
      cut-injective 0 (format_bool r.animated) (format_bool s.animated) [] [] (format_bool-Free _)
        (format_bool-Free _) e5 in
    let (widths, heights) =
      size_text-injective r.width r.height s.width s.height (wide, high) (wide', high') sizes in
    (origins, ids, (widths, heights, methods, types, format_bool-injective _ _ flags))
