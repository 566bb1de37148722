-- ===== src/Thumbnail/Choice.antt =====
-- Which requests are accepted, which stored thumbnail answers one, and which are generated.
use synapse_media_worker.Base.{
  Option, ℕ, ◌≡◌, refl, subst, true, false, ◌||◌, none, some, List, [], ◌∷◌, inl, inr, ◌⊎◌, ◌↔◌,
  Bytes, bytes, str_eq, str_eq_iff, ok, bind-ok, All, arith, Bool-cases, Option-cases, slt64,
  if◌then◌else◌, contains,
}
use synapse_media_worker.Decimal.{parse_int}
use synapse_media_worker.Thumbnail.{
  ThumbnailRequest, ThumbnailRow, ThumbnailQuery, RequestError, parse_thumbnail_request, positive,
  requested_method, method_scale, method_crop, type_png, type_webp, type_jpeg, matches, find_exact,
  can_generate, decodable_source_types, base_media_type, invalid_width, invalid_height,
}

-- A row that agrees with a request in all that identifies a thumbnail.
pub record Agrees (row : ThumbnailRow) (req : ThumbnailRequest) : Type 0 where
  pub same_width : row.width ≡ req.width
  pub same_height : row.height ≡ req.height
  pub same_method : row.method ≡ req.method
  pub same_type : row.type ≡ req.type

matches-Agrees :
    (row : ThumbnailRow) (req : ThumbnailRequest) → matches row req ≡ true → Agrees row req
unfolding matches
matches-Agrees row req h = record {
  same_width = ground arith;
  same_height = ground arith;
  same_method = ground (arith, str_eq_iff row.method req.method);
  same_type = ground (arith, str_eq_iff row.type req.type);
}

Agrees-matches :
    (row : ThumbnailRow) (req : ThumbnailRequest) → Agrees row req → matches row req ≡ true
unfolding matches
Agrees-matches row req a =
    ground (arith, str_eq_iff row.method req.method, str_eq_iff row.type req.type)

-- The rows that stand before the first one that agrees.
pub data FirstAgreeing (req : ThumbnailRequest) : List ThumbnailRow → ThumbnailRow → Type 0 where
  here :
      (row : ThumbnailRow) (rows : List ThumbnailRow)
      → Agrees row req
      → FirstAgreeing req (row ∷ rows) row
  later :
      (row : ThumbnailRow) (rows : List ThumbnailRow) (found : ThumbnailRow)
      → ¬ Agrees row req
      → FirstAgreeing req rows found
      → FirstAgreeing req (row ∷ rows) found

find_exact-some :
    (rows : List ThumbnailRow) (req : ThumbnailRequest) (found : ThumbnailRow)
    → find_exact rows req ≡ some found
    → FirstAgreeing req rows found
unfolding find_exact
find_exact-some [] req found e = cc
find_exact-some (row ∷ rows) req found e = elim (Bool-cases (matches row req)) [
  | inl m ↦
      let same : row ≡ found = cc (rw m at e) in
      subst (FirstAgreeing req (row ∷ rows)) same (here row rows (matches-Agrees row req m))
  | inr n ↦
      later row rows found (λ a. cc (Agrees-matches row req a))
        (find_exact-some rows req found (ground arith))
]

find_exact-none :
    (rows : List ThumbnailRow) (req : ThumbnailRequest)
    → find_exact rows req ≡ none
    → All (λ row. ¬ Agrees row req) rows
unfolding find_exact
find_exact-none [] req e = tt
find_exact-none (row ∷ rows) req e = elim (Bool-cases (matches row req)) [
  | inl m ↦ ground arith
  | inr n ↦ ((λ a. cc (Agrees-matches row req a)), find_exact-none rows req (ground arith))
]

-- What a lookup may bring: the first stored thumbnail that agrees, or none if none agrees.
abbrev pub Finds : List ThumbnailRow → ThumbnailRequest → Option ThumbnailRow → Type 0
Finds rows req none = All (λ row. ¬ Agrees row req) rows
Finds rows req (some found) = FirstAgreeing req rows found

find_exact-Finds :
    (rows : List ThumbnailRow) (req : ThumbnailRequest) (o : Option ThumbnailRow)
    → find_exact rows req ≡ o
    → Finds rows req o
find_exact-Finds rows req none e = find_exact-none rows req e
find_exact-Finds rows req (some found) e = find_exact-some rows req found e

-- The thumbnail that is found is the first stored one that agrees with the request in width, height,
-- method and type; and where none is found, no stored one agrees.
pub find_exact_lem :
    (rows : List ThumbnailRow) (req : ThumbnailRequest) → Finds rows req (find_exact rows req)
find_exact_lem rows req = find_exact-Finds rows req (find_exact rows req) refl

-- What every accepted request satisfies: int64 sizes above zero, one of the two methods, and the
-- output type that goes with `animated`.
pub record IsRequest (req : ThumbnailRequest) : Type 0 where
  pub width_pos : slt64 0 req.width ≡ true
  pub height_pos : slt64 0 req.height ≡ true
  pub known_method : (req.method ≡ method_scale) ⊎ (req.method ≡ method_crop)
  pub output_type : req.type ≡ (if req.animated then type_webp else type_png)

positive-pos : (text : Bytes) (e : RequestError) (n : ℕ) → positive text e ≡ ok n → slt64 0 n ≡ true
unfolding positive
positive-pos text e n h = elim (Option-cases (parse_int text)) [
  | inl missing ↦ cc (rw (missing, positive) at h)
  | inr (m, found) ↦ elim (Bool-cases (slt64 0 m)) [
    | inl pos ↦
        let same : m ≡ n = cc (rw (found, positive, pos) at h) in
        subst (λ k. slt64 0 k ≡ true) same pos
    | inr neg ↦ cc (rw (found, positive, neg) at h)
  ]
]

method_of_test :
    (m : Bytes)
    → (str_eq m method_scale || str_eq m method_crop) ≡ true
    → (m ≡ method_scale) ⊎ (m ≡ method_crop)
method_of_test m h = elim (Bool-cases (str_eq m method_scale)) [
  | inl s ↦ inl ((str_eq_iff m method_scale).0 s)
  | inr o ↦ inr ((str_eq_iff m method_crop).0 (rw o at h))
]

-- Every request that is accepted asks for sizes above zero, by a known method, in the output type
-- that goes with `animated`, whatever the query holds.
pub parse_thumbnail_request-IsRequest :
    (q : ThumbnailQuery) (req : ThumbnailRequest)
    → parse_thumbnail_request q ≡ ok req
    → IsRequest req
unfolding parse_thumbnail_request
parse_thumbnail_request-IsRequest q req h =
    let (w, w_ok, h1) = bind-ok (positive q.width invalid_width) _ h in
    let (ht, ht_ok, h2) = bind-ok (positive q.height invalid_height) _ h1 in
    let m = requested_method q.method in
    elim (Bool-cases (str_eq m method_scale || str_eq m method_crop)) [
      | inl known ↦
          let made : ThumbnailRequest = record {
            width = w;
            height = ht;
            method = m;
            animated = str_eq q.animated (bytes "true");
            type = if str_eq q.animated (bytes "true") then type_webp else type_png;
          } in
          let same : made ≡ req = cc (rw known at h2) in
          subst IsRequest same (record {
            width_pos = positive-pos q.width invalid_width w w_ok;
            height_pos = positive-pos q.height invalid_height ht ht_ok;
            known_method = method_of_test m known;
            output_type = refl;
          })
      | inr unknown ↦ cc (rw unknown at h2)
    ]

-- Nothing animated, and nothing in WebP, is generated; what is generated comes from one of the
-- listed source types and is PNG or JPEG.
pub can_generate_iff :
    (source_type : Bytes) (req : ThumbnailRequest)
    → (can_generate source_type req ≡ true) ↔ (
        (contains decodable_source_types (base_media_type source_type) ≡ true)
        × (req.animated ≡ false)
        × ((req.type ≡ type_png) ⊎ (req.type ≡ type_jpeg)))
unfolding can_generate
can_generate_iff source_type req = (
  (λ h. (
    ground arith,
    ground arith,
    ground (arith, str_eq_iff req.type type_png, str_eq_iff req.type type_jpeg),
  )),
  (λ (s, a, t). ground (
    arith,
    str_eq_iff req.type type_png,
    str_eq_iff req.type type_jpeg,
    str_eq_iff req.type type_webp,
  )),
)
