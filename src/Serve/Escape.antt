-- ===== src/Serve/Escape.antt =====
-- The escapes of header values: no line break gets into a header, and an encoded file name can be
-- decoded again.
use synapse_media_worker.Base.{
  ℕ, ◌+◌, ◌-◌, ◌*◌, ◌/◌, ◌%◌, ◌<◌, ◌≡◌, refl, ap, true, false, [], ◌∷◌, ◌++◌, ltb, ◌==◌,
  if◌then◌else◌, Bytes, bytes, All, All-append, arith, Bool-cases, inl, inr, str_eq, contains,
}
use synapse_media_worker.Serve.{
  strip_newlines, escape_quotes, sanitize_header_value, url_encode_filename, hex_digit, mem_byte,
  is_safe, can_encode_filename_as_token, all_token_chars, content_disposition, disposition_type,
  inline_content_types, base_type, content_type_or_default,
}

-- Neither a carriage return nor a line feed.
abbrev pub InLine : ℕ → Type 0
InLine c = ((c == 13) ≡ false) × ((c == 10) ≡ false)

strip_newlines-InLine : (v : Bytes) → All InLine (strip_newlines v)
unfolding strip_newlines
strip_newlines-InLine [] = tt
strip_newlines-InLine (c ∷ v) = ground (arith, strip_newlines-InLine v)

escape_quotes-InLine : (v : Bytes) → All InLine v → All InLine (escape_quotes v)
unfolding escape_quotes
escape_quotes-InLine [] h = tt
escape_quotes-InLine (c ∷ v) h = ground (arith, escape_quotes-InLine v)

-- A sanitised header value holds no line break, whatever the value was.
pub sanitize_header_value-InLine : (v : Bytes) → All InLine (sanitize_header_value v)
unfolding sanitize_header_value
sanitize_header_value-InLine v = escape_quotes-InLine (strip_newlines v) (strip_newlines-InLine v)

-- What may stand in a header unescaped: no line break and no quote.
abbrev pub IsHeaderSafe : ℕ → Type 0
IsHeaderSafe c = InLine c × ((c == b'"') ≡ false)

sanitize_of_safe : (v : Bytes) → All IsHeaderSafe v → sanitize_header_value v ≡ v
unfolding sanitize_header_value strip_newlines escape_quotes
sanitize_of_safe [] h = refl
sanitize_of_safe (c ∷ v) h = ground (arith, sanitize_of_safe v)

hex_digit-IsHeaderSafe : (d : ℕ) → d < 16 → IsHeaderSafe (hex_digit d)
unfolding hex_digit
hex_digit-IsHeaderSafe d h = ground arith

url_encode_filename-IsHeaderSafe :
    (name : Bytes) → All (λ c. c < 256) name → All IsHeaderSafe (url_encode_filename name)
unfolding url_encode_filename mem_byte
url_encode_filename-IsHeaderSafe [] h = tt
url_encode_filename-IsHeaderSafe (c ∷ name) (b, h) = elim (Bool-cases (is_safe c)) [
  | inl safe ↦ rw safe (ground arith, url_encode_filename-IsHeaderSafe name h)
  | inr other ↦ rw other (
    ground arith,
    (
      hex_digit-IsHeaderSafe (c / 16) (omega arith),
      (hex_digit-IsHeaderSafe (c % 16) (omega arith), url_encode_filename-IsHeaderSafe name h),
    ),
  )
]

token-IsHeaderSafe : (name : Bytes) → all_token_chars name ≡ true → All IsHeaderSafe name
unfolding all_token_chars mem_byte
token-IsHeaderSafe [] h = tt
token-IsHeaderSafe (c ∷ name) h = (ground arith, token-IsHeaderSafe name (ground arith))

can_encode-all :
    (name : Bytes) → can_encode_filename_as_token name ≡ true → all_token_chars name ≡ true
unfolding can_encode_filename_as_token
can_encode-all [] h = refl
can_encode-all (c ∷ name) h = h

disposition_type-IsHeaderSafe : (m : Bytes) → All IsHeaderSafe (disposition_type m)
unfolding disposition_type
disposition_type-IsHeaderSafe m =
    elim (Bool-cases (contains inline_content_types (base_type (content_type_or_default m)))) [
      | inl i ↦ rw i (ground arith)
      | inr o ↦ rw o (ground arith)
    ]

content_disposition-IsHeaderSafe :
    (m name : Bytes) → All (λ c. c < 256) name → All IsHeaderSafe (content_disposition m name)
unfolding content_disposition
content_disposition-IsHeaderSafe m name h =
    let d = disposition_type m in
    let k = disposition_type-IsHeaderSafe m in
    elim (Bool-cases (str_eq name [])) [
      | inl empty ↦ rw empty k
      | inr full ↦ elim (Bool-cases (can_encode_filename_as_token name)) [
        | inl token ↦
            rw (full, token)
              (All-append IsHeaderSafe d (bytes "; filename=" ++ name) k (
                All-append IsHeaderSafe (bytes "; filename=") name (ground arith)
                  (token-IsHeaderSafe name (can_encode-all name token))))
        | inr other ↦
            rw (full, other)
              (All-append IsHeaderSafe d (bytes "; filename*=utf-8''" ++ url_encode_filename name) k
                (All-append IsHeaderSafe (bytes "; filename*=utf-8''") (url_encode_filename name)
                  (ground arith) (url_encode_filename-IsHeaderSafe name h)))
      ]
    ]

-- Sanitising does not change a Content-Disposition, so that a bare or encoded file name reaches
-- the client as it was written, for every media type and every upload name of bytes (numbers below
-- 256).
pub content_disposition-sanitized :
    (media_type upload_name : Bytes)
    → All (λ c. c < 256) upload_name
    → sanitize_header_value (content_disposition media_type upload_name)
      ≡ content_disposition media_type upload_name
unfolding content_disposition
content_disposition-sanitized media_type upload_name h =
    sanitize_of_safe (content_disposition media_type upload_name)
      (content_disposition-IsHeaderSafe media_type upload_name h)

hex_value : ℕ → ℕ
hex_value c = if ltb c b'A' then c - b'0' else c - b'A' + 10

-- Percent-decoding, as a client does it.
unfoldable pub url_decode : Bytes → Bytes
unfolding hex_value
url_decode [] = []
url_decode (c ∷ []) = c ∷ []
url_decode (c ∷ d ∷ []) = c ∷ d ∷ []
url_decode (c ∷ d ∷ e ∷ s) =
    let plain = c ∷ url_decode (d ∷ e ∷ s) in
    let coded = (hex_value d * 16 + hex_value e) ∷ url_decode s in
    if c == b'%' then coded else plain

hex_value-hex_digit : (d : ℕ) → d < 16 → hex_value (hex_digit d) ≡ d
unfolding hex_value hex_digit
hex_value-hex_digit d h = ground arith

url_decode_plain : (c : ℕ) (s : Bytes) → (c == b'%') ≡ false → url_decode (c ∷ s) ≡ c ∷ url_decode s
unfolding url_decode
url_decode_plain c [] h = refl
url_decode_plain c (d ∷ []) h = refl
url_decode_plain c (d ∷ e ∷ s) h = rw h

url_decode_coded :
    (c : ℕ) (s : Bytes)
    → c < 256
    → url_decode (b'%' ∷ hex_digit (c / 16) ∷ hex_digit (c % 16) ∷ s) ≡ c ∷ url_decode s
unfolding url_decode
url_decode_coded c s h =
    rw (hex_value-hex_digit (c / 16) (omega arith), hex_value-hex_digit (c % 16) (omega arith))
      (ap (λ n. n ∷ url_decode s) (omega arith))

-- The encoded file name decodes to the upload name, for every sequence of bytes (numbers below
-- 256).
pub url_decode-url_encode_filename :
    (name : Bytes) → All (λ c. c < 256) name → url_decode (url_encode_filename name) ≡ name
unfolding url_encode_filename mem_byte
url_decode-url_encode_filename [] h = unfold url_decode in refl
url_decode-url_encode_filename (c ∷ name) (b, h) = elim (Bool-cases (is_safe c)) [
  | inl safe ↦ rw (safe, url_decode_plain c _ (ground arith), url_decode-url_encode_filename name h)
  | inr other ↦ rw (other, url_decode_coded c _ b, url_decode-url_encode_filename name h)
]
