-- ===== src/Multipart.antt =====
-- multipart.go: the multipart/mixed body of a federation download.
pub mod Laws
mod Tests
use synapse_media_worker.Base.{
  ℕ, ◌+◌, ◌%◌, ◌≤◌, Bool, List, [], ◌∷◌, ◌++◌, Bytes, bytes, length, two64, two63, Option, none,
  some,
}
use synapse_media_worker.Decimal.{itoa}
use synapse_media_worker.Serve.{
  Headers, set_header, set_cache_headers, sanitize_header_value, content_type_header,
  content_disposition,
}

abbrev pub crlf : Bytes
crlf = 13 ∷ 10 ∷ []

abbrev pub metadata_json : Bytes
metadata_json = bytes "{}"

abbrev pub metadata_ct_line : Bytes
metadata_ct_line = bytes "Content-Type: application/json"

abbrev pub multipart_fixed_n : ℕ
multipart_fixed_n = 156

pub record MultipartParts : Type 0 where
  pub boundary : Bytes
  pub content_type_line : Bytes
  pub disposition_line : Bytes

unfoldable pub new_multipart_parts : Bytes → Bytes → Bytes → MultipartParts
new_multipart_parts boundary media_type upload_name = record {
  boundary = boundary;
  content_type_line =
      bytes "Content-Type: " ++ sanitize_header_value (content_type_header media_type);
  disposition_line =
      bytes "Content-Disposition: "
      ++ sanitize_header_value (content_disposition media_type upload_name);
}

-- `int64` arithmetic: the sum wraps once at the end, which is the same.
unfoldable pub fixed_overhead : MultipartParts → ℕ
fixed_overhead p =
    let b = length p.boundary in
    (2
      + (2 + b + 2)
      + length metadata_ct_line
      + 2
      + 2
      + 2
      + (2 + b + 2)
      + 2
      + 2
      + 2
      + (2 + 2 + b + 2 + 2))
    % two64

unfoldable pub content_length : MultipartParts → ℕ → ℕ
unfolding fixed_overhead
content_length p media_length =
    (media_length
      + length metadata_json
      + length p.content_type_line
      + length p.disposition_line
      + fixed_overhead p)
    % two64

-- `none` is a length that is not known.
unfoldable pub write_header : MultipartParts → Option ℕ → Headers → Headers
write_header p media_length h =
    let typed =
      set_header (bytes "Content-Type") (bytes "multipart/mixed; boundary=" ++ p.boundary) h in
    set_cache_headers (elim media_length [
      | none ↦ typed
      | some n ↦ set_header (bytes "Content-Length") (itoa (content_length p n)) typed
    ])

-- The bytes that `writeBody` writes when no write fails.
unfoldable pub write_body : MultipartParts → Bytes → Bytes
write_body p body =
    (crlf
      ++ (bytes "--"
          ++ (p.boundary ++ (crlf ++ (metadata_ct_line ++ (crlf ++ (crlf ++ metadata_json)))))))
    ++ ((crlf
          ++ (bytes "--"
              ++ (p.boundary
                  ++ (crlf
                      ++ (p.content_type_line
                          ++ (crlf ++ (p.disposition_line ++ (crlf ++ crlf))))))))
        ++ (body ++ (crlf ++ (bytes "--" ++ (p.boundary ++ (bytes "--" ++ crlf))))))
