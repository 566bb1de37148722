-- ===== src/Serve/Tests.antt =====
-- Headers of concrete files.
use synapse_media_worker.Base.{
  All, Bytes, to_lower, contains, str_eq, ◌≡◌, refl, ◌++◌, ◌∷◌, bytes, arith,
}
use synapse_media_worker.Serve.{
  content_type_or_default, base_type, can_encode_filename_as_token, content_disposition,
  url_encode_filename, disposition_type, content_type_header, sanitize_header_value,
}
use synapse_media_worker.Serve.Escape.{url_decode}
use synapse_media_worker.Serve.Escape
use synapse_media_worker.Serve.Disposition

content_disposition_test :
    content_disposition (bytes "image/png; a=b") (bytes "my cat.png")
    ≡ bytes "inline; filename*=utf-8''my%20cat.png"
unfolding content_disposition disposition_type str_eq can_encode_filename_as_token contains
    base_type content_type_or_default url_encode_filename
content_disposition_test = refl

content_type_test : content_type_header (bytes "Text/HTML") ≡ bytes "Text/HTML; charset=UTF-8"
unfolding content_type_header contains to_lower
content_type_test = refl

url_decode-url_encode_filename_example :
    url_decode (url_encode_filename (bytes "my cat%.png")) ≡ bytes "my cat%.png"
url_decode-url_encode_filename_example =
    Escape.url_decode-url_encode_filename (bytes "my cat%.png") (ground arith)

disposition_type-attachment_example :
    (disposition_type (bytes "Image/SVG+xml") ≡ bytes "attachment")
    × ((parameters : Bytes)
        → disposition_type (bytes "Image/SVG+xml" ++ (59 ∷ parameters)) ≡ bytes "attachment")
unfolding contains str_eq to_lower
disposition_type-attachment_example =
    Disposition.disposition_type-attachment (bytes "Image/SVG+xml") refl

sanitize_header_value-InLine_example : All Escape.InLine (sanitize_header_value (bytes "a\r\nb: c"))
sanitize_header_value-InLine_example = Escape.sanitize_header_value-InLine (bytes "a\r\nb: c")
