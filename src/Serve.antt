-- ===== src/Serve.antt =====
-- serve.go: the headers of a media response. `TrimSpace` and `ToLower` are those of ASCII text.
pub mod Disposition
pub mod Escape
mod Tests
use synapse_media_worker.Base.{
  ℕ, ◌+◌, ◌-◌, ◌/◌, ◌%◌, ◌≡◌, Bool, true, false, not, ◌&&◌, ◌||◌, Option, none, some, List, [], ◌∷◌,
  ◌++◌, ltb, leb, ◌==◌, if◌then◌else◌, Bytes, bytes, str_eq, contains, cut, to_lower, reverse,
}

abbrev pub immutable_etag : Bytes
immutable_etag = bytes "1"

abbrev pub cache_control_value : Bytes
cache_control_value = bytes "public,max-age=86400,s-maxage=0,proxy-revalidate"

abbrev pub text_content_types : List Bytes
text_content_types =
    bytes "text/css"
    ∷ bytes "text/csv"
    ∷ bytes "text/html"
    ∷ bytes "text/calendar"
    ∷ bytes "text/plain"
    ∷ bytes "text/javascript"
    ∷ bytes "application/json"
    ∷ bytes "application/ld+json"
    ∷ bytes "application/rtf"
    ∷ bytes "image/svg+xml"
    ∷ bytes "text/xml"
    ∷ []

abbrev pub inline_content_types : List Bytes
inline_content_types =
    bytes "text/css"
    ∷ bytes "text/plain"
    ∷ bytes "text/csv"
    ∷ bytes "application/json"
    ∷ bytes "application/ld+json"
    ∷ bytes "image/jpeg"
    ∷ bytes "image/gif"
    ∷ bytes "image/png"
    ∷ bytes "image/apng"
    ∷ bytes "image/webp"
    ∷ bytes "image/avif"
    ∷ bytes "video/mp4"
    ∷ bytes "video/webm"
    ∷ bytes "video/ogg"
    ∷ bytes "video/quicktime"
    ∷ bytes "audio/mp4"
    ∷ bytes "audio/webm"
    ∷ bytes "audio/aac"
    ∷ bytes "audio/mpeg"
    ∷ bytes "audio/ogg"
    ∷ bytes "audio/wave"
    ∷ bytes "audio/wav"
    ∷ bytes "audio/x-wav"
    ∷ bytes "audio/x-pn-wav"
    ∷ bytes "audio/flac"
    ∷ bytes "audio/x-flac"
    ∷ []

-- Headers in the order in which they were first set. `Header.Set` replaces a value.
abbrev pub Headers : Type 0
Headers = List (Bytes × Bytes)

unfoldable pub set_header : Bytes → Bytes → Headers → Headers
set_header k v [] = (k, v) ∷ []
set_header k v ((j, w) ∷ h) =
    let rest = set_header k v h in if str_eq j k then (k, v) ∷ h else (j, w) ∷ rest

unfoldable pub get_header : Bytes → Headers → Bytes
get_header k [] = []
get_header k ((j, w) ∷ h) = let rest = get_header k h in if str_eq j k then w else rest

unfoldable pub set_cors_headers : Headers → Headers
unfolding set_header
set_cors_headers h =
    set_header (bytes "Access-Control-Expose-Headers") (bytes "Synapse-Trace-Id, Server") (
      set_header (bytes "Access-Control-Allow-Headers")
        (bytes "X-Requested-With, Content-Type, Authorization, Date")
        (set_header (bytes "Access-Control-Allow-Methods")
          (bytes "GET, HEAD, POST, PUT, DELETE, OPTIONS")
          (set_header (bytes "Access-Control-Allow-Origin") (bytes "*") h)))

unfoldable pub set_corp_headers : Headers → Headers
unfolding set_header
set_corp_headers = set_header (bytes "Cross-Origin-Resource-Policy") (bytes "cross-origin")

abbrev pub media_csp : Bytes
media_csp =
    bytes "sandbox; default-src 'none'; script-src 'none'; "
    ++ (bytes "plugin-types application/pdf; style-src 'unsafe-inline'; "
        ++ bytes "media-src 'self'; object-src 'self';")

unfoldable pub set_download_security_headers : Headers → Headers
unfolding set_header
set_download_security_headers h = set_header (bytes "Referrer-Policy") (bytes "no-referrer") (
    set_header (bytes "X-Content-Security-Policy") (bytes "sandbox;")
      (set_header (bytes "Content-Security-Policy") media_csp h))

unfoldable pub set_cache_headers : Headers → Headers
unfolding set_header
set_cache_headers h =
    set_header (bytes "ETag") immutable_etag
      (set_header (bytes "Cache-Control") cache_control_value h)

unfoldable pub not_modified : Bytes → Bool
unfolding str_eq
not_modified if_none_match = str_eq if_none_match immutable_etag

unfoldable pub content_type_or_default : Bytes → Bytes
unfolding str_eq
content_type_or_default media_type =
    if str_eq media_type [] then bytes "application/octet-stream" else media_type

unfoldable pub content_type_header : Bytes → Bytes
unfolding content_type_or_default
content_type_header media_type =
    let actual = content_type_or_default media_type in
    if contains text_content_types (to_lower actual)
    then actual ++ bytes "; charset=UTF-8"
    else actual

abbrev pub disallowed_token_chars : Bytes
disallowed_token_chars = bytes "()<>@,;:\\\"/[]?={}"

unfoldable pub mem_byte : ℕ → Bytes → Bool
mem_byte c [] = false
mem_byte c (d ∷ s) = c == d || mem_byte c s

abbrev pub is_token_char : ℕ → Bool
is_token_char r = not (leb r 32 || leb 127 r || mem_byte r disallowed_token_chars)

-- The loop of `canEncodeFilenameAsToken`.
unfoldable pub all_token_chars : Bytes → Bool
unfolding mem_byte
all_token_chars [] = true
all_token_chars (r ∷ s) = is_token_char r && all_token_chars s

unfoldable pub can_encode_filename_as_token : Bytes → Bool
unfolding all_token_chars
can_encode_filename_as_token [] = false
can_encode_filename_as_token (r ∷ s) = all_token_chars (r ∷ s)

unfoldable pub is_space : ℕ → Bool
is_space c = c == 32 || (leb 9 c && leb c 13)

unfoldable pub trim_left : Bytes → Bytes
unfolding is_space
trim_left [] = []
trim_left (c ∷ s) = let rest = trim_left s in if is_space c then rest else c ∷ s

-- `strings.TrimSpace`.
unfoldable pub trim_space : Bytes → Bytes
unfolding trim_left
trim_space s = reverse (trim_left (reverse (trim_left s)))

-- What stands before the first `;`, or the whole.
unfoldable pub before_semicolon : Bytes → Bytes
unfolding cut
before_semicolon s = elim (cut b';' s) [ none ↦ s | some (a, _) ↦ a ]

unfoldable pub base_type : Bytes → Bytes
unfolding before_semicolon trim_space to_lower
base_type media_type = to_lower (trim_space (before_semicolon media_type))

unfoldable pub hex_digit : ℕ → ℕ
hex_digit d = if ltb d 10 then b'0' + d else b'A' + (d - 10)

abbrev pub is_alnum : ℕ → Bool
is_alnum c = (leb b'a' c && leb c b'z') || (leb b'A' c && leb c b'Z') || (leb b'0' c && leb c b'9')

abbrev pub is_safe : ℕ → Bool
is_safe c = is_alnum c || mem_byte c (bytes "_.-~/")

unfoldable pub url_encode_filename : Bytes → Bytes
unfolding mem_byte hex_digit
url_encode_filename [] = []
url_encode_filename (c ∷ name) =
    let rest = url_encode_filename name in
    if is_safe c then c ∷ rest else b'%' ∷ hex_digit (c / 16) ∷ hex_digit (c % 16) ∷ rest

unfoldable pub disposition_type : Bytes → Bytes
disposition_type media_type =
    if contains inline_content_types (base_type (content_type_or_default media_type))
    then bytes "inline"
    else bytes "attachment"

unfoldable pub content_disposition : Bytes → Bytes → Bytes
content_disposition media_type upload_name =
    if str_eq upload_name []
    then disposition_type media_type
    else if can_encode_filename_as_token upload_name
    then disposition_type media_type ++ (bytes "; filename=" ++ upload_name)
    else disposition_type media_type
      ++ (bytes "; filename*=utf-8''" ++ url_encode_filename upload_name)

strip_newlines : Bytes → Bytes
strip_newlines [] = []
strip_newlines (c ∷ v) =
    let rest = strip_newlines v in if c == 13 || c == 10 then rest else c ∷ rest

escape_quotes : Bytes → Bytes
escape_quotes [] = []
escape_quotes (c ∷ v) =
    let rest = escape_quotes v in if c == b'"' then b'\\' ∷ c ∷ rest else c ∷ rest

unfoldable pub sanitize_header_value : Bytes → Bytes
unfolding strip_newlines escape_quotes
sanitize_header_value v = escape_quotes (strip_newlines v)

unfoldable pub add_file_headers : Bytes → Bytes → Headers → Headers
unfolding set_header
add_file_headers media_type upload_name h = set_cache_headers (
    set_header (bytes "X-Robots-Tag") (bytes "noindex, nofollow, noarchive, noimageindex") (
      set_header (bytes "Content-Disposition")
        (sanitize_header_value (content_disposition media_type upload_name))
        (set_header (bytes "Content-Type") (sanitize_header_value (content_type_header media_type))
          h)))
