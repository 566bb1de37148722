-- ===== src/Synapse.antt =====
-- synapseconfig.go: what the worker reads from Synapse's homeserver.yaml. The YAML parser is the
-- library's, and so is the rendering of a connection string by net/url: both are parameters. An
-- `int64` and a `time.Duration` (in nanoseconds) are 64-bit patterns.
pub mod Laws
mod Tests
use synapse_media_worker.Base.{
  ℕ, ◌*◌, Bool, true, false, Option, none, some, List, [], ◌∷◌, ◌++◌, ltb, ◌==◌, if◌then◌else◌,
  ◌||◌, Bytes, bytes, str_eq, mul64, Result, err, ok,
}
use synapse_media_worker.Decimal.{parse_int, itoa_int64}
use synapse_media_worker.Serve.{trim_space}

-- A value of type `any`, as the YAML library decodes it. A `float64` is given by the int64 that Go
-- converts it to.
pub data Value : Type 0 where
  null : Value
  int : ℕ → Value
  float : ℕ → Value
  text : Bytes → Value
  other : Value

pub data ValueError : Type 0 where
  no_value empty_value malformed : ValueError

unfoldable pub is_empty : Bytes → Bool
is_empty [] = true
is_empty (c ∷ s) = false

unfoldable pub last_byte : ℕ → Bytes → ℕ
last_byte c [] = c
last_byte c (d ∷ s) = last_byte d s

-- `s[:len(s)-1]`.
unfoldable pub drop_last : Bytes → Bytes
drop_last [] = []
drop_last (c ∷ []) = []
drop_last (c ∷ d ∷ s) = c ∷ drop_last (d ∷ s)

unfoldable pub size_multiplier : ℕ → ℕ
size_multiplier c =
    if c == b'K' || c == b'k'
    then 1024
    else if c == b'M' || c == b'm'
    then 1024 * 1024
    else if c == b'G' || c == b'g'
    then 1024 * 1024 * 1024
    else if c == b'T' || c == b't'
    then 1024 * 1024 * 1024 * 1024
    else 1

unfoldable pub scaled : ℕ → Option ℕ → Result ValueError ℕ
scaled unit none = err malformed
scaled unit (some n) = ok (mul64 n unit)

-- What `strconv.ParseInt` is given: the suffix is cut off where there is one.
unfoldable pub without_suffix : Bool → Bytes → Bytes
unfolding drop_last trim_space
without_suffix suffixed s = trim_space (if suffixed then drop_last s else s)

unfoldable pub size_of_text : Bytes → Result ValueError ℕ
unfolding last_byte size_multiplier scaled without_suffix
size_of_text [] = err empty_value
size_of_text (c ∷ s) =
    let multiplier = size_multiplier (last_byte c s) in
    scaled multiplier (parse_int (without_suffix (ltb 1 multiplier) (c ∷ s)))

unfoldable pub parse_synapse_size : Value → Result ValueError ℕ
unfolding size_of_text trim_space
parse_synapse_size null = err no_value
parse_synapse_size (int n) = ok n
parse_synapse_size (float n) = ok n
parse_synapse_size (text s) = size_of_text (trim_space s)
parse_synapse_size other = err malformed

-- Nanoseconds.
abbrev pub millisecond : ℕ
millisecond = 1000000

abbrev pub second : ℕ
second = 1000 * millisecond

abbrev pub minute : ℕ
minute = 60 * second

abbrev pub hour : ℕ
hour = 60 * minute

unfoldable pub duration_unit : ℕ → ℕ
duration_unit c =
    if c == b's'
    then second
    else if c == b'm'
    then minute
    else if c == b'h'
    then hour
    else if c == b'd'
    then 24 * hour
    else if c == b'w'
    then 7 * (24 * hour)
    else if c == b'y'
    then 365 * (24 * hour)
    else millisecond

unfoldable pub duration_of_text : Bytes → Result ValueError ℕ
unfolding last_byte duration_unit scaled without_suffix
duration_of_text [] = err empty_value
duration_of_text (c ∷ s) =
    let unit = duration_unit (last_byte c s) in
    scaled unit (parse_int (without_suffix (ltb millisecond unit) (c ∷ s)))

unfoldable pub parse_synapse_duration : Value → Result ValueError ℕ
unfolding duration_of_text trim_space
parse_synapse_duration null = err no_value
parse_synapse_duration (int n) = ok (mul64 n millisecond)
parse_synapse_duration (float n) = ok (mul64 n millisecond)
parse_synapse_duration (text s) = duration_of_text (trim_space s)
parse_synapse_duration other = err malformed

pub record SynapseMediaUploadLimit : Type 0 where
  pub max_size : Value
  pub time_period : Value
  pub info_uri : Bytes
  pub can_upgrade : Bool

pub record DatabaseArgs : Type 0 where
  pub user : Bytes
  pub password : Bytes
  pub database : Bytes
  pub host : Bytes
  pub port : Value

pub record SynapseConfig : Type 0 where
  pub server_name : Bytes
  pub media_store_path : Bytes
  pub signing_key_path : Bytes
  pub max_upload_size : Value
  pub max_image_pixels : Value
  pub max_pending_media_uploads : Option ℕ
  pub unused_expiration_time : Value
  pub media_upload_limits : List SynapseMediaUploadLimit
  pub public_baseurl : Bytes
  pub user_agent_suffix : Bytes
  pub dynamic_thumbnails : Option Bool
  pub enable_authenticated_media : Option Bool
  pub database : DatabaseArgs
  pub url_preview_enabled : Option Bool
  pub storage_providers : List Value
  pub prevent_media_downloads_from : List Bytes
  pub modules : List Value

unfoldable pub with_slash : Bytes → Bytes
unfolding last_byte
with_slash [] = []
with_slash (c ∷ s) = if last_byte c s == b'/' then c ∷ s else (c ∷ s) ++ b'/' ∷ []

unfoldable pub public_baseurl_or_default : SynapseConfig → Bytes
unfolding with_slash is_empty
public_baseurl_or_default c =
    if is_empty c.public_baseurl
    then bytes "https://" ++ c.server_name ++ b'/' ∷ []
    else with_slash c.public_baseurl

-- The `port` parameter, where there is one.
unfoldable pub port_parameter : Value → List (Bytes × Bytes)
unfolding is_empty
port_parameter (int p) = (bytes "port", itoa_int64 p) ∷ []
port_parameter (text p) = if is_empty p then [] else (bytes "port", p) ∷ []
port_parameter null = []
port_parameter (float p) = []
port_parameter other = []

unfoldable pub host_parameter : Bytes → List (Bytes × Bytes)
unfolding is_empty
host_parameter host = if is_empty host then [] else (bytes "host", host) ∷ []

-- `DatabaseURI`, where `render` is net/url's text of a URL with this user, password, path and query.
unfoldable pub database_uri :
    (render : Bytes → Bytes → Bytes → List (Bytes × Bytes) → Bytes) → SynapseConfig → Option Bytes
unfolding port_parameter host_parameter is_empty
database_uri render s =
    if is_empty s.database.user || is_empty s.database.database
    then none
    else some (
        render s.database.user s.database.password (b'/' ∷ s.database.database) (
          host_parameter s.database.host
          ++ port_parameter s.database.port
          ++ (bytes "sslmode", bytes "disable") ∷ []))
