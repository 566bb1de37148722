-- ===== src/Database.antt =====
-- db.go: the rows of Synapse's media tables that the worker reads and writes, and its queries on
-- them. A table is the list of its rows, newest last; `none` is NULL. A column that the worker reads
-- with COALESCE to a zero value is its coalesced value. Times are milliseconds.
pub mod Usage
pub mod Writes
mod Tests
use synapse_media_worker.Base.{
  ℕ, ◌+◌, ◌≡◌, Bool, true, false, not, ◌&&◌, ◌||◌, Option, none, some, List, [], ◌∷◌, ◌++◌, ltb,
  if◌then◌else◌, Bytes, str_eq, or_else, min, Result, ok, err, ◌==◌, length,
}
use synapse_media_worker.Thumbnail.{ThumbnailRow}

pub record LocalMedia : Type 0 where
  pub media_id : Bytes
  pub media_type : Option Bytes
  pub length : Option ℕ
  pub upload_name : Option Bytes
  pub quarantined_by : Option Bytes
  pub url_cache : Option Bytes
  pub authenticated : Bool
  pub created_ts : ℕ
  pub user_id : Bytes
  pub sha256 : Option Bytes

pub record RemoteMedia : Type 0 where
  pub origin : Bytes
  pub media_id : Bytes
  pub media_type : Option Bytes
  pub length : Option ℕ
  pub upload_name : Option Bytes
  pub filesystem_id : Bytes
  pub quarantined_by : Option Bytes
  pub authenticated : Bool
  pub created_ts : ℕ
  pub last_access_ts : ℕ
  pub sha256 : Option Bytes

abbrev pub deref_string : Option Bytes → Bytes
deref_string s = or_else s []

unfoldable pub nullable_string : Bytes → Option Bytes
unfolding str_eq
nullable_string s = if str_eq s [] then none else some s

abbrev pub is_null : Option ℕ → Bool
is_null none = true
is_null (some n) = false

unfoldable pub quarantined : Option Bytes → Bool
unfolding str_eq
quarantined by = not (str_eq (deref_string by) [])

unfoldable pub is_url_cache : LocalMedia → Bool
unfolding str_eq
is_url_cache m = not (str_eq (deref_string m.url_cache) [])

unfoldable pub get_local_media : List LocalMedia → Bytes → Option LocalMedia
get_local_media [] id = none
get_local_media (row ∷ rows) id =
    let rest = get_local_media rows id in if str_eq row.media_id id then some row else rest

abbrev pub is_remote : RemoteMedia → Bytes → Bytes → Bool
is_remote row origin id = str_eq row.origin origin && str_eq row.media_id id

unfoldable pub get_remote_media : List RemoteMedia → Bytes → Bytes → Option RemoteMedia
get_remote_media [] origin id = none
get_remote_media (row ∷ rows) origin id =
    let rest = get_remote_media rows origin id in if is_remote row origin id then some row else rest

-- `ON CONFLICT DO NOTHING`: the rows, and whether one was added.
unfoldable pub store_remote_media : List RemoteMedia → RemoteMedia → List RemoteMedia × Bool
store_remote_media rows m = elim (get_remote_media rows m.origin m.media_id) [
  | none ↦ (rows ++ (m ∷ []), true)
  | some existing ↦ (rows, false)
]

-- A plain INSERT: `none` where the unique constraint on `media_id` refuses it.
unfoldable pub insert_local_media : List LocalMedia → LocalMedia → Option (List LocalMedia)
insert_local_media rows m = elim (get_local_media rows m.media_id) [
  | none ↦ some (rows ++ (m ∷ []))
  | some existing ↦ none
]

-- The row that `StoreLocalMedia` inserts.
unfoldable pub completed_row :
    Bytes → Bytes → Bytes → ℕ → Bytes → ℕ → Bool → Bytes → Bytes → LocalMedia
completed_row id media_type upload_name size user now authenticated sha quarantined_by = record {
  media_id = id;
  media_type = some media_type;
  length = some size;
  upload_name = nullable_string upload_name;
  quarantined_by = nullable_string quarantined_by;
  url_cache = none;
  authenticated = authenticated;
  created_ts = now;
  user_id = user;
  sha256 = nullable_string sha;
}

-- The row that `StoreLocalMediaID` inserts: its length is NULL.
unfoldable pub pending_row : Bytes → ℕ → Bytes → Bool → LocalMedia
pending_row id now user authenticated = record {
  media_id = id;
  media_type = none;
  length = none;
  upload_name = none;
  quarantined_by = none;
  url_cache = none;
  authenticated = authenticated;
  created_ts = now;
  user_id = user;
  sha256 = none;
}

-- What `completeLocalMediaQuery` sets.
pub record Completion : Type 0 where
  pub media_type : Bytes
  pub upload_name : Bytes
  pub length : ℕ
  pub sha256 : Bytes
  pub quarantined_by : Bytes

-- `COALESCE(a, b)`.
abbrev coalesce : Option Bytes → Option Bytes → Option Bytes
coalesce none b = b
coalesce (some a) b = some a

unfoldable pub completed : Completion → LocalMedia → LocalMedia
completed c row = record {
  media_id = row.media_id;
  media_type = some c.media_type;
  length = some c.length;
  upload_name = nullable_string c.upload_name;
  quarantined_by = coalesce (nullable_string c.quarantined_by) row.quarantined_by;
  url_cache = row.url_cache;
  authenticated = row.authenticated;
  created_ts = row.created_ts;
  user_id = row.user_id;
  sha256 = nullable_string c.sha256;
}

unfoldable pub is_pending : LocalMedia → Bytes → Bool
is_pending row id = str_eq row.media_id id && is_null row.length

-- The UPDATE: the rows, and how many it changed.
unfoldable pub complete_rows : List LocalMedia → Bytes → Completion → List LocalMedia × ℕ
complete_rows [] id c = ([], 0)
complete_rows (row ∷ rows) id c =
    let rest = complete_rows rows id c in
    if is_pending row id then (completed c row ∷ rest.0, 1 + rest.1) else (row ∷ rest.0, rest.1)

unfoldable pub complete_local_media : List LocalMedia → Bytes → Completion → List LocalMedia × Bool
complete_local_media rows id c = let result = complete_rows rows id c in (result.0, result.1 == 1)

unfoldable pub is_pending_of : Bytes → ℕ → LocalMedia → Bool
is_pending_of user not_before row =
    str_eq row.user_id user && ltb not_before row.created_ts && is_null row.length

-- The number of pending media, and the earliest `created_ts` of them, or 0.
unfoldable pub count_pending_media : List LocalMedia → Bytes → ℕ → ℕ × ℕ
count_pending_media [] user not_before = (0, 0)
count_pending_media (row ∷ rows) user not_before =
    let (n, oldest) = count_pending_media rows user not_before in
    if is_pending_of user not_before row
    then (1 + n, (if n == 0 then row.created_ts else min row.created_ts oldest))
    else (n, oldest)

-- `SUM` skips a length that is NULL.
unfoldable pub counted : Bytes → ℕ → LocalMedia → ℕ
counted user not_before row =
    if str_eq row.user_id user && ltb not_before row.created_ts then or_else row.length 0 else 0

unfoldable pub uploaded_size_for_user : List LocalMedia → Bytes → ℕ → ℕ
unfolding counted
uploaded_size_for_user [] user not_before = 0
uploaded_size_for_user (row ∷ rows) user not_before =
    counted user not_before row + uploaded_size_for_user rows user not_before

-- `sha256 = $1 AND quarantined_by IS NOT NULL`.
unfoldable pub flags_hash : Bytes → Option Bytes → Option Bytes → Bool
flags_hash sha (some s) (some by) = str_eq s sha
flags_hash sha none by = false
flags_hash sha (some s) none = false

unfoldable pub any_flagged_local : List LocalMedia → Bytes → Bool
any_flagged_local [] sha = false
any_flagged_local (row ∷ rows) sha =
    flags_hash sha row.sha256 row.quarantined_by || any_flagged_local rows sha

unfoldable pub any_flagged_remote : List RemoteMedia → Bytes → Bool
any_flagged_remote [] sha = false
any_flagged_remote (row ∷ rows) sha =
    flags_hash sha row.sha256 row.quarantined_by || any_flagged_remote rows sha

unfoldable pub is_hash_quarantined : List LocalMedia → List RemoteMedia → Bytes → Bool
is_hash_quarantined local remote sha =
    if str_eq sha [] then false else any_flagged_local local sha || any_flagged_remote remote sha
