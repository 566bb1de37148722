-- ===== src/Tokens.antt =====
-- authclient.go: who a caller is, by Synapse's whoami endpoint behind a bounded cache. The map and
-- the recency list of the cache are one list of entries, the most recently used one first; a request
-- finds the cache as one lookup or store left it (the mutex). Times are nanoseconds.
pub mod Key
pub mod Cache
pub mod Origin
mod Tests
use synapse_media_worker.Base.{
  ℕ, ◌+◌, ◌≡◌, Bool, true, false, not, ◌||◌, Option, none, some, List, [], ◌∷◌, ◌++◌, ltb,
  if◌then◌else◌, Bytes, bytes, str_eq, take, has_prefix, drop, length, Result, ok, err, ◌==◌,
}
use synapse_media_worker.Serve.{trim_space}

pub record MatrixError : Type 0 where
  pub errcode : Bytes
  pub message : Bytes

pub record TokenVerdict : Type 0 where
  pub valid : Bool
  pub user_id : Bytes
  pub is_guest : Bool
  pub expires : ℕ
  pub rejection : Option MatrixError
  pub status : ℕ

pub record CacheEntry : Type 0 where
  pub key : Bytes
  pub verdict : TokenVerdict

pub record Credentials : Type 0 where
  pub token : Bytes
  pub user_id : Bytes
  pub device_id : Bytes

-- The cache and its settings.
pub record TokenAuthenticator : Type 0 where
  pub positive_ttl : ℕ
  pub negative_ttl : ℕ
  pub max_entries : ℕ
  pub order : List CacheEntry

-- The Authorization header and the `access_token` parameter, each empty where it is missing.
unfoldable pub extract_token : Bytes → Bytes → Bytes
extract_token auth query =
    if not (str_eq auth [])
    then if has_prefix auth (bytes "Bearer ") then trim_space (drop 7 auth) else []
    else query

-- What is hashed for the cache key.
unfoldable pub key_text : Credentials → Bytes
key_text c = c.token ++ (0 ∷ (c.user_id ++ (0 ∷ (c.device_id ++ (0 ∷ [])))))

unfoldable pub find_entry : Bytes → List CacheEntry → Option CacheEntry
find_entry k [] = none
find_entry k (e ∷ order) = let rest = find_entry k order in if str_eq e.key k then some e else rest

unfoldable pub remove_entry : Bytes → List CacheEntry → List CacheEntry
remove_entry k [] = []
remove_entry k (e ∷ order) =
    let rest = remove_entry k order in if str_eq e.key k then order else e ∷ rest

-- The order after a lookup, and the verdict.
unfoldable pub lookup_entry : List CacheEntry → Bytes → ℕ → List CacheEntry × Option TokenVerdict
lookup_entry order k now = elim (find_entry k order) [
  | none ↦ (order, none)
  | some e ↦
      if ltb e.verdict.expires now
      then (remove_entry k order, none)
      else (e ∷ remove_entry k order, some e.verdict)
]

-- The loop that removes the oldest entry while there are more than `max_entries`.
unfoldable pub evict : ℕ → List CacheEntry → List CacheEntry
evict max_entries order = if ltb 0 max_entries then take max_entries order else order

unfoldable pub store_entry : ℕ → List CacheEntry → Bytes → TokenVerdict → List CacheEntry
store_entry max_entries order k v = elim (find_entry k order) [
  | some e ↦ (record { key = k; verdict = v } ∷ remove_entry k order)
  | none ↦ evict max_entries (record { key = k; verdict = v } ∷ order)
]

pub data AuthError : Type 0 where
  request_failed bad_response unexpected_status : AuthError

-- What the whoami request brought: no response, or a status with the user or the error that its body
-- decodes to, if it does.
pub record WhoamiResponse : Type 0 where
  pub status : ℕ
  pub user : Option (Bytes × Bool)
  pub refusal : Option MatrixError

abbrev refusal_of : Option MatrixError → Option MatrixError
refusal_of none = none
refusal_of (some e) = if str_eq e.errcode [] then none else some e

unfoldable pub accepted :
    TokenAuthenticator → ℕ → Option (Bytes × Bool) → Result AuthError TokenVerdict
accepted a now none = err bad_response
accepted a now (some (user, guest)) = ok (record {
  valid = true;
  user_id = user;
  is_guest = guest;
  expires = now + a.positive_ttl;
  rejection = none;
  status = 0;
})

-- `callWhoami` from the response on.
unfoldable pub call_whoami :
    TokenAuthenticator → ℕ → Option WhoamiResponse → Result AuthError TokenVerdict
call_whoami a now none = err request_failed
call_whoami a now (some r) =
    if r.status == 200
    then accepted a now r.user
    else if r.status == 401 || r.status == 403
    then ok (record {
      valid = false;
      user_id = [];
      is_guest = false;
      expires = now + a.negative_ttl;
      rejection = refusal_of r.refusal;
      status = r.status;
    })
    else err unexpected_status

abbrev pub no_verdict : TokenVerdict
no_verdict = record {
  valid = false;
  user_id = [];
  is_guest = false;
  expires = 0;
  rejection = none;
  status = 0;
}

module _ (hash : Bytes → Bytes) (whoami : Credentials → ℕ → Option WhoamiResponse) where
  unfoldable pub cache_key : Credentials → Bytes
  unfolding key_text
  cache_key c = hash (key_text c)

  -- The answer of Synapse, and the cache with it where there is one.
  unfoldable pub ask :
      TokenAuthenticator
      → Credentials
      → ℕ
      → List CacheEntry
      → List CacheEntry × Result AuthError TokenVerdict
  ask a creds now order = elim (call_whoami a now (whoami creds now)) [
    | err e ↦ (order, err e)
    | ok v ↦ (store_entry a.max_entries order (cache_key creds) v, ok v)
  ]

  -- `AuthenticateAs`, with the second lookup of the call that does the work: nothing happens between
  -- the two where no other request runs.
  unfoldable pub authenticate_as :
      TokenAuthenticator → Credentials → ℕ → List CacheEntry × Result AuthError TokenVerdict
  authenticate_as a creds now =
      if str_eq creds.token []
      then (a.order, ok no_verdict)
      else (let first = lookup_entry a.order (cache_key creds) now in
          elim first.1 [
            | some v ↦ (first.0, ok v)
            | none ↦
                (let second = lookup_entry first.0 (cache_key creds) now in
                  elim second.1 [ some v ↦ (second.0, ok v) | none ↦ ask a creds now second.0 ])
          ])
