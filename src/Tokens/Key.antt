-- ===== src/Tokens/Key.antt =====
-- Cache keys tell callers apart.
use synapse_media_worker.Base.{ℕ, ◌≡◌, Bytes, Free, cut-injective, Option}
use synapse_media_worker.Tokens.{Credentials, WhoamiResponse, key_text, cache_key}

-- No part holds a NUL byte.
abbrev pub IsNulFree : Credentials → Type 0
IsNulFree c = Free 0 c.token × Free 0 c.user_id × Free 0 c.device_id

-- Credentials with one cache key agree in token, user and device, so that a verdict for one
-- masquerade is never found for another, as long as the hash has no collision and no part holds a
-- NUL byte.
pub cache_key-injective :
    (hash : Bytes → Bytes)
    → ((x y : Bytes) → hash x ≡ hash y → x ≡ y)
    → (whoami : Credentials → ℕ → Option WhoamiResponse) (c d : Credentials) → IsNulFree c
    → IsNulFree d
    → cache_key hash whoami c ≡ cache_key hash whoami d
    → (c.token ≡ d.token) × (c.user_id ≡ d.user_id) × (c.device_id ≡ d.device_id)
unfolding cache_key key_text
cache_key-injective hash injective whoami c d (ct, cu, cd) (dt, du, dd) e =
    let (tokens, e1) = cut-injective 0 c.token d.token _ _ ct dt (injective _ _ e) in
    let (users, e2) = cut-injective 0 c.user_id d.user_id _ _ cu du e1 in
    let (devices, e3) = cut-injective 0 c.device_id d.device_id _ _ cd dd e2 in
    (tokens, users, devices)
