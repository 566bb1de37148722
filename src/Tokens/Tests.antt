-- ===== src/Tokens/Tests.antt =====
-- One access token and an appservice user.
use synapse_media_worker.Serve.{trim_space}
use synapse_media_worker.Base.{
  has_prefix, ◌≡◌, refl, ℕ, bytes, [], ◌∷◌, true, false, none, some, Option, str_eq, arith,
}
use synapse_media_worker.Tokens.{
  find_entry, TokenVerdict, CacheEntry, Credentials, TokenAuthenticator, WhoamiResponse,
  lookup_entry, store_entry, cache_key, authenticate_as, extract_token,
}
use synapse_media_worker.Tokens.Cache.{IsCache}
use synapse_media_worker.Tokens.Cache
use synapse_media_worker.Tokens.Key
use synapse_media_worker.Tokens.Origin

abbrev verdict : TokenVerdict
verdict = record {
  valid = true;
  user_id = bytes "@a:b";
  is_guest = false;
  expires = 100;
  rejection = none;
  status = 0;
}

abbrev entry : CacheEntry
entry = record { key = bytes "k"; verdict = verdict }

abbrev ghost : Credentials
ghost = record { token = bytes "as_token"; user_id = bytes "@ghost:b"; device_id = [] }

abbrev whoami : Credentials → ℕ → Option WhoamiResponse
whoami c t = some (record { status = 200; user = some (c.user_id, false); refusal = none })

abbrev empty : TokenAuthenticator
empty = record { positive_ttl = 60; negative_ttl = 5; max_entries = 2; order = [] }

extract_token_test : extract_token (bytes "Bearer  abc ") (bytes "query") ≡ bytes "abc"
unfolding extract_token str_eq has_prefix trim_space
extract_token_test = refl

one_entry : IsCache 1 (entry ∷ [])
unfolding find_entry
one_entry = record { distinct = (refl, tt); bounded = λ h. omega arith }

store_entry-IsCache_example : IsCache 1 (store_entry 1 (entry ∷ []) (bytes "other") verdict)
store_entry-IsCache_example =
    Cache.store_entry-IsCache 1 (entry ∷ []) (bytes "other") verdict one_entry

hit_test : (lookup_entry (entry ∷ []) (bytes "k") 90).1 ≡ some verdict
unfolding lookup_entry find_entry str_eq
hit_test = refl

same_key : cache_key (λ s. s) whoami ghost ≡ cache_key (λ s. s) whoami ghost
same_key = refl

cache_key-injective_example :
    (ghost.token ≡ ghost.token)
    × (ghost.user_id ≡ ghost.user_id)
    × (ghost.device_id ≡ ghost.device_id)
cache_key-injective_example =
    Key.cache_key-injective (λ s. s) (λ x y e. e) whoami ghost ghost
      (ground arith, ground arith, tt) (ground arith, ground arith, tt) same_key

has_token : str_eq ghost.token [] ≡ false
unfolding str_eq
has_token = refl

authenticate_as-Answered_example :
    Origin.AllAnswers (λ s. s) whoami empty (authenticate_as (λ s. s) whoami empty ghost 7).0
    × Origin.Answered (λ s. s) whoami empty ghost (authenticate_as (λ s. s) whoami empty ghost 7).1
authenticate_as-Answered_example =
    Origin.authenticate_as-Answered (λ s. s) whoami empty ghost 7 tt has_token
