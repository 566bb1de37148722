-- ===== src/Tokens/Origin.antt =====
-- Where a verdict comes from.
use synapse_media_worker.Base.{
  ℕ, ◌≡◌, refl, ap, subst, ◌∙◌, false, Option, some, List, [], ◌∷◌, ltb, Bytes, str_eq, All,
  All-take, arith, Bool-cases, Option-cases, inl, inr, ◌⊎◌, Result, ok, err,
}
use synapse_media_worker.Tokens.{
  AuthError, Credentials, CacheEntry, TokenVerdict, TokenAuthenticator, WhoamiResponse, call_whoami,
  cache_key, find_entry, remove_entry, lookup_entry, evict, store_entry, ask, authenticate_as,
}
use synapse_media_worker.Tokens.Cache.{
  found_key, lookup_entry_missing, lookup_entry_expired, lookup_entry_hit, store_entry_new,
  store_entry_known,
}

remove_entry-All {κ} :
    (P : CacheEntry → Type κ) (k : Bytes) (order : List CacheEntry)
    → All P order
    → All P (remove_entry k order)
unfolding remove_entry
remove_entry-All P k [] h = tt
remove_entry-All P k (e ∷ order) (p, h) = elim (Bool-cases (str_eq e.key k)) [
  | inl same ↦ rw same h
  | inr other ↦ rw other (p, remove_entry-All P k order h)
]

find_entry-All {κ} :
    (P : CacheEntry → Type κ) (k : Bytes) (order : List CacheEntry) (e : CacheEntry)
    → All P order
    → find_entry k order ≡ some e
    → P e
unfolding find_entry
find_entry-All P k [] e h f = absurd (cc f)
find_entry-All P k (x ∷ order) e (p, h) f = elim (Bool-cases (str_eq x.key k)) [
  | inl same ↦ let is : x ≡ e = cc (rw same at f) in subst P is p
  | inr other ↦ find_entry-All P k order e h (ground arith)
]

lookup_entry-All {κ} :
    (P : CacheEntry → Type κ) (order : List CacheEntry) (k : Bytes) (now : ℕ)
    → All P order
    → All P (lookup_entry order k now).0
lookup_entry-All P order k now h = elim (Option-cases (find_entry k order)) [
  | inl missing ↦ rw (lookup_entry_missing order k now missing) h
  | inr (e, found) ↦ elim (Bool-cases (ltb e.verdict.expires now)) [
    | inl old ↦ rw (lookup_entry_expired order k now e found old) (remove_entry-All P k order h)
    | inr fresh ↦
        rw (lookup_entry_hit order k now e found fresh)
          (find_entry-All P k order e h found, remove_entry-All P k order h)
  ]
]

-- The entry that a lookup answers from.
lookup_entry-some :
    (order : List CacheEntry) (k : Bytes) (now : ℕ) (v : TokenVerdict)
    → (lookup_entry order k now).1 ≡ some v
    → (e : CacheEntry) × (find_entry k order ≡ some e) × (e.verdict ≡ v)
lookup_entry-some order k now v h = elim (Option-cases (find_entry k order)) [
  | inl missing ↦ cc (h, lookup_entry_missing order k now missing)
  | inr (e, found) ↦ elim (Bool-cases (ltb e.verdict.expires now)) [
    | inl old ↦ cc (h, lookup_entry_expired order k now e found old)
    | inr fresh ↦ (e, found, cc (h, lookup_entry_hit order k now e found fresh))
  ]
]

store_entry-All {κ} :
    (P : CacheEntry → Type κ) (max_entries : ℕ) (order : List CacheEntry) (k : Bytes)
    (v : TokenVerdict)
    → P (record { key = k; verdict = v })
    → All P order
    → All P (store_entry max_entries order k v)
unfolding evict
store_entry-All P max_entries order k v p h = elim (Option-cases (find_entry k order)) [
  | inl missing ↦
      rw (store_entry_new order k max_entries v missing) (elim (Bool-cases (ltb 0 max_entries)) [
        | inl limited ↦ rw limited (All-take P max_entries _ (p, h))
        | inr free ↦ rw free (p, h)
      ])
  | inr (e, found) ↦
      rw (store_entry_known order k max_entries v e found) (p, remove_entry-All P k order h)
]

outcome-cases {ε ℓ} :
    {E : Type ε} {A : Type ℓ} (r : Result E A) → ((e : E) × (r ≡ err e)) ⊎ ((x : A) × (r ≡ ok x))
outcome-cases (err e) = inl (e, refl)
outcome-cases (ok x) = inr (x, refl)

module _ (hash : Bytes → Bytes) (whoami : Credentials → ℕ → Option WhoamiResponse)
    (a : TokenAuthenticator) where
  -- Synapse gave this verdict on credentials with this cache key.
  abbrev pub IsAnswer : Bytes → TokenVerdict → Type 0
  IsAnswer k v =
      (c : Credentials) × (t : ℕ) × (cache_key hash whoami c ≡ k)
      × (call_whoami a t (whoami c t) ≡ ok v)

  abbrev pub AllAnswers : List CacheEntry → Type 0
  AllAnswers order = All (λ e. IsAnswer e.key e.verdict) order

  lookup_entry-IsAnswer :
      (order : List CacheEntry) (k : Bytes) (now : ℕ) (v : TokenVerdict)
      → AllAnswers order
      → (lookup_entry order k now).1 ≡ some v
      → IsAnswer k v
  lookup_entry-IsAnswer order k now v h f =
      let (e, found, is) = lookup_entry-some order k now v f in
      let (c, t, key, answer) = find_entry-All (λ x. IsAnswer x.key x.verdict) k order e h found in
      (c, t, key ∙ found_key k order e found, answer ∙ ap ok is)

  -- What a request does to a cache that holds only answers, and where its verdict comes from.
  abbrev Sound : Credentials → List CacheEntry × Result AuthError TokenVerdict → Type 0
  Sound creds r =
      AllAnswers r.0 × ((v : TokenVerdict) → r.1 ≡ ok v → IsAnswer (cache_key hash whoami creds) v)

  ask_failed :
      (creds : Credentials) (now : ℕ) (order : List CacheEntry) (e : AuthError)
      → call_whoami a now (whoami creds now) ≡ err e
      → ask hash whoami a creds now order ≡ (order, err e)
  unfolding ask
  ask_failed creds now order e h = rw (h, ask) refl

  ask_answered :
      (creds : Credentials) (now : ℕ) (order : List CacheEntry) (v : TokenVerdict)
      → call_whoami a now (whoami creds now) ≡ ok v
      → ask hash whoami a creds now order
        ≡ (store_entry a.max_entries order (cache_key hash whoami creds) v, ok v)
  unfolding ask
  ask_answered creds now order v h = rw (h, ask) refl

  ask-Sound :
      (creds : Credentials) (now : ℕ) (order : List CacheEntry)
      → AllAnswers order
      → Sound creds (ask hash whoami a creds now order)
  ask-Sound creds now order h = elim (outcome-cases (call_whoami a now (whoami creds now))) [
    | inl (e, failed) ↦ rw (ask_failed creds now order e failed) (h, λ v r. cc r)
    | inr (v, answered) ↦ rw (ask_answered creds now order v answered) (
      store_entry-All (λ x. IsAnswer x.key x.verdict) a.max_entries order
          (cache_key hash whoami creds) v (creds, now, refl, answered) h,
      λ w r. (creds, now, refl, answered ∙ r),
    )
  ]

  authenticate_as-Sound :
      (creds : Credentials) (now : ℕ)
      → AllAnswers a.order
      → str_eq creds.token [] ≡ false
      → Sound creds (authenticate_as hash whoami a creds now)
  unfolding authenticate_as
  authenticate_as-Sound creds now h token =
      let k = cache_key hash whoami creds in
      let first = lookup_entry a.order k now in
      let kept = lookup_entry-All (λ x. IsAnswer x.key x.verdict) a.order k now h in
      elim (Option-cases first.1) [
        | inr (v, hit) ↦
            rw (token, hit, authenticate_as)
              (kept, λ w r. lookup_entry-IsAnswer a.order k now w h (hit ∙ cc r))
        | inl miss ↦
            let second = lookup_entry first.0 k now in
            let again = lookup_entry-All (λ x. IsAnswer x.key x.verdict) first.0 k now kept in
            elim (Option-cases second.1) [
              | inr (v, hit) ↦
                  rw (token, miss, hit, authenticate_as)
                    (again, λ w r. lookup_entry-IsAnswer first.0 k now w kept (hit ∙ cc r))
              | inl still ↦
                  rw (token, miss, still, authenticate_as) (ask-Sound creds now second.0 again)
            ]
      ]

  -- A verdict that is returned is an answer for these credentials' key.
  abbrev pub Answered : Credentials → Result AuthError TokenVerdict → Type 0
  Answered creds (err e) = Unit {0}
  Answered creds (ok v) = IsAnswer (cache_key hash whoami creds) v

  answered :
      (creds : Credentials) (x : Result AuthError TokenVerdict)
      → ((v : TokenVerdict) → x ≡ ok v → IsAnswer (cache_key hash whoami creds) v)
      → Answered creds x
  answered creds (err e) h = tt
  answered creds (ok v) h = h v refl

  -- Whoever a request is taken for, Synapse said so: where there is a token, a verdict that is returned
  -- is one that whoami gave for credentials with this cache key, and a cache that holds such verdicts
  -- only, each under its own key, goes on to do so.
  pub authenticate_as-Answered :
      (creds : Credentials) (now : ℕ)
      → AllAnswers a.order
      → str_eq creds.token [] ≡ false
      → AllAnswers (authenticate_as hash whoami a creds now).0
        × Answered creds (authenticate_as hash whoami a creds now).1
  authenticate_as-Answered creds now h token =
      let (all, one) = authenticate_as-Sound creds now h token in
      (all, answered creds (authenticate_as hash whoami a creds now).1 one)
