-- ===== src/Resolver/Srv.antt =====
-- resolver.go: what the servers that resolveSRV gives rest on.
use synapse_media_worker.Base.{
  ◌≡◌, refl, sym, ◌∙◌, ◌⊎◌, inl, inr, Bool, true, false, Option, none, some, List, [], ◌∷◌, map,
  Bytes, bytes, str_eq, Result, ok, err, Bool-cases,
}
use synapse_media_worker.Resolver.{find_host, put_host}
use synapse_media_worker.Resolver.Target.{
  SrvTarget, ResolveError, Answer, records, failure, Srv, record_name, last_answer, settle_lookup,
  lookup_service, try_next, resolve_srv, server_of, use_records, is_refusal,
}

-- The servers that an answer gives: its records, also those that came with a failure, or the last
-- answer where it failed and not because there are none.
pub data Offers (srv : Srv) (name : Bytes) : Answer → List SrvTarget → Type 0 where
  answered :
      (found : List SrvTarget)
      → is_refusal found ≡ false
      → Offers srv name (records found) (map server_of found)
  partial :
      (not_found : Bool) (r : SrvTarget) (found : List SrvTarget)
      → is_refusal (r ∷ found) ≡ false
      → Offers srv name (failure not_found (r ∷ found)) (map server_of (r ∷ found))
  remembered :
      (servers : List SrvTarget)
      → find_host name srv ≡ some servers
      → Offers srv name (failure false []) servers

-- An answer that there are no records.
pub data IsAbsent : Answer → Type 0 where
  no_records : IsAbsent (records [])
  not_there : IsAbsent (failure true [])

-- An answer without servers: the service is not offered, or asking failed and there is no last answer.
pub data Fails (srv : Srv) (name : Bytes) : Answer → Type 0 where
  unavailable : (found : List SrvTarget) → is_refusal found ≡ true → Fails srv name (records found)
  unavailable_partial :
      (not_found : Bool) (r : SrvTarget) (found : List SrvTarget)
      → is_refusal (r ∷ found) ≡ true
      → Fails srv name (failure not_found (r ∷ found))
  forgotten :
      (find_host name srv ≡ none) ⊎ (find_host name srv ≡ some [])
      → Fails srv name (failure false [])

-- What asking for one service comes to.
abbrev Settled : Srv → Bytes → Answer → Result ResolveError (List SrvTarget) × Srv → Type 0
Settled srv name a (err e, after) = Fails srv name a
Settled srv name a (ok [], after) =
    IsAbsent a
    × ((other : Bytes) → str_eq name other ≡ false → find_host other after ≡ find_host other srv)
Settled srv name a (ok (s ∷ servers), after) = Offers srv name a (s ∷ servers)

use_records-answered :
    (srv : Srv) (name : Bytes) (found : List SrvTarget)
    → Settled srv name (records found) (use_records name found srv)
unfolding use_records put_host find_host
use_records-answered srv name found = elim (Bool-cases (is_refusal found)) [
  | inl refused ↦ rw refused (unavailable found refused)
  | inr given ↦ rw given (given_records found given)
]
  where
    given_records :
        (rs : List SrvTarget)
        → is_refusal rs ≡ false
        → Settled srv name
            (records rs)
            (ok (map server_of rs), put_host name (map server_of rs) srv)
    given_records [] h = (no_records, λ other ne. rw ne refl)
    given_records (r ∷ rs) h = answered (r ∷ rs) h

use_records-partial :
    (srv : Srv) (name : Bytes) (not_found : Bool) (r : SrvTarget) (found : List SrvTarget)
    → Settled srv name (failure not_found (r ∷ found)) (use_records name (r ∷ found) srv)
unfolding use_records
use_records-partial srv name not_found r found = elim (Bool-cases (is_refusal (r ∷ found))) [
  | inl refused ↦ rw refused (unavailable_partial not_found r found refused)
  | inr given ↦ rw given (partial not_found r found given)
]

last_answer-Settled :
    (srv : Srv) (name : Bytes) (o : Option (List SrvTarget))
    → find_host name srv ≡ o
    → Settled srv name (failure false []) (last_answer o, srv)
unfolding last_answer
last_answer-Settled srv name none h = forgotten (inl h)
last_answer-Settled srv name (some []) h = forgotten (inr h)
last_answer-Settled srv name (some (s ∷ servers)) h = remembered (s ∷ servers) h

settle_lookup-Settled :
    (srv : Srv) (name : Bytes) (a : Answer) → Settled srv name a (settle_lookup name srv a)
unfolding settle_lookup
settle_lookup-Settled srv name (records found) = use_records-answered srv name found
settle_lookup-Settled srv name (failure nf (r ∷ found)) = use_records-partial srv name nf r found
settle_lookup-Settled srv name (failure true []) = (not_there, λ other ne. refl)
settle_lookup-Settled srv name (failure false []) =
    last_answer-Settled srv name (find_host name srv) refl

Offers-same :
    (srv after : Srv) (name : Bytes) (a : Answer) (servers : List SrvTarget)
    → find_host name after ≡ find_host name srv
    → Offers after name a servers
    → Offers srv name a servers
Offers-same srv after name _ _ e (answered found h) = answered found h
Offers-same srv after name _ _ e (partial nf r found h) = partial nf r found h
Offers-same srv after name _ _ e (remembered servers h) = remembered servers (sym e ∙ h)

Fails-same :
    (srv after : Srv) (name : Bytes) (a : Answer)
    → find_host name after ≡ find_host name srv
    → Fails after name a
    → Fails srv name a
Fails-same srv after name _ e (unavailable found h) = unavailable found h
Fails-same srv after name _ e (unavailable_partial nf r found h) = unavailable_partial nf r found h
Fails-same srv after name _ e (forgotten (inl h)) = forgotten (inl (sym e ∙ h))
Fails-same srv after name _ e (forgotten (inr h)) = forgotten (inr (sym e ∙ h))

abbrev fed_name : Bytes → Bytes
fed_name host = record_name (bytes "matrix-fed") host

abbrev old_name : Bytes → Bytes
old_name host = record_name (bytes "matrix") host

names_differ : (host : Bytes) → str_eq (fed_name host) (old_name host) ≡ false
unfolding record_name str_eq
names_differ host = refl

module _ (lookup : Bytes → Bytes → Answer) (host : Bytes) (srv : Srv) where
  -- What the servers of a resolution rest on. The server itself, on the default port, is only given
  -- where both services have no records.
  pub data IsJustified : List SrvTarget → Type 0 where
    newer :
        (s : SrvTarget) (servers : List SrvTarget)
        → Offers srv (fed_name host) (lookup (bytes "matrix-fed") host) (s ∷ servers)
        → IsJustified (s ∷ servers)
    older :
        (s : SrvTarget) (servers : List SrvTarget)
        → IsAbsent (lookup (bytes "matrix-fed") host)
        → Offers srv (old_name host) (lookup (bytes "matrix") host) (s ∷ servers)
        → IsJustified (s ∷ servers)
    itself :
        IsAbsent (lookup (bytes "matrix-fed") host)
        → IsAbsent (lookup (bytes "matrix") host)
        → IsJustified (record { host = host; port = 8448 } ∷ [])

  -- What a resolution comes to: servers that rest on an answer, or a failure of a service that is
  -- asked for.
  abbrev pub IsResolved : Result ResolveError (List SrvTarget) × Srv → Type 0
  IsResolved (ok servers, after) = IsJustified servers
  IsResolved (err e, after) =
      Fails srv (fed_name host) (lookup (bytes "matrix-fed") host)
      ⊎ (IsAbsent (lookup (bytes "matrix-fed") host)
          × Fails srv (old_name host) (lookup (bytes "matrix") host))

  older-IsResolved :
      (after : Srv) (r : Result ResolveError (List SrvTarget) × Srv)
      → IsAbsent (lookup (bytes "matrix-fed") host)
      → find_host (old_name host) after ≡ find_host (old_name host) srv
      → Settled after (old_name host) (lookup (bytes "matrix") host) r
      → IsResolved (try_next r λ last. (ok (record { host = host; port = 8448 } ∷ []), last))
  unfolding try_next
  older-IsResolved after (err e, last) absent same h = inr (absent, Fails-same srv after _ _ same h)
  older-IsResolved after (ok [], last) absent same (h, k) = itself absent h
  older-IsResolved after (ok (s ∷ servers), last) absent same h =
      older s servers absent (Offers-same srv after _ _ _ same h)

  newer-IsResolved :
      (r : Result ResolveError (List SrvTarget) × Srv)
      → Settled srv (fed_name host) (lookup (bytes "matrix-fed") host) r
      → IsResolved (
          try_next r λ after.
            try_next
              (lookup_service lookup (bytes "matrix") host after)
              λ last. (ok (record { host = host; port = 8448 } ∷ []), last))
  unfolding try_next lookup_service
  newer-IsResolved (err e, after) h = inl h
  newer-IsResolved (ok (s ∷ servers), after) h = newer s servers h
  newer-IsResolved (ok [], after) (absent, same) =
      older-IsResolved after (settle_lookup (old_name host) after (lookup (bytes "matrix") host))
        absent (same (old_name host) (names_differ host))
        (settle_lookup-Settled after (old_name host) (lookup (bytes "matrix") host))

  -- A resolution that succeeds gives at least one server. They are those of the newer service's
  -- answer, or, where that has no records, those of the older one's; the answer is the records that
  -- came, or the last answer where asking failed for another reason than that there are none. The
  -- server itself, on port 8448, is given only where both services have no records. A resolution
  -- that fails has asked for a service that is refused, or for which asking failed without a last
  -- answer.
  pub resolve_srv-IsResolved : IsResolved (resolve_srv lookup host srv)
  unfolding resolve_srv lookup_service
  resolve_srv-IsResolved =
      newer-IsResolved (settle_lookup (fed_name host) srv (lookup (bytes "matrix-fed") host))
        (settle_lookup-Settled srv (fed_name host) (lookup (bytes "matrix-fed") host))
