-- ===== src/Resolver/Target.antt =====
-- resolver.go: where a request to a server name goes, and the SRV records that are asked at dial time.
-- federation.ParseServerName, net.ParseIP, DNS and dialling are parameters.
use synapse_media_worker.Base.{
  ℕ, ◌==◌, Bool, true, false, not, ◌||◌, Option, none, some, List, [], ◌∷◌, ◌++◌, map,
  if◌then◌else◌, Bytes, bytes, str_eq, reverse, Result, err, ok, ◌>>=◌, or_err,
}
use synapse_media_worker.Synapse.{is_empty}
use synapse_media_worker.Resolver.{find_host, put_host}

pub record SrvTarget : Type 0 where
  pub host : Bytes
  pub port : ℕ

pub record DialTarget : Type 0 where
  pub host : Bytes
  pub port : ℕ
  pub explicit : Bool

pub data ResolveError : Type 0 where
  invalid_server_name invalid_delegation : ResolveError
  lookup_failed service_unavailable : ResolveError
  dial_failed : ResolveError

unfoldable pub explicit_target : Bytes → ℕ → DialTarget
explicit_target host port = record {
  host = host;
  port = (if port == 0 then 8448 else port);
  explicit = true;
}

-- `parse` gives a name's host and port, with port 0 where it has none; `is_ip` is whether a host is
-- an address; `delegated` is the answer of getWellKnown.
module _ (parse : Bytes → Option (Bytes × ℕ)) (is_ip : Bytes → Bool) where
  unfoldable pub is_explicit : Bytes → ℕ → Bool
  is_explicit host port = not (port == 0) || is_ip host

  unfoldable pub direct_target : Bytes → ℕ → DialTarget
  unfolding explicit_target is_explicit
  direct_target host port =
      if is_explicit host port
      then explicit_target host port
      else record { host = host; port = 0; explicit = false }

  unfoldable pub resolve_delegated :
      Bytes → Bytes → Bytes → Result ResolveError (Bytes × DialTarget)
  unfolding direct_target is_empty
  resolve_delegated server_name host delegated =
      if is_empty delegated
      then ok (server_name, record { host = host; port = 0; explicit = false })
      else (or_err (parse delegated) invalid_delegation >>= λ (d_host, d_port).
          ok (delegated, direct_target d_host d_port))

  -- `resolve`, for a name that no test has pinned.
  unfoldable pub resolve :
      (get_well_known : Bytes → Bytes) → Bytes → Result ResolveError (Bytes × DialTarget)
  unfolding is_explicit explicit_target resolve_delegated
  resolve get_well_known server_name =
      or_err (parse server_name) invalid_server_name >>= λ (host, port).
      if is_explicit host port
      then ok (server_name, explicit_target host port)
      else resolve_delegated server_name host (get_well_known host)

-- A DNS answer: the records, and for a failure whether it says that there are none, with those
-- records that came all the same.
pub data Answer : Type 0 where
  records : List SrvTarget → Answer
  failure : (not_found : Bool) → List SrvTarget → Answer

-- The last answers, by the name of the record.
abbrev pub Srv : Type 0
Srv = List (Bytes × List SrvTarget)

abbrev drop_dot : Bytes → Bytes
drop_dot [] = []
drop_dot (c ∷ s) = if c == b'.' then s else c ∷ s

-- `strings.TrimSuffix(s, ".")`.
unfoldable pub trim_dot : Bytes → Bytes
trim_dot s = reverse (drop_dot (reverse s))

unfoldable pub server_of : SrvTarget → SrvTarget
unfolding trim_dot
server_of r = record { host = trim_dot r.host; port = r.port }

-- A single record whose target says that the service is not offered.
unfoldable pub is_refusal : List SrvTarget → Bool
unfolding str_eq is_empty
is_refusal [] = false
is_refusal (r ∷ []) = str_eq r.host (bytes ".") || is_empty r.host
is_refusal (r ∷ s ∷ rest) = false

-- `"_" + service + "._tcp." + host`.
unfoldable pub record_name : Bytes → Bytes → Bytes
record_name service host = bytes "_" ++ service ++ bytes "._tcp." ++ host

unfoldable pub use_records :
    Bytes → List SrvTarget → Srv → Result ResolveError (List SrvTarget) × Srv
unfolding is_refusal server_of put_host
use_records name found srv =
    if is_refusal found
    then (err service_unavailable, srv)
    else (let servers = map server_of found in (ok servers, put_host name servers srv))

unfoldable pub last_answer : Option (List SrvTarget) → Result ResolveError (List SrvTarget)
last_answer none = err lookup_failed
last_answer (some []) = err lookup_failed
last_answer (some (s ∷ servers)) = ok (s ∷ servers)

-- `lookupService`: a failure with records is used like an answer.
unfoldable pub settle_lookup : Bytes → Srv → Answer → Result ResolveError (List SrvTarget) × Srv
unfolding use_records last_answer find_host
settle_lookup name srv (records found) = use_records name found srv
settle_lookup name srv (failure not_found (r ∷ found)) = use_records name (r ∷ found) srv
settle_lookup name srv (failure not_found []) =
    if not_found then (ok [], srv) else (last_answer (find_host name srv), srv)

-- The loop over the two services, and the server itself where neither has records.
unfoldable pub try_next :
    Result ResolveError (List SrvTarget) × Srv
    → (Srv → Result ResolveError (List SrvTarget) × Srv)
    → Result ResolveError (List SrvTarget) × Srv
try_next (err e, srv) next = (err e, srv)
try_next (ok [], srv) next = next srv
try_next (ok (s ∷ servers), srv) next = (ok (s ∷ servers), srv)

module _ (lookup : Bytes → Bytes → Answer) where
  unfoldable pub lookup_service : Bytes → Bytes → Srv → Result ResolveError (List SrvTarget) × Srv
  unfolding settle_lookup record_name
  lookup_service service host srv =
      settle_lookup (record_name service host) srv (lookup service host)

  unfoldable pub resolve_srv : Bytes → Srv → Result ResolveError (List SrvTarget) × Srv
  unfolding lookup_service try_next
  resolve_srv host srv = try_next (lookup_service (bytes "matrix-fed") host srv) λ srv.
      try_next (lookup_service (bytes "matrix") host srv)
        λ srv. (ok (record { host = host; port = 8448 } ∷ []), srv)

abbrev connected :
    {Connection : Type 0}
    → Result ResolveError Connection
    → Option Connection
    → Result ResolveError Connection
connected rest none = rest
connected rest (some connection) = ok connection

-- The loop of `dialContext`: the first server that a connection can be made to. `dial` gives the
-- connection; `cancelled` is whether the request is cancelled when an attempt has failed. No list
-- of servers is empty.
module _ {Connection : Type 0} (dial : SrvTarget → Option Connection)
    (cancelled : SrvTarget → Bool) where
  unfoldable pub dial_first : List SrvTarget → Result ResolveError Connection
  dial_first [] = err dial_failed
  dial_first (s ∷ servers) =
      let rest = if cancelled s then err dial_failed else dial_first servers in
      connected rest (dial s)

  unfoldable pub dial_context :
      (lookup : Bytes → Bytes → Answer) → DialTarget → Srv → Result ResolveError Connection × Srv
  unfolding resolve_srv dial_first
  dial_context lookup target srv =
      if target.explicit
      then (dial_first (record { host = target.host; port = target.port } ∷ []), srv)
      else (let (found, after) = resolve_srv lookup target.host srv in
          (found >>= λ servers. dial_first servers, after))
