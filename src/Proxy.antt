-- ===== src/Proxy.antt =====
-- proxy.go: the choice of an upstream and the dispatch of a request, and the headers that are passed
-- on. Endpoints are numbers below `n`; the counts of requests in flight are a function on them. What
-- sending to an endpoint comes to is an input.
pub mod Pick
pub mod Dispatch
mod Tests
use synapse_media_worker.Base.{
  ℕ, zero, suc, ◌+◌, ◌-◌, ◌%◌, Bool, true, false, not, ◌&&◌, ◌||◌, Option, none, some, List, [],
  ◌∷◌, ◌++◌, ltb, ◌==◌, if◌then◌else◌, Bytes, bytes, two64,
}
use synapse_media_worker.Synapse.{is_empty}

abbrev pub Loads : Type 0
Loads = ℕ → ℕ

unfoldable pub is_tried : List ℕ → ℕ → Bool
is_tried [] ep = false
is_tried (t ∷ tried) ep = (t == ep) || is_tried tried ep

unfoldable pub lighter : Loads → ℕ → Option ℕ → Option ℕ
lighter loads ep none = some ep
lighter loads ep (some best) = if ltb (loads ep) (loads best) then some ep else some best

unfoldable pub consider : Loads → List ℕ → ℕ → Option ℕ → Option ℕ
unfolding is_tried lighter
consider loads tried ep best = if is_tried tried ep then best else lighter loads ep best

-- The loop of `pick`, with `rounds` left, from `i` on; the sum is one of 64-bit numbers.
unfoldable pub pick_loop : ℕ → Loads → List ℕ → ℕ → ℕ → ℕ → Option ℕ → Option ℕ
unfolding consider
pick_loop n loads tried offset zero i best = best
pick_loop n loads tried offset (suc rounds) i best =
    pick_loop n loads tried offset rounds (i + 1)
      (consider loads tried ((offset + i) % two64 % n) best)

-- `pick`, with the counter as it is after it has been increased.
unfoldable pub pick : ℕ → Loads → List ℕ → ℕ → Option ℕ
unfolding pick_loop
pick n loads tried offset = pick_loop n loads tried offset n 0 none

-- What sending to an endpoint comes to.
pub data Sent : Type 0 where
  responded connect_error other_error : Sent

unfoldable pub add_load : ℕ → Loads → Loads
add_load ep loads j = if j == ep then loads j + 1 else loads j

unfoldable pub release : ℕ → Loads → Loads
release ep loads j = if j == ep then loads j - 1 else loads j

-- How a dispatch ends: the endpoint that answered, or failed in another way than by the connection,
-- or none; with the endpoints that were tried before.
pub data Dispatched : Type 0 where
  served : ℕ → List ℕ → Dispatched
  broken : ℕ → List ℕ → Dispatched
  unreachable : List ℕ → Dispatched

module _ (n : ℕ) (send : ℕ → Sent) where
  -- One endpoint: its count goes up before the request is sent, and down where that fails.
  unfoldable pub attempt :
      (ℕ → Loads → List ℕ → Dispatched × Loads) → ℕ → Loads → List ℕ → ℕ → Sent → Dispatched × Loads
  unfolding add_load release
  attempt again rr loads tried ep responded = (served ep tried, add_load ep loads)
  attempt again rr loads tried ep connect_error =
      again rr (release ep (add_load ep loads)) (ep ∷ tried)
  attempt again rr loads tried ep other_error = (broken ep tried, release ep (add_load ep loads))

  unfoldable pub attempt_picked :
      (ℕ → Loads → List ℕ → Dispatched × Loads) → ℕ → Loads → List ℕ → Option ℕ → Dispatched × Loads
  unfolding attempt
  attempt_picked again rr loads tried none = (unreachable tried, loads)
  attempt_picked again rr loads tried (some ep) = attempt again rr loads tried ep (send ep)

  -- The loop of `RoundTrip`, with `rounds` left; `rr` is the counter of `pick`.
  unfoldable pub dispatch : ℕ → ℕ → Loads → List ℕ → Dispatched × Loads
  unfolding attempt_picked pick
  dispatch zero rr loads tried = (unreachable tried, loads)
  dispatch (suc rounds) rr loads tried =
      let offset = (rr + 1) % two64 in
      attempt_picked (dispatch rounds) offset loads tried (pick n loads tried offset)

  unfoldable pub round_trip : ℕ → Loads → Dispatched × Loads
  unfolding dispatch
  round_trip rr loads = dispatch n rr loads []

-- `forwardXForwardedFor`: the value that goes on, where the peer is a TCP address or not.
unfoldable pub forwarded_for : Bytes → Option Bytes → Option Bytes
unfolding is_empty
forwarded_for prior none = if is_empty prior then none else some prior
forwarded_for prior (some client_ip) =
    if is_empty prior then some client_ip else some (prior ++ bytes ", " ++ client_ip)

unfoldable pub forwarded_host : Bytes → Bytes → Bytes
unfolding is_empty
forwarded_host given host = if is_empty given then host else given

unfoldable pub forwarded_proto : Bytes → Bool → Bytes
unfolding is_empty
forwarded_proto given tls =
    if is_empty given then (if tls then bytes "https" else bytes "http") else given
