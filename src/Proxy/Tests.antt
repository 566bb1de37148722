-- ===== src/Proxy/Tests.antt =====
-- Two upstreams, of which the idle one is down.
use synapse_media_worker.Base.{
  ℕ, ◌≡◌, refl, false, some, none, [], ◌∷◌, bytes, arith, ◌==◌, if◌then◌else◌,
}
use synapse_media_worker.Synapse.{is_empty}
use synapse_media_worker.Proxy.{
  Loads, is_tried, lighter, consider, pick_loop, pick, Sent, responded, connect_error, add_load,
  release, served, attempt, attempt_picked, dispatch, round_trip, forwarded_for,
}
use synapse_media_worker.Proxy.Pick.{IsLightest}
use synapse_media_worker.Proxy.Pick
use synapse_media_worker.Proxy.Dispatch.{IsDispatched}
use synapse_media_worker.Proxy.Dispatch

abbrev loads : Loads
loads j = if j == 0 then 3 else 0

abbrev send : ℕ → Sent
send j = if j == 0 then responded else connect_error

round_trip_test : (round_trip 2 send 7 loads).0 ≡ served 0 (1 ∷ [])
unfolding round_trip dispatch pick pick_loop consider is_tried lighter attempt_picked attempt
    release add_load
round_trip_test = refl

-- On a unix socket the chain of the proxy in front goes on as it is.
forwarded_test : forwarded_for (bytes "192.0.2.1") none ≡ some (bytes "192.0.2.1")
unfolding forwarded_for is_empty
forwarded_test = refl

round_trip-IsDispatched_example : IsDispatched 2 send 1 loads (round_trip 2 send 7 loads)
round_trip-IsDispatched_example =
    Dispatch.round_trip-IsDispatched 2 send 1 7 loads (omega arith) (omega arith)

untried_test : is_tried [] 0 ≡ false
unfolding is_tried
untried_test = refl

pick-IsLightest_example : IsLightest 2 loads [] 0 (pick 2 loads [] 8)
pick-IsLightest_example =
    Pick.pick-IsLightest 2 loads [] 8 0 (omega arith) (omega arith) untried_test
