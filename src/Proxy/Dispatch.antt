-- ===== src/Proxy/Dispatch.antt =====
-- A request reaches one endpoint at most, unless the connection fails.
use synapse_media_worker.Base.{
  ℕ, zero, suc, ◌+◌, ◌%◌, ◌≤◌, ◌<◌, ◌≡◌, refl, sym, ◌∙◌, subst, true, false, Option, none, some,
  List, [], ◌∷◌, All, arith, Bool-cases, inl, inr, two64, if◌then◌else◌, ◌==◌, ==_iff,
}
use synapse_media_worker.Proxy.{
  Loads, is_tried, pick, Sent, responded, connect_error, other_error, add_load, release, Dispatched,
  served, broken, unreachable, attempt, attempt_picked, dispatch, round_trip,
}
use synapse_media_worker.Proxy.Pick.{IsLightest, IsOpen, pick-IsLightest, pick-IsOpen}

-- Endpoints without repetition.
abbrev pub IsDistinct : List ℕ → Type 0
IsDistinct [] = Unit {0}
IsDistinct (t ∷ tried) = (is_tried tried t ≡ false) × IsDistinct tried

-- How many endpoints below `n` have not been tried.
untried : ℕ → List ℕ → ℕ
untried zero tried = 0
untried (suc n) tried = (if is_tried tried n then 0 else 1) + untried n tried

untried-nil : (n : ℕ) → untried n [] ≡ n
unfolding untried is_tried
untried-nil zero = refl
untried-nil (suc n) = omega (arith, untried-nil n)

untried-all :
    (n : ℕ) (tried : List ℕ) (j : ℕ) → untried n tried ≡ 0 → j < n → is_tried tried j ≡ true
unfolding untried
untried-all zero tried j e h = absurd (omega arith)
untried-all (suc n) tried j e h = elim (Bool-cases (is_tried tried n)) [
  | inr fresh ↦ absurd (omega (arith, rw fresh at e))
  | inl old ↦
      let rest : untried n tried ≡ 0 = omega (arith, rw old at e) in
      elim (Bool-cases (j == n)) [
        | inl same ↦ subst (λ m. is_tried tried m ≡ true) (sym ((==_iff j n).0 same)) old
        | inr other ↦ untried-all n tried j rest (ground arith)
      ]
]

untried-above :
    (n : ℕ) (tried : List ℕ) (ep : ℕ) → n ≤ ep → untried n (ep ∷ tried) ≡ untried n tried
unfolding untried is_tried
untried-above zero tried ep h = refl
untried-above (suc n) tried ep h = ground (arith, untried-above n tried ep)

untried-step :
    (n : ℕ) (tried : List ℕ) (ep : ℕ)
    → ep < n
    → is_tried tried ep ≡ false
    → untried n (ep ∷ tried) + 1 ≡ untried n tried
unfolding untried is_tried
untried-step zero tried ep h fresh = absurd (omega arith)
untried-step (suc n) tried ep h fresh = elim (Bool-cases (ep == n)) [
  | inl same ↦
      let is : ep ≡ n = (==_iff ep n).0 same in
      let open_n : is_tried tried n ≡ false = subst (λ m. is_tried tried m ≡ false) is fresh in
      let above = untried-above n tried ep (omega arith) in rw (same, open_n) (omega (arith, above))
  | inr other ↦ ground (arith, untried-step n tried ep)
]

release-add_load : (ep : ℕ) (loads : Loads) (j : ℕ) → release ep (add_load ep loads) j ≡ loads j
unfolding release add_load
release-add_load ep loads j = ground arith

module _ (n : ℕ) (send : ℕ → Sent) (j : ℕ) where
  abbrev Refused : ℕ → Type 0
  Refused ep = send ep ≡ connect_error

  -- What a dispatch that began with `loads` comes to for the count of `j` and for the endpoints that were
  -- tried: all but the last could not be connected to, none twice; only an endpoint that answers
  -- keeps a request in flight; and where no endpoint is reached, `j` could not be connected to.
  abbrev pub IsDispatched : Loads → Dispatched × Loads → Type 0
  IsDispatched loads (served ep tried, after) =
      (send ep ≡ responded)
      × (ep < n)
      × IsDistinct (ep ∷ tried)
      × All Refused tried
      × (after j ≡ (if j == ep then loads j + 1 else loads j))
  IsDispatched loads (broken ep tried, after) =
      (send ep ≡ other_error)
      × (ep < n)
      × IsDistinct (ep ∷ tried)
      × All Refused tried
      × (after j ≡ loads j)
  IsDispatched loads (unreachable tried, after) =
      (send j ≡ connect_error) × IsDistinct tried × All Refused tried × (after j ≡ loads j)

  turned_down : (tried : List ℕ) (i : ℕ) → All Refused tried → is_tried tried i ≡ true → Refused i
  unfolding is_tried
  turned_down [] i h e = cc
  turned_down (t ∷ tried) i (h, k) e = elim (Bool-cases (t == i)) [
    | inl same ↦ subst Refused ((==_iff t i).0 same) h
    | inr other ↦ turned_down tried i k (rw other at e)
  ]

  module _ (loads : Loads) (small : j < n) where
    -- What holds while endpoints are being tried.
    record IsTrying (rounds rr : ℕ) (now : Loads) (tried : List ℕ) : Type 0 where
      distinct : IsDistinct tried
      refused : All Refused tried
      balanced : now j ≡ loads j
      left : untried n tried ≤ rounds
      no_wrap : rr + rounds + n < two64

    -- The rest of the rounds, for an endpoint that could not be connected to.
    abbrev Goes : (ℕ → Loads → List ℕ → Dispatched × Loads) → ℕ → Type 0
    Goes again rounds =
        (rr : ℕ) (now : Loads) (tried : List ℕ)
        → IsTrying rounds rr now tried
        → IsDispatched loads (again rr now tried)

    counted :
        (ep : ℕ) (now : Loads)
        → now j ≡ loads j
        → add_load ep now j ≡ (if j == ep then loads j + 1 else loads j)
    unfolding add_load
    counted ep now e = rw e refl

    attempt-IsDispatched :
        (again : ℕ → Loads → List ℕ → Dispatched × Loads) (rounds rr : ℕ) (now : Loads)
        (tried : List ℕ) (ep : ℕ) (sent : Sent)
        → Goes again rounds
        → send ep ≡ sent
        → (ep < n) × (is_tried tried ep ≡ false)
        → IsTrying (suc rounds) rr now tried
        → rr + rounds + n + 1 < two64
        → IsDispatched loads (attempt n send again (rr + 1) now tried ep sent)
    unfolding attempt
    attempt-IsDispatched again rounds rr now tried ep responded goes e (low, fresh) t w =
        (e, low, (fresh, t.distinct), t.refused, counted ep now t.balanced)
    attempt-IsDispatched again rounds rr now tried ep connect_error goes e (low, fresh) t w =
        goes (rr + 1) (release ep (add_load ep now)) (ep ∷ tried) (record {
          distinct = (fresh, t.distinct);
          refused = (e, t.refused);
          balanced = release-add_load ep now j ∙ t.balanced;
          left = omega (arith, untried-step n tried ep low fresh, t.left);
          no_wrap = omega arith;
        })
    attempt-IsDispatched again rounds rr now tried ep other_error goes e (low, fresh) t w =
        (e, low, (fresh, t.distinct), t.refused, release-add_load ep now j ∙ t.balanced)

    picked-IsDispatched :
        (again : ℕ → Loads → List ℕ → Dispatched × Loads) (rounds rr : ℕ) (now : Loads)
        (tried : List ℕ) (picked : Option ℕ)
        → Goes again rounds
        → IsOpen n now tried picked
        → (picked ≡ none → is_tried tried j ≡ true)
        → IsTrying (suc rounds) rr now tried
        → IsDispatched loads (attempt_picked n send again (rr + 1) now tried picked)
    unfolding attempt_picked
    picked-IsDispatched again rounds rr now tried none goes open_one all t =
        (turned_down tried j t.refused (all refl), t.distinct, t.refused, t.balanced)
    picked-IsDispatched again rounds rr now tried (some ep) goes open_one all t =
        attempt-IsDispatched again rounds rr now tried ep (send ep) goes refl open_one t
          (omega (arith, t.no_wrap))

    -- Where nothing is picked, everything has been tried.
    none-tried :
        (now : Loads) (tried : List ℕ) (offset : ℕ)
        → offset + n < two64
        → pick n now tried offset ≡ none
        → is_tried tried j ≡ true
    none-tried now tried offset no_wrap e = elim (Bool-cases (is_tried tried j)) [
      | inl old ↦ old
      | inr fresh ↦
          let lightest = pick-IsLightest n now tried offset j no_wrap small fresh in
          absurd (subst (IsLightest n now tried j) e lightest)
    ]

    dispatch-IsDispatched :
        (rounds rr : ℕ) (now : Loads) (tried : List ℕ)
        → IsTrying rounds rr now tried
        → IsDispatched loads (dispatch n send rounds rr now tried)
    unfolding dispatch
    dispatch-IsDispatched zero rr now tried t =
        let all = untried-all n tried j (omega (arith, t.left)) small in
        (turned_down tried j t.refused all, t.distinct, t.refused, t.balanced)
    dispatch-IsDispatched (suc rounds) rr now tried t =
        let exact : (rr + 1) % two64 ≡ rr + 1 = omega (arith, t.no_wrap) in
        rw exact (
          picked-IsDispatched (dispatch n send rounds) rounds rr now tried
            (pick n now tried (rr + 1)) (dispatch-IsDispatched rounds)
            (pick-IsOpen n now tried (rr + 1) (omega arith))
            (none-tried now tried (rr + 1) (omega (arith, t.no_wrap))) t)

-- A request is sent to no endpoint twice, and to another one only where the connection to the one before
-- failed. It ends with the first endpoint that answers, which then has one request more in flight, or
-- with the first that fails otherwise, or with none, and then no endpoint `j` can be connected to;
-- in all other cases the count of every endpoint `j` is what it was. Other requests are left aside,
-- and the counter is not about to wrap around 2^64.
pub round_trip-IsDispatched :
    (n : ℕ) (send : ℕ → Sent) (j rr : ℕ) (loads : Loads)
    → j < n
    → rr + n + n < two64
    → IsDispatched n send j loads (round_trip n send rr loads)
unfolding round_trip
round_trip-IsDispatched n send j rr loads small no_wrap =
    dispatch-IsDispatched n send j loads small n rr loads [] (record {
      distinct = tt;
      refused = tt;
      balanced = refl;
      left = omega (arith, untried-nil n);
      no_wrap = no_wrap;
    })
