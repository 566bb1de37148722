-- ===== src/Resolver/Attempts.antt =====
-- The requests for a .well-known come to an end.
use synapse_media_worker.Base.{
  ℕ, zero, suc, ◌+◌, ◌≤◌, ◌<◌, ◌≡◌, refl, ◌⊎◌, inl, inr, Bool, true, false, not, ◌||◌, leb, arith,
  if◌then◌else◌, sym, subst,
}
use synapse_media_worker.Resolver.{
  retry_attempts, Once, given, too_large, unavailable, request_well_known_once, Context, Requested,
  got, temporary_failure, unfinished, judge_once, request_loop, request_well_known,
}

-- How many requests there may be.
abbrev pub most : Bool → ℕ
most true = 3
most false = 1

-- The loop has ended: with the answer to one of at most `n` requests, or because one of them was
-- too large or had no usable answer.
abbrev pub IsSettled : ℕ → Context → Requested → Type 0
IsSettled n ctx (got status headers body) =
    (i : ℕ) × (1 ≤ i)
    × (i ≤ n)
    × (request_well_known_once (ctx.replies i) ≡ given status headers body)
IsSettled n ctx temporary_failure =
    (i : ℕ) × (1 ≤ i)
    × (i ≤ n)
    × ((request_well_known_once (ctx.replies i) ≡ too_large)
        ⊎ (request_well_known_once (ctx.replies i) ≡ unavailable))
IsSettled n ctx unfinished = ⊥

goes_on :
    (cancelled retry last : Bool)
    → (cancelled || (not retry || last)) ≡ false
    → (retry ≡ true) × (last ≡ false)
goes_on false true false h = (refl, refl)
goes_on false true true h = cc
goes_on false false last h = cc
goes_on true retry last h = cc

module _ (retry : Bool) (ctx : Context) where
  choose-IsSettled :
      (b : Bool) (r s : Requested)
      → (b ≡ true → IsSettled (most retry) ctx r)
      → (b ≡ false → IsSettled (most retry) ctx s)
      → IsSettled (most retry) ctx (if b then r else s)
  choose-IsSettled true r s h k = h refl
  choose-IsSettled false r s h k = k refl

  judge_once-IsSettled :
      (attempt : ℕ) (again : ℕ → Requested) (once : Once)
      → 1 ≤ attempt
      → attempt ≤ most retry
      → request_well_known_once (ctx.replies attempt) ≡ once
      → (retry ≡ true → attempt < 3 → IsSettled (most retry) ctx (again (attempt + 1)))
      → IsSettled (most retry) ctx (judge_once retry ctx attempt again once)
  unfolding judge_once
  judge_once-IsSettled attempt again (given status headers body) low high e next =
      (attempt, low, high, e)
  judge_once-IsSettled attempt again too_large low high e next = (attempt, low, high, inl e)
  judge_once-IsSettled attempt again unavailable low high e next =
      choose-IsSettled (ctx.cancelled attempt || (not retry || leb retry_attempts attempt)) _ _
        (λ stop. (attempt, low, high, inr e))
        (λ go_on.
          (let (retried, early) = goes_on (ctx.cancelled attempt) retry _ go_on in
            choose-IsSettled (ctx.slept attempt) _ _ (λ slept. next retried (ground arith))
              (λ cut_short. (attempt, low, high, inr e))))

  request_loop-IsSettled :
      (fuel attempt : ℕ)
      → 1 ≤ attempt
      → attempt ≤ most retry
      → attempt ≤ 3
      → 3 < attempt + fuel
      → IsSettled (most retry) ctx (request_loop fuel retry ctx attempt)
  unfolding request_loop
  request_loop-IsSettled zero attempt low high three enough = absurd (omega arith)
  request_loop-IsSettled (suc fuel) attempt low high three enough =
      judge_once-IsSettled attempt (request_loop fuel retry ctx)
        (request_well_known_once (ctx.replies attempt)) low high refl
        (λ retried early.
          request_loop-IsSettled fuel (attempt + 1) (omega arith)
            (subst (λ b. attempt + 1 ≤ most b) (sym retried) (omega arith)) (omega arith)
            (omega arith))

one_of_most : (retry : Bool) → 1 ≤ most retry
one_of_most true = omega arith
one_of_most false = omega arith

-- The request ends, whatever the network does: after one attempt, or three where retrying is asked for,
-- at most. It gives the answer to one of these attempts, or fails because one of them was too large
-- or had no usable answer.
pub request_well_known-IsSettled :
    (retry : Bool) (ctx : Context) → IsSettled (most retry) ctx (request_well_known retry ctx)
unfolding request_well_known
request_well_known-IsSettled retry ctx =
    request_loop-IsSettled retry ctx 3 1 (omega arith) (one_of_most retry) (omega arith)
      (omega arith)
