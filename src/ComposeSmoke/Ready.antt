-- ===== src/ComposeSmoke/Ready.antt =====
-- scripts/compose_smoke.py: waiting for a service ends, and ends well where the service becomes ready.
use aries_space.Base.{
  ℕ, zero, suc, ◌+◌, ◌*◌, ◌≤◌, ◌<◌, ◌≡◌, inl, inr, true, some, arith, Bool-cases,
}
use aries_space.Exec.{Result, ok, err, Result-cases}
use aries_space.Json.{Json}
use aries_space.ComposeSmoke.{Client, is_ready, is_retried, wait_ready}

-- A service that is ready, and one that may fail in the ways that are retried.
abbrev pub Answers : Result (ℕ × Json) → Type 0
Answers (ok answer) = is_ready answer ≡ true
Answers (err e) = ⊥

abbrev pub Retries : Result (ℕ × Json) → Type 0
Retries (ok answer) = Unit
Retries (err e) = is_retried e ≡ true

module _ {W : Type 0} (C : Client W) where
  -- A request turns the clock forward by at most `longest`, and the pause by at least half a second and
  -- at most `pause`.
  pub record IsTimed (longest pause : ℕ) : Type 0 where
    pub request_forward : (w : W) → C.monotonic w ≤ C.monotonic (C.request w).1
    pub request_short : (w : W) → C.monotonic (C.request w).1 ≤ C.monotonic w + longest
    pub sleep_forward : (w : W) → C.monotonic w + 500 ≤ C.monotonic (C.sleep w)
    pub sleep_short : (w : W) → C.monotonic (C.sleep w) ≤ C.monotonic w + pause

  module _ (longest pause start : ℕ) (T : IsTimed longest pause) where
    -- If a request takes at most a longest time, a pause at least half a second and at most
    -- another, requests raise nothing but what is retried, every request that is made from a start
    -- on is answered that the service is ready, and the deadline lies later than that start, a
    -- request and a pause together, then the wait returns, and as many rounds as there are half
    -- seconds until the deadline are enough.
    pub wait_ready-returns :
        (fuel deadline : ℕ) (w : W)
        → ((v : W) → Retries (C.request v).0)
        → ((v : W) → start ≤ C.monotonic v → Answers (C.request v).0)
        → start + longest + pause < deadline
        → C.monotonic w < deadline
        → deadline ≤ C.monotonic w + fuel * 500
        → (v : W) × (wait_ready C fuel deadline w ≡ some (ok tt, v))
    unfolding wait_ready
    wait_ready-returns zero deadline w retried ready late now enough =
        ground (arith, late, now, enough)
    wait_ready-returns (suc fuel) deadline w retried ready late now enough =
        let w' = (C.request w).1 in
        let again : C.monotonic w < start
            → (v : W) × (wait_ready C fuel deadline (C.sleep w') ≡ some (ok tt, v)) =
          λ early.
            wait_ready-returns fuel deadline (C.sleep w') retried ready late
              (omega (arith, early, late, T.request_short w, T.sleep_short w'))
              (omega (arith, enough, T.request_forward w, T.sleep_forward w')) in
        elim (Result-cases (C.request w).0) [
          | inl (answer, h) ↦ elim (Bool-cases (is_ready answer)) [
            | inl g ↦ (w', ground (arith, h, g, now))
            | inr g ↦
                let early : C.monotonic w < start = ground (arith, h, g, ready w) in
                let (v, e) = again early in (v, ground (arith, h, g, now, e))
          ]
          | inr (x, h) ↦
              let early : C.monotonic w < start = ground (arith, h, ready w) in
              let (v, e) = again early in (v, ground (arith, h, retried w, now, e))
        ]
