-- ===== src/ComposeSmoke/Tests.antt =====
-- The theorem on scripts/compose_smoke.py at a service that is ready from the third second on; the world
-- is the clock.
use aries_space.Base.{ℕ, ◌+◌, ◌≤◌, ◌≡◌, some, arith, ltb, if◌then◌else◌, inl, inr, Bool-cases}
use aries_space.Exn.{os_error}
use aries_space.Exec.{ok, err}
use aries_space.Json.{text, obj, field, end}
use aries_space.ComposeSmoke.{Client, is_ready, wait_ready}
use aries_space.ComposeSmoke.Ready.{IsTimed, Answers, Retries, wait_ready-returns}

abbrev client : Client ℕ
client = record {
  monotonic = λ now. now;
  request = λ now. (
    if ltb now 3000 then err os_error else ok (200, obj (field "status" (text "ready") end)),
    now + 10,
  );
  sleep = λ now. now + 500;
}

client-IsTimed : IsTimed client 10 500
client-IsTimed = record {
  request_forward = λ w. omega arith;
  request_short = λ w. omega arith;
  sleep_forward = λ w. omega arith;
  sleep_short = λ w. omega arith;
}

retried : (now : ℕ) → Retries (client.request now).0
retried now = elim (Bool-cases (ltb now 3000)) [
  | inl h ↦ ground (arith, h)
  | inr h ↦ ground (arith, h)
]

ready : (now : ℕ) → 3000 ≤ now → Answers (client.request now).0
unfolding is_ready
ready now h = ground (arith, h)

wait_ready-returns_example : (v : ℕ) × (wait_ready client 360 180000 0 ≡ some (ok tt, v))
wait_ready-returns_example =
    wait_ready-returns client 10 500 3000 client-IsTimed 360 180000 0 retried ready (omega arith)
      (omega arith) (omega arith)
