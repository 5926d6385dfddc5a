-- ===== src/Benchmarks/Encoding.antt =====
-- `_result_bytes` of services/api/aries_api/benchmarks.py: a result document that states its own
-- length.
use aries_space.Base.{
  ℕ, zero, suc, ◌+◌, ◌≤◌, ◌<◌, ◌⊎◌, ◌≡◌, ◌≢◌, ◌∙◌, Bool-cases, inl, inr, refl, arith, length, ltb,
  ◌==◌, if◌then◌else◌,
}
use aries_space.Exn.{benchmark_unavailable}
use aries_space.Exec.{Result, ok, err}
use aries_space.Backend.{Bytes}

-- `json.dumps` of the document whose field `output_bytes` is the number.
abbrev pub Encoder : Type 0
Encoder = ℕ → Bytes

module _ (encode : Encoder) where
  -- `for _ in range(4)`: the rounds left, and the number that the document states
  unfoldable pub settle : ℕ → ℕ → Result (Bytes × ℕ)
  settle zero n = err (benchmark_unavailable "Result size did not stabilize")
  settle (suc rounds) n =
      let payload = encode n in
      let rest = settle rounds (length payload) in
      if n == length payload then ok (payload, n) else rest

  unfoldable pub result_bytes : Result (Bytes × ℕ)
  unfolding settle
  result_bytes = settle 4 0

-- The number of decimal digits, of numbers below ten million.
pub digits : ℕ → ℕ
digits n =
    if ltb n 10
    then 1
    else if ltb n 100
    then 2
    else if ltb n 1000
    then 3
    else if ltb n 10000
    then 4
    else if ltb n 100000
    then 5
    else if ltb n 1000000
    then 6
    else 7

zero_digits : (c : ℕ) → c + digits 0 ≡ c + 1
unfolding digits
zero_digits c = refl

digits-le : (n : ℕ) → digits n ≤ 7
unfolding digits
digits-le n = ground arith

digits-pos : (n : ℕ) → 1 ≤ digits n
unfolding digits
digits-pos n = ground arith

-- Ten or more is one digit more: what a sum of a number and its digits can pass is one power of ten.
digits_step : (a b : ℕ) → a ≤ b → b ≤ a + 6 → (digits b ≡ digits a) ⊎ (digits b ≡ digits a + 1)
unfolding digits
digits_step a b h k = ground arith

digits_settled : (a b : ℕ) → a ≤ b → b ≤ a + 6 → digits b ≡ digits a + 1 → digits (suc b) ≡ digits b
unfolding digits
digits_settled a b h k e = ground arith

module _ (encode : Encoder) where
  settle_states :
      (rounds n : ℕ) (p : Bytes) (m : ℕ)
      → settle encode rounds n ≡ ok (p, m)
      → (p ≡ encode m) × (length p ≡ m)
  unfolding settle
  settle_states zero n p m e = cc
  settle_states (suc rounds) n p m e = ground (arith, settle_states rounds (length (encode n)) p m)

  result_bytes_states :
      (p : Bytes) (m : ℕ) → result_bytes encode ≡ ok (p, m) → (p ≡ encode m) × (length p ≡ m)
  unfolding result_bytes
  result_bytes_states p m e = settle_states 4 0 p m e

  settle_done :
      (rounds n : ℕ) → length (encode n) ≡ n → settle encode (suc rounds) n ≡ ok (encode n, n)
  unfolding settle
  settle_done rounds n e = ground (arith, e)

  settle_next :
      (rounds n m : ℕ)
      → length (encode n) ≡ m
      → n ≢ m
      → settle encode (suc rounds) n ≡ settle encode rounds m
  unfolding settle
  settle_next rounds n m e ne = rw e (ground arith)

  result_bytes_returns :
      (c : ℕ)
      → ((n : ℕ) → n < 10000000 → length (encode n) ≡ c + digits n)
      → c + 8 < 10000000
      → (m : ℕ) × (result_bytes encode ≡ ok (encode m, m))
  unfolding result_bytes
  result_bytes_returns c shape small =
      let a : ℕ = c + 1 in
      let b : ℕ = c + digits a in
      let at_a = shape a (omega arith) in
      let at_b = shape b (omega (arith, digits-le a)) in
      let from_a = settle_next 3 0 a (shape 0 (omega arith) ∙ zero_digits c) in
      elim (Bool-cases (a == b)) [
        | inl same ↦ (a, from_a (omega arith) ∙ settle_done 2 a (ground (arith, at_a, same)))
        | inr more ↦
            let from_b = from_a (omega arith) ∙ settle_next 2 a b at_a (ground (arith, more)) in
            elim (digits_step a b (omega (arith, digits-pos a)) (omega (arith, digits-le a))) [
              | inl fits ↦ (b, from_b ∙ settle_done 1 b (omega (arith, at_b, fits)))
              | inr carry ↦
                  let next =
                    digits_settled a b (omega (arith, digits-pos a)) (omega (arith, digits-le a))
                      carry in
                  (
                    suc b,
                    from_b
                        ∙ settle_next 1 b (suc b) (omega (arith, at_b, carry)) (omega arith)
                        ∙ settle_done 0 (suc b) (
                            omega (arith, shape (suc b) (omega (arith, digits-le a)), next, carry)),
                  )
            ]
      ]

  -- Four rounds are enough: if the number shows in the document as its decimal digits and in no other
  -- way, and the document is shorter than ten million bytes, a document is returned, and it states its
  -- own length.
  pub result_bytes_total :
      (c : ℕ)
      → ((n : ℕ) → n < 10000000 → length (encode n) ≡ c + digits n)
      → c + 8 < 10000000
      → (m : ℕ) × (result_bytes encode ≡ ok (encode m, m)) × (length (encode m) ≡ m)
  result_bytes_total c shape small =
      let (m, e) = result_bytes_returns c shape small in
      (m, e, (result_bytes_states (encode m) m e).1)
