-- ===== src/RateLimit/Reference.antt =====
-- The limiter against a sliding window over the whole history: `RateLimitMiddleware` of
-- services/api/aries_api/main.py.
use aries_space.Base.{
  ℕ, ◌-◌, ◌≤◌, ◌≡◌, refl, sym, ap, ◌∙◌, Bool, true, false, String, List, [], ◌∷◌, ◌++◌, length,
  count, All, ltb, leb, eq_iff, arith, if◌then◌else◌,
}
use aries_space.RateLimit.{Limiter, Request, window, prune, update, client_ip, dispatch, run, fresh}

abbrev pub Log : Type 0
Log = String → List ℕ

abbrev pub in_window : ℕ → ℕ → Bool
in_window now t = leb (now - t) window

-- The promise: a request passes while fewer than `limit` passed in the window that ends now.
pub reference_dispatch : ℕ → Log → Request → Bool × Log
reference_dispatch limit log r =
    let ip = client_ip r.client in
    if ltb (count (in_window r.now) (log ip)) limit
    then (true, update ip (log ip ++ r.now ∷ []) log)
    else (false, log)

pub reference_run : ℕ → Log → List Request → List Bool
unfolding reference_dispatch
reference_run limit log [] = []
reference_run limit log (r ∷ rs) =
    let (answer, log') = reference_dispatch limit log r in answer ∷ reference_run limit log' rs

-- A monotonic clock, from the reading `t` on.
abbrev pub IsMonotone : ℕ → List Request → Type 0
IsMonotone t [] = Unit
IsMonotone t (r ∷ rs) = (t ≤ r.now) × IsMonotone r.now rs

abbrev Ascending : List ℕ → Type 0
Ascending [] = Unit
Ascending (x ∷ xs) = All (λ t. x ≤ t) xs × Ascending xs

prune-append : (m n : ℕ) (xs ys : List ℕ) → m ≤ n → prune n (prune m xs ++ ys) ≡ prune n (xs ++ ys)
unfolding prune
prune-append m n [] ys h = refl
prune-append m n (x ∷ xs) ys h = ground (arith, prune-append m n xs ys h)

prune-prune : (m n : ℕ) (xs : List ℕ) → m ≤ n → prune n (prune m xs) ≡ prune n xs
unfolding prune
prune-prune m n [] h = refl
prune-prune m n (x ∷ xs) h = ground (arith, prune-prune m n xs h)

-- What follows a reading inside the window is inside the window.
count-in_window :
    (now x : ℕ) (xs : List ℕ)
    → All (λ t. x ≤ t) xs
    → now - x ≤ window
    → count (in_window now) xs ≡ length xs
count-in_window now x [] a h = refl
count-in_window now x (y ∷ ys) a h = ground (arith, count-in_window now x ys a.1 h)

length-prune :
    (now : ℕ) (xs : List ℕ) → Ascending xs → length (prune now xs) ≡ count (in_window now) xs
unfolding prune
length-prune now [] a = refl
length-prune now (x ∷ xs) a = ground (arith, length-prune now xs a.1, count-in_window now x xs a.0)

All-snoc :
    (x now : ℕ) (xs : List ℕ) → All (λ t. x ≤ t) xs → x ≤ now → All (λ t. x ≤ t) (xs ++ now ∷ [])
All-snoc x now [] a h = (h, tt)
All-snoc x now (y ∷ ys) a h = (a.0, All-snoc x now ys a.1 h)

Ascending-snoc :
    (now : ℕ) (xs : List ℕ) → Ascending xs → All (λ t. t ≤ now) xs → Ascending (xs ++ now ∷ [])
Ascending-snoc now [] a b = (tt, tt)
Ascending-snoc now (x ∷ xs) a b = (All-snoc x now xs a.0 b.0, Ascending-snoc now xs a.1 b.1)

All-le : (s t : ℕ) (xs : List ℕ) → s ≤ t → All (λ x. x ≤ s) xs → All (λ x. x ≤ t) xs
All-le s t [] h a = tt
All-le s t (x ∷ xs) h a = (omega arith, All-le s t xs h a.1)

All-le-snoc :
    (s t : ℕ) (xs : List ℕ) → s ≤ t → All (λ x. x ≤ s) xs → All (λ x. x ≤ t) (xs ++ t ∷ [])
All-le-snoc s t [] h a = (omega arith, tt)
All-le-snoc s t (x ∷ xs) h a = (omega arith, All-le-snoc s t xs h a.1)

-- At the reading `t` the deque and the history agree on every later window.
record Agree (t : ℕ) (hits log : List ℕ) : Type 0 where
  later : (n : ℕ) → t ≤ n → prune n hits ≡ prune n log
  ascending : Ascending log
  past : All (λ x. x ≤ t) log

abbrev Refines : ℕ → Limiter → Log → Type 0
Refines t l log = (ip : String) → Agree t (l.hits ip) (log ip)

Agree-wait : (s t : ℕ) (hits log : List ℕ) → s ≤ t → Agree s hits log → Agree t hits log
Agree-wait s t hits log h a = record {
  later = λ n k. a.later n (omega arith);
  ascending = a.ascending;
  past = All-le s t log h a.past;
}

Agree-prune : (s t : ℕ) (hits log : List ℕ) → s ≤ t → Agree s hits log → Agree t (prune t hits) log
Agree-prune s t hits log h a = record {
  later = λ n k. prune-prune t n hits k ∙ a.later n (omega arith);
  ascending = a.ascending;
  past = All-le s t log h a.past;
}

Agree-push :
    (s t : ℕ) (hits log : List ℕ)
    → s ≤ t
    → Agree s hits log
    → Agree t (prune t hits ++ t ∷ []) (log ++ t ∷ [])
Agree-push s t hits log h a = record {
  later = λ n k.
      prune-append t n hits (t ∷ []) k
      ∙ sym (prune-append n n hits (t ∷ []) (omega arith))
      ∙ ap (λ (xs : List ℕ). prune n (xs ++ t ∷ [])) (a.later n (omega arith))
      ∙ prune-append n n log (t ∷ []) (omega arith);
  ascending = Ascending-snoc t log a.ascending (All-le s t log h a.past);
  past = All-le-snoc s t log h a.past;
}

module _ (t : ℕ) (l : Limiter) (log : Log) (h : Refines t l log) (r : Request) (k : t ≤ r.now) where
  hits-log :
      length (prune r.now (l.hits (client_ip r.client)))
      ≡ count (in_window r.now) (log (client_ip r.client))
  hits-log =
      let a = h (client_ip r.client) in
      ap length (a.later r.now k) ∙ length-prune r.now (log (client_ip r.client)) a.ascending

  dispatch-answer : (dispatch l r.client r.now).0 ≡ (reference_dispatch l.limit log r).0
  unfolding dispatch reference_dispatch
  dispatch-answer = rw hits-log (ground arith)

  dispatch-Refines :
      Refines r.now (dispatch l r.client r.now).1 (reference_dispatch l.limit log r).1
  unfolding dispatch reference_dispatch
  dispatch-Refines j =
      let ip = client_ip r.client in
      let a = h ip in
      ground (
        arith,
        hits-log,
        eq_iff ip j,
        Agree-wait t r.now (l.hits j) (log j) k (h j),
        Agree-prune t r.now (l.hits ip) (log ip) k a,
        Agree-push t r.now (l.hits ip) (log ip) k a,
      )

limit-dispatch : (l : Limiter) (r : Request) → (dispatch l r.client r.now).1.limit ≡ l.limit
unfolding dispatch
limit-dispatch l r = ground arith

run-Refines :
    (t : ℕ) (l : Limiter) (log : Log) (rs : List Request)
    → Refines t l log
    → IsMonotone t rs
    → (run l rs).0 ≡ reference_run l.limit log rs
unfolding run reference_run
run-Refines t l log [] h m = refl
run-Refines t l log (r ∷ rs) h m =
    let rest : (run (dispatch l r.client r.now).1 rs).0
        ≡ reference_run l.limit (reference_dispatch l.limit log r).1 rs =
      rw (limit-dispatch l r) at (
        run-Refines r.now (dispatch l r.client r.now).1 (reference_dispatch l.limit log r).1 rs
          (dispatch-Refines t l log h r m.0) m.1) in
    cc (dispatch-answer t l log h r m.0, rest)

-- From an empty limiter and under a clock that never goes back, every request of any sequence gets
-- the answer that it gets from counting, in the whole history of its own address, the requests that
-- passed in the window before it.
pub run-reference :
    (limit : ℕ) (rs : List Request)
    → IsMonotone 0 rs
    → (run (fresh limit) rs).0 ≡ reference_run limit (λ _. []) rs
run-reference limit rs m =
    run-Refines 0 (fresh limit) (λ _. []) rs
      (λ ip. record { later = λ n k. refl; ascending = tt; past = tt }) m
