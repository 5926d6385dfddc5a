-- ===== src/RateLimit/Bounds.antt =====
-- What one address can cost: `RateLimitMiddleware` of services/api/aries_api/main.py.
use aries_space.Base.{
  ℕ, ◌≤◌, ◌≡◌, refl, false, String, Option, List, [], ◌∷◌, length, length-append, str_eq, arith,
}
use aries_space.RateLimit.{Limiter, Request, prune, client_ip, dispatch, run, fresh}

length-prune-le : (now : ℕ) (xs : List ℕ) → length (prune now xs) ≤ length xs
unfolding prune
length-prune-le now [] = omega arith
length-prune-le now (x ∷ xs) = ground (arith, length-prune-le now xs)

-- No deque is longer than the limit.
abbrev pub IsBounded : Limiter → Type 0
IsBounded l = (ip : String) → length (l.hits ip) ≤ l.limit

dispatch-IsBounded :
    (l : Limiter) (client : Option String) (now : ℕ)
    → IsBounded l
    → IsBounded (dispatch l client now).1
unfolding dispatch
dispatch-IsBounded l client now h j =
    let ip = client_ip client in
    ground (
      arith,
      h j,
      h ip,
      length-prune-le now (l.hits ip),
      length-append (prune now (l.hits ip)) (now ∷ []),
    )

run-IsBounded : (l : Limiter) (rs : List Request) → IsBounded l → IsBounded (run l rs).1
unfolding run
run-IsBounded l [] h = h
run-IsBounded l (r ∷ rs) h =
    run-IsBounded (dispatch l r.client r.now).1 rs (dispatch-IsBounded l r.client r.now h)

run-limit : (l : Limiter) (rs : List Request) → (run l rs).1.limit ≡ l.limit
unfolding run dispatch
run-limit l [] = refl
run-limit l (r ∷ rs) = ground (arith, run-limit (dispatch l r.client r.now).1 rs)

-- Whatever the requests and the clock, no address ever has more readings kept than the limit.
pub hits-run_le :
    (limit : ℕ) (rs : List Request) (ip : String)
    → length ((run (fresh limit) rs).1.hits ip) ≤ limit
hits-run_le limit rs ip =
    ground (arith, run-limit (fresh limit) rs, run-IsBounded (fresh limit) rs (λ j. omega arith) ip)

-- A request of one address leaves what is kept of every other address alone.
pub hits-dispatch_ne :
    (l : Limiter) (client : Option String) (now : ℕ) (j : String)
    → str_eq (client_ip client) j ≡ false
    → (dispatch l client now).1.hits j ≡ l.hits j
unfolding dispatch
hits-dispatch_ne l client now j ne = ground arith
