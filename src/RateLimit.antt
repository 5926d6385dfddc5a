-- ===== src/RateLimit.antt =====
-- `RateLimitMiddleware` of services/api/aries_api/main.py. Readings of `time.monotonic()` are
-- whole nanoseconds, the clock's resolution.
pub mod Reference
pub mod Bounds
mod Tests
use aries_space.Base.{
  ℕ, ◌*◌, ◌-◌, Bool, true, false, String, Option, none, some, List, [], ◌∷◌, ◌++◌, length, ltb, leb,
  str_eq, if◌then◌else◌,
}

abbrev pub window : ℕ
window = 60 * 1000000000

-- `_limit` and `_hits`; `defaultdict(deque)` gives an address that was never seen an empty deque.
pub record Limiter : Type 0 where
  pub limit : ℕ
  pub hits : String → List ℕ

-- `while hits and now - hits[0] > window: hits.popleft()`
unfoldable pub prune : ℕ → List ℕ → List ℕ
prune now [] = []
prune now (t ∷ ts) = let rest = prune now ts in if ltb window (now - t) then rest else t ∷ ts

abbrev pub update : String → List ℕ → (String → List ℕ) → String → List ℕ
update ip ts hits j = if str_eq ip j then ts else hits j

-- `request.client.host if request.client else "unknown"`
abbrev pub client_ip : Option String → String
client_ip none = "unknown"
client_ip (some host) = host

-- The answer is whether the request reaches `call_next`; a refused one gets status 429.
unfoldable pub dispatch : Limiter → Option String → ℕ → Bool × Limiter
unfolding prune
dispatch l client now =
    let ip = client_ip client in
    let hits = prune now (l.hits ip) in
    if leb l.limit (length hits)
    then (false, record l { hits = update ip hits l.hits })
    else (true, record l { hits = update ip (hits ++ now ∷ []) l.hits })

pub record Request : Type 0 where
  pub client : Option String
  pub now : ℕ

-- The answers to a sequence of requests, and the limiter after them.
pub run : Limiter → List Request → List Bool × Limiter
run l [] = ([], l)
run l (r ∷ rs) =
    let (answer, l') = dispatch l r.client r.now in
    let (answers, l'') = run l' rs in (answer ∷ answers, l'')

abbrev pub fresh : ℕ → Limiter
fresh limit = record { limit = limit; hits = λ _. [] }
