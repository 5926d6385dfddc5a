-- ===== src/Api/Tests.antt =====
-- The theorems on services/api/aries_api/main.py: a request with the token, and a dashboard
-- whose database is down.
use aries_space.Base.{ℕ, ◌≡◌, Bool, List, arith}
use aries_space.Exn.{sqlalchemy_error, http_exception}
use aries_space.Exec.{Exec, ok, raise}
use aries_space.Api.Context.{Context, dashboard_context}
use aries_space.Api.Served.{IsShown, dashboard_context-IsShown}
use aries_space.Api.{Credentials}

abbrev bearer : Credentials
bearer = record { scheme = "bearer"; credentials = "token" }

abbrev down : {A : Type 0} → Exec ℕ A
down = raise sqlalchemy_error

abbrev no_passes : Exec ℕ (List ℕ × Bool)
no_passes = raise (http_exception 503 "No live TLE")

dashboard_context-IsShown_example :
    (c : Context ℕ ℕ ℕ) × ((dashboard_context (λ _ w. w) down down down no_passes 0).0 ≡ ok c)
    × IsShown c.status c.database_error
    × IsShown c.benchmark c.benchmark_error
dashboard_context-IsShown_example =
    dashboard_context-IsShown (λ _ w. w) down down down no_passes 0 (λ w e h. ground (arith, h))
      (λ w e h. ground (arith, h)) (λ w e h. ground (arith, h)) (λ w e h. ground (arith, h))
