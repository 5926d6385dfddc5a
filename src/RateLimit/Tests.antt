-- ===== src/RateLimit/Tests.antt =====
-- Runs of the limiter of services/api/aries_api/main.py, and its theorems at such a run.
use aries_space.Base.{◌≤◌, ◌≡◌, refl, true, false, none, some, List, [], ◌∷◌, length, arith}
use aries_space.RateLimit.{Request, dispatch, run, fresh}
use aries_space.RateLimit.Reference.{reference_run, run-reference}
use aries_space.RateLimit.Bounds.{hits-run_le}

abbrev requests : List Request
requests =
    record { client = some "a"; now = 1 }
    ∷ record { client = some "a"; now = 2 }
    ∷ record { client = some "b"; now = 2 }
    ∷ record { client = some "a"; now = 3 }
    ∷ record { client = none; now = 60000000002 }
    ∷ record { client = some "a"; now = 60000000003 }
    ∷ []

answers : (run (fresh 2) requests).0 ≡ true ∷ true ∷ true ∷ false ∷ true ∷ true ∷ []
unfolding run dispatch
answers = refl

run-reference_example : (run (fresh 2) requests).0 ≡ reference_run 2 (λ _. []) requests
run-reference_example =
    run-reference 2 requests
      (omega arith, (omega arith, (omega arith, (omega arith, (omega arith, (omega arith, tt))))))

hits-run_le_example : length ((run (fresh 2) requests).1.hits "a") ≤ 2
hits-run_le_example = hits-run_le 2 requests "a"
