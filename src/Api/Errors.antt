-- ===== src/Api/Errors.antt =====
-- services/api/aries_api/main.py: what a client sees of a benchmark that fails.
use aries_space.Base.{true, ◌≡◌, Bool, ◌||◌, ◌==◌}
use aries_space.Exn.{Exn, http_exception, sqlalchemy_error, is_sqlalchemy_error}
use aries_space.Exec.{Result, ok, err, Exec}
use aries_space.Floats.{Floats}
use aries_space.Backend.{Backend}
use aries_space.Exec.Fails.{Fails}
use aries_space.Benchmarks.Errors.{is_benchmark_error}

-- Success, an `HTTPException` of one of the handler's own statuses, or a query's error, which FastAPI
-- answers with 500.
abbrev pub IsAnswered : {A : Type 0} → Result A → Type 0
IsAnswered (ok _) = Unit
IsAnswered (err sqlalchemy_error) = Unit
IsAnswered (err (http_exception n _)) = (n == 401) || (n == 404) || (n == 422) || (n == 503) ≡ true
IsAnswered (err _) = ⊥

-- What the `try` may raise.
abbrev is_raised : Exn → Bool
is_raised e = is_benchmark_error e || is_sqlalchemy_error e
