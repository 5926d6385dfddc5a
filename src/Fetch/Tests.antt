-- ===== src/Fetch/Tests.antt =====
-- The theorem on services/api/aries_api/ingest.py at a fixture of another satellite and a network that is
-- down.
use aries_space.Base.{ℕ, ◌≡◌, refl, subst, ap, Option, none, some, arith}
use aries_space.Base.Int.{pos}
use aries_space.Exn.{http_error}
use aries_space.Exec.{Exec, pure, raise}
use aries_space.Json.{Json, obj, field, int, end}
use aries_space.Fetch.{Sources, fetch_observation}
use aries_space.Exec.Fails.{Fails, FailsWith}
use aries_space.Fetch.Expected.{is_io, is_fetch_error, fetch_observation-IsExpected}

abbrev observation : Json
observation = obj (field "id" (int (pos 7)) (field "norad_cat_id" (int (pos 5)) end))

-- No answer has a body here.
abbrev sources : Sources ℕ
sources = record {
  fixture = some (pure observation);
  query = λ norad_id limit wanted. raise http_error;
  max_response_bytes = 10000000;
  read_int = λ s. none;
}

-- Whatever `some` holds.
abbrev content : {A : Type 0} → A → Option A → A
content d none = d
content d (some a) = a

fixture-Fails : (read : Exec ℕ Json) → sources.fixture ≡ some read → Fails is_io read
fixture-Fails read h =
    subst (λ m. Fails is_io m) (ap (content (pure observation)) h) (record { fails = λ w. tt })

fetch_observation-IsExpected_example :
    FailsWith is_fetch_error (fetch_observation sources (pos 6) 1 none 0).0
fetch_observation-IsExpected_example =
    fetch_observation-IsExpected sources (pos 6) 1 none fixture-Fails (record { fails = λ w. refl })
      (λ a v e. ground (arith, e)) 0
