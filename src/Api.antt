-- ===== src/Api.antt =====
-- services/api/aries_api/main.py: the endpoints that ingest and benchmark, the health checks, and the
-- bearer token. What FastAPI does with a request's parameters is not here: they arrive checked.
pub mod Errors
pub mod Pages
pub mod Context
pub mod Served
mod Tests
use aries_space.Base.{
  ℕ, Bool, true, false, not, ◌&&◌, ◌||◌, String, ◌<>◌, Option, none, some, str_eq, if◌then◌else◌,
}
use aries_space.Base.Int.{ℤ}
use aries_space.Exn.{
  Exn, detail, http_exception, timeout_error, ingest_conflict, ingest_unavailable, orphan_object,
  benchmark_not_found, workload_not_found, dataset_not_found, dataset_ineligible,
  benchmark_unavailable, key_error,
}
use aries_space.Exec.{
  Result, ok, err, Exec, pure, raise, raise_if, lift, gets, modify, try_except, ◌>>=◌, ◌>>◌,
}
use aries_space.Json.{Json, Fields}
use aries_space.Models.{Tables, BenchmarkPair}
use aries_space.Backend.{Backend, Runtime, Bytes}
use aries_space.Storage.{check}
use aries_space.Ingest.{IngestResult, ingest_satnogs_observation}

-- `status_code` and the fields of the body.
pub record Response (A : Type 0) : Type 0 where
  pub status_code : ℕ
  pub body : A

pub record Credentials : Type 0 where
  pub scheme : String
  pub credentials : String

-- `lower` is `str.lower`; `hmac.compare_digest` is equality.
unfoldable pub require_admin :
    {W : Type 0} → (String → String) → String → Option Credentials → Exec W (Unit {0})
require_admin lower api_bearer_token none =
    raise (http_exception 401 "Invalid or missing bearer token")
require_admin lower api_bearer_token (some c) =
    raise_if (not (str_eq (lower c.scheme) "bearer") || not (str_eq c.credentials api_bearer_token))
      (http_exception 401 "Invalid or missing bearer token")

-- The `except` clauses of each handler.
unfoldable pub satnogs_error : Exn → Exn
satnogs_error (ingest_conflict s) = http_exception 409 s
satnogs_error (ingest_unavailable s) = http_exception 503 s
satnogs_error (orphan_object s) = http_exception 503 s
satnogs_error e = e

unfoldable pub sentinel2_error : (ℕ → String) → ℕ → Exn → Exn
sentinel2_error show aoi_id (ingest_unavailable s) = http_exception 503 s
sentinel2_error show aoi_id (orphan_object s) = http_exception 503 s
sentinel2_error show aoi_id key_error = http_exception 404 ("Unknown aoi_id " <> show aoi_id)
sentinel2_error show aoi_id e = e

unfoldable pub benchmark_error : Exn → Exn
benchmark_error (workload_not_found s) = http_exception 404 s
benchmark_error (dataset_not_found s) = http_exception 404 s
benchmark_error (dataset_ineligible s) = http_exception 422 s
benchmark_error (benchmark_unavailable s) = http_exception 503 s
benchmark_error e = e

unfoldable pub latest_error : Exn → Exn
latest_error (benchmark_not_found s) = http_exception 404 s
latest_error (benchmark_unavailable s) = http_exception 503 s
latest_error e = e

abbrev ingested : {W : Type 0} → IngestResult → Exec W (Response IngestResult)
ingested r = pure (record { status_code = if r.created then 201 else 200; body = r })

module _ {W : Type 0} where
  -- The dependencies run before the handler's body.
  unfoldable pub api_ingest_satnogs :
      Exec W (Unit {0})
      → Exec W Fields
      → (Fields → ℤ → Exec W IngestResult)
      → ℤ
      → Exec W (Response IngestResult)
  unfolding satnogs_error
  api_ingest_satnogs admin fetch_observation ingest norad_id = do
    admin
    r ← try_except (do raw ← fetch_observation; ingest raw norad_id) (λ e. raise (satnogs_error e))
    ingested r

  unfoldable pub api_ingest_sentinel2 :
      Exec W (Unit {0})
      → (ℕ → String)
      → (ℕ → Exec W Bytes)
      → (Bytes → ℕ → Exec W IngestResult)
      → ℕ
      → Exec W (Response IngestResult)
  unfolding sentinel2_error
  api_ingest_sentinel2 admin show fetch_crop ingest aoi_id = do
    admin
    r ←
        try_except (do payload ← fetch_crop aoi_id; ingest payload aoi_id)
          (λ e. raise (sentinel2_error show aoi_id e))
    ingested r

  unfoldable pub api_run_benchmark :
      {R S : Type 0}
      → Exec W (Unit {0})
      → (ℕ → String → Exec W R)
      → (R → Exec W S)
      → ℕ
      → String
      → Exec W (Response S)
  unfolding benchmark_error
  api_run_benchmark admin run_pair serialize dataset_id workload = do
    admin
    s ←
        try_except (do pair ← run_pair dataset_id workload; serialize pair)
          (λ e. raise (benchmark_error e))
    pure (record { status_code = 201; body = s })

  unfoldable pub api_latest_benchmark :
      {R S : Type 0} → (String → Exec W R) → (R → Exec W S) → String → Exec W (Response S)
  unfolding latest_error
  api_latest_benchmark latest serialize workload = do
    s ← try_except (do pair ← latest workload; serialize pair) (λ e. raise (latest_error e))
    pure (record { status_code = 200; body = s })

  -- `_bounded_check`: the wait in the pool may run out first.
  unfoldable pub bounded_check : (W → Bool) → Exec W (Unit {0}) → Exec W (Unit {0})
  bounded_check timed_out m w =
      let (r, w') = m w in if timed_out w' then (err timeout_error, w') else (r, w')

  unfoldable pub health_ready :
      (W → Bool)
      → (String → W → W)
      → Exec W (Unit {0})
      → Exec W (Unit {0})
      → Exec W (Response String)
  unfolding bounded_check
  health_ready timed_out log_error check_database check_store = do
    try_except (bounded_check timed_out check_database) (λ _. do
      modify (log_error "readiness_failed dependency=postgresql")
      raise (http_exception 503 "Service is not ready"))
    try_except (bounded_check timed_out check_store) (λ _. do
      modify (log_error "readiness_failed dependency=minio")
      raise (http_exception 503 "Service is not ready"))
    pure (record { status_code = 200; body = "ready" })

  -- `_infra_health`
  unfoldable pub infra_health :
      (W → Bool) → Exec W (Unit {0}) → Exec W (Unit {0}) → Exec W (Bool × Bool)
  unfolding bounded_check
  infra_health timed_out check_database check_store = do
    postgres_ok ←
        try_except (do bounded_check timed_out check_database; pure true) (λ _. pure false)
    minio_ok ← try_except (do bounded_check timed_out check_store; pure true) (λ _. pure false)
    pure (postgres_ok, minio_ok)
