-- ===== src/Exn.antt =====
-- The exceptions that the program raises and those that it tells apart when it catches them. The
-- classes with a message carry it.
use aries_space.Base.{ℕ, Bool, true, false, String}

pub data Exn : Type 0 where
  -- services/api/aries_api/storage.py
  object_not_found : String → Exn
  -- services/api/aries_api/ingest.py; `OrphanObjectError` is an `IngestUnavailableError`
  ingest_conflict ingest_unavailable orphan_object : String → Exn
  -- services/api/aries_api/benchmarks.py
  dataset_not_found dataset_ineligible benchmark_unavailable : String → Exn
  benchmark_not_found workload_not_found : String → Exn
  -- services/api/aries_api/tle.py and metrics.py
  tle_unavailable metric_error : String → Exn
  -- services/api/aries_api/config.py; a `ValueError`
  configuration_error : String → Exn
  -- minio's `S3Error`, by its code
  s3_error : String → Exn
  -- `TimeoutError`, and urllib3's `ReadTimeoutError`
  timeout_error : Exn
  -- sqlalchemy's `SQLAlchemyError`, httpx's `HTTPError`
  sqlalchemy_error http_error : Exn
  -- Python's own
  key_error value_error type_error os_error overflow_error zero_division_error : Exn
  -- fastapi's `HTTPException`: status and detail
  http_exception : ℕ → String → Exn
  -- any other subclass of `Exception`
  other : Exn

abbrev pub is_not_found : Exn → Bool
is_not_found (object_not_found _) = true
is_not_found _ = false

abbrev pub is_timeout : Exn → Bool
is_timeout timeout_error = true
is_timeout _ = false

abbrev pub is_sqlalchemy_error : Exn → Bool
is_sqlalchemy_error sqlalchemy_error = true
is_sqlalchemy_error _ = false

abbrev pub is_ingest_conflict : Exn → Bool
is_ingest_conflict (ingest_conflict _) = true
is_ingest_conflict _ = false

abbrev pub is_ingest_unavailable : Exn → Bool
is_ingest_unavailable (ingest_unavailable _) = true
is_ingest_unavailable (orphan_object _) = true
is_ingest_unavailable _ = false

-- `str(exc)`
abbrev pub detail : Exn → String
detail (object_not_found s) = s
detail (ingest_conflict s) = s
detail (ingest_unavailable s) = s
detail (orphan_object s) = s
detail (dataset_not_found s) = s
detail (dataset_ineligible s) = s
detail (benchmark_unavailable s) = s
detail (benchmark_not_found s) = s
detail (workload_not_found s) = s
detail (tle_unavailable s) = s
detail (metric_error s) = s
detail (configuration_error s) = s
detail (http_exception _ s) = s
detail _ = ""
