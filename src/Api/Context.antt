-- ===== src/Api/Context.antt =====
-- services/api/aries_api/main.py: `_dashboard_context` and the pages that it fills. A read of the
-- database may raise here, so the reads are actions of the world `W`: `S` is the status, `B` the
-- serialized pair, `P` a pass. The settings that the context repeats are left out, and so are the
-- templates that show it.
use aries_space.Base.{ℕ, Bool, false, String, Option, none, some, List, [], map, if◌then◌else◌}
use aries_space.Exn.{
  Exn, http_exception, benchmark_not_found, benchmark_unavailable, sqlalchemy_error,
  is_sqlalchemy_error,
}
use aries_space.Exec.{Exec, pure, raise, try_except, modify, ◌>>=◌, ◌>>◌}
use aries_space.Base.Int.{ℤ}
use aries_space.Json.{Json}
use aries_space.Models.{Observation}

-- The fields of an observation that the page shows; the link repeats the number.
pub record RecentRow : Type 0 where
  pub timestamp : ℕ
  pub satellite_id : ℤ
  pub signal_quality : Json
  pub satnogs_observation_id : ℤ

-- `status` is none where the page says "Unavailable".
pub record Context (S B P : Type 0) : Type 0 where
  pub status : Option S
  pub database_error : Option String
  pub benchmark : Option B
  pub benchmark_error : Option String
  pub passes : List P
  pub passes_error : Option String
  pub tle_stale : Bool
  pub observations : List RecentRow

abbrev recent_row : Observation → RecentRow
recent_row o = record {
  timestamp = o.timestamp;
  satellite_id = o.satellite_id;
  signal_quality = o.signal_quality;
  satnogs_observation_id = o.satnogs_observation_id;
}

module _ {W S : Type 0} (log_error : String → W → W) where
  -- The status and the ten latest observations, and the error text.
  unfoldable pub read_database :
      Exec W S → Exec W (List Observation) → Exec W (Option S × List Observation × Option String)
  read_database read_status read_recent =
      try_except (do status ← read_status; recent ← read_recent; pure (some status, recent, none))
        (λ e.
          if is_sqlalchemy_error e
          then (do
            modify (log_error "dashboard_degraded dependency=postgresql")
            pure (none, [], some "Mission storage is temporarily unavailable. Retry shortly."))
          else raise e)

module _ {W B : Type 0} where
  unfoldable pub benchmark_fallback : Exn → Exec W (Option B × Option String)
  benchmark_fallback (benchmark_not_found _) =
      pure (none, some "No benchmark pair has been run yet.")
  benchmark_fallback (benchmark_unavailable _) =
      pure (none, some "Benchmark comparison is temporarily unavailable.")
  benchmark_fallback sqlalchemy_error =
      pure (none, some "Benchmark comparison is temporarily unavailable.")
  benchmark_fallback e = raise e

  unfoldable pub read_benchmark : Exec W B → Exec W (Option B × Option String)
  unfolding benchmark_fallback
  read_benchmark read_pair =
      try_except (do pair ← read_pair; pure (some pair, none)) benchmark_fallback

module _ {W P : Type 0} where
  unfoldable pub passes_fallback : Exn → Exec W (List P × Bool × Option String)
  passes_fallback (http_exception _ detail) = pure ([], false, some detail)
  passes_fallback e = raise e

  -- The passes, whether the element set is stale, and the error text.
  unfoldable pub read_passes : Exec W (List P × Bool) → Exec W (List P × Bool × Option String)
  unfolding passes_fallback
  read_passes read_payload =
      try_except (do (passes, stale) ← read_payload; pure (passes, stale, none)) passes_fallback

module _ {W S B P : Type 0} (log_error : String → W → W) where
  unfoldable pub dashboard_context :
      Exec W S
      → Exec W (List Observation)
      → Exec W B
      → Exec W (List P × Bool)
      → Exec W (Context S B P)
  unfolding read_database read_benchmark read_passes
  dashboard_context read_status read_recent read_pair read_payload = do
    (status, recent, database_error) ← read_database log_error read_status read_recent
    (benchmark, benchmark_error) ← read_benchmark read_pair
    (passes, tle_stale, passes_error) ← read_passes read_payload
    pure (record {
      status = status;
      database_error = database_error;
      benchmark = benchmark;
      benchmark_error = benchmark_error;
      passes = passes;
      passes_error = passes_error;
      tle_stale = tle_stale;
      observations = map recent_row recent;
    })
