-- ===== src/Scheduler/Jobs.antt =====
-- services/api/aries_api/scheduler.py: the two jobs, the listener for their errors, and the scheduler
-- that is built. `W` is the world of the jobs, `R` what an ingestion returns, `T` an element set.
use aries_space.Base.{ℕ, Bool, true, String, ◌<>◌, Option, none, some, List, [], ◌∷◌}
use aries_space.Base.Int.{ℤ}
use aries_space.Exn.{Exn}
use aries_space.Exec.{Exec, pure, modify, ◌>>=◌, ◌>>◌}
use aries_space.Json.{Json}

module _ {W : Type 0} where
  -- The session is closed at the end of the `with` block; `log_info` writes a line for the result.
  unfoldable pub poll_observations_job :
      {R : Type 0}
      → Exec W Json
      → (W → W)
      → (Json → Exec W R)
      → (W → W)
      → (R → W → W)
      → Exec W (Unit {0})
  poll_observations_job fetch open_session ingest close_session log_info = do
    raw ← fetch
    modify open_session
    result ← closing close_session (ingest raw)
    modify (log_info result)
    where
      closing : {R : Type 0} → (W → W) → Exec W R → Exec W R
      closing close m w = let (r, w') = m w in (r, close w')

  unfoldable pub refresh_tle_job : {T : Type 0} → Exec W T → Exec W (Unit {0})
  refresh_tle_job get_tle = do tle ← get_tle; pure tt

  -- `exception` is the event's, if it has one.
  unfoldable pub log_job_error : (String → W → W) → String → Option Exn → W → W
  log_job_error log_error job_id none w = w
  log_job_error log_error job_id (some e) w = log_error ("Scheduler job " <> job_id <> " failed") w

-- How often a job runs.
pub data Interval : Type 0 where
  minutes : ℤ → Interval
  hours : ℤ → Interval

pub record Job : Type 0 where
  pub id : String
  pub interval : Interval

-- `job_defaults`, and the jobs in the order in which they are added.
pub record Schedule : Type 0 where
  pub coalesce : Bool
  pub max_instances : ℕ
  pub jobs : List Job

unfoldable pub build_scheduler : ℤ → ℤ → Schedule
build_scheduler obs_poll_minutes tle_refresh_hours = record {
  coalesce = true;
  max_instances = 1;
  jobs =
      record { id = "poll_observations"; interval = minutes obs_poll_minutes }
      ∷ record { id = "refresh_tle"; interval = hours tle_refresh_hours }
      ∷ [];
}
