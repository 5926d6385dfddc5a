-- ===== src/Scheduler/Tests.antt =====
-- The theorem on services/api/aries_api/scheduler.py at a first start.
use aries_space.Base.{ℕ, suc, ◌≡◌, none, some, true}
use aries_space.Exec.{ok, Returned, Failed}
use aries_space.Scheduler.{Apscheduler, Global, start_scheduler}
use aries_space.Scheduler.Once.{start_scheduler_once}

-- The world counts the calls.
abbrev counter : Apscheduler ℕ ℕ
counter = record {
  build = λ w. (ok w, suc w);
  start = λ s w. (ok tt, suc w);
  modify_job_now = λ s j w. (ok tt, suc w);
  running = λ s w. true;
  shutdown = λ s b w. (ok tt, suc w);
}

abbrev stopped : Global ℕ ℕ
stopped = record { world = 0; scheduler = none }

start_scheduler_once_example :
    Returned (start_scheduler counter stopped).0 (λ s.
      ((start_scheduler counter stopped).1.scheduler ≡ some s)
      × (start_scheduler counter (start_scheduler counter stopped).1
          ≡ (ok s, (start_scheduler counter stopped).1)))
    × Failed
        (start_scheduler counter stopped).0
        ((start_scheduler counter stopped).1.scheduler ≡ none)
start_scheduler_once_example = start_scheduler_once counter stopped
