-- ===== src/Scheduler.antt =====
-- services/api/aries_api/scheduler.py: the one background scheduler. `A` stands for APScheduler's
-- objects; a failed start is undone.
pub mod Jobs
pub mod Once
mod Tests
use aries_space.Base.{ℕ, Bool, true, false, String, Option, none, some, if◌then◌else◌}
use aries_space.Exn.{Exn}
use aries_space.Exec.{Result, ok, err, Exec, pure, raise, gets, modify, try_except, ◌>>=◌, ◌>>◌}

-- APScheduler: the world holds its threads.
pub record Apscheduler (W A : Type 0) : Type 0 where
  pub build : Exec W A
  pub start : A → Exec W (Unit {0})
  pub modify_job_now : A → String → Exec W (Unit {0})
  pub running : A → W → Bool
  pub shutdown : A → Bool → Exec W (Unit {0})

-- The module's global beside the world.
pub record Global (W A : Type 0) : Type 0 where
  pub world : W
  pub scheduler : Option A

module _ {W A : Type 0} (P : Apscheduler W A) where
  abbrev pub on_threads : {R : Type 0} → Exec W R → Exec (Global W A) R
  on_threads m g = let (r, w) = m g.world in (r, record g { world = w })

  unfoldable pub launch : A → Exec W (Unit {0})
  launch candidate =
      try_except (do P.start candidate; P.modify_job_now candidate "poll_observations")
        (λ e. do
          alive ← gets (P.running candidate)
          if alive then P.shutdown candidate false else pure tt
          raise e)

  unfoldable pub start_scheduler : Exec (Global W A) A
  unfolding launch
  start_scheduler g = elim g.scheduler [
    | some s ↦ (ok s, g)
    | none ↦
        (do
          candidate ← on_threads P.build
          on_threads (launch candidate)
          modify (λ g'. record g' { scheduler = some candidate })
          pure candidate)
          g
  ]

  unfoldable pub stop_scheduler : Exec (Global W A) (Unit {0})
  stop_scheduler g = elim g.scheduler [
    | none ↦ (ok tt, g)
    | some s ↦ (do on_threads (P.shutdown s true); modify (λ g'. record g' { scheduler = none })) g
  ]
