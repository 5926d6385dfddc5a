-- ===== src/Scheduler/Once.antt =====
-- services/api/aries_api/scheduler.py: one scheduler at a time.
use aries_space.Base.{none, some, ◌≡◌, arith, inl, inr, Option-cases}
use aries_space.Exec.{ok, Returned, Failed, Result-cases}
use aries_space.Scheduler.{Apscheduler, Global, launch, start_scheduler}

module _ {W A : Type 0} (P : Apscheduler W A) where
  -- A start that returns gives the scheduler that the module keeps, and a second start gives the same
  -- one and does nothing; a start that raises leaves no scheduler in the module.
  pub start_scheduler_once :
      (g : Global W A)
      → Returned (start_scheduler P g).0 (λ s.
        ((start_scheduler P g).1.scheduler ≡ some s)
        × (start_scheduler P (start_scheduler P g).1 ≡ (ok s, (start_scheduler P g).1)))
        × Failed (start_scheduler P g).0 ((start_scheduler P g).1.scheduler ≡ none)
  unfolding start_scheduler
  start_scheduler_once g = elim (Option-cases g.scheduler) [
    | inr (s, h) ↦ ground (arith, h)
    | inl h ↦ elim (Result-cases (P.build g.world).0) [
      | inr (e, k) ↦ ground (arith, h, k)
      | inl (a, k) ↦ elim (Result-cases (launch P a (P.build g.world).1).0) [
        | inr (e, j) ↦ ground (arith, h, k, j)
        | inl (_, j) ↦ ground (arith, h, k, j)
      ]
    ]
  ]
