-- ===== src/Predict/Tests.antt =====
-- The theorem on services/api/aries_api/predict.py at two passes, of which one is asked for.
use aries_space.Base.{ℕ, ◌≤◌, List, [], ◌∷◌, length, All, false, arith}
use aries_space.Floats.{naturals}
use aries_space.Predict.{Event, compute_passes}
use aries_space.Predict.Order.{IsForward, compute_passes-Forward}

abbrev event : ℕ → ℕ → Event ℕ
event time kind = record { time = time; kind = kind; altitude = time; azimuth = time }

abbrev events : List (Event ℕ)
events = event 1 2 ∷ event 2 0 ∷ event 5 1 ∷ event 9 2 ∷ event 20 0 ∷ event 30 2 ∷ []

compute_passes-Forward_example :
    All
      (IsForward naturals (λ a. a) (λ a. a))
      (compute_passes naturals (λ a. a) (λ a. a) false 1 events)
    × (length (compute_passes naturals (λ a. a) (λ a. a) false 1 events) ≤ 1)
compute_passes-Forward_example =
    compute_passes-Forward naturals (λ a. a) (λ a. a) false 1 events (omega arith)
      (omega arith, (omega arith, (omega arith, (omega arith, (omega arith, (omega arith, tt))))))
