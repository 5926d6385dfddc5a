-- ===== src/Metrics/Tests.antt =====
-- The theorems of services/api/aries_api/metrics.py at numbers.
use aries_space.Base.{ℕ, ◌+◌, min, ◌≡◌, refl, some, arith}
use aries_space.Exec.{ok}
use aries_space.Floats.{naturals, naturals-IsIeee}
use aries_space.Metrics.{
  RunMetrics, RunCost, calculate_run_metrics, break_even_downlink_price, recommendation_for_price,
  any_bad,
}
use aries_space.Metrics.Decision.{
  recommend, IsPriceable, calculate_run_metrics_ok, recommend-price, recommend-cheaper,
}

abbrev cost : RunCost ℕ
cost = record {
  input_bytes = 100;
  output_bytes = 10;
  wall_ms = 3600000;
  avg_watts = 7;
  downlink_mbps = 2;
  electricity_inr_per_kwh = 8;
  compute_inr_per_hour = 5;
  fixed_cost_inr_per_run = 1;
}

recommend-price_example : recommend naturals 5 9 4000000000 3 ≡ ok (some "edge")
unfolding recommend break_even_downlink_price recommendation_for_price any_bad
recommend-price_example = recommend-price naturals naturals-IsIeee 5 9 4000000000 2 3 refl refl refl

recommend-cheaper_example : recommend naturals 9 5 4000000000 1 ≡ ok (some "edge")
recommend-cheaper_example =
    recommend-cheaper naturals naturals-IsIeee 9 5 4000000000 1 refl refl refl (omega arith) refl
      refl

calculate_run_metrics_ok_example :
    ((m : RunMetrics ℕ)
      → calculate_run_metrics naturals cost ≡ ok m
      → IsPriceable naturals cost
        × (m.downlink_saved_bytes + min cost.input_bytes cost.output_bytes ≡ cost.input_bytes))
    × (IsPriceable naturals cost
        → (m : RunMetrics ℕ) × (calculate_run_metrics naturals cost ≡ ok m))
calculate_run_metrics_ok_example = calculate_run_metrics_ok naturals cost
