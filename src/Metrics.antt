-- ===== src/Metrics.antt =====
-- services/api/aries_api/metrics.py
pub mod Decision
mod Tests
use aries_space.Base.{
  ℕ, ◌-◌, ◌*◌, Bool, true, false, not, ◌&&◌, ◌||◌, String, Option, none, some, List, [], ◌∷◌, ◌==◌,
  if◌then◌else◌,
}
use aries_space.Exn.{metric_error}
use aries_space.Exec.{Result, ok, err}
use aries_space.Floats.{Floats, zero_F, max0}

pub record RunMetrics (F : Type 0) : Type 0 where
  pub data_reduction_factor : F
  pub downlink_saved_bytes : ℕ
  pub downlink_saved_seconds : F
  pub energy_joules : F
  pub cost_per_run_inr : F

-- The keyword arguments; the two sizes are lengths of byte strings.
pub record RunCost (F : Type 0) : Type 0 where
  pub input_bytes : ℕ
  pub output_bytes : ℕ
  pub wall_ms : F
  pub avg_watts : F
  pub downlink_mbps : F
  pub electricity_inr_per_kwh : F
  pub compute_inr_per_hour : F
  pub fixed_cost_inr_per_run : F

module _ {F : Type 0} (N : Floats F) where
  abbrev pub is_bad : F → Bool
  is_bad x = not (N.isfinite x) || N.lt x (zero_F N)

  -- `any(not isfinite(value) or value < 0 for value in values)`
  pub any_bad : List F → Bool
  any_bad [] = false
  any_bad (x ∷ xs) = is_bad x || any_bad xs

  abbrev pub costs : RunCost F → List F
  costs c =
      c.wall_ms ∷ c.avg_watts ∷ c.downlink_mbps ∷ c.electricity_inr_per_kwh ∷ c.compute_inr_per_hour
      ∷ c.fixed_cost_inr_per_run ∷ []

  -- `x == 0`
  abbrev pub is_zero : F → Bool
  is_zero x = not (N.lt x (zero_F N)) && not (N.lt (zero_F N) x)

  unfoldable pub metrics_of : RunCost F → RunMetrics F
  metrics_of c =
      let saved_bytes : ℕ = c.input_bytes - c.output_bytes in
      let energy_joules = N.div (N.mul c.avg_watts c.wall_ms) (N.of_ℕ 1000) in
      record {
        data_reduction_factor = N.div (N.of_ℕ c.input_bytes) (N.of_ℕ c.output_bytes);
        downlink_saved_bytes = saved_bytes;
        downlink_saved_seconds =
            N.div (N.of_ℕ (saved_bytes * 8)) (N.mul c.downlink_mbps (N.of_ℕ 1000000));
        energy_joules = energy_joules;
        cost_per_run_inr =
            N.add
              (N.add (N.mul (N.div energy_joules (N.of_ℕ 3600000)) c.electricity_inr_per_kwh)
                (N.mul (N.div c.wall_ms (N.of_ℕ 3600000)) c.compute_inr_per_hour))
              c.fixed_cost_inr_per_run;
      }

  unfoldable pub calculate_run_metrics : RunCost F → Result (RunMetrics F)
  unfolding any_bad metrics_of
  calculate_run_metrics c =
      if c.input_bytes == 0 || c.output_bytes == 0
      then err (metric_error "input_bytes and output_bytes must be positive")
      else if any_bad (costs c)
      then err (metric_error "metric inputs must be finite and non-negative")
      else if is_zero c.downlink_mbps
      then err (metric_error "downlink_mbps must be positive")
      else ok (metrics_of c)

  unfoldable pub break_even_downlink_price : F → F → ℕ → Result (Option F)
  unfolding any_bad
  break_even_downlink_price ground_cost_inr edge_cost_inr downlink_saved_bytes =
      if any_bad (ground_cost_inr ∷ edge_cost_inr ∷ [])
      then err (metric_error "costs must be finite and non-negative")
      else if downlink_saved_bytes == 0
      then ok none
      else ok (
          some (
            N.div (max0 N (N.sub edge_cost_inr ground_cost_inr))
              (N.div (N.of_ℕ downlink_saved_bytes) (N.of_ℕ 1000000000))))

  unfoldable pub recommendation_for_price : F → Option F → Result (Option String)
  recommendation_for_price configured break_even =
      if is_bad configured
      then err (metric_error "configured downlink price must be finite and non-negative")
      else ok (elim break_even [
        | none ↦ none
        | some price ↦ some (if N.lt price configured then "edge" else "ground")
      ])
