-- ===== src/Benchmarks/Rows.antt =====
-- services/api/aries_api/benchmarks.py: the rows and checks that `run_benchmark_pair` is made of.
use aries_space.Base.{
  ℕ, suc, Bool, true, false, String, Option, none, some, List, [], ◌∷◌, str_eq, ◌==◌, ◌||◌,
  if◌then◌else◌,
}
use aries_space.Exec.{Exec}
use aries_space.Models.{
  Dataset, Observation, BenchmarkPair, BenchmarkRun, RunStatus, Assumption, float, int, text,
}
use aries_space.Backend.{Bytes}
use aries_space.Metrics.{RunMetrics}
use aries_space.Benchmarks.Registry.{BenchmarkConfig, WorkloadSpec}

-- How an f-string shows a number, a set's sorted list and an optional number, and the digest.
pub record Texts : Type 0 where
  pub sha256 : Bytes → String
  pub show_id : ℕ → String
  pub show_sources : List String → String
  pub show_aoi : Option ℕ → String
  pub show_aois : List ℕ → String

pub record RunEvidence (F : Type 0) : Type 0 where
  pub target_id : ℕ
  pub target_slug : String
  pub target_name : String
  pub power_source : String
  pub model_version : String
  pub result_object_key : String
  pub result_sha256 : String
  pub input_bytes : ℕ
  pub output_bytes : ℕ
  pub wall_ms : F
  pub inference_ms : F
  pub avg_watts : F
  pub metrics : RunMetrics F

unfoldable pub find_dataset_by_id : ℕ → List Dataset → Option Dataset
find_dataset_by_id id [] = none
find_dataset_by_id id (d ∷ ds) = if d.id == id then some d else find_dataset_by_id id ds

unfoldable pub has_observation : ℕ → List Observation → Bool
has_observation id [] = false
has_observation id (o ∷ os) = (o.dataset_id == id) || has_observation id os

unfoldable pub is_source_in : String → List String → Bool
is_source_in s [] = false
is_source_in s (x ∷ xs) = str_eq s x || is_source_in s xs

is_id_in : ℕ → List ℕ → Bool
is_id_in n [] = false
is_id_in n (x ∷ xs) = (n == x) || is_id_in n xs

-- `aoi_id in eligible_aoi_ids`, where `None` is in no set of numbers.
unfoldable pub is_aoi_eligible : Option ℕ → Option (List ℕ) → Bool
unfolding is_id_in
is_aoi_eligible aoi none = true
is_aoi_eligible none (some ids) = false
is_aoi_eligible (some n) (some ids) = is_id_in n ids

module _ {F : Type 0} where
  -- `by_slug`: the last evidence of a slug is the one kept.
  unfoldable pub last_of_slug : String → List (RunEvidence F) → Option (RunEvidence F)
  last_of_slug slug [] = none
  last_of_slug slug (x ∷ xs) = elim (last_of_slug slug xs) [
    | some y ↦ some y
    | none ↦ if str_eq x.target_slug slug then some x else none
  ]

  unfoldable pub put_pair : BenchmarkPair F → List (BenchmarkPair F) → List (BenchmarkPair F)
  put_pair row [] = row ∷ []
  put_pair row (x ∷ xs) = if x.id == row.id then row ∷ xs else x ∷ put_pair row xs

  unfoldable pub run_rows : ℕ → ℕ → ℕ → List (RunEvidence F) → List (BenchmarkRun F)
  run_rows id pair_id completed_at [] = []
  run_rows id pair_id completed_at (item ∷ rest) =
      record {
        id = id;
        pair_id = pair_id;
        target_id = item.target_id;
        status = RunStatus.completed;
        result_object_key = item.result_object_key;
        result_sha256 = item.result_sha256;
        input_bytes = item.input_bytes;
        output_bytes = item.output_bytes;
        wall_ms = item.wall_ms;
        inference_ms = item.inference_ms;
        avg_watts = item.avg_watts;
        energy_joules = item.metrics.energy_joules;
        power_source = item.power_source;
        simulation_model_version = item.model_version;
        data_reduction_factor = item.metrics.data_reduction_factor;
        downlink_saved_bytes = item.metrics.downlink_saved_bytes;
        downlink_saved_seconds = item.metrics.downlink_saved_seconds;
        cost_per_run_inr = item.metrics.cost_per_run_inr;
        completed_at = completed_at;
      }
      ∷ run_rows (suc id) pair_id completed_at rest

pub record Attempt (World : Type 0) : Type 0 where
  pub world : World
  pub created_keys : List String

abbrev pub within : {W A : Type 0} → Exec W A → Exec (Attempt W) A
within m a = let (r, w) = m a.world in (r, record a { world = w })

module _ {P F : Type 0} (c : BenchmarkConfig F) where
  abbrev pub edge_assumptions : WorkloadSpec P F → List (String × Assumption F)
  edge_assumptions spec =
      if spec.edge_is_simulated
      then ("edge_sim_watts", float c.edge_sim_watts)
        ∷ ("edge_sim_slowdown_factor", float c.edge_sim_slowdown_factor)
        ∷ (
          "placement_model",
          text
              "Ground downlinks input then processes; simulated edge processes first then downlinks workload output.",
        )
        ∷ []
      else ("edge_measured_watts", float spec.edge_avg_watts)
        ∷ (
          "placement_model",
          text
              "Ground downlinks input then processes; measured edge processes first then downlinks workload output. Edge timing here is genuinely executed and measured under a real resource constraint, not modeled from the ground baseline via a slowdown factor -- power draw remains an estimate.",
        )
        ∷ []

  unfoldable pub assumptions_snapshot : WorkloadSpec P F → List (String × Assumption F)
  assumptions_snapshot spec =
      ("downlink_mbps", float c.downlink_mbps)
      ∷ ("electricity_inr_per_kwh", float c.electricity_inr_per_kwh)
      ∷ ("downlink_inr_per_gb", float c.downlink_inr_per_gb)
      ∷ ("ground_compute_inr_per_hour", float c.ground_compute_inr_per_hour)
      ∷ ("ground_estimated_watts", float c.ground_estimated_watts)
      ∷ ("ground_sample_iterations", int c.benchmark_sample_iterations)
      ∷ ("edge_hardware_capex_inr", float c.edge_hardware_capex_inr)
      ∷ ("edge_hardware_lifetime_hours", float c.edge_hardware_lifetime_hours)
      ∷ ("edge_expected_runs_per_day", float c.edge_expected_runs_per_day)
      ∷ ("edge_expected_total_runs", float c.edge_expected_total_runs)
      ∷ ("edge_hardware_capex_per_run_inr", float c.edge_hardware_capex_per_run_inr)
      ∷ edge_assumptions spec
