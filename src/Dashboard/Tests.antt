-- ===== src/Dashboard/Tests.antt =====
-- The theorem on services/api/aries_api/dashboard_data.py at tables with one completed pair; numbers are
-- natural.
use aries_space.Base.{ℕ, ◌≡◌, refl, true, String, none, some, List, [], ◌∷◌, length}
use aries_space.Exec.{Result, ok, err, Returned}
use aries_space.Floats.{naturals}
use aries_space.Models.{
  Dataset, Workload, ExecutionTarget, BenchmarkPair, BenchmarkRun, Tables, PairStatus, RunStatus,
  float,
}
use aries_space.Dashboard.{build_workload_matrix}
use aries_space.Dashboard.Matrix.{IsSublist, slugs_of, build_workload_matrix-IsSublist}

abbrev dataset : Dataset
dataset = record {
  id = 4;
  source = "satnogs";
  external_id = "77";
  observed_at = 1;
  size_bytes = 2000;
  object_key = "raw/77.json";
  sha256 = "digest";
  ingested_at = 2;
  satellite_norad_id = none;
  aoi_id = none;
}

abbrev workload : ℕ → String → Workload
workload id slug = record {
  id = id;
  slug = slug;
  name = slug;
  detector_version = "v1";
  description = "";
}

abbrev target : ℕ → String → ExecutionTarget ℕ
target id slug = record {
  id = id;
  slug = slug;
  name = slug;
  power_source = "estimated";
  model_version = "v1";
  avg_watts = 25;
  slowdown_factor = 1;
  is_simulated = true;
}

abbrev pair : BenchmarkPair ℕ
pair = record {
  id = 9;
  correlation_id = "c";
  dataset_id = 4;
  workload_id = 2;
  dataset_sha256 = "digest";
  detector_version = "v1";
  assumptions =
      ("electricity_inr_per_kwh", float 8)
      ∷ ("downlink_inr_per_gb", float 500)
      ∷ ("edge_hardware_capex_per_run_inr", float 160)
      ∷ ("edge_hardware_lifetime_hours", float 43800)
      ∷ ("edge_hardware_capex_inr", float 300000)
      ∷ [];
  status = PairStatus.completed;
  recommendation = some "edge";
  break_even_downlink_inr_per_gb = none;
  created_at = 3;
  completed_at = some 5;
}

abbrev run : ℕ → ℕ → BenchmarkRun ℕ
run id target_id = record {
  id = id;
  pair_id = 9;
  target_id = target_id;
  status = RunStatus.completed;
  result_object_key = "results/9";
  result_sha256 = "digest";
  input_bytes = 2000;
  output_bytes = 200;
  wall_ms = 10;
  inference_ms = 10;
  avg_watts = 25;
  energy_joules = 1;
  power_source = "estimated";
  simulation_model_version = "v1";
  data_reduction_factor = 10;
  downlink_saved_bytes = 1800;
  downlink_saved_seconds = 1;
  cost_per_run_inr = 3;
  completed_at = 5;
}

abbrev tables : Tables ℕ
tables = record {
  datasets = dataset ∷ [];
  observations = [];
  workloads = workload 1 "cloud-mask" ∷ workload 2 "ship-detect" ∷ [];
  targets = target 1 "ground-cpu" ∷ target 2 "edge-sim" ∷ [];
  pairs = pair ∷ [];
  runs = run 1 1 ∷ run 2 2 ∷ [];
}

abbrev slugs : List String
slugs = "cloud-mask" ∷ "ship-detect" ∷ []

build_workload_matrix-IsSublist_example :
    Returned
      (build_workload_matrix naturals (λ _. true) (λ rs. rs) tables slugs)
      (λ rows. IsSublist (slugs_of rows) slugs)
build_workload_matrix-IsSublist_example =
    build_workload_matrix-IsSublist naturals (λ _. true) (λ rs. rs) tables slugs

abbrev size_of : {A : Type 0} → Result (List A) → ℕ
size_of (ok rows) = length rows
size_of (err _) = 0

one_row : size_of (build_workload_matrix naturals (λ _. true) (λ rs. rs) tables slugs) ≡ 1
unfolding build_workload_matrix
one_row = refl
