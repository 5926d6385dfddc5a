-- ===== src/Benchmarks/Catalog.antt =====
-- `_seed_catalog` of services/api/aries_api/benchmarks.py: the rows of a workload and of its two
-- execution targets are brought up to date.
use aries_space.Base.{ℕ, false, String, Option, none, some, List, [], ◌∷◌, str_eq, if◌then◌else◌}
use aries_space.Exec.{Exec, pure, gets, modify, ◌>>=◌, ◌>>◌}
use aries_space.Floats.{Floats}
use aries_space.Models.{Workload, ExecutionTarget, Tables}
use aries_space.Backend.{select, Backend}
use aries_space.Benchmarks.Registry.{BenchmarkConfig, WorkloadSpec, ground_model_version}

unfoldable pub find_workload : String → List Workload → Option Workload
find_workload slug [] = none
find_workload slug (x ∷ xs) = if str_eq x.slug slug then some x else find_workload slug xs

-- The row of its slug is replaced, or the row is new.
unfoldable pub put_workload : Workload → List Workload → List Workload
put_workload row [] = row ∷ []
put_workload row (x ∷ xs) = if str_eq x.slug row.slug then row ∷ xs else x ∷ put_workload row xs

module _ {F : Type 0} where
  unfoldable pub find_target : String → List (ExecutionTarget F) → Option (ExecutionTarget F)
  find_target slug [] = none
  find_target slug (x ∷ xs) = if str_eq x.slug slug then some x else find_target slug xs

  unfoldable pub put_target :
      ExecutionTarget F → List (ExecutionTarget F) → List (ExecutionTarget F)
  put_target row [] = row ∷ []
  put_target row (x ∷ xs) = if str_eq x.slug row.slug then row ∷ xs else x ∷ put_target row xs

module _ {P F : Type 0} where
  abbrev pub workload_row : ℕ → WorkloadSpec P F → Option Workload → Workload
  workload_row id spec none = record {
    id = id;
    slug = spec.slug;
    name = spec.name;
    detector_version = spec.detector_version;
    description = spec.description;
  }
  workload_row id spec (some row) = record row {
    name = spec.name;
    detector_version = spec.detector_version;
    description = spec.description;
  }

  abbrev pub edge_target : BenchmarkConfig F → WorkloadSpec P F → ℕ → ExecutionTarget F
  edge_target c spec id = record {
    id = id;
    slug = spec.edge_target_slug;
    name = spec.edge_target_name;
    power_source = spec.edge_power_source;
    model_version = spec.edge_model_version;
    avg_watts = spec.edge_avg_watts;
    slowdown_factor = c.edge_sim_slowdown_factor;
    is_simulated = spec.edge_is_simulated;
  }

module _ {F : Type 0} (B : Backend (Tables F)) (N : Floats F) (c : BenchmarkConfig F) where
  open B use {World}

  abbrev pub ground_target : ℕ → ExecutionTarget F
  ground_target id = record {
    id = id;
    slug = "ground-cpu";
    name = "Terrestrial CPU";
    power_source = "estimated";
    model_version = ground_model_version;
    avg_watts = c.ground_estimated_watts;
    slowdown_factor = N.of_ℕ 1;
    is_simulated = false;
  }

  -- A row that is there keeps its key; every other column is set.
  unfoldable pub seed_target : (ℕ → ExecutionTarget F) → Exec World (ExecutionTarget F)
  unfolding find_target put_target
  seed_target target_spec = do
    fresh ← gets B.next_id
    existing ← select B (λ t. find_target (target_spec fresh).slug t.targets)
    let row = target_spec (elim existing [ none ↦ fresh | some old ↦ old.id ])
    modify (B.write (λ t. record t { targets = put_target row t.targets }))
    pure row

  unfoldable pub seed_catalog :
      {P : Type 0}
      → WorkloadSpec P F
      → Exec World (Workload × ExecutionTarget F × ExecutionTarget F)
  unfolding seed_target find_workload put_workload
  seed_catalog spec = do
    id ← gets B.next_id
    existing ← select B (λ t. find_workload spec.slug t.workloads)
    let workload = workload_row id spec existing
    modify (B.write (λ t. record t { workloads = put_workload workload t.workloads }))
    ground ← seed_target ground_target
    edge ← seed_target (edge_target c spec)
    B.flush
    pure (workload, ground, edge)
