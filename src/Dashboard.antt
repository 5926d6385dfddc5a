-- ===== src/Dashboard.antt =====
-- services/api/aries_api/dashboard_data.py: the cost breakdown of a pair and the matrix of workloads.
-- `is_measured` says of a run whether the timing basis in its stored document has the word
-- "measured"; the document is not a field of the run here.
pub mod Matrix
mod Tests
use aries_space.Base.{
  ℕ, ◌-◌, not, Bool, true, false, String, Option, none, some, List, [], ◌∷◌, leb, str_eq,
  if◌then◌else◌,
}
use aries_space.Base.Int.{ℤ, pos, negsuc}
use aries_space.Exec.{Result, ok, err}
use aries_space.Exn.{Exn, key_error, type_error, benchmark_not_found, benchmark_unavailable}
use aries_space.Fallible.{divide, return, value_or, ◌>>=◌}
use aries_space.Floats.{Floats}
use aries_space.Models.{Assumption, BenchmarkRun, ExecutionTarget, Tables, float, int, text}
use aries_space.Benchmarks.Read.{SerializedPair, latest_completed_pair, serialized}

pub record Breakdown (F : Type 0) : Type 0 where
  pub workload_slug : String
  pub workload_name : String
  pub pair_id : ℕ
  pub completed_at : Option ℕ
  pub dataset_source : String
  pub dataset_aoi_name : Option String
  pub recommendation : Option String
  pub drf : F
  pub timing_measured : Bool
  pub edge_target_name : String
  pub ground_compute_inr : F
  pub ground_energy_inr : F
  pub edge_energy_inr : F
  pub edge_hardware_inr : F
  pub downlink_saved_inr : F
  pub downlink_saved_bytes : ℤ
  pub ground_total_inr : F
  pub edge_total_inr : F
  pub edge_capex_per_run : F
  pub breakeven_runs_per_day : Option F
  pub break_even_downlink_inr_per_gb : Option F

abbrev pub Run : Type 0 → Type 0
Run F = BenchmarkRun F × ExecutionTarget F

module _ {F : Type 0} where
  -- The first run on the ground, and the first that is not.
  unfoldable pub ground_run : List (Run F) → Option (Run F)
  ground_run [] = none
  ground_run ((r, x) ∷ rest) =
      let later = ground_run rest in if str_eq x.slug "ground-cpu" then some (r, x) else later

  unfoldable pub edge_run : List (Run F) → Option (Run F)
  edge_run [] = none
  edge_run ((r, x) ∷ rest) =
      let later = edge_run rest in if str_eq x.slug "ground-cpu" then later else some (r, x)

-- `except (not_found_error, unavailable_error)`
abbrev pub is_skipped : Exn → Bool
is_skipped (benchmark_not_found _) = true
is_skipped (benchmark_unavailable _) = true
is_skipped _ = false

-- `a - b`
abbrev pub difference : ℕ → ℕ → ℤ
difference a b = if leb b a then pos (a - b) else negsuc (b - a - 1)

module _ {F : Type 0} (N : Floats F) where
  -- `assumptions[key]`, used as a number
  unfoldable pub number_at : String → List (String × Assumption F) → Result F
  number_at key [] = err key_error
  number_at key ((k, v) ∷ rest) =
      let later = number_at key rest in
      if str_eq k key
      then elim v [ float x ↦ ok x | int n ↦ ok (N.of_ℕ n) | text _ ↦ err type_error ]
      else later

  abbrev pub billion : F
  billion = N.of_ℕ 1000000000

  -- `joules / 3_600_000 * price`
  abbrev pub energy_cost : F → F → F
  energy_cost joules price = N.mul (N.div joules (N.of_ℕ 3600000)) price

  -- `size / 1_000_000_000 * price`
  abbrev pub downlink_cost : ℕ → F → F
  downlink_cost size price = N.mul (N.div (N.of_ℕ size) billion) price

  -- What a run on the edge may cost in hardware before the ground is cheaper.
  abbrev pub headroom : F → F → BenchmarkRun F → BenchmarkRun F → F
  headroom electricity downlink_price edge ground =
      N.sub
        (N.sub (N.add ground.cost_per_run_inr (downlink_cost ground.input_bytes downlink_price))
          (downlink_cost edge.output_bytes downlink_price))
        (energy_cost edge.energy_joules electricity)

  unfoldable pub break_even : List (String × Assumption F) → F → F → Result (Option F)
  unfolding number_at divide
  break_even assumptions left lifetime_days = if not (N.lt (N.of_ℕ 0) left) then ok none else do
    capex ← number_at "edge_hardware_capex_inr" assumptions
    per_day ← divide N (N.div capex left) lifetime_days
    return (some per_day)

  module _ (is_measured : BenchmarkRun F → Bool) where
    -- Both runs and the pair's numbers, in the order in which the numbers are asked for.
    unfoldable pub breakdown_of : SerializedPair F → Run F → Run F → Result (Breakdown F)
    unfolding number_at break_even
    breakdown_of pair (edge, edge_target) (ground, ground_target) = do
      electricity ← number_at "electricity_inr_per_kwh" pair.pair.assumptions
      downlink_price ← number_at "downlink_inr_per_gb" pair.pair.assumptions
      edge_capex_per_run ← number_at "edge_hardware_capex_per_run_inr" pair.pair.assumptions
      lifetime ← number_at "edge_hardware_lifetime_hours" pair.pair.assumptions
      breakeven ←
          break_even pair.pair.assumptions (headroom electricity downlink_price edge ground)
            (N.div lifetime (N.of_ℕ 24))
      return (record {
        workload_slug = pair.workload.slug;
        workload_name = pair.workload.name;
        pair_id = pair.pair.id;
        completed_at = pair.pair.completed_at;
        dataset_source = pair.dataset.source;
        dataset_aoi_name = pair.dataset_aoi_name;
        recommendation = pair.pair.recommendation;
        drf = edge.data_reduction_factor;
        timing_measured = is_measured edge;
        edge_target_name = edge_target.name;
        ground_compute_inr =
            N.sub ground.cost_per_run_inr (energy_cost ground.energy_joules electricity);
        ground_energy_inr = energy_cost ground.energy_joules electricity;
        edge_energy_inr = energy_cost edge.energy_joules electricity;
        edge_hardware_inr =
            N.sub edge.cost_per_run_inr (energy_cost edge.energy_joules electricity);
        downlink_saved_inr =
            N.sub (downlink_cost ground.input_bytes downlink_price)
              (downlink_cost edge.output_bytes downlink_price);
        downlink_saved_bytes = difference ground.input_bytes edge.output_bytes;
        ground_total_inr =
            N.add ground.cost_per_run_inr (downlink_cost ground.input_bytes downlink_price);
        edge_total_inr =
            N.add edge.cost_per_run_inr (downlink_cost edge.output_bytes downlink_price);
        edge_capex_per_run = edge_capex_per_run;
        breakeven_runs_per_day = breakeven;
        break_even_downlink_inr_per_gb = pair.pair.break_even_downlink_inr_per_gb;
      })

    unfoldable pub economics_breakdown : SerializedPair F → Result (Option (Breakdown F))
    unfolding edge_run ground_run breakdown_of
    economics_breakdown pair = elim (edge_run pair.runs) [
      | none ↦ ok none
      | some edge ↦ elim (ground_run pair.runs) [
        | none ↦ ok none
        | some ground ↦ do b ← breakdown_of pair edge ground; return (some b)
      ]
    ]

    module _ (order_by_slug : List (Run F) → List (Run F)) (t : Tables F) where
      unfoldable pub latest_pair : String → Result (SerializedPair F)
      unfolding latest_completed_pair serialized
      latest_pair slug = do
        pair ← latest_completed_pair t (some slug)
        serialized order_by_slug t pair

      -- One turn of the loop: a row, or none where the workload is skipped.
      unfoldable pub matrix_row : String → Result (Option (Breakdown F))
      unfolding latest_pair economics_breakdown
      matrix_row slug = elim (latest_pair slug) [
        | err e ↦ if is_skipped e then ok none else err e
        | ok pair ↦ economics_breakdown pair
      ]

      unfoldable pub build_workload_matrix : List String → Result (List (Breakdown F))
      unfolding matrix_row
      build_workload_matrix [] = ok []
      build_workload_matrix (slug ∷ slugs) = do
        row ← matrix_row slug
        matrix ← build_workload_matrix slugs
        return (elim row [ none ↦ matrix | some b ↦ b ∷ matrix ])
