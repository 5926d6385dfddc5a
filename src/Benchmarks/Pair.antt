-- ===== src/Benchmarks/Pair.antt =====
-- `run_benchmark_pair` of services/api/aries_api/benchmarks.py. The attempt's state is the world and
-- the local list `created_keys`, which the handler reads.
use aries_space.Base.{
  ℕ, not, String, ◌<>◌, Option, none, some, List, [], ◌∷◌, ◌++◌, length, str_eq, if◌then◌else◌,
}
use aries_space.Exn.{
  Exn, dataset_not_found, dataset_ineligible, benchmark_unavailable, workload_not_found, key_error,
}
use aries_space.Exec.{
  Result, ok, err, Exec, pure, raise, raise_if, or_raise, lift, gets, modify, try_except, ◌>>=◌,
  ◌>>◌,
}
use aries_space.Floats.{Floats, zero_F}
use aries_space.Models.{
  Dataset, Workload, ExecutionTarget, BenchmarkPair, Tables, PairStatus, Assumption,
}
use aries_space.Backend.{select, Backend, Bytes}
use aries_space.Storage.{get, put, delete, minio_raw_bucket}
use aries_space.Metrics.{
  RunMetrics, RunCost, calculate_run_metrics, break_even_downlink_price, recommendation_for_price,
}
use aries_space.Benchmarks.Registry.{
  BenchmarkConfig, WorkloadSpec, Detectors, workload_registry, find_spec, results_bucket,
}
use aries_space.Benchmarks.Catalog.{seed_catalog}
use aries_space.Benchmarks.Execute.{Host, Executed, execute_target_bounded}
use aries_space.Benchmarks.Rows.{
  RunEvidence, find_dataset_by_id, has_observation, is_source_in, is_aoi_eligible, last_of_slug,
  put_pair, run_rows, Attempt, within, Texts, assumptions_snapshot,
}

-- The exception that leaves the handler.
unfoldable pub atomic_error : Exn → Exn
atomic_error (dataset_not_found s) = dataset_not_found s
atomic_error (dataset_ineligible s) = dataset_ineligible s
atomic_error _ = benchmark_unavailable "Benchmark pair failed atomically"

module _ {P F : Type 0} (B : Backend (Tables F)) (N : Floats F) (c : BenchmarkConfig F)
    (H : Host B.World P F) (T : Texts) where
  open B use {World}

  abbrev pub result_key : String → String → String
  result_key correlation_id slug = "benchmarks/" <> correlation_id <> "/" <> slug <> "/result.json"

  abbrev pub cost_of : ExecutionTarget F → ℕ → Executed F → RunCost F
  cost_of target input_bytes x = record {
    input_bytes = input_bytes;
    output_bytes = x.analytical_output_bytes;
    wall_ms = x.wall_ms;
    avg_watts = target.avg_watts;
    downlink_mbps = c.downlink_mbps;
    electricity_inr_per_kwh = c.electricity_inr_per_kwh;
    compute_inr_per_hour =
        if str_eq target.slug "ground-cpu" then c.ground_compute_inr_per_hour else zero_F N;
    fixed_cost_inr_per_run =
        if str_eq target.slug "ground-cpu" then zero_F N else c.edge_hardware_capex_per_run_inr;
  }

  abbrev pub evidence_of :
      ExecutionTarget F → String → ℕ → Executed F → RunMetrics F → RunEvidence F
  evidence_of target key input_bytes x metrics = record {
    target_id = target.id;
    target_slug = target.slug;
    target_name = target.name;
    power_source = target.power_source;
    model_version = target.model_version;
    result_object_key = key;
    result_sha256 = T.sha256 x.bytes;
    input_bytes = input_bytes;
    output_bytes = x.analytical_output_bytes;
    wall_ms = x.wall_ms;
    inference_ms = x.inference_ms;
    avg_watts = target.avg_watts;
    metrics = metrics;
  }

  -- The result goes to the store, its key to `created_keys`, and it is read back.
  unfoldable pub store_result : String → Bytes → Exec (Attempt World) (Unit {0})
  unfolding put get
  store_result key bytes = do
    within (put B results_bucket key bytes (T.sha256 bytes))
    modify (λ a. record a { created_keys = a.created_keys ++ key ∷ [] })
    stored ← within (get B results_bucket key)
    raise_if (not (str_eq (T.sha256 stored) (T.sha256 bytes)))
        (benchmark_unavailable "Stored result checksum mismatch")

  -- The body of the loop over the targets, with the wall time for the next baseline.
  unfoldable pub run_target :
      String
      → Bytes
      → WorkloadSpec P F
      → ExecutionTarget F
      → Option F
      → Exec (Attempt World) (RunEvidence F × Option F)
  unfolding execute_target_bounded store_result calculate_run_metrics
  run_target correlation_id raw_payload spec target baseline = do
    x ← within (execute_target_bounded N H target raw_payload spec baseline)
    let key = result_key correlation_id target.slug
    store_result key x.bytes
    metrics ← lift (calculate_run_metrics N (cost_of target (length raw_payload) x))
    pure (
      evidence_of target key (length raw_payload) x metrics,
      (if str_eq target.slug "ground-cpu" then some x.wall_ms else baseline),
    )

  unfoldable pub run_targets :
      String
      → Bytes
      → WorkloadSpec P F
      → List (ExecutionTarget F)
      → Option F
      → Exec (Attempt World) (List (RunEvidence F))
  unfolding run_target
  run_targets correlation_id raw_payload spec [] baseline = pure []
  run_targets correlation_id raw_payload spec (target ∷ rest) baseline = do
    (item, baseline') ← run_target correlation_id raw_payload spec target baseline
    items ← run_targets correlation_id raw_payload spec rest baseline'
    pure (item ∷ items)

  abbrev pub pair_row :
      ℕ → String → Dataset → Workload → List (String × Assumption F) → ℕ → BenchmarkPair F
  pair_row id correlation_id dataset workload assumptions created_at = record {
    id = id;
    correlation_id = correlation_id;
    dataset_id = dataset.id;
    workload_id = workload.id;
    dataset_sha256 = dataset.sha256;
    detector_version = workload.detector_version;
    assumptions = assumptions;
    status = PairStatus.running;
    recommendation = none;
    break_even_downlink_inr_per_gb = none;
    created_at = created_at;
    completed_at = none;
  }

  -- What the two runs say: the price from which the edge pays, and the advice.
  unfoldable pub decide :
      WorkloadSpec P F → List (RunEvidence F) → Result (Option F × Option String)
  unfolding last_of_slug break_even_downlink_price recommendation_for_price
  decide spec evidence = elim (last_of_slug "ground-cpu" evidence) [
    | none ↦ err key_error
    | some ground ↦ elim (last_of_slug spec.edge_target_slug evidence) [
      | none ↦ err key_error
      | some edge ↦
          elim (break_even_downlink_price N ground.metrics.cost_per_run_inr
            edge.metrics.cost_per_run_inr edge.metrics.downlink_saved_bytes) [
              | err e ↦ err e
              | ok break_even ↦ elim (recommendation_for_price N c.downlink_inr_per_gb break_even) [
                | err e ↦ err e
                | ok recommendation ↦ ok (break_even, recommendation)
              ]
            ]
    ]
  ]

  abbrev pub completed_pair : BenchmarkPair F → Option F → Option String → ℕ → BenchmarkPair F
  completed_pair pair break_even recommendation completed_at = record pair {
    status = PairStatus.completed;
    recommendation = recommendation;
    break_even_downlink_inr_per_gb = break_even;
    completed_at = some completed_at;
  }

  abbrev pub complete_tables : ℕ → BenchmarkPair F → List (RunEvidence F) → ℕ → Tables F → Tables F
  complete_tables id pair evidence completed_at t = record t {
    runs = t.runs ++ run_rows id pair.id completed_at evidence;
    pairs = put_pair pair t.pairs;
  }

  -- The first statements inside `try`: the catalogue and the pair's row.
  unfoldable pub register_pair :
      WorkloadSpec P F
      → Dataset
      → String
      → Exec World (BenchmarkPair F × ExecutionTarget F × ExecutionTarget F)
  unfolding seed_catalog
  register_pair spec dataset correlation_id = do
    (workload, ground, edge) ← seed_catalog B N c spec
    id ← gets B.next_id
    created_at ← gets B.now
    let pair = pair_row id correlation_id dataset workload (assumptions_snapshot c spec) created_at
    modify (B.write (λ t. record t { pairs = put_pair pair t.pairs }))
    B.flush
    pure (pair, ground, edge)

  -- The last ones: the two rows of the runs, the pair's end and the commit.
  unfoldable pub conclude_pair :
      WorkloadSpec P F → BenchmarkPair F → List (RunEvidence F) → Exec World (BenchmarkPair F)
  unfolding decide
  conclude_pair spec pair evidence = do
    (break_even, recommendation) ← lift (decide spec evidence)
    completed_at ← gets B.now
    run_id ← gets B.next_id
    let done = completed_pair pair break_even recommendation completed_at
    modify (B.write (complete_tables run_id done evidence completed_at))
    B.commit
    pure done

  -- The statements inside `try`.
  unfoldable pub attempt :
      WorkloadSpec P F → Dataset → Bytes → String → Exec (Attempt World) (BenchmarkPair F)
  unfolding register_pair run_targets conclude_pair
  attempt spec dataset raw_payload correlation_id = do
    (pair, ground, edge) ← within (register_pair spec dataset correlation_id)
    evidence ← run_targets correlation_id raw_payload spec (ground ∷ edge ∷ []) none
    within (conclude_pair spec pair evidence)

  -- The loop of the handler: a key that cannot be deleted is logged and the loop goes on.
  unfoldable pub delete_created : String → List String → World → World
  unfolding delete
  delete_created correlation_id [] w = w
  delete_created correlation_id (key ∷ keys) w =
      let (r, w') = delete B results_bucket key w in
      delete_created correlation_id keys (elim r [
        | ok _ ↦ w'
        | err _ ↦
            B.log_error
              ("benchmark_orphan_result correlation_id=" <> correlation_id <> " key=" <> key) w'
      ])

  -- What the `except` clause makes of the end of the body.
  unfoldable pub settle_attempt :
      String → Result (BenchmarkPair F) × Attempt World → Result (BenchmarkPair F) × World
  unfolding delete_created atomic_error
  settle_attempt correlation_id (ok pair, a) = (ok pair, a.world)
  settle_attempt correlation_id (err e, a) =
      (err (atomic_error e), delete_created correlation_id a.created_keys (B.rollback a.world))

  unfoldable pub run_attempt :
      WorkloadSpec P F → Dataset → Bytes → String → Exec World (BenchmarkPair F)
  unfolding attempt settle_attempt
  run_attempt spec dataset raw_payload correlation_id w =
      settle_attempt correlation_id
        (attempt spec dataset raw_payload correlation_id (record { world = w; created_keys = [] }))

  -- The checks of the dataset's row.
  unfoldable pub check_source : WorkloadSpec P F → Dataset → Exec World (Unit {0})
  unfolding is_source_in
  check_source spec dataset = raise_if (not (is_source_in dataset.source spec.eligible_sources)) (
      dataset_ineligible (
        "Dataset source '"
        <> dataset.source
        <> "' is not eligible for workload '"
        <> spec.slug
        <> "' (eligible: "
        <> T.show_sources spec.eligible_sources
        <> ")"))

  unfoldable pub check_aoi : WorkloadSpec P F → Dataset → Exec World (Unit {0})
  unfolding is_aoi_eligible
  check_aoi spec dataset = raise_if (not (is_aoi_eligible dataset.aoi_id spec.eligible_aoi_ids)) (
      dataset_ineligible (
        "Dataset AOI '"
        <> T.show_aoi dataset.aoi_id
        <> "' is not eligible for workload '"
        <> spec.slug
        <> "' (eligible: "
        <> elim spec.eligible_aoi_ids [ none ↦ "" | some ids ↦ T.show_aois ids ]
        <> ")"))

  unfoldable pub check_linked : Dataset → Exec World (Unit {0})
  unfolding has_observation
  check_linked dataset =
      if str_eq dataset.source "satnogs"
      then (do
        linked ← select B (λ t. has_observation dataset.id t.observations)
        raise_if (not linked) (dataset_ineligible "SatNOGS dataset has no linked observation"))
      else pure tt

  unfoldable pub read_payload : Dataset → Exec World Bytes
  unfolding get
  read_payload dataset =
      try_except (get B minio_raw_bucket dataset.object_key)
        (λ _. raise (benchmark_unavailable "Dataset object is unavailable"))

  unfoldable pub check_payload : Dataset → Bytes → Exec World (Unit {0})
  check_payload dataset raw_payload =
      raise_if (not (str_eq (T.sha256 raw_payload) dataset.sha256))
        (dataset_ineligible "Dataset object checksum does not match provenance")

  unfoldable pub run_benchmark_pair : Detectors P → ℕ → String → Exec World (BenchmarkPair F)
  unfolding find_spec find_dataset_by_id check_source check_aoi check_linked read_payload
      check_payload run_attempt
  run_benchmark_pair detectors dataset_id workload_slug = do
    spec ←
        or_raise (find_spec workload_slug (workload_registry detectors c))
          (workload_not_found ("Unknown workload '" <> workload_slug <> "'"))
    found ← select B (λ t. find_dataset_by_id dataset_id t.datasets)
    dataset ←
        or_raise found (dataset_not_found ("Dataset " <> T.show_id dataset_id <> " was not found"))
    check_source spec dataset
    check_aoi spec dataset
    check_linked dataset
    raw_payload ← read_payload dataset
    check_payload dataset raw_payload
    correlation_id ← gets B.uuid4
    run_attempt spec dataset raw_payload correlation_id
