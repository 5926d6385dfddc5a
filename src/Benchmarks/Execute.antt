-- ===== src/Benchmarks/Execute.antt =====
-- `_execute_target` and `_execute_target_bounded` of services/api/aries_api/benchmarks.py.
use aries_space.Base.{
  ℕ, zero, suc, Bool, String, ◌<>◌, Option, none, some, List, [], ◌∷◌, ◌++◌, length, min, str_eq,
  if◌then◌else◌,
}
use aries_space.Exn.{benchmark_unavailable, other}
use aries_space.Exec.{Result, ok, err, Exec, pure, lift, or_raise, ◌>>=◌, ◌>>◌}
use aries_space.Floats.{Floats}
use aries_space.Models.{ExecutionTarget}
use aries_space.Backend.{Bytes}
use aries_space.Benchmarks.Registry.{WorkloadSpec}
use aries_space.Benchmarks.Encoding.{result_bytes}

pub record Execution (F : Type 0) : Type 0 where
  pub target : String
  pub target_label : String
  pub power_source : String
  pub model_version : String
  pub timing_basis : String
  pub wall_ms : F
  pub inference_ms : F
  pub avg_watts : F

-- The host: what a call takes in milliseconds by `time.perf_counter_ns`, whether the thread pool's
-- wait has run out when a target is done, `statistics.median`, which raises on no data, and
-- `json.dumps` of a result with its execution and its stated length.
pub record Host (W P F : Type 0) : Type 0 where
  pub elapsed_ms : W → F × W
  pub timed_out : W → Bool
  pub median : List F → Option F
  pub encode : P → Execution F → ℕ → Bytes

pub record Executed (F : Type 0) : Type 0 where
  pub bytes : Bytes
  pub output_bytes : ℕ
  pub wall_ms : F
  pub inference_ms : F
  pub analytical_output_bytes : ℕ

module _ {W P F : Type 0} (N : Floats F) (H : Host W P F) where
  unfoldable pub warm_up : ℕ → (Bytes → Result P) → Bytes → Exec W (Unit {0})
  warm_up zero run_fn payload = pure tt
  warm_up (suc rounds) run_fn payload = do
    proxy ← lift (run_fn payload)
    warm_up rounds run_fn payload

  -- The last result and all samples, in order.
  unfoldable pub collect :
      ℕ → (Bytes → Result P) → Bytes → List F → Option P → Exec W (Option P × List F)
  collect zero run_fn payload samples proxy = pure (proxy, samples)
  collect (suc rounds) run_fn payload samples proxy = do
    result ← lift (run_fn payload)
    sample ← λ w. (ok (H.elapsed_ms w).0, (H.elapsed_ms w).1)
    collect rounds run_fn payload (samples ++ sample ∷ []) (some result)

  -- `max(statistics.median(samples), 0.001)`
  abbrev at_least_one_us : F → F
  at_least_one_us m =
      let floor = N.div (N.of_ℕ 1) (N.of_ℕ 1000) in if N.lt m floor then floor else m

  -- Which function a measured target runs, and the label of its timing.
  unfoldable pub dispatch :
      ExecutionTarget F → WorkloadSpec P F → Result ((Bytes → Result P) × String)
  dispatch target spec =
      if str_eq target.slug "ground-cpu"
      then ok (spec.run, "measured_container_median_estimated_power")
      else elim spec.edge_run [
        | none ↦ err (
            benchmark_unavailable (
              "Target " <> target.slug <> " is not simulated but workload '" <> spec.slug
              <> "' has no edge_run"))
        | some run ↦ ok (run, "measured_native_constrained_median_estimated_power")
      ]

  unfoldable pub measured : ExecutionTarget F → Bytes → WorkloadSpec P F → Exec W (P × F × String)
  unfolding dispatch warm_up collect
  measured target payload spec = do
    (run_fn, timing_basis) ← lift (dispatch target spec)
    let iterations = spec.sample_iterations
    warm_up (min 100 iterations) run_fn payload
    (proxy, samples) ← collect iterations run_fn payload [] none
    middle ← or_raise (H.median samples) other
    result ←
        or_raise proxy (benchmark_unavailable (target.slug <> " benchmark produced no samples"))
    pure (result, at_least_one_us middle, timing_basis)

  unfoldable pub simulated :
      ExecutionTarget F → Bytes → WorkloadSpec P F → Option F → Exec W (P × F × String)
  simulated target payload spec ground_baseline_ms = do
    baseline ←
        or_raise ground_baseline_ms
          (benchmark_unavailable "Simulated edge requires ground baseline")
    proxy ← lift (spec.run payload)
    pure (proxy, N.mul baseline target.slowdown_factor, "modeled_from_ground_median")

  abbrev execution_of : ExecutionTarget F → String → F → Execution F
  execution_of target timing_basis ms = record {
    target = target.slug;
    target_label = target.name;
    power_source = target.power_source;
    model_version = target.model_version;
    timing_basis = timing_basis;
    wall_ms = N.round6 ms;
    inference_ms = N.round6 ms;
    avg_watts = target.avg_watts;
  }

  unfoldable pub execute_target :
      ExecutionTarget F → Bytes → WorkloadSpec P F → Option F → Exec W (Executed F)
  unfolding measured simulated result_bytes
  execute_target target payload spec ground_baseline_ms = do
    (proxy, ms, timing_basis) ←
        (if target.is_simulated
          then simulated target payload spec ground_baseline_ms
          else measured target payload spec)
    (bytes, output_bytes) ←
        lift (result_bytes (H.encode proxy (execution_of target timing_basis ms)))
    pure (record {
      bytes = bytes;
      output_bytes = output_bytes;
      wall_ms = ms;
      inference_ms = ms;
      analytical_output_bytes = length (spec.canonical_result_bytes proxy);
    })

  -- The pool waits for its thread before the exception leaves the `with` block.
  unfoldable pub execute_target_bounded :
      ExecutionTarget F → Bytes → WorkloadSpec P F → Option F → Exec W (Executed F)
  unfolding execute_target
  execute_target_bounded target payload spec ground_baseline_ms w =
      let (r, w') = execute_target target payload spec ground_baseline_ms w in
      if H.timed_out w'
      then (
        err (benchmark_unavailable ("Target " <> target.slug <> " exceeded benchmark timeout")),
        w',
      )
      else (r, w')
