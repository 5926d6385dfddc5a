-- ===== src/Benchmarks/Tests.antt =====
-- The theorems of services/api/aries_api/benchmarks.py at a run on a backend in memory.
use aries_space.Base.{
  ℕ, zero, suc, ◌+◌, ◌≡◌, refl, true, false, Option, none, some, List, [], ◌∷◌, length, arith,
}
use aries_space.Exec.{Returned, ok, exception}
use aries_space.Floats.{naturals}
use aries_space.Models.{Tables, Dataset}
use aries_space.Backend.{Bytes}
use aries_space.Backend.Memory.{Memory, memory, memory-IsLawful}
use aries_space.Benchmarks.Registry.{BenchmarkConfig, Detector, Detectors}
use aries_space.Benchmarks.Encoding.{result_bytes, digits, result_bytes_total}
use aries_space.Benchmarks.Execute.{Host}
use aries_space.Benchmarks.Rows.{Texts, run_rows}
use aries_space.Benchmarks.Pair.{
  run_benchmark_pair, run_attempt, attempt, settle_attempt, register_pair, run_targets,
  conclude_pair, check_source, check_aoi, check_linked, read_payload, check_payload,
}
use aries_space.Benchmarks.Atomic.{Atomic, run_benchmark_pair-Atomic}
use aries_space.Benchmarks.Completed.{IsRecorded, run_benchmark_pair-IsRecorded}
use aries_space.Benchmarks.Errors.{IsExpected, run_benchmark_pair-IsExpected}

zeros : ℕ → Bytes
zeros zero = []
zeros (suc n) = 0 ∷ zeros n

length-zeros : (n : ℕ) → length (zeros n) ≡ n
unfolding zeros
length-zeros zero = refl
length-zeros (suc n) = omega (arith, length-zeros n)

abbrev document : ℕ → Bytes
document n = zeros (100 + digits n)

result_bytes_total_example :
    (m : ℕ) × (result_bytes document ≡ ok (document m, m)) × (length (document m) ≡ m)
result_bytes_total_example =
    result_bytes_total document 100 (λ n _. length-zeros (100 + digits n)) (omega arith)

abbrev pub config : BenchmarkConfig ℕ
config = record {
  downlink_mbps = 2;
  electricity_inr_per_kwh = 8;
  downlink_inr_per_gb = 100;
  ground_compute_inr_per_hour = 5;
  ground_estimated_watts = 65;
  edge_hardware_capex_inr = 50000;
  edge_hardware_lifetime_hours = 43800;
  edge_expected_runs_per_day = 24;
  edge_expected_total_runs = 43800;
  edge_hardware_capex_per_run_inr = 1;
  edge_sim_watts = 10;
  edge_sim_slowdown_factor = 4;
  edge_measured_watts = 10;
  benchmark_sample_iterations = 1;
  sentinel2_benchmark_sample_iterations = 1;
}

abbrev echo : Detector Bytes
echo = record { run = λ p. ok p; canonical_result_bytes = λ p. p }

abbrev pub detectors : Detectors Bytes
detectors = record {
  satnogs_payload_proxy = echo;
  ndvi_summary = echo;
  cloud_mask = echo;
  ship_detect = echo;
  landcover_classifier = echo;
  lossless_recompress = echo;
  quicklook_thumbnail = echo;
  landcover_edge = λ p. ok p;
}

abbrev first : List ℕ → Option ℕ
first [] = none
first (x ∷ xs) = some x

abbrev pub host : Host (Memory (Tables ℕ)) Bytes ℕ
host = record {
  elapsed_ms = λ w. (7, w);
  timed_out = λ w. false;
  median = first;
  encode = λ p x n. 1 ∷ [];
}

abbrev pub texts : Texts
texts = record {
  sha256 = λ p. "d";
  show_id = λ n. "n";
  show_sources = λ xs. "s";
  show_aoi = λ a. "a";
  show_aois = λ xs. "as";
}

abbrev dataset : Dataset
dataset = record {
  id = 4;
  source = "sentinel2";
  external_id = "x";
  observed_at = 1;
  size_bytes = 2;
  object_key = "k";
  sha256 = "d";
  ingested_at = 2;
  satellite_norad_id = none;
  aoi_id = some 1;
}

abbrev rows : Tables ℕ
rows = record {
  datasets = dataset ∷ [];
  observations = [];
  workloads = [];
  targets = [];
  pairs = [];
  runs = [];
}

-- The database fails at the commit.
abbrev pub broken_world : Memory (Tables ℕ)
broken_world = record {
  objects = λ _ _. some (1 ∷ 2 ∷ []);
  pending = rows;
  durable = rows;
  clock = 9;
  broken = true;
}

run_benchmark_pair-Atomic_example :
    Atomic memory broken_world
      (run_benchmark_pair memory naturals config host texts detectors 4 "sentinel2-ndvi-summary"
        broken_world).0
      (run_benchmark_pair memory naturals config host texts detectors 4 "sentinel2-ndvi-summary"
        broken_world).1
run_benchmark_pair-Atomic_example =
    run_benchmark_pair-Atomic memory naturals config host texts memory-IsLawful
      (λ w. record { objects = refl; tables = refl; committed = refl }) detectors 4
      "sentinel2-ndvi-summary" broken_world

run_benchmark_pair-IsExpected_example :
    IsExpected memory naturals config host texts memory-IsLawful broken_world (
      run_benchmark_pair memory naturals config host texts detectors 4 "sentinel2-ndvi-summary"
        broken_world)
run_benchmark_pair-IsExpected_example =
    run_benchmark_pair-IsExpected memory naturals config host texts memory-IsLawful detectors 4
      "sentinel2-ndvi-summary" broken_world

abbrev working_world : Memory (Tables ℕ)
working_world = record broken_world { broken = false }

-- A whole run returns, and stores both results.
working_run :
    let (r, u) =
      run_benchmark_pair memory naturals config host texts detectors 4 "sentinel2-ndvi-summary"
        working_world in
    (exception r ≡ none)
    × (u.objects "results" "benchmarks/uuid/ground-cpu/result.json" ≡ some (1 ∷ []))
    × (length u.durable.runs ≡ 2)
unfolding run_benchmark_pair run_attempt attempt settle_attempt register_pair run_targets
    conclude_pair check_source check_aoi check_linked read_payload check_payload run_rows
working_run = (refl, refl, refl)

run_benchmark_pair-IsRecorded_example :
    let (r, u) =
      run_benchmark_pair memory naturals config host texts detectors 4 "sentinel2-ndvi-summary"
        working_world in
    Returned r (IsRecorded memory u)
run_benchmark_pair-IsRecorded_example =
    run_benchmark_pair-IsRecorded memory naturals config host texts memory-IsLawful detectors 4
      "sentinel2-ndvi-summary" working_world
