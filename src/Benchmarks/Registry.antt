-- ===== src/Benchmarks/Registry.antt =====
-- services/api/aries_api/benchmarks.py: what a workload declares, and the registry.
use aries_space.Base.{
  ℕ, Bool, true, false, String, Option, none, some, List, [], ◌∷◌, str_eq, if◌then◌else◌,
}
use aries_space.Exec.{Result}
use aries_space.Backend.{Bytes}

-- The settings of services/api/aries_api/config.py that the benchmarks read.
pub record BenchmarkConfig (F : Type 0) : Type 0 where
  pub downlink_mbps : F
  pub electricity_inr_per_kwh : F
  pub downlink_inr_per_gb : F
  pub ground_compute_inr_per_hour : F
  pub ground_estimated_watts : F
  pub edge_hardware_capex_inr : F
  pub edge_hardware_lifetime_hours : F
  pub edge_expected_runs_per_day : F
  pub edge_expected_total_runs : F
  pub edge_hardware_capex_per_run_inr : F
  pub edge_sim_watts : F
  pub edge_sim_slowdown_factor : F
  pub edge_measured_watts : F
  pub benchmark_sample_iterations : ℕ
  pub sentinel2_benchmark_sample_iterations : ℕ

abbrev pub results_bucket : String
results_bucket = "results"

abbrev pub edge_model_version : String
edge_model_version = "edge-sim-m4-v1"

abbrev pub ground_model_version : String
ground_model_version = "local-median-v1"

-- services/api/aries_api/sentinel2_ingest.py
abbrev pub aoi_ghrce_agricultural : ℕ
aoi_ghrce_agricultural = 1

abbrev pub aoi_coastal_port : ℕ
aoi_coastal_port = 2

-- `P` is the type of the results of all workloads.
pub record WorkloadSpec (P F : Type 0) : Type 0 where
  pub slug : String
  pub name : String
  pub detector_version : String
  pub description : String
  pub eligible_sources : List String
  pub run : Bytes → Result P
  pub canonical_result_bytes : P → Bytes
  pub sample_iterations : ℕ
  pub eligible_aoi_ids : Option (List ℕ)
  pub edge_run : Option (Bytes → Result P)
  pub edge_target_slug : String
  pub edge_target_name : String
  pub edge_power_source : String
  pub edge_model_version : String
  pub edge_avg_watts : F
  pub edge_is_simulated : Bool

-- `run` and `canonical_result_bytes` of one module of services/api/aries_api/workloads.
pub record Detector (P : Type 0) : Type 0 where
  pub run : Bytes → Result P
  pub canonical_result_bytes : P → Bytes

pub record Detectors (P : Type 0) : Type 0 where
  pub satnogs_payload_proxy : Detector P
  pub ndvi_summary : Detector P
  pub cloud_mask : Detector P
  pub ship_detect : Detector P
  pub landcover_classifier : Detector P
  pub lossless_recompress : Detector P
  pub quicklook_thumbnail : Detector P
  -- `run_edge_constrained`
  pub landcover_edge : Bytes → Result P

abbrev pub default_workload_slug : String
default_workload_slug = "satnogs-payload-anomaly-proxy"

module _ {P F : Type 0} (d : Detectors P) (c : BenchmarkConfig F) where
  abbrev pub satnogs_payload_proxy_spec : WorkloadSpec P F
  satnogs_payload_proxy_spec = record {
    slug = "satnogs-payload-anomaly-proxy";
    name = "SatNOGS Payload Anomaly Proxy";
    detector_version = "payload-proxy-v1";
    description =
        "Deterministic payload/metadata completeness proxy; not decoded-frame telemetry anomaly detection.";
    eligible_sources = "satnogs" ∷ [];
    run = d.satnogs_payload_proxy.run;
    canonical_result_bytes = d.satnogs_payload_proxy.canonical_result_bytes;
    sample_iterations = c.benchmark_sample_iterations;
    eligible_aoi_ids = none;
    edge_run = none;
    edge_target_slug = "edge-sim";
    edge_target_name = "Simulated Edge Node";
    edge_power_source = "simulated";
    edge_model_version = edge_model_version;
    edge_avg_watts = c.edge_sim_watts;
    edge_is_simulated = true;
  }

  abbrev pub ndvi_summary_spec : WorkloadSpec P F
  ndvi_summary_spec = record {
    slug = "sentinel2-ndvi-summary";
    name = "Sentinel-2 NDVI Summary";
    detector_version = "ndvi-summary-v1";
    description =
        "Deterministic, model-free NDVI summary statistics computed from a real Sentinel-2 L2A red/NIR crop.";
    eligible_sources = "sentinel2" ∷ [];
    run = d.ndvi_summary.run;
    canonical_result_bytes = d.ndvi_summary.canonical_result_bytes;
    sample_iterations = c.sentinel2_benchmark_sample_iterations;
    eligible_aoi_ids = some (aoi_ghrce_agricultural ∷ []);
    edge_run = none;
    edge_target_slug = "edge-sim";
    edge_target_name = "Simulated Edge Node";
    edge_power_source = "simulated";
    edge_model_version = edge_model_version;
    edge_avg_watts = c.edge_sim_watts;
    edge_is_simulated = true;
  }

  abbrev pub cloud_mask_spec : WorkloadSpec P F
  cloud_mask_spec = record {
    slug = "cloud-mask";
    name = "Cloud Mask";
    detector_version = "red-nir-brightness-v1";
    description =
        "Deterministic red+NIR joint-brightness cloud-fraction proxy, computed from raw Sentinel-2 bands (not the SCL shortcut).";
    eligible_sources = "sentinel2" ∷ [];
    run = d.cloud_mask.run;
    canonical_result_bytes = d.cloud_mask.canonical_result_bytes;
    sample_iterations = c.sentinel2_benchmark_sample_iterations;
    eligible_aoi_ids = some (aoi_ghrce_agricultural ∷ []);
    edge_run = none;
    edge_target_slug = "edge-sim";
    edge_target_name = "Simulated Edge Node";
    edge_power_source = "simulated";
    edge_model_version = edge_model_version;
    edge_avg_watts = c.edge_sim_watts;
    edge_is_simulated = true;
  }

  abbrev pub ship_detect_spec : WorkloadSpec P F
  ship_detect_spec = record {
    slug = "ship-detect";
    name = "Ship Detect";
    detector_version = "bright-pixel-cluster-v1";
    description =
        "Deterministic bright-pixel-cluster count against a water background in a single Sentinel-2 NIR band; a statistical proxy, not a validated vessel-detection model.";
    eligible_sources = "sentinel2" ∷ [];
    run = d.ship_detect.run;
    canonical_result_bytes = d.ship_detect.canonical_result_bytes;
    sample_iterations = c.sentinel2_benchmark_sample_iterations;
    eligible_aoi_ids = some (aoi_coastal_port ∷ []);
    edge_run = none;
    edge_target_slug = "edge-sim";
    edge_target_name = "Simulated Edge Node";
    edge_power_source = "simulated";
    edge_model_version = edge_model_version;
    edge_avg_watts = c.edge_sim_watts;
    edge_is_simulated = true;
  }

  abbrev pub landcover_classifier_spec : WorkloadSpec P F
  landcover_classifier_spec = record {
    slug = "sentinel2-landcover-classifier";
    name = "Sentinel-2 Land-cover Classifier";
    detector_version = "onnx-mlp-landcover-v1";
    description =
        "Real trained multi-class MLP (vegetation/bare-soil/cloud), executed via ONNX Runtime -- not a hand-written band-math threshold. Both the ground and edge targets genuinely execute and are timed; the edge target is not modeled from a ground-baseline slowdown factor.";
    eligible_sources = "sentinel2" ∷ [];
    run = d.landcover_classifier.run;
    canonical_result_bytes = d.landcover_classifier.canonical_result_bytes;
    sample_iterations = c.sentinel2_benchmark_sample_iterations;
    eligible_aoi_ids = some (aoi_ghrce_agricultural ∷ []);
    edge_run = some d.landcover_edge;
    edge_target_slug = "edge-measured-mac";
    edge_target_name = "Measured Edge (single-core stand-in)";
    edge_power_source = "estimated";
    edge_model_version = "onnx-edge-constrained-v1";
    edge_avg_watts = c.edge_measured_watts;
    edge_is_simulated = false;
  }

  abbrev pub lossless_recompress_spec : WorkloadSpec P F
  lossless_recompress_spec = record {
    slug = "sentinel2-lossless-recompress";
    name = "Sentinel-2 Lossless Recompress";
    detector_version = "zlib-level9-v1";
    description =
        "Real DEFLATE (zlib level 9) lossless recompression of the raw pixel bytes -- no semantic analysis. Deliberately a near-1x placement-frontier workload: its output is the compressed data itself, not an extracted insight.";
    eligible_sources = "sentinel2" ∷ [];
    run = d.lossless_recompress.run;
    canonical_result_bytes = d.lossless_recompress.canonical_result_bytes;
    sample_iterations = c.sentinel2_benchmark_sample_iterations;
    eligible_aoi_ids = some (aoi_ghrce_agricultural ∷ []);
    edge_run = none;
    edge_target_slug = "edge-sim";
    edge_target_name = "Simulated Edge Node";
    edge_power_source = "simulated";
    edge_model_version = edge_model_version;
    edge_avg_watts = c.edge_sim_watts;
    edge_is_simulated = true;
  }

  abbrev pub quicklook_thumbnail_spec : WorkloadSpec P F
  quicklook_thumbnail_spec = record {
    slug = "sentinel2-quicklook-thumbnail";
    name = "Sentinel-2 Quicklook Thumbnail";
    detector_version = "block-mean-decimate-4x-zlib6-v1";
    description =
        "Real block-mean spatial decimation (4x per axis) plus zlib-6 compression -- a real EO-operations quicklook preview, not a semantic summary. Deliberately a mid-range placement-frontier workload, between the near-1x recompression workload and the ~60-100x detection/summary cluster.";
    eligible_sources = "sentinel2" ∷ [];
    run = d.quicklook_thumbnail.run;
    canonical_result_bytes = d.quicklook_thumbnail.canonical_result_bytes;
    sample_iterations = c.sentinel2_benchmark_sample_iterations;
    eligible_aoi_ids = some (aoi_ghrce_agricultural ∷ []);
    edge_run = none;
    edge_target_slug = "edge-sim";
    edge_target_name = "Simulated Edge Node";
    edge_power_source = "simulated";
    edge_model_version = edge_model_version;
    edge_avg_watts = c.edge_sim_watts;
    edge_is_simulated = true;
  }

  abbrev pub workload_registry : List (WorkloadSpec P F)
  workload_registry =
      satnogs_payload_proxy_spec ∷ ndvi_summary_spec ∷ cloud_mask_spec ∷ ship_detect_spec
      ∷ landcover_classifier_spec ∷ lossless_recompress_spec ∷ quicklook_thumbnail_spec ∷ []

-- `WORKLOAD_REGISTRY.get(slug)`
unfoldable pub find_spec :
    {P F : Type 0} → String → List (WorkloadSpec P F) → Option (WorkloadSpec P F)
find_spec slug [] = none
find_spec slug (s ∷ specs) = if str_eq s.slug slug then some s else find_spec slug specs
