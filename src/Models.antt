-- ===== src/Models.antt =====
-- The tables of services/api/aries_api/models.py. Times are numbers on one clock.
use aries_space.Base.{
  ℕ, String, Bool, Option, List, [], ◌∷◌, none, some, str_eq, ◌&&◌, if◌then◌else◌,
}
use aries_space.Base.Int.{ℤ}
use aries_space.Json.{Json}

pub record Dataset : Type 0 where
  pub id : ℕ
  pub source : String
  pub external_id : String
  pub observed_at : ℕ
  pub size_bytes : ℕ
  pub object_key : String
  pub sha256 : String
  pub ingested_at : ℕ
  pub satellite_norad_id : Option ℤ
  pub aoi_id : Option ℕ

-- The columns that hold what SatNOGS sent stay JSON values: the program does not check them.
pub record Observation : Type 0 where
  pub id : ℕ
  pub dataset_id : ℕ
  pub satnogs_observation_id : ℤ
  pub satellite_id : ℤ
  pub station_id : Json
  pub timestamp : ℕ
  pub frequency : Json
  pub signal_quality : Json
  pub waterfall_url : Json
  pub audio_url : Json
  pub decoded_data : Option String
  pub ingested_at : ℕ

pub record Workload : Type 0 where
  pub id : ℕ
  pub slug : String
  pub name : String
  pub detector_version : String
  pub description : String

-- `F` stands for Python's floats here and below.
pub record ExecutionTarget (F : Type 0) : Type 0 where
  pub id : ℕ
  pub slug : String
  pub name : String
  pub power_source : String
  pub model_version : String
  pub avg_watts : F
  pub slowdown_factor : F
  pub is_simulated : Bool

pub data PairStatus : Type 0 where
  running completed failed : PairStatus

-- A value of the `assumptions` column.
pub data Assumption (F : Type 0) : Type 0 where
  float : F → Assumption F
  int : ℕ → Assumption F
  text : String → Assumption F

pub record BenchmarkPair (F : Type 0) : Type 0 where
  pub id : ℕ
  pub correlation_id : String
  pub dataset_id : ℕ
  pub workload_id : ℕ
  pub dataset_sha256 : String
  pub detector_version : String
  pub assumptions : List (String × Assumption F)
  pub status : PairStatus
  pub recommendation : Option String
  pub break_even_downlink_inr_per_gb : Option F
  pub created_at : ℕ
  pub completed_at : Option ℕ

pub data RunStatus : Type 0 where
  completed failed : RunStatus

pub record BenchmarkRun (F : Type 0) : Type 0 where
  pub id : ℕ
  pub pair_id : ℕ
  pub target_id : ℕ
  pub status : RunStatus
  pub result_object_key : String
  pub result_sha256 : String
  pub input_bytes : ℕ
  pub output_bytes : ℕ
  pub wall_ms : F
  pub inference_ms : F
  pub avg_watts : F
  pub energy_joules : F
  pub power_source : String
  pub simulation_model_version : String
  pub data_reduction_factor : F
  pub downlink_saved_bytes : ℕ
  pub downlink_saved_seconds : F
  pub cost_per_run_inr : F
  pub completed_at : ℕ

-- Every table that the modelled handlers read or write, rows in the order of their insertion.
pub record Tables (F : Type 0) : Type 0 where
  pub datasets : List Dataset
  pub observations : List Observation
  pub workloads : List Workload
  pub targets : List (ExecutionTarget F)
  pub pairs : List (BenchmarkPair F)
  pub runs : List (BenchmarkRun F)

-- `select(Dataset).where(Dataset.source == source, Dataset.external_id == external_id)`
abbrev pub find_dataset : String → String → List Dataset → Option Dataset
find_dataset source external_id [] = none
find_dataset source external_id (d ∷ ds) =
    if str_eq d.source source && str_eq d.external_id external_id
    then some d
    else find_dataset source external_id ds
