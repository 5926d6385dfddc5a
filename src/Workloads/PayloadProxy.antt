-- ===== src/Workloads/PayloadProxy.antt =====
-- services/api/aries_api/workloads/satnogs_payload_proxy.py. A score is 0.8 times a number of fifths
-- and 0.2 times a number of twenty-thousandths, so it is a whole number of hundred-thousandths, and
-- so is the threshold: the rounding to six digits takes Python's float to the one nearest to that
-- number, and scores are written here as those numbers. The ratio is in tenths likewise.
pub mod Anomaly
use aries_space.Base.{
  ℕ, suc, ◌+◌, ◌-◌, ◌*◌, ◌<>◌, Bool, true, false, not, ◌||◌, String, List, [], ◌∷◌, length, count,
  min, leb, if◌then◌else◌,
}
use aries_space.Base.Int.{pos}
use aries_space.Json.{Json, Fields, null, bool, int, float, text, obj, dict, get, py_or, truthy}
use aries_space.Exec.{Result, ok, err}
use aries_space.Exn.{value_error}
use aries_space.Backend.{Bytes}

abbrev pub workload_slug : String
workload_slug = "satnogs-payload-anomaly-proxy"

abbrev pub detector_version : String
detector_version = "payload-proxy-v1"

-- 0.65
abbrev pub anomaly_threshold : ℕ
anomaly_threshold = 65000

pub record Features : Type 0 where
  pub payload_bytes : ℕ
  pub has_demoddata : Bool
  pub has_waterfall : Bool
  pub has_audio : Bool
  pub has_frequency : Bool
  pub has_station : Bool
  pub missing_field_ratio : ℕ

pub record ProxyResult : Type 0 where
  pub detector_version : String
  pub score : ℕ
  pub anomaly : Bool
  pub features : Features
  pub input_bytes : ℕ

abbrev limitations : String
limitations = "Payload/metadata proxy; not decoded-frame telemetry anomaly detection."

abbrev pub features_json : Features → Json
features_json f = dict (
    ("payload_bytes", int (pos f.payload_bytes))
    ∷ ("has_demoddata", bool f.has_demoddata)
    ∷ ("has_waterfall", bool f.has_waterfall)
    ∷ ("has_audio", bool f.has_audio)
    ∷ ("has_frequency", bool f.has_frequency)
    ∷ ("has_station", bool f.has_station)
    ∷ ("missing_field_ratio", float (pos f.missing_field_ratio) 1)
    ∷ [])

unfoldable pub payload : ProxyResult → Json
payload r = dict (
    ("workload", text workload_slug)
    ∷ ("detector_version", text r.detector_version)
    ∷ ("score", float (pos r.score) 5)
    ∷ ("anomaly", bool r.anomaly)
    ∷ ("features", features_json r.features)
    ∷ ("input_bytes", int (pos r.input_bytes))
    ∷ ("limitations", text limitations)
    ∷ [])

abbrev pub is_present : Json → Bool
is_present null = false
is_present _ = true

-- The five fields that a payload is looked through for.
unfoldable pub found_fields : Fields → List Bool
found_fields raw =
    truthy (get "demoddata" raw)
    ∷ truthy (get "waterfall" raw)
    ∷ truthy (py_or (get "archive_url" raw) (get "audio_url" raw))
    ∷ is_present (get "frequency" raw)
    ∷ (is_present (get "station_id" raw) || is_present (get "ground_station" raw))
    ∷ []

unfoldable pub score_of : ℕ → ℕ → ℕ
score_of found payload_size = 16000 * (5 - found) + min payload_size 20000

unfoldable pub assess : Fields → ℕ → ProxyResult
unfolding found_fields score_of
assess raw payload_size =
    let found = count (λ b. b) (found_fields raw) in
    let score = score_of found payload_size in
    record {
      detector_version = detector_version;
      score = score;
      anomaly = leb anomaly_threshold score;
      features = record {
        payload_bytes = payload_size;
        has_demoddata = truthy (get "demoddata" raw);
        has_waterfall = truthy (get "waterfall" raw);
        has_audio = truthy (py_or (get "archive_url" raw) (get "audio_url" raw));
        has_frequency = is_present (get "frequency" raw);
        has_station = is_present (get "station_id" raw) || is_present (get "ground_station" raw);
        missing_field_ratio = 2 * (5 - found);
      };
      input_bytes = payload_size;
    }

-- `loads` is `json.loads`.
unfoldable pub run : (Bytes → Result Json) → Bytes → Result ProxyResult
unfolding assess
run loads bytes = elim (loads bytes) [
  | err e ↦ err e
  | ok (obj raw) ↦ ok (assess raw (length bytes))
  | ok _ ↦ err value_error
]
