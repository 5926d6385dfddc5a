-- ===== src/Status/Tests.antt =====
-- The theorem on services/api/aries_api/status.py at two observations.
use aries_space.Base.{ℕ, ◌+◌, count, leb, length, ◌≡◌, refl, none, List, [], ◌∷◌}
use aries_space.Base.Int.{pos}
use aries_space.Json.{Json}
use aries_space.Models.{Observation}
use aries_space.Status.{IsLast, compute_status, compute_status-IsLast}

abbrev observation : ℕ → Observation
observation t = record {
  id = t;
  dataset_id = t;
  satnogs_observation_id = pos t;
  satellite_id = pos 3;
  station_id = Json.null;
  timestamp = t;
  frequency = Json.null;
  signal_quality = Json.null;
  waterfall_url = Json.null;
  audio_url = Json.null;
  decoded_data = none;
  ingested_at = t;
}

abbrev observations : List Observation
observations = observation 5 ∷ observation 100000 ∷ []

counted : (compute_status 100001 observations).observations_ingested_last_24h ≡ 1
unfolding compute_status
counted = refl

compute_status-IsLast_example :
    ((compute_status 100001 observations).observations_ingested_last_24h
      ≡ count (λ o. leb 100001 (o.ingested_at + 86400)) observations)
    × ((compute_status 100001 observations).observations_total ≡ length observations)
    × IsLast (compute_status 100001 observations).last_successful_ingestion observations
compute_status-IsLast_example = compute_status-IsLast 100001 observations
