-- ===== src/Ingest/Tests.antt =====
-- Runs of services/api/aries_api/ingest.py on a backend in memory, and its theorems at such runs.
use aries_space.Base.{
  ℕ, zero, suc, ◌<>◌, ◌≡◌, refl, true, false, String, none, some, [], ◌∷◌, length,
}
use aries_space.Base.Int.{ℤ, pos, negsuc}
use aries_space.Exn.{ingest_conflict, ingest_unavailable}
use aries_space.Exec.{Result, ok, err, Failed, exception}
use aries_space.Json.{Json, Fields, end, field, int, text, to_int}
use aries_space.Models.{Dataset, Tables}
use aries_space.Backend.{Bytes, Runtime}
use aries_space.Backend.Memory.{Memory, memory, memory-IsLawful, store}
use aries_space.Storage.{minio_raw_bucket}
use aries_space.Normalize.{NormalizedObservation, normalize_observation}
use aries_space.Ingest.{
  IngestResult, ingest_satnogs_observation, lock_ingestion, verify_existing, ingest_new,
  record_dataset,
}
use aries_space.Ingest.Commit.{IsClean, record_dataset_cleanup}
use aries_space.Ingest.Preserves.{Preserves}
use aries_space.Ingest.Correct.{ingest-Preserves, ingest_failed}

-- A number in strokes, and a digest that counts bytes.
strokes : ℕ → String
strokes zero = ""
strokes (suc n) = "i" <> strokes n

digest : Bytes → String
unfolding strokes
digest p = strokes (length p)

abbrev str_of : ℤ → String
str_of (pos n) = strokes n
str_of (negsuc n) = "-" <> strokes (suc n)

abbrev runtime : Runtime Json ℤ
runtime = record {
  sha256 = digest;
  dumps = λ _. 123 ∷ 125 ∷ [];
  dumps_text = λ _. "[]";
  str_of = str_of;
  read_int = λ _. none;
  fromisoformat = λ _. some 5;
}

abbrev raw : Fields
raw =
    field "id" (int (pos 2))
      (field "norad_cat_id" (int (pos 3)) (field "start" (text "2026-01-01T00:00:00Z") end))

abbrev no_rows : Tables ℕ
no_rows = record {
  datasets = [];
  observations = [];
  workloads = [];
  targets = [];
  pairs = [];
  runs = [];
}

abbrev empty : Memory (Tables ℕ)
empty = record {
  objects = λ _ _. none;
  pending = no_rows;
  durable = no_rows;
  clock = 9;
  broken = false;
}

abbrev broken : Memory (Tables ℕ)
broken = record empty { broken = true }

ingest : ℤ → Memory (Tables ℕ) → Result IngestResult × Memory (Tables ℕ)
unfolding ingest_satnogs_observation normalize_observation lock_ingestion verify_existing ingest_new
    strokes digest to_int
ingest = ingest_satnogs_observation memory runtime raw

abbrev stored : IngestResult
stored = record {
  dataset_id = 9;
  external_id = "ii";
  object_key = "satnogs/iii/ii.json";
  size_bytes = 2;
  sha256 = "ii";
  created = true;
}

first_run : (ingest (pos 3) empty).0 ≡ ok stored
unfolding ingest
first_run = refl

second_run : (ingest (pos 3) (ingest (pos 3) empty).1).0 ≡ ok (record stored { created = false })
unfolding ingest
second_run = refl

broken_run :
    ((ingest (pos 3) broken).0 ≡ err (ingest_unavailable "Database commit failed"))
    × ((ingest (pos 3) broken).1.objects "raw" "satnogs/iii/ii.json" ≡ none)
unfolding ingest
broken_run = (refl, refl)

other_satellite :
    (ingest (pos 4) empty).0 ≡ err (ingest_conflict "Observation NORAD ID does not match request")
unfolding ingest
other_satellite = refl

ingest-Preserves_example :
    Preserves memory runtime memory-IsLawful broken
      (ingest_satnogs_observation memory runtime raw (pos 3) broken).1
ingest-Preserves_example = ingest-Preserves memory runtime memory-IsLawful raw (pos 3) broken

ingest_failed_example :
    let (r, u) = ingest_satnogs_observation memory runtime raw (pos 3) broken in
    Failed r (u.durable ≡ no_rows)
ingest_failed_example = ingest_failed memory runtime memory-IsLawful raw (pos 3) broken

abbrev row : Dataset
row = record {
  id = 9;
  source = "satnogs";
  external_id = "ii";
  observed_at = 5;
  size_bytes = 2;
  object_key = "satnogs/iii/ii.json";
  sha256 = "ii";
  ingested_at = 9;
  satellite_norad_id = some (pos 3);
  aoi_id = none;
}

abbrev uploaded : Memory (Tables ℕ)
uploaded = record broken {
  objects = store "raw" "satnogs/iii/ii.json" (some (123 ∷ 125 ∷ [])) broken.objects;
}

abbrev observed : NormalizedObservation
observed = record {
  satnogs_observation_id = pos 2;
  satellite_id = pos 3;
  station_id = Json.null;
  timestamp = 5;
  frequency = Json.null;
  signal_quality = Json.null;
  waterfall_url = Json.null;
  audio_url = Json.null;
  decoded_data = none;
}

record_dataset_cleanup_example :
    let (r, u) = record_dataset memory runtime row observed true uploaded in
    IsClean true (some (123 ∷ 125 ∷ [])) (exception r) (u.objects minio_raw_bucket row.object_key)
record_dataset_cleanup_example =
    record_dataset_cleanup memory runtime memory-IsLawful row observed true uploaded
