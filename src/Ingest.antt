-- ===== src/Ingest.antt =====
-- services/api/aries_api/ingest.py: a SatNOGS observation becomes one object of the raw bucket and
-- one row of `datasets` and `observations`.
pub mod Objects
pub mod Upload
pub mod Commit
pub mod Preserves
pub mod Correct
mod Tests
use aries_space.Base.{
  ℕ, Bool, true, false, not, ◌||◌, ◌&&◌, String, ◌<>◌, Option, none, some, List, [], ◌∷◌, ◌++◌,
  length, str_eq, ◌==◌, if◌then◌else◌,
}
use aries_space.Base.Int.{ℤ, eq_ℤ}
use aries_space.Exn.{
  Exn, ingest_conflict, ingest_unavailable, orphan_object, is_not_found, is_timeout,
  is_sqlalchemy_error,
}
use aries_space.Exec.{
  Exec, pure, raise, lift, gets, modify, raise_if, ◌>>=◌, ◌>>◌, try_except, try_else,
}
use aries_space.Json.{Json, Fields, obj}
use aries_space.Models.{Dataset, Observation, Tables, find_dataset}
use aries_space.Backend.{select, Backend, Runtime, Bytes}
use aries_space.Storage.{ObjectInfo, minio_raw_bucket, stat, put, get, delete}
use aries_space.Normalize.{NormalizedObservation, normalize_observation}

pub record IngestResult : Type 0 where
  pub dataset_id : ℕ
  pub external_id : String
  pub object_key : String
  pub size_bytes : ℕ
  pub sha256 : String
  pub created : Bool

unfoldable pub result : Dataset → Bool → IngestResult
result dataset created = record {
  dataset_id = dataset.id;
  external_id = dataset.external_id;
  object_key = dataset.object_key;
  size_bytes = dataset.size_bytes;
  sha256 = dataset.sha256;
  created = created;
}

abbrev pub add_dataset : {F : Type 0} → Dataset → Tables F → Tables F
add_dataset d t = record t { datasets = t.datasets ++ d ∷ [] }

abbrev pub add_observation : {F : Type 0} → Observation → Tables F → Tables F
add_observation o t = record t { observations = t.observations ++ o ∷ [] }

module _ {F : Type 0} (B : Backend (Tables F)) (R : Runtime Json ℤ) where
  open B use {World}

  -- `hmac.compare_digest` on two hex digests is equality.
  unfoldable pub matching : String → String → ObjectInfo → ℕ → String → Exec World Bool
  unfolding get
  matching bucket key info size_bytes sha256 =
      if info.size_bytes == size_bytes
      then (do stored ← get B bucket key; pure (str_eq (R.sha256 stored) sha256))
      else pure false

  -- The two reads that the handlers below guard together.
  unfoldable pub stat_matching : String → ℕ → String → Exec World Bool
  unfolding stat matching
  stat_matching key size_bytes sha256 = do
    info ← stat B minio_raw_bucket key
    matching minio_raw_bucket key info size_bytes sha256

  unfoldable pub lock_ingestion : String → String → Exec World (Unit {0})
  lock_ingestion source external_id =
      if B.is_postgresql then B.advisory_lock (source <> ":" <> external_id) else pure tt

  abbrev existing_error : Exn → Exn
  existing_error e =
      if is_not_found e
      then ingest_conflict "Dataset object is missing"
      else ingest_unavailable "Dataset object could not be verified"

  -- The branch of a dataset that is known: its object and the new payload have to agree with it.
  unfoldable pub verify_existing : Dataset → String → Bytes → String → Exec World IngestResult
  unfolding stat_matching result
  verify_existing existing key payload checksum = do
    object_matches ←
        try_except (stat_matching existing.object_key existing.size_bytes existing.sha256)
          (λ e. raise (existing_error e))
    raise_if
        (not (str_eq existing.object_key key)
          || not (existing.size_bytes == length payload)
          || not (str_eq existing.sha256 checksum)
          || not object_matches)
        (ingest_conflict "Dataset object checksum or size differs")
    pure (result existing false)

  -- After an upload that timed out the object may be there all the same.
  unfoldable pub verify_after_timeout : String → Bytes → String → Exec World (Unit {0})
  unfolding stat_matching
  verify_after_timeout key payload checksum = do
    object_matches ← try_except (stat_matching key (length payload) checksum) (λ e. raise (
        if is_not_found e
        then ingest_unavailable "Object upload timed out"
        else ingest_unavailable "Object could not be verified after upload timeout"))
    raise_if (not object_matches) (ingest_conflict "Object differs after upload timeout")

  -- `object_created`: whether this call has put the object and may take it away again.
  unfoldable pub upload : String → Bytes → String → Exec World Bool
  unfolding put verify_after_timeout
  upload key payload checksum =
      try_else (put B minio_raw_bucket key payload checksum)
        (λ e.
          if is_timeout e
          then (do verify_after_timeout key payload checksum; pure false)
          else raise (ingest_unavailable "Object upload failed"))
        (λ _. pure true)

  -- An object that is there already has to be the payload.
  unfoldable pub accept_present : String → Bytes → String → ObjectInfo → Exec World Bool
  unfolding matching
  accept_present key payload checksum info = do
    object_matches ←
        try_except (matching minio_raw_bucket key info (length payload) checksum)
          (λ _. raise (ingest_unavailable "Existing object could not be verified"))
    raise_if (not object_matches) (ingest_conflict "Existing object checksum or size differs")
    pure false

  unfoldable pub ensure_object : String → Bytes → String → Exec World Bool
  unfolding stat upload accept_present
  ensure_object key payload checksum =
      try_else (stat B minio_raw_bucket key)
        (λ e.
          if is_not_found e
          then upload key payload checksum
          else raise (ingest_unavailable "Object lookup failed"))
        (accept_present key payload checksum)

  -- After a failed commit an object that this call has put is taken away again.
  unfoldable pub discard_object : Bool → String → Exec World (Unit {0})
  unfolding delete
  discard_object false key = pure tt
  discard_object true key = try_except (delete B minio_raw_bucket key) (λ _. do
    modify (B.log_error ("orphan_object bucket=" <> minio_raw_bucket <> " key=" <> key))
    raise (orphan_object "Database commit failed and object cleanup failed"))

  unfoldable pub on_commit_error : Bool → String → Exn → Exec World (Unit {0})
  unfolding discard_object
  on_commit_error object_created key e =
      if is_sqlalchemy_error e
      then (do
        modify B.rollback
        discard_object object_created key
        raise (ingest_unavailable "Database commit failed"))
      else raise e

  abbrev pub observation_row : ℕ → ℕ → ℕ → NormalizedObservation → Observation
  observation_row id dataset_id ingested_at n = record {
    id = id;
    dataset_id = dataset_id;
    satnogs_observation_id = n.satnogs_observation_id;
    satellite_id = n.satellite_id;
    station_id = n.station_id;
    timestamp = n.timestamp;
    frequency = n.frequency;
    signal_quality = n.signal_quality;
    waterfall_url = n.waterfall_url;
    audio_url = n.audio_url;
    decoded_data = n.decoded_data;
    ingested_at = ingested_at;
  }

  unfoldable pub record_dataset : Dataset → NormalizedObservation → Bool → Exec World IngestResult
  unfolding on_commit_error result
  record_dataset dataset normalized object_created = do
    modify (B.write (add_dataset dataset))
    try_except
        (do
          B.flush
          id ← gets B.next_id
          modify (
              B.write
                (add_observation (observation_row id dataset.id dataset.ingested_at normalized)))
          B.commit)
        (on_commit_error object_created dataset.object_key)
    pure (result dataset true)

  abbrev pub satnogs_key : ℤ → String → String
  satnogs_key norad_id external_id =
      "satnogs/" <> R.str_of norad_id <> "/" <> external_id <> ".json"

  -- The branch of an observation that is new.
  unfoldable pub ingest_new : NormalizedObservation → ℤ → String → Bytes → Exec World IngestResult
  unfolding ensure_object record_dataset
  ingest_new normalized norad_id external_id payload = do
    let key = satnogs_key norad_id external_id
    let checksum = R.sha256 payload
    object_created ← ensure_object key payload checksum
    ingested_at ← gets B.now
    id ← gets B.next_id
    record_dataset
        (record {
          id = id;
          source = "satnogs";
          external_id = external_id;
          observed_at = normalized.timestamp;
          size_bytes = length payload;
          object_key = key;
          sha256 = checksum;
          ingested_at = ingested_at;
          satellite_norad_id = some norad_id;
          aoi_id = none;
        })
        normalized object_created

  unfoldable pub ingest_satnogs_observation : Fields → ℤ → Exec World IngestResult
  ingest_satnogs_observation raw norad_id = do
    normalized ← lift (normalize_observation R raw)
    raise_if (not (eq_ℤ normalized.satellite_id norad_id))
        (ingest_conflict "Observation NORAD ID does not match request")
    let external_id = R.str_of normalized.satnogs_observation_id
    let payload = R.dumps (obj raw)
    lock_ingestion "satnogs" external_id
    existing ← select B (λ t. find_dataset "satnogs" external_id t.datasets)
    elim existing [
      | some dataset ↦
          verify_existing dataset (satnogs_key norad_id external_id) payload (R.sha256 payload)
      | none ↦ ingest_new normalized norad_id external_id payload
    ]
