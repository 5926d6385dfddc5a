-- ===== src/Sentinel2.antt =====
-- services/api/aries_api/sentinel2_ingest.py, with `_lock_ingestion`, `_matching` and `_result` of
-- services/api/aries_api/ingest.py. The crop itself is read by rasterio and GDAL, or from a file.

pub mod Errors
pub mod Serving
mod Tests
use aries_space.Base.{
  ℕ, Bool, true, false, not, ◌||◌, String, ◌<>◌, Option, none, some, List, length, str_eq, ◌==◌,
  if◌then◌else◌,
}
use aries_space.Base.Int.{ℤ}
use aries_space.Exn.{Exn, is_not_found, is_sqlalchemy_error, ingest_unavailable, key_error}
use aries_space.Exec.{
  Exec, pure, raise, raise_if, or_raise, gets, modify, try_except, try_else, ◌>>=◌, ◌>>◌,
}
use aries_space.Json.{Json}
use aries_space.Models.{Dataset, Tables, find_dataset}
use aries_space.Backend.{select, Backend, Bytes, Runtime}
use aries_space.Storage.{ObjectInfo, minio_raw_bucket, put, stat, delete}
use aries_space.Ingest.{IngestResult, result, add_dataset, matching, stat_matching, lock_ingestion}
use aries_space.Benchmarks.Registry.{aoi_ghrce_agricultural, aoi_coastal_port}

pub record Window : Type 0 where
  pub col_off : ℕ
  pub row_off : ℕ
  pub width : ℕ
  pub height : ℕ

pub record SceneConfig : Type 0 where
  pub aoi_id : ℕ
  pub aoi_name : String
  pub item_id : String
  pub band_hrefs : List String
  pub window : Window
  pub observed_at : ℕ
  pub fixture_path : Option String

-- The settings of one scene in services/api/aries_api/config.py.
pub record SceneSettings : Type 0 where
  pub item_id : String
  pub band_hrefs : List String
  pub window : Window
  pub observed_at : ℕ
  pub fixture_path : Option String

abbrev scene_of : ℕ → String → SceneSettings → SceneConfig
scene_of aoi_id aoi_name s = record {
  aoi_id = aoi_id;
  aoi_name = aoi_name;
  item_id = s.item_id;
  band_hrefs = s.band_hrefs;
  window = s.window;
  observed_at = s.observed_at;
  fixture_path = s.fixture_path;
}

-- `_scene_registry()[aoi_id]`; a key that is not there is a `KeyError`.
unfoldable pub scene_registry : SceneSettings → SceneSettings → ℕ → Option SceneConfig
scene_registry agricultural coastal aoi_id =
    if aoi_id == aoi_ghrce_agricultural
    then some (scene_of aoi_ghrce_agricultural "ghrce-agricultural" agricultural)
    else if aoi_id == aoi_coastal_port
    then some (scene_of aoi_coastal_port "coastal-port" coastal)
    else none

-- The handlers of the first read.
abbrev pub unverified : Exn → Exn
unverified e =
    if is_not_found e
    then ingest_unavailable "Dataset object is missing"
    else ingest_unavailable "Dataset object could not be verified"

module _ {F : Type 0} (B : Backend (Tables F)) (R : Runtime Json ℤ) (show : ℕ → String) where
  open B use {World}

  -- `_read_crop_live` and `_read_crop_from_fixture` are parameters here.
  unfoldable pub fetch_sentinel2_crop :
      (SceneConfig → Exec World Bytes)
      → (String → Exec World Bytes)
      → (ℕ → Option SceneConfig)
      → ℕ
      → Exec World Bytes
  fetch_sentinel2_crop read_crop_live read_crop_from_fixture registry aoi_id = do
    scene ← or_raise (registry aoi_id) key_error
    elim scene.fixture_path [
      | some path ↦ read_crop_from_fixture path
      | none ↦ try_except (read_crop_live scene) (λ _. do
        modify (
            B.log_error
              ("sentinel2_fetch_failed aoi_id=" <> show aoi_id <> " item=" <> scene.item_id))
        raise (ingest_unavailable "Sentinel-2 crop is unavailable"))
    ]

  abbrev pub window_id : Window → String
  window_id w =
      show w.col_off <> "_" <> show w.row_off <> "_" <> show w.width <> "_" <> show w.height

  abbrev pub external_id_of : SceneConfig → String
  external_id_of scene = scene.item_id <> ":" <> window_id scene.window

  -- `external_id.split(':', 1)[1]` is the part after the first colon, here the window's own as long as
  -- no item id has a colon.
  abbrev pub sentinel2_key : SceneConfig → (String → String) → String
  sentinel2_key scene after_colon =
      "sentinel2/" <> scene.item_id <> "/" <> after_colon (external_id_of scene) <> ".tif"

  unfoldable pub verify_existing_crop : Dataset → String → Bytes → String → Exec World IngestResult
  unfolding stat_matching result
  verify_existing_crop existing key payload checksum = do
    object_matches ←
        try_except (stat_matching B R existing.object_key existing.size_bytes existing.sha256)
          (λ e. raise (unverified e))
    raise_if
        (not (str_eq existing.object_key key)
          || not (existing.size_bytes == length payload)
          || not (str_eq existing.sha256 checksum)
          || not object_matches)
        (ingest_unavailable "Dataset object checksum or size differs")
    pure (result existing false)

  unfoldable pub upload_crop : String → Bytes → String → Exec World Bool
  unfolding put
  upload_crop key payload checksum =
      try_else (put B minio_raw_bucket key payload checksum)
        (λ _. raise (ingest_unavailable "Object upload failed")) (λ _. pure true)

  unfoldable pub accept_present_crop : String → Bytes → String → ObjectInfo → Exec World Bool
  unfolding matching
  accept_present_crop key payload checksum info = do
    object_matches ←
        try_except (matching B R minio_raw_bucket key info (length payload) checksum)
          (λ _. raise (ingest_unavailable "Existing object could not be verified"))
    raise_if (not object_matches) (ingest_unavailable "Existing object checksum or size differs")
    pure false

  unfoldable pub ensure_crop : String → Bytes → String → Exec World Bool
  unfolding stat upload_crop accept_present_crop
  ensure_crop key payload checksum =
      try_else (stat B minio_raw_bucket key)
        (λ e.
          if is_not_found e
          then upload_crop key payload checksum
          else raise (ingest_unavailable "Object lookup failed"))
        (accept_present_crop key payload checksum)

  -- A failed removal is only logged here.
  unfoldable pub discard_crop : Bool → String → Exec World (Unit {0})
  unfolding delete
  discard_crop false key = pure tt
  discard_crop true key =
      try_except (delete B minio_raw_bucket key)
        (λ _. modify (B.log_error ("orphan_object bucket=" <> minio_raw_bucket <> " key=" <> key)))

  unfoldable pub on_crop_commit_error : Bool → String → Exn → Exec World (Unit {0})
  unfolding discard_crop
  on_crop_commit_error object_created key e =
      if is_sqlalchemy_error e
      then (do
        modify B.rollback
        discard_crop object_created key
        raise (ingest_unavailable "Database commit failed"))
      else raise e

  unfoldable pub record_crop : Dataset → Bool → Exec World IngestResult
  unfolding on_crop_commit_error result
  record_crop dataset object_created = do
    modify (B.write (add_dataset dataset))
    try_except (do B.flush; B.commit) (on_crop_commit_error object_created dataset.object_key)
    pure (result dataset true)

  abbrev pub new_crop : SceneConfig → String → Bytes → ℕ → ℕ → Dataset
  new_crop scene key payload ingested_at id = record {
    id = id;
    source = "sentinel2";
    external_id = external_id_of scene;
    observed_at = scene.observed_at;
    size_bytes = length payload;
    object_key = key;
    sha256 = R.sha256 payload;
    ingested_at = ingested_at;
    satellite_norad_id = none;
    aoi_id = some scene.aoi_id;
  }

  unfoldable pub ingest_new_crop : SceneConfig → String → Bytes → Exec World IngestResult
  unfolding ensure_crop record_crop
  ingest_new_crop scene key payload = do
    object_created ← ensure_crop key payload (R.sha256 payload)
    ingested_at ← gets B.now
    id ← gets B.next_id
    record_crop (new_crop scene key payload ingested_at id) object_created

  unfoldable pub ingest_sentinel2_crop :
      (String → String) → (ℕ → Option SceneConfig) → Bytes → ℕ → Exec World IngestResult
  unfolding lock_ingestion verify_existing_crop ingest_new_crop
  ingest_sentinel2_crop after_colon registry payload aoi_id = do
    scene ← or_raise (registry aoi_id) key_error
    let key = sentinel2_key scene after_colon
    lock_ingestion B R "sentinel2" (external_id_of scene)
    existing ← select B (λ t. find_dataset "sentinel2" (external_id_of scene) t.datasets)
    elim existing [
      | some dataset ↦ verify_existing_crop dataset key payload (R.sha256 payload)
      | none ↦ ingest_new_crop scene key payload
    ]
