-- ===== src/Sentinel2/Errors.antt =====
-- services/api/aries_api/sentinel2_ingest.py: the exceptions that leave `ingest_sentinel2_crop`.
use aries_space.Base.{
  ℕ, String, ◌<>◌, Bool, true, false, not, ◌||◌, Option, none, some, refl, str_eq, ◌==◌, length,
}
use aries_space.Base.Int.{ℤ}
use aries_space.Exec.{Exec, Result, gets, modify, raise, raise_if, or_raise, try_except, ◌>>◌}
use aries_space.Exn.{key_error, ingest_unavailable, is_not_found}
use aries_space.Json.{Json}
use aries_space.Models.{Tables, Dataset, find_dataset}
use aries_space.Backend.{Backend, Bytes, Runtime, select}
use aries_space.Backend.Reads.{
  Allowed, Allows, Reads, >>=-Allows, FailsWith-Allows, pure-Reads, or_raise-Reads, if-Reads,
  select-Reads, advisory_lock-Reads,
}
use aries_space.Backend.Laws.{IsLawful}
use aries_space.Storage.{minio_raw_bucket, stat, put, delete}
use aries_space.Ingest.{IngestResult, add_dataset, result, matching, stat_matching, lock_ingestion}
use aries_space.Sentinel2.{
  SceneConfig, verify_existing_crop, upload_crop, accept_present_crop, ensure_crop, discard_crop,
  on_crop_commit_error, record_crop, new_crop, ingest_new_crop, ingest_sentinel2_crop,
  sentinel2_key, external_id_of, unverified,
}
use aries_space.Sentinel2.Serving.{
  is_crop_error, IsServing, >>=-IsServing, pure-IsServing, gets-IsServing, modify-IsServing,
  raise_if-IsServing, try_except-IsServing, try_else-IsServing, raise-IsServing, if-IsServing,
  unverified-is_crop_error, only, both,
}

module _ {F : Type 0} (B : Backend (Tables F)) (R : Runtime Json ℤ) (show : ℕ → String)
    (L : IsLawful B) where
  open B use {World}

  verify_existing_crop-IsServing :
      (existing : Dataset) (key : String) (payload : Bytes) (checksum : String)
      → IsServing (verify_existing_crop B R show existing key payload checksum)
  unfolding verify_existing_crop
  verify_existing_crop-IsServing existing key payload checksum =
      >>=-IsServing
        (try_except (stat_matching B R existing.object_key existing.size_bytes existing.sha256)
          (λ e. raise (unverified e)))
        _
        (try_except-IsServing _ _
          (λ e. raise-IsServing (unverified e) (unverified-is_crop_error e)))
        (λ object_matches.
          >>=-IsServing
            (raise_if
              (not (str_eq existing.object_key key)
                || not (existing.size_bytes == length payload)
                || not (str_eq existing.sha256 checksum)
                || not object_matches)
              (ingest_unavailable "Dataset object checksum or size differs"))
            _ (raise_if-IsServing _ _ refl) (λ _. pure-IsServing (result existing false)))

  ensure_crop-IsServing :
      (key : String) (payload : Bytes) (checksum : String)
      → IsServing (ensure_crop B R show key payload checksum)
  unfolding ensure_crop upload_crop accept_present_crop
  ensure_crop-IsServing key payload checksum =
      try_else-IsServing (stat B minio_raw_bucket key) _ _
        (λ e.
          if-IsServing (is_not_found e) (upload_crop B R show key payload checksum)
            (raise (ingest_unavailable "Object lookup failed"))
            (try_else-IsServing (put B minio_raw_bucket key payload checksum) _ _
              (λ _. raise-IsServing _ refl) (λ _. pure-IsServing true))
            (raise-IsServing _ refl))
        (λ info.
          >>=-IsServing
            (try_except (matching B R minio_raw_bucket key info (length payload) checksum)
              (λ _. raise (ingest_unavailable "Existing object could not be verified")))
            _ (try_except-IsServing _ _ (λ _. raise-IsServing _ refl))
            (λ object_matches.
              >>=-IsServing
                (raise_if (not object_matches)
                  (ingest_unavailable "Existing object checksum or size differs"))
                _ (raise_if-IsServing _ _ refl) (λ _. pure-IsServing false)))

  discard_crop-IsServing : (c : Bool) (key : String) → IsServing (discard_crop B R show c key)
  unfolding discard_crop
  discard_crop-IsServing true key =
      try_except-IsServing (delete B minio_raw_bucket key)
        (λ _. modify (B.log_error ("orphan_object bucket=" <> minio_raw_bucket <> " key=" <> key)))
        (λ _. modify-IsServing _)
  discard_crop-IsServing false key = pure-IsServing tt

  record_crop-IsServing :
      (dataset : Dataset) (c : Bool) → IsServing (record_crop B R show dataset c)
  unfolding record_crop on_crop_commit_error
  record_crop-IsServing dataset c =
      >>=-IsServing (modify (B.write (add_dataset dataset))) _ (modify-IsServing _) (λ _.
        >>=-IsServing
          (try_except (B.flush >> B.commit) (on_crop_commit_error B R show c dataset.object_key)) _
          (record {
            served = λ w.
                only ((B.flush >> B.commit) w) (on_crop_commit_error B R show c dataset.object_key)
                  w (both w (B.flush w) B.commit (L.flush-error w) L.commit-error)
                  (>>=-IsServing (modify B.rollback) _ (modify-IsServing _) (λ _.
                    >>=-IsServing (discard_crop B R show c dataset.object_key) _
                      (discard_crop-IsServing c dataset.object_key)
                      (λ _. raise-IsServing (ingest_unavailable "Database commit failed") refl)));
          })
          (λ _. pure-IsServing (result dataset true)))

  ingest_new_crop-IsServing :
      (scene : SceneConfig) (key : String) (payload : Bytes)
      → IsServing (ingest_new_crop B R show scene key payload)
  unfolding ingest_new_crop
  ingest_new_crop-IsServing scene key payload =
      >>=-IsServing (ensure_crop B R show key payload (R.sha256 payload)) _
        (ensure_crop-IsServing key payload (R.sha256 payload))
        (λ c. >>=-IsServing (gets B.now) _ (gets-IsServing B.now) (λ at.
          >>=-IsServing (gets B.next_id) _ (gets-IsServing B.next_id)
            (λ id. record_crop-IsServing (new_crop B R show scene key payload at id) c)))

  known_or_new-IsServing :
      (scene : SceneConfig) (key : String) (payload : Bytes) (existing : Option Dataset)
      → IsServing (elim existing as (λ _. Exec World IngestResult) [
        | some dataset ↦ verify_existing_crop B R show dataset key payload (R.sha256 payload)
        | none ↦ ingest_new_crop B R show scene key payload
      ])
  known_or_new-IsServing scene key payload none = ingest_new_crop-IsServing scene key payload
  known_or_new-IsServing scene key payload (some dataset) =
      verify_existing_crop-IsServing dataset key payload (R.sha256 payload)

  -- A `KeyError` or an `IngestUnavailableError`, or the `SQLAlchemyError` of the lock or the query
  -- before anything has changed.
  abbrev pub IsServedFrom : {A : Type 0} → World → Result A × World → Type 0
  IsServedFrom = Allowed B is_crop_error

  lock_ingestion-Reads : (s e : String) → Reads B is_crop_error (lock_ingestion B R s e)
  unfolding lock_ingestion
  lock_ingestion-Reads s e =
      if-Reads B _ B.is_postgresql _ _ (advisory_lock-Reads B _ L (s <> ":" <> e))
        (pure-Reads B _ tt)

  ingest_sentinel2_crop-Allows :
      (after_colon : String → String) (registry : ℕ → Option SceneConfig) (payload : Bytes)
      (aoi_id : ℕ)
      → Allows B is_crop_error (ingest_sentinel2_crop B R show after_colon registry payload aoi_id)
  unfolding ingest_sentinel2_crop
  ingest_sentinel2_crop-Allows after_colon registry payload aoi_id =
      >>=-Allows B _ (or_raise (registry aoi_id) key_error) _
        (or_raise-Reads B _ (registry aoi_id) _ refl)
        (λ scene.
          let key = sentinel2_key B R show scene after_colon in
          let known : Tables F → Option Dataset =
            λ t. find_dataset "sentinel2" (external_id_of B R show scene) t.datasets in
          >>=-Allows B _ (lock_ingestion B R "sentinel2" (external_id_of B R show scene)) _
            (lock_ingestion-Reads "sentinel2" (external_id_of B R show scene))
            (λ _.
              >>=-Allows B _ (select B known)
                (λ existing. elim existing [
                  | some dataset ↦
                      verify_existing_crop B R show dataset key payload (R.sha256 payload)
                  | none ↦ ingest_new_crop B R show scene key payload
                ])
                (select-Reads B _ L known)
                (λ existing.
                  FailsWith-Allows B _ _
                    (known_or_new-IsServing scene key payload existing).served)))

  -- For every lawful store and session: an exception that leaves `ingest_sentinel2_crop` is a
  -- `KeyError` or an `IngestUnavailableError`, or a SQLAlchemyError, and then no object and no table has changed.
  pub ingest_sentinel2_crop-IsServed :
      (after_colon : String → String) (registry : ℕ → Option SceneConfig) (payload : Bytes)
      (aoi_id : ℕ) (w : World)
      → IsServedFrom w (ingest_sentinel2_crop B R show after_colon registry payload aoi_id w)
  ingest_sentinel2_crop-IsServed after_colon registry payload aoi_id w =
      (ingest_sentinel2_crop-Allows after_colon registry payload aoi_id).allowed w
