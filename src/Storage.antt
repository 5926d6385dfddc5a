-- ===== src/Storage.antt =====
-- services/api/aries_api/storage.py: `ObjectStore` over the client.
use aries_space.Base.{ℕ, Bool, String, Option, List, [], ◌∷◌, str_eq, ◌||◌, if◌then◌else◌}
use aries_space.Exn.{Exn, object_not_found, s3_error}
use aries_space.Exec.{Exec, pure, raise, ◌>>=◌, ◌>>◌, try_except}
use aries_space.Backend.{Backend, Bytes}

pub record ObjectInfo : Type 0 where
  pub size_bytes : ℕ
  pub sha256 : Option String

-- config.py
abbrev pub minio_raw_bucket : String
minio_raw_bucket = "raw"

abbrev pub minio_buckets : List String
minio_buckets = minio_raw_bucket ∷ "processed" ∷ "results" ∷ []

abbrev is_missing_code : String → Bool
is_missing_code c = str_eq c "NoSuchKey" || str_eq c "NoSuchObject" || str_eq c "NoSuchBucket"

-- The handler of `stat`: a missing key or bucket is an error of the program's own.
abbrev pub stat_error : String → Exn → Exn
stat_error key (s3_error c) = if is_missing_code c then object_not_found key else s3_error c
stat_error key e = e

module _ {T : Type 0} (B : Backend T) where
  open B use {World}

  make_missing : List String → Exec World (Unit {0})
  make_missing [] = pure tt
  make_missing (bucket ∷ rest) = do
    there ← B.bucket_exists bucket
    if there then pure tt else B.make_bucket bucket
    make_missing rest

  unfoldable pub ensure_buckets : Exec World (Unit {0})
  unfolding make_missing
  ensure_buckets = make_missing minio_buckets

  unfoldable pub check : Exec World (Unit {0})
  check = do there ← B.bucket_exists minio_raw_bucket; pure tt

  unfoldable pub put : String → String → Bytes → String → Exec World (Unit {0})
  put bucket key payload sha256 = B.put_object bucket key payload sha256

  unfoldable pub stat : String → String → Exec World ObjectInfo
  stat bucket key = do
    found ← try_except (B.stat_object bucket key) (λ e. raise (stat_error key e))
    pure (record { size_bytes = found.size; sha256 = found.metadata_sha256 })

  unfoldable pub delete : String → String → Exec World (Unit {0})
  delete bucket key = B.remove_object bucket key

  unfoldable pub get : String → String → Exec World Bytes
  get bucket key = B.get_object bucket key
