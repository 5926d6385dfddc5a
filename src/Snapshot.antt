-- ===== src/Snapshot.antt =====
-- scripts/storage_snapshot.py: datasets' objects are backed up to files, restored and verified. A
-- directory is a list of files by bucket and key; the database's rows and the client are parameters.
pub mod Saved
pub mod RoundTrip
pub mod Verified
mod Tests
use aries_space.Base.{
  ℕ, Bool, true, false, not, ◌||◌, String, ◌<>◌, Option, none, some, List, [], ◌∷◌, length, ◌==◌,
  str_eq, if◌then◌else◌,
}
use aries_space.Exn.{Exn, value_error, os_error}
use aries_space.Exec.{Result, ok, err, Exec, pure, raise, raise_if, or_raise, lift, ◌>>=◌, ◌>>◌}
use aries_space.Backend.{Backend, Bytes}

-- An entry of the manifest.
pub record Item : Type 0 where
  pub bucket : String
  pub object_key : String
  pub size_bytes : ℕ
  pub sha256 : String

-- `PurePosixPath`: whether a key is absolute, and its parts.
pub record Paths : Type 0 where
  pub is_absolute : String → Bool
  pub parts : String → List String

has_parent : List String → Bool
has_parent [] = false
has_parent (p ∷ ps) = str_eq p ".." || has_parent ps

-- The parts below the root.
unfoldable pub safe_path : Paths → String → Result (List String)
unfolding has_parent
safe_path P key =
    if P.is_absolute key || has_parent (P.parts key) then err value_error else ok (P.parts key)

unfoldable pub verify_payload : (Bytes → String) → Bytes → Item → Result (Unit {0})
verify_payload sha256 payload item =
    if not (length payload == item.size_bytes)
    then err value_error
    else if not (str_eq (sha256 payload) item.sha256)
    then err value_error
    else ok tt

abbrev pub Files : Type 0
Files = List (String × List String × Bytes)

pub same_parts : List String → List String → Bool
same_parts [] [] = true
same_parts (p ∷ ps) (q ∷ qs) = if str_eq p q then same_parts ps qs else false
same_parts _ _ = false

-- A file that is not there is an `OSError`.
unfoldable pub read_file : String → List String → Files → Option Bytes
unfolding same_parts
read_file bucket parts [] = none
read_file bucket parts ((b, ps, payload) ∷ rest) =
    let other = read_file bucket parts rest in
    if str_eq b bucket then (if same_parts ps parts then some payload else other) else other

module _ {T : Type 0} (B : Backend T) (P : Paths) (sha256 : Bytes → String) where
  open B use {World}

  -- The loop of `backup`; a later file of the same path replaces an earlier one.
  unfoldable pub backup : List Item → Files → Exec World Files
  unfolding verify_payload safe_path
  backup [] files = pure files
  backup (item ∷ items) files = do
    payload ← B.get_object item.bucket item.object_key
    lift (verify_payload sha256 payload item)
    target ← lift (safe_path P item.object_key)
    backup items ((item.bucket, target, payload) ∷ files)

  -- The loop of `verify`.
  unfoldable pub verify : List Item → Exec World (Unit {0})
  unfolding verify_payload
  verify [] = pure tt
  verify (item ∷ items) = do
    payload ← B.get_object item.bucket item.object_key
    lift (verify_payload sha256 payload item)
    verify items

  unfoldable pub restore_items : List Item → Files → Exec World (Unit {0})
  unfolding verify_payload safe_path read_file
  restore_items [] files = pure tt
  restore_items (item ∷ items) files = do
    target ← lift (safe_path P item.object_key)
    payload ← or_raise (read_file item.bucket target files) os_error
    lift (verify_payload sha256 payload item)
    there ← B.bucket_exists item.bucket
    if there then pure tt else B.make_bucket item.bucket
    B.put_object item.bucket item.object_key payload item.sha256
    restore_items items files

  unfoldable pub restore : ℕ → List Item → List Item → Files → Exec World (Unit {0})
  unfolding restore_items verify
  restore version items datasets files = do
    raise_if (not (version == 1)) value_error
    restore_items items files
    verify datasets
