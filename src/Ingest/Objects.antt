-- ===== src/Ingest/Objects.antt =====
-- What the object checks of services/api/aries_api/ingest.py establish.
use aries_space.Base.{
  ℕ, Bool, true, false, ◌≡◌, refl, ap, ◌∙◌, ◌&&◌, String, Option, none, some, length, str_eq,
  eq_iff, arith, Option-cases, inl, inr,
}
use aries_space.Base.Int.{ℤ}
use aries_space.Exec.{Result, ok, err, Done, Result-cases}
use aries_space.Json.{Json}
use aries_space.Models.{Tables}
use aries_space.Backend.{Backend, Runtime, Bytes, ObjectStat}
use aries_space.Backend.Laws.{IsLawful, IsQuiet, Sized}
use aries_space.Storage.{ObjectInfo, minio_raw_bucket, stat, stat_error}
use aries_space.Exn.{Exn, object_not_found, s3_error, is_not_found}
use aries_space.Ingest.{matching, stat_matching, verify_after_timeout, accept_present}

-- The object is there, with this size and this digest.
abbrev pub Verified : (Bytes → String) → ℕ → String → Option Bytes → Type 0
Verified sha256 size digest none = ⊥
Verified sha256 size digest (some p) = (length p ≡ size) × (sha256 p ≡ digest)

abbrev pub Fits : Option Bytes → Result ObjectInfo → Type 0
Fits none (err _) = Unit
Fits none (ok i) = ⊥
Fits (some p) (ok i) = length p ≡ i.size_bytes
Fits (some p) (err e) = is_not_found e ≡ false

not_found-stat_error :
    (k : String) (e : Exn)
    → is_not_found (stat_error "" e) ≡ false
    → is_not_found (stat_error k e) ≡ false
not_found-stat_error k (s3_error c) h = ground arith
not_found-stat_error k (object_not_found s) h = cc
not_found-stat_error k _ h = refl

abbrev stat_value : String → Result ObjectStat → Result ObjectInfo
stat_value k (ok i) = ok (record { size_bytes = i.size; sha256 = i.metadata_sha256 })
stat_value k (err e) = err (stat_error k e)

Fits-stat_value :
    (k : String) (o : Option Bytes) (r : Result ObjectStat) → Sized o r → Fits o (stat_value k r)
Fits-stat_value k none (err e) h = tt
Fits-stat_value k none (ok i) h = h
Fits-stat_value k (some p) (ok i) h = h
Fits-stat_value k (some p) (err e) h = not_found-stat_error k e h

abbrev pub Says : Result Bool → Type 0 → Type 0
Says (ok true) P = P
Says _ P = Unit

module _ {F : Type 0} (B : Backend (Tables F)) (R : Runtime Json ℤ) (L : IsLawful B) where
  open B use {World, object, pending, durable}

  pub IsQuiet-trans : (u v w : World) → IsQuiet B u v → IsQuiet B v w → IsQuiet B u w
  IsQuiet-trans u v w p q = record {
    objects = q.objects ∙ p.objects;
    tables = q.tables ∙ p.tables;
    committed = q.committed ∙ p.committed;
  }

  pub stat-IsQuiet : (b k : String) (w : World) → IsQuiet B w (stat B b k w).1
  unfolding stat
  stat-IsQuiet b k w = ground (arith, L.stat-IsQuiet b k w)

  pub stat-Fits : (b k : String) (w : World) → Fits (object w b k) (stat B b k w).0
  unfolding stat
  stat-Fits b k w =
      let value : (stat B b k w).0 ≡ stat_value k (B.stat_object b k w).0 = ground arith in
      rw value (Fits-stat_value k (object w b k) (B.stat_object b k w).0 (L.stat-Sized b k w))

  pub matching-IsQuiet :
      (b k : String) (i : ObjectInfo) (size : ℕ) (digest : String) (w : World)
      → IsQuiet B w (matching B R b k i size digest w).1
  unfolding matching
  matching-IsQuiet b k i size digest w = ground (arith, L.get-IsQuiet b k w)

  pub matching-Verified :
      (b k : String) (i : ObjectInfo) (size : ℕ) (digest : String) (w : World)
      → Fits (object w b k) (ok i)
      → Says (matching B R b k i size digest w).0 (Verified R.sha256 size digest (object w b k))
  unfolding matching
  matching-Verified b k i size digest w f = elim (Option-cases (object w b k)) [
    | inl missing ↦ ground arith
    | inr (p, there) ↦ ground (arith, L.get-Holds b k w, eq_iff (R.sha256 p) digest)
  ]

  pub stat_matching-IsQuiet :
      (k : String) (size : ℕ) (digest : String) (w : World)
      → IsQuiet B w (stat_matching B R k size digest w).1
  unfolding stat_matching
  stat_matching-IsQuiet k size digest w =
      let after = stat B minio_raw_bucket k w in
      elim (Result-cases after.0) [
        | inl (i, e) ↦ ground (
          arith,
          e,
          IsQuiet-trans w after.1 (matching B R minio_raw_bucket k i size digest after.1).1
              (stat-IsQuiet minio_raw_bucket k w)
              (matching-IsQuiet minio_raw_bucket k i size digest after.1),
        )
        | inr (x, e) ↦ ground (arith, e, stat-IsQuiet minio_raw_bucket k w)
      ]

  -- The two reads in a row: the object is the same at both.
  pub stat_matching-Verified :
      (k : String) (size : ℕ) (digest : String) (w : World)
      → Says
          (stat_matching B R k size digest w).0
          (Verified R.sha256 size digest (object w minio_raw_bucket k))
  unfolding stat_matching
  stat_matching-Verified k size digest w =
      let after = stat B minio_raw_bucket k w in
      let same = (stat-IsQuiet minio_raw_bucket k w).objects in
      elim (Result-cases after.0) [
        | inl (i, e) ↦
            let fits : Fits (object w minio_raw_bucket k) (ok i) =
              rw e at (stat-Fits minio_raw_bucket k w) in
            let says : Says (matching B R minio_raw_bucket k i size digest after.1).0
                (Verified R.sha256 size digest (object w minio_raw_bucket k)) =
              rw (← same)
                (matching-Verified minio_raw_bucket k i size digest after.1 (rw same fits)) in
            ground (arith, e, says)
        | inr (x, e) ↦ ground (arith, e)
      ]

  -- What each way to an object gives: the payload is there afterwards, nothing else has changed.
  pub record Kept (w w' : World) (k : String) : Type 0 where
    pub others :
        (b' k' : String)
        → (str_eq minio_raw_bucket b' && str_eq k k') ≡ false
        → object w' b' k' ≡ object w b' k'
    pub tables : pending w' ≡ pending w
    pub committed : durable w' ≡ durable w

  pub IsQuiet-Kept : (w w' : World) (k : String) → IsQuiet B w w' → Kept w w' k
  IsQuiet-Kept w w' k q = record {
    others = λ b' k' _. ap (λ o. o b' k') q.objects;
    tables = q.tables;
    committed = q.committed;
  }

  pub Kept-trans : (u v w : World) (k : String) → Kept u v k → Kept v w k → Kept u w k
  Kept-trans u v w k p q = record {
    others = λ b' k' n. q.others b' k' n ∙ p.others b' k' n;
    tables = q.tables ∙ p.tables;
    committed = q.committed ∙ p.committed;
  }

  pub accept_present-IsQuiet :
      (k : String) (p : Bytes) (digest : String) (i : ObjectInfo) (w : World)
      → IsQuiet B w (accept_present B R k p digest i w).1
  unfolding accept_present
  accept_present-IsQuiet k p digest i w =
      ground (arith, matching-IsQuiet minio_raw_bucket k i (length p) digest w)

  pub accept_present-Verified :
      (k : String) (p : Bytes) (digest : String) (i : ObjectInfo) (w : World)
      → Fits (object w minio_raw_bucket k) (ok i)
      → Done
          (accept_present B R k p digest i w).0
          (Verified R.sha256 (length p) digest (object w minio_raw_bucket k))
  unfolding accept_present
  accept_present-Verified k p digest i w f =
      ground (arith, matching-Verified minio_raw_bucket k i (length p) digest w f)

  pub verify_after_timeout-IsQuiet :
      (k : String) (p : Bytes) (digest : String) (w : World)
      → IsQuiet B w (verify_after_timeout B R k p digest w).1
  unfolding verify_after_timeout
  verify_after_timeout-IsQuiet k p digest w =
      ground (arith, stat_matching-IsQuiet k (length p) digest w)

  pub verify_after_timeout-Verified :
      (k : String) (p : Bytes) (digest : String) (w : World)
      → Done
          (verify_after_timeout B R k p digest w).0
          (Verified R.sha256 (length p) digest (object w minio_raw_bucket k))
  unfolding verify_after_timeout
  verify_after_timeout-Verified k p digest w =
      ground (arith, stat_matching-Verified k (length p) digest w)
