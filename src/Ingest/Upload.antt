-- ===== src/Ingest/Upload.antt =====
-- `ensure_object`, the upload part of services/api/aries_api/ingest.py: the raw bucket holds the
-- payload whenever it returns, and it overwrites nothing.
use aries_space.Base.{true, ◌≡◌, ap, String, none, some, length, arith, Option-cases, inl, inr}
use aries_space.Base.Int.{ℤ}
use aries_space.Exec.{ok, err, Done, Result-cases}
use aries_space.Json.{Json}
use aries_space.Models.{Tables}
use aries_space.Backend.{Backend, Runtime, Bytes}
use aries_space.Backend.Laws.{IsLawful}
use aries_space.Storage.{minio_raw_bucket, stat}
use aries_space.Ingest.{verify_after_timeout, upload, accept_present, ensure_object}
use aries_space.Ingest.Objects.{
  Verified, Fits, Kept, stat-IsQuiet, stat-Fits, accept_present-IsQuiet, accept_present-Verified,
  verify_after_timeout-IsQuiet, verify_after_timeout-Verified, IsQuiet-Kept, IsQuiet-trans,
  Kept-trans,
}

module _ {F : Type 0} (B : Backend (Tables F)) (R : Runtime Json ℤ) (L : IsLawful B) where
  open B use {World, object, pending, durable}

  put-Kept :
      (k : String) (p : Bytes) (digest : String) (w : World)
      → Kept B R L w (B.put_object minio_raw_bucket k p digest w).1 k
  put-Kept k p digest w = record {
    others = L.put-others minio_raw_bucket k p digest w;
    tables = L.put-pending minio_raw_bucket k p digest w;
    committed = L.put-durable minio_raw_bucket k p digest w;
  }

  upload-Kept :
      (k : String) (p : Bytes) (digest : String) (w : World)
      → Kept B R L w (upload B R k p digest w).1 k
  unfolding upload
  upload-Kept k p digest w =
      let after = (B.put_object minio_raw_bucket k p digest w).1 in
      let waited = (verify_after_timeout B R k p digest after).1 in
      ground (
        arith,
        put-Kept k p digest w,
        Kept-trans B R L w after waited k (put-Kept k p digest w) (
            IsQuiet-Kept B R L after waited k
              (verify_after_timeout-IsQuiet B R L k p digest after)),
      )

  upload-Verified :
      (k : String) (p : Bytes) (digest : String) (w : World)
      → R.sha256 p ≡ digest
      → Done (upload B R k p digest w).0 (
          Verified R.sha256
            (length p)
            digest
            (object (upload B R k p digest w).1 minio_raw_bucket k))
  unfolding upload
  upload-Verified k p digest w d =
      let after = (B.put_object minio_raw_bucket k p digest w).1 in
      let o =
        ap (λ f. f minio_raw_bucket k)
          (verify_after_timeout-IsQuiet B R L k p digest after).objects in
      ground (
        arith,
        d,
        o,
        L.put-Written minio_raw_bucket k p digest w,
        verify_after_timeout-Verified B R L k p digest after,
      )

  pub ensure_object-Kept :
      (k : String) (p : Bytes) (digest : String) (w : World)
      → Kept B R L w (ensure_object B R k p digest w).1 k
  unfolding ensure_object
  ensure_object-Kept k p digest w =
      let after = stat B minio_raw_bucket k w in
      let quiet = stat-IsQuiet B R L minio_raw_bucket k w in
      elim (Result-cases after.0) [
        | inl (i, e) ↦
            let last = (accept_present B R k p digest i after.1).1 in
            ground (
              arith,
              e,
              IsQuiet-Kept B R L w last k (
                  IsQuiet-trans B R L w after.1 last quiet
                    (accept_present-IsQuiet B R L k p digest i after.1)),
            )
        | inr (x, e) ↦
            let last = (upload B R k p digest after.1).1 in
            ground (
              arith,
              e,
              IsQuiet-Kept B R L w after.1 k quiet,
              Kept-trans B R L w after.1 last k (IsQuiet-Kept B R L w after.1 k quiet)
                  (upload-Kept k p digest after.1),
            )
      ]

  -- When it returns, the raw bucket holds an object of the payload's size and digest under the key.
  pub ensure_object-Verified :
      (k : String) (p : Bytes) (digest : String) (w : World)
      → R.sha256 p ≡ digest
      → Done (ensure_object B R k p digest w).0 (
          Verified R.sha256
            (length p)
            digest
            (object (ensure_object B R k p digest w).1 minio_raw_bucket k))
  unfolding ensure_object
  ensure_object-Verified k p digest w d =
      let after = stat B minio_raw_bucket k w in
      let same = ap (λ f. f minio_raw_bucket k) (stat-IsQuiet B R L minio_raw_bucket k w).objects in
      elim (Result-cases after.0) [
        | inl (i, e) ↦
            let fits : Fits (object after.1 minio_raw_bucket k) (ok i) =
              rw (same, ← e) (stat-Fits B R L minio_raw_bucket k w) in
            ground (
              arith,
              e,
              accept_present-Verified B R L k p digest i after.1 fits,
              ap (λ f. f minio_raw_bucket k)
                  (accept_present-IsQuiet B R L k p digest i after.1).objects,
            )
        | inr (x, e) ↦ ground (arith, e, upload-Verified k p digest after.1 d)
      ]

  -- An object that is there beforehand is there unchanged afterwards, whatever the outcome.
  pub ensure_object-keeps :
      (k : String) (p q : Bytes) (digest : String) (w : World)
      → object w minio_raw_bucket k ≡ some q
      → object (ensure_object B R k p digest w).1 minio_raw_bucket k ≡ some q
  unfolding ensure_object
  ensure_object-keeps k p q digest w there =
      let after = stat B minio_raw_bucket k w in
      let same = ap (λ f. f minio_raw_bucket k) (stat-IsQuiet B R L minio_raw_bucket k w).objects in
      elim (Result-cases after.0) [
        | inl (i, e) ↦ ground (
          arith,
          e,
          same,
          ap (λ f. f minio_raw_bucket k)
              (accept_present-IsQuiet B R L k p digest i after.1).objects,
        )
        | inr (x, e) ↦
            let present : Fits (some q) (err x) =
              rw (there, e) at (stat-Fits B R L minio_raw_bucket k w) in
            ground (arith, e, same, present)
      ]

  -- Only an object that was not there is put.
  pub ensure_object-created :
      (k : String) (p : Bytes) (digest : String) (w : World)
      → (ensure_object B R k p digest w).0 ≡ ok true
      → object w minio_raw_bucket k ≡ none
  unfolding ensure_object accept_present
  ensure_object-created k p digest w created =
      let after = stat B minio_raw_bucket k w in
      elim (Result-cases after.0) [
        | inl (i, e) ↦ absurd (ground (arith, e))
        | inr (x, e) ↦ elim (Option-cases (object w minio_raw_bucket k)) [
          | inl gone ↦ gone
          | inr (q, there) ↦
              let present : Fits (some q) (err x) =
                rw (there, e) at (stat-Fits B R L minio_raw_bucket k w) in
              absurd (ground (arith, e, present))
        ]
      ]
