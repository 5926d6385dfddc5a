-- ===== src/Ingest/Correct.antt =====
-- What `ingest_satnogs_observation` of services/api/aries_api/ingest.py promises.
use mathlib.Core.Option
use aries_space.Base.{
  ◌<>◌, true, false, ◌≡◌, refl, sym, subst, subst, ◌∙◌, String, none, some, length, eq_iff, arith,
  Option-cases, Bool-cases, inl, inr,
}
use aries_space.Base.Int.{ℤ, eq_ℤ}
use aries_space.Exn.{Exn, ingest_conflict}
use aries_space.Exec.{Result, ok, err, Done, Failed_of, Failed, Result-cases}
use aries_space.Json.{Json, Fields, obj}
use aries_space.Models.{Dataset, Tables, find_dataset}
use aries_space.Backend.{Backend, Runtime, Bytes}
use aries_space.Backend.Laws.{IsLawful, IsQuiet}
use aries_space.Storage.{minio_raw_bucket}
use aries_space.Normalize.{NormalizedObservation, normalize_observation}
use aries_space.Ingest.{
  IngestResult, result, verify_existing, ingest_new, ingest_satnogs_observation, lock_ingestion,
  satnogs_key,
}
use aries_space.Ingest.Objects.{
  Verified, IsQuiet-trans, stat_matching-IsQuiet, stat_matching-Verified,
}
use aries_space.Ingest.Commit.{record_dataset-failed}
use aries_space.Ingest.Preserves.{
  Preserves, quiet-Preserves, Preserves-trans, ingest_new-Preserves, ingest_new_cases, new_row, put,
}
use aries_space.Ingest.Upload.{ensure_object-Kept}

module _ {F : Type 0} (B : Backend (Tables F)) (R : Runtime Json ℤ) (L : IsLawful B) where
  open B use {World, object, pending, durable}

  pub verify_existing-IsQuiet :
      (d : Dataset) (key : String) (p : Bytes) (digest : String) (w : World)
      → IsQuiet B w (verify_existing B R d key p digest w).1
  unfolding verify_existing
  verify_existing-IsQuiet d key p digest w =
      ground (arith, stat_matching-IsQuiet B R L d.object_key d.size_bytes d.sha256 w)

  -- What a known dataset returns is its own row, and the raw bucket holds the new payload's match.
  pub verify_existing-Verified :
      (d : Dataset) (key : String) (p : Bytes) (digest : String) (w : World)
      → Done (verify_existing B R d key p digest w).0 (
          ((verify_existing B R d key p digest w).0 ≡ ok (result d false))
          × (d.object_key ≡ key)
          × (d.size_bytes ≡ length p)
          × (d.sha256 ≡ digest)
          × Verified R.sha256 (length p) digest (object w minio_raw_bucket key))
  unfolding verify_existing
  verify_existing-Verified d key p digest w = ground (
    arith,
    stat_matching-Verified B R L d.object_key d.size_bytes d.sha256 w,
    eq_iff d.object_key key,
    eq_iff d.sha256 digest,
  )

  -- What a returned result says of the world after it. `w` is the world before.
  pub record IsStored (norad_id : ℤ) (payload : Bytes) (w u : World) (r : IngestResult)
      : Type 0 where
    pub key : r.object_key ≡ satnogs_key B R norad_id r.external_id
    pub size : r.size_bytes ≡ length payload
    pub digest : r.sha256 ≡ R.sha256 payload
    -- the raw bucket holds an object of that size and digest
    pub held : Verified R.sha256 r.size_bytes r.sha256 (object u minio_raw_bucket r.object_key)
    -- the result is the row of its identity
    pub listed :
        Option.map
          (λ d. result d r.created)
          (find_dataset "satnogs" r.external_id (pending u).datasets)
        ≡ some r
    -- a new row is committed, and otherwise nothing has changed
    pub committed : r.created ≡ true → durable u ≡ pending u
    pub unchanged : r.created ≡ false → IsQuiet B w u

  lock-IsQuiet : (s e : String) (w : World) → IsQuiet B w (lock_ingestion B R s e w).1
  unfolding lock_ingestion
  lock-IsQuiet s e w = ground (arith, L.lock-IsQuiet (s <> ":" <> e) w)

  module _ (raw : Fields) (norad_id : ℤ) (w : World) where
    abbrev pub ext : NormalizedObservation → String
    ext n = R.str_of n.satnogs_observation_id

    abbrev payload : Bytes
    payload = R.dumps (obj raw)

    abbrev held : NormalizedObservation → World
    held n = (lock_ingestion B R "satnogs" (ext n) w).1

    -- The lock is had and the query has been answered.
    abbrev locked : NormalizedObservation → World
    locked n = (B.read (held n)).1

    locked-IsQuiet : (n : NormalizedObservation) → IsQuiet B w (locked n)
    locked-IsQuiet n =
        IsQuiet-trans B R L w (held n) (locked n) (lock-IsQuiet "satnogs" (ext n) w)
          (L.read-IsQuiet (held n))

    -- The ways through: a refusal in a world that shows the same, a known dataset, a new one.
    ingest_cases :
        (P : Result IngestResult × World → Type 0)
        → ((e : Exn) (u : World) → IsQuiet B w u → P (err e, u))
        → ((n : NormalizedObservation) (d : Dataset)
            → find_dataset "satnogs" (ext n) (pending (locked n)).datasets ≡ some d
            → P (
                verify_existing B R d
                  (satnogs_key B R norad_id (ext n))
                  payload
                  (R.sha256 payload)
                  (locked n)))
        → ((n : NormalizedObservation)
            → find_dataset "satnogs" (ext n) (pending (locked n)).datasets ≡ none
            → P (ingest_new B R n norad_id (ext n) payload (locked n)))
        → P (ingest_satnogs_observation B R raw norad_id w)
    unfolding ingest_satnogs_observation
    ingest_cases P refused old new = elim (Result-cases (normalize_observation R raw)) [
      | inr (x, e) ↦
          let value : ingest_satnogs_observation B R raw norad_id w ≡ (err x, w) =
            ground (arith, e) in
          subst P (sym value)
            (refused x w (record { objects = refl; tables = refl; committed = refl }))
      | inl (n, e) ↦ elim (Bool-cases (eq_ℤ n.satellite_id norad_id)) [
        | inr other_id ↦
            let value : ingest_satnogs_observation B R raw norad_id w
                ≡ (err (ingest_conflict "Observation NORAD ID does not match request"), w) =
              ground (arith, e, other_id) in
            subst P (sym value)
              (refused _ w (record { objects = refl; tables = refl; committed = refl }))
        | inl same_id ↦ elim (Result-cases (lock_ingestion B R "satnogs" (ext n) w).0) [
          | inr (x, f) ↦
              let value : ingest_satnogs_observation B R raw norad_id w ≡ (err x, held n) =
                ground (arith, e, same_id, f) in
              subst P (sym value) (refused x (held n) (lock-IsQuiet "satnogs" (ext n) w))
          | inl (_, f) ↦ elim (Result-cases (B.read (held n)).0) [
            | inr (x, g) ↦
                let value : ingest_satnogs_observation B R raw norad_id w ≡ (err x, locked n) =
                  ground (arith, e, same_id, f, g) in
                subst P (sym value) (refused x (locked n) (locked-IsQuiet n))
            | inl (_, g) ↦
                elim (Option-cases (find_dataset "satnogs" (ext n) (pending (locked n)).datasets)) [
                  | inl missing ↦
                      let value : ingest_satnogs_observation B R raw norad_id w
                          ≡ ingest_new B R n norad_id (ext n) payload (locked n) =
                        ground (arith, e, same_id, f, g, missing) in
                      subst P (sym value) (new n missing)
                  | inr (d, there) ↦
                      let value : ingest_satnogs_observation B R raw norad_id w
                          ≡ verify_existing B R d (satnogs_key B R norad_id (ext n)) payload
                              (R.sha256 payload) (locked n) =
                        ground (arith, e, same_id, f, g, there) in
                      subst P (sym value) (old n d there)
                ]
          ]
        ]
      ]
    ]

    abbrev known : NormalizedObservation → Dataset → Result IngestResult × World
    known n d =
        verify_existing B R d (satnogs_key B R norad_id (ext n)) payload (R.sha256 payload)
          (locked n)

    known-IsQuiet : (n : NormalizedObservation) (d : Dataset) → IsQuiet B w (known n d).1
    known-IsQuiet n d = IsQuiet-trans B R L w (locked n) (known n d).1 (locked-IsQuiet n) (
        verify_existing-IsQuiet d (satnogs_key B R norad_id (ext n)) payload (R.sha256 payload)
          (locked n))

    -- For every lawful store and session, no ingestion, whatever its outcome, changes or removes an object that was stored before it.
    pub ingest-Preserves : Preserves B R L w (ingest_satnogs_observation B R raw norad_id w).1
    ingest-Preserves =
        ingest_cases (λ (_, u). Preserves B R L w u) (λ e u. quiet-Preserves B R L w u)
          (λ n d _. quiet-Preserves B R L w _ (known-IsQuiet n d))
          (λ n _.
            Preserves-trans B R L w (locked n) _
              (quiet-Preserves B R L w (locked n) (locked-IsQuiet n))
              (ingest_new-Preserves B R L n norad_id (ext n) payload (locked n)))

    ingest_new_failed :
        (n : NormalizedObservation)
        → let (r, u) = ingest_new B R n norad_id (ext n) payload (locked n) in
          Failed r (durable u ≡ durable w)
    ingest_new_failed n =
        let before = (locked-IsQuiet n).committed in
        let key = satnogs_key B R norad_id (ext n) in
        let uploaded =
          (ensure_object-Kept B R L key payload (R.sha256 payload) (locked n)).committed in
        let first = put B R L n norad_id (ext n) payload (locked n) in
        ingest_new_cases B R L n norad_id (ext n) payload (locked n)
          (λ (r, u). Failed r (durable u ≡ durable w)) (λ e _. uploaded ∙ before)
          (λ c _.
            rw (← before, ← uploaded)
              (record_dataset-failed B R L (new_row B R L n norad_id (ext n) payload first.1) n c
                first.1))

    -- For every lawful store and session, an ingestion that raises has committed nothing.
    pub ingest_failed :
        let (r, u) = ingest_satnogs_observation B R raw norad_id w in
        Failed r (durable u ≡ durable w)
    ingest_failed =
        ingest_cases (λ (r, u). Failed r (durable u ≡ durable w)) (λ e u q. q.committed)
          (λ n d _. Failed_of _ (known-IsQuiet n d).committed) (λ n _. ingest_new_failed n)
