-- ===== src/Ingest/Commit.antt =====
-- `record_dataset`: the two rows and their commit, with the clean-up after a failure; the last part of
-- `ingest_satnogs_observation` in services/api/aries_api/ingest.py.
use aries_space.Base.{
  ◌<>◌, Bool, true, false, ◌≡◌, refl, sym, ap, subst, ◌∙◌, ◌&&◌, String, Option, none, some, List,
  ◌⊎◌, [], ◌∷◌, ◌++◌, str_eq, arith, inl, inr,
}
use aries_space.Base.Int.{ℤ}
use aries_space.Exn.{ingest_unavailable, sqlalchemy_error, Exn, orphan_object}
use aries_space.Exec.{◌>>=◌, pure, Result, ok, Done, Failed, exception, >>-raises, Result-cases}
use aries_space.Json.{Json}
use aries_space.Models.{Dataset, Observation, Tables, find_dataset}
use aries_space.Backend.{Backend, Runtime, Bytes}
use aries_space.Backend.Laws.{IsLawful}
use aries_space.Storage.{minio_raw_bucket}
use aries_space.Normalize.{NormalizedObservation}
use aries_space.Ingest.{
  observation_row, IngestResult, result, add_dataset, add_observation, discard_object,
  on_commit_error, record_dataset,
}

pub find_dataset-append :
    (source external_id : String) (d : Dataset) (ds : List Dataset)
    → find_dataset source external_id ds ≡ none
    → str_eq d.source source ≡ true
    → str_eq d.external_id external_id ≡ true
    → find_dataset source external_id (ds ++ d ∷ []) ≡ some d
find_dataset-append source external_id d [] h p q = ground arith
find_dataset-append source external_id d (x ∷ ds) h p q =
    ground (arith, find_dataset-append source external_id d ds)

-- What an exception of the commit leaves under the key: nothing, if `object_created` is set, and
-- otherwise what was there; with an `OrphanObjectError` the removal raised, and may have been done.
abbrev pub IsClean : Bool → Option Bytes → Option Exn → Option Bytes → Type 0
IsClean c before none after = Unit
IsClean true before (some (ingest_unavailable _)) after = after ≡ none
IsClean true before (some (orphan_object _)) after = (after ≡ none) ⊎ (after ≡ before)
IsClean false before (some (ingest_unavailable _)) after = after ≡ before
IsClean c before (some _) after = ⊥

module _ {F : Type 0} (B : Backend (Tables F)) (R : Runtime Json ℤ) (L : IsLawful B) where
  open B use {World, object, pending, durable}

  discard_object-durable :
      (c : Bool) (key : String) (w : World) → durable (discard_object B R c key w).1 ≡ durable w
  unfolding discard_object
  discard_object-durable false key w = refl
  discard_object-durable true key w = ground (
    arith,
    L.remove-durable minio_raw_bucket key w,
    (L.log-IsQuiet ("orphan_object bucket=" <> minio_raw_bucket <> " key=" <> key)
        (B.remove_object minio_raw_bucket key w).1).committed,
  )

  on_commit_error-durable :
      (c : Bool) (key : String) (e : Exn) (w : World)
      → durable (on_commit_error B R c key e w).1 ≡ durable w
  unfolding on_commit_error
  on_commit_error-durable c key e w =
      ground (arith, discard_object-durable c key (B.rollback w), L.rollback-durable w)

  on_commit_error-raises :
      (c : Bool) (key : String) (e : Exn) (w : World) → Done (on_commit_error B R c key e w).0 ⊥
  unfolding on_commit_error
  on_commit_error-raises c key e w = ground arith

  discard_object-others :
      (c : Bool) (key : String) (w : World) (b' k' : String)
      → (str_eq minio_raw_bucket b' && str_eq key k') ≡ false
      → object (discard_object B R c key w).1 b' k' ≡ object w b' k'
  unfolding discard_object
  discard_object-others false key w b' k' ne = refl
  discard_object-others true key w b' k' ne = ground (
    arith,
    L.remove-others minio_raw_bucket key w b' k' ne,
    ap (λ f. f b' k')
        (L.log-IsQuiet ("orphan_object bucket=" <> minio_raw_bucket <> " key=" <> key)
          (B.remove_object minio_raw_bucket key w).1).objects,
  )

  on_commit_error-others :
      (c : Bool) (key : String) (e : Exn) (w : World) (b' k' : String)
      → (str_eq minio_raw_bucket b' && str_eq key k') ≡ false
      → object (on_commit_error B R c key e w).1 b' k' ≡ object w b' k'
  unfolding on_commit_error
  on_commit_error-others c key e w b' k' ne = ground (
    arith,
    discard_object-others c key (B.rollback w) b' k' ne,
    ap (λ f. f b' k') (L.rollback-object w),
  )

  on_commit_error-cleanup :
      (c : Bool) (key : String) (w : World)
      → IsClean c
          (object w minio_raw_bucket key)
          (exception (on_commit_error B R c key sqlalchemy_error w).0)
          (object (on_commit_error B R c key sqlalchemy_error w).1 minio_raw_bucket key)
  unfolding on_commit_error discard_object
  on_commit_error-cleanup false key w = ap (λ f. f minio_raw_bucket key) (L.rollback-object w)
  on_commit_error-cleanup true key w = ground (
    arith,
    L.remove-Written minio_raw_bucket key (B.rollback w),
    ap (λ f. f minio_raw_bucket key) (L.rollback-object w),
    ap (λ f. f minio_raw_bucket key)
        (L.log-IsQuiet ("orphan_object bucket=" <> minio_raw_bucket <> " key=" <> key)
          (B.remove_object minio_raw_bucket key (B.rollback w)).1).objects,
  )

  -- The worlds between the statements of `record_dataset`.
  module _ (d : Dataset) (n : NormalizedObservation) (c : Bool) (w : World) where
    abbrev added : World
    added = B.write (add_dataset d) w

    abbrev flushed : World
    flushed = (B.flush added).1

    abbrev pub row : Observation
    row = observation_row B R (B.next_id flushed) d.id d.ingested_at n

    abbrev written : World
    written = B.write (add_observation row) flushed

    written-durable : durable written ≡ durable w
    written-durable =
        L.write-durable (add_observation row) flushed
        ∙ (L.flush-IsQuiet added).committed
        ∙ L.write-durable (add_dataset d) w

    flushed-object : object flushed ≡ object w
    flushed-object = (L.flush-IsQuiet added).objects ∙ L.write-object (add_dataset d) w

    written-object : object written ≡ object w
    written-object = L.write-object (add_observation row) flushed ∙ flushed-object

    written-pending : pending written ≡ add_observation row (add_dataset d (pending w))
    written-pending =
        L.write-pending (add_observation row) flushed
        ∙ ap (add_observation row)
            ((L.flush-IsQuiet added).tables ∙ L.write-pending (add_dataset d) w)

    abbrev failed_with : World → Result IngestResult × World
    failed_with = on_commit_error B R c d.object_key sqlalchemy_error >>= λ _. pure (result d true)

    -- The two ways through: both calls return, or one raises in a world that differs only in what
    -- is pending.
    record_dataset_cases :
        (P : Result IngestResult × World → Type 0)
        → ((B.commit written).0 ≡ ok tt → P (ok (result d true), (B.commit written).1))
        → ((u : World) → durable u ≡ durable w → object u ≡ object w → P (failed_with u))
        → P (record_dataset B R d n c w)
    unfolding record_dataset
    record_dataset_cases P done failed = elim (Result-cases (B.flush added).0) [
      | inl (_, f) ↦ elim (Result-cases (B.commit written).0) [
        | inl (_, k) ↦
            let value : record_dataset B R d n c w ≡ (ok (result d true), (B.commit written).1) =
              ground (arith, f, k) in
            subst P (sym value) (done k)
        | inr (e, k) ↦
            let value : record_dataset B R d n c w ≡ failed_with (B.commit written).1 =
              ground (arith, f, k, L.commit-error written) in
            subst P (sym value) (
              failed (B.commit written).1 (rw (L.commit-durable written, k) written-durable)
                (L.commit-object written ∙ written-object))
      ]
      | inr (e, f) ↦
          let value : record_dataset B R d n c w ≡ failed_with flushed =
            ground (arith, f, L.flush-error added) in
          subst P (sym value) (
            failed flushed ((L.flush-IsQuiet added).committed ∙ L.write-durable (add_dataset d) w)
              flushed-object)
    ]

    -- A dataset that is recorded is committed, with its observation, on top of what was pending; the
    -- object store is as it was.
    pub record_dataset-committed : Done (record_dataset B R d n c w).0 (
        ((record_dataset B R d n c w).0 ≡ ok (result d true))
        × (durable (record_dataset B R d n c w).1 ≡ add_observation row (add_dataset d (pending w)))
        × (pending (record_dataset B R d n c w).1 ≡ add_observation row (add_dataset d (pending w)))
        × (object (record_dataset B R d n c w).1 ≡ object w))
    record_dataset-committed =
        record_dataset_cases
          (λ (r, u). Done r (
            (r ≡ ok (result d true))
            × (durable u ≡ add_observation row (add_dataset d (pending w)))
            × (pending u ≡ add_observation row (add_dataset d (pending w)))
            × (object u ≡ object w)))
          (λ k. (
            refl,
            rw (L.commit-durable written, k) written-pending,
            L.commit-pending written ∙ written-pending,
            L.commit-object written ∙ written-object,
          ))
          (λ u _ _. ground (arith, on_commit_error-raises c d.object_key sqlalchemy_error u))

    -- When recording raises, what is committed is what was committed before.
    pub record_dataset-failed :
        Failed (record_dataset B R d n c w).0 (durable (record_dataset B R d n c w).1 ≡ durable w)
    record_dataset-failed =
        record_dataset_cases (λ (r, u). Failed r (durable u ≡ durable w)) (λ _. tt)
          (λ u same _. ground (
            arith,
            same,
            on_commit_error-durable c d.object_key sqlalchemy_error u,
            on_commit_error-raises c d.object_key sqlalchemy_error u,
          ))

    -- For every lawful store and session, when recording raises: with `object_created` set, no object
    -- is left under the key, or the exception is an `OrphanObjectError` and the object is gone or as it
    -- was; with `object_created` clear, whatever stood under the key is as it was.
    pub record_dataset_cleanup :
        IsClean c
          (object w minio_raw_bucket d.object_key)
          (exception (record_dataset B R d n c w).0)
          (object (record_dataset B R d n c w).1 minio_raw_bucket d.object_key)
    record_dataset_cleanup =
        record_dataset_cases
          (λ (r, u).
            IsClean c (object w minio_raw_bucket d.object_key) (exception r)
              (object u minio_raw_bucket d.object_key))
          (λ _. tt)
          (λ u _ same.
            let m = on_commit_error B R c d.object_key sqlalchemy_error in
            let raised =
              >>-raises m (pure (result d true)) u
                (on_commit_error-raises c d.object_key sqlalchemy_error u) in
            rw (raised.0, raised.1, ← same) (on_commit_error-cleanup c d.object_key u))

    -- No other object is touched.
    pub record_dataset-others :
        (b' k' : String)
        → (str_eq minio_raw_bucket b' && str_eq d.object_key k') ≡ false
        → object (record_dataset B R d n c w).1 b' k' ≡ object w b' k'
    record_dataset-others b' k' ne =
        record_dataset_cases (λ (_, u). object u b' k' ≡ object w b' k')
          (λ _. ap (λ f. f b' k') (L.commit-object written ∙ written-object))
          (λ u _ same.
            let raised =
              >>-raises (on_commit_error B R c d.object_key sqlalchemy_error) (pure (result d true))
                u (on_commit_error-raises c d.object_key sqlalchemy_error u) in
            rw raised.1 (
              on_commit_error-others c d.object_key sqlalchemy_error u b' k' ne
              ∙ ap (λ f. f b' k') same))
