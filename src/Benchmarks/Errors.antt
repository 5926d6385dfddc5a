-- ===== src/Benchmarks/Errors.antt =====
-- services/api/aries_api/benchmarks.py: the exceptions that leave `run_benchmark_pair`.
use aries_space.Base.{ℕ, String, ◌<>◌, Bool, true, false, not, [], ◌≡◌, refl, str_eq}
use aries_space.Exec.{Result, ok, err, gets, or_raise}
use aries_space.Exn.{
  Exn, workload_not_found, dataset_not_found, dataset_ineligible, benchmark_unavailable,
}
use aries_space.Floats.{Floats}
use aries_space.Models.{Tables, BenchmarkPair, Dataset}
use aries_space.Backend.{Backend, select}
use aries_space.Backend.Laws.{IsLawful}
use aries_space.Backend.Reads.{
  Allowed, Allows, Reads, >>=-Allows, >>=-Reads, FailsWith-Allows, gets-Reads, pure-Reads,
  or_raise-Reads, raise_if-Reads, if-Reads, raise_instead-Reads, select-Reads,
}
use aries_space.Exec.Fails.{FailsWith}
use aries_space.Storage.{get, minio_raw_bucket}
use aries_space.Benchmarks.Registry.{BenchmarkConfig, Detectors, workload_registry, find_spec}
use aries_space.Benchmarks.Execute.{Host}
use aries_space.Benchmarks.Rows.{Texts, Attempt, find_dataset_by_id, has_observation}
use aries_space.Benchmarks.Pair.{
  attempt, settle_attempt, atomic_error, run_attempt, run_benchmark_pair, check_source, check_aoi,
  check_linked, read_payload, check_payload,
}

abbrev pub is_benchmark_error : Exn → Bool
is_benchmark_error (workload_not_found _) = true
is_benchmark_error (dataset_not_found _) = true
is_benchmark_error (dataset_ineligible _) = true
is_benchmark_error (benchmark_unavailable _) = true
is_benchmark_error _ = false

atomic_error-is_benchmark_error : (e : Exn) → is_benchmark_error (atomic_error e) ≡ true
unfolding atomic_error
atomic_error-is_benchmark_error (dataset_not_found _) = refl
atomic_error-is_benchmark_error (dataset_ineligible _) = refl
atomic_error-is_benchmark_error _ = refl

module _ {P F : Type 0} (B : Backend (Tables F)) (N : Floats F) (c : BenchmarkConfig F)
    (H : Host B.World P F) (T : Texts) (L : IsLawful B) where
  open B use {World}

  -- One of the module's own four, or the `SQLAlchemyError` of a query before anything has changed.
  abbrev pub IsExpected : {A : Type 0} → World → Result A × World → Type 0
  IsExpected = Allowed B is_benchmark_error

  settled :
      (s : String) (x : Result (BenchmarkPair F) × Attempt World)
      → FailsWith is_benchmark_error (settle_attempt B N c H T s x).0
  unfolding settle_attempt
  settled s (ok pair, a) = tt
  settled s (err e, a) = atomic_error-is_benchmark_error e

  check_linked-Reads :
      (dataset : Dataset) → Reads B is_benchmark_error (check_linked B N c H T dataset)
  unfolding check_linked
  check_linked-Reads dataset =
      if-Reads B _ (str_eq dataset.source "satnogs") _ _
        (>>=-Reads B _ (select B (λ t. has_observation dataset.id t.observations)) _
          (select-Reads B _ L (λ t. has_observation dataset.id t.observations))
          (λ linked. raise_if-Reads B _ (not linked) _ refl))
        (pure-Reads B _ tt)

  read_payload-Reads :
      (dataset : Dataset) → Reads B is_benchmark_error (read_payload B N c H T dataset)
  unfolding read_payload get
  read_payload-Reads dataset =
      raise_instead-Reads B _ (B.get_object minio_raw_bucket dataset.object_key) _ refl
        (L.get-IsQuiet minio_raw_bucket dataset.object_key)

  run_benchmark_pair-Allows :
      (detectors : Detectors P) (dataset_id : ℕ) (workload_slug : String)
      → Allows B is_benchmark_error
          (run_benchmark_pair B N c H T detectors dataset_id workload_slug)
  unfolding run_benchmark_pair check_source check_aoi check_payload run_attempt
  run_benchmark_pair-Allows detectors dataset_id workload_slug =
      >>=-Allows B _
        (or_raise (find_spec workload_slug (workload_registry detectors c))
          (workload_not_found ("Unknown workload '" <> workload_slug <> "'")))
        _ (or_raise-Reads B _ _ _ refl)
        (λ spec.
          >>=-Allows B _ (select B (λ t. find_dataset_by_id dataset_id t.datasets)) _
            (select-Reads B _ L (λ t. find_dataset_by_id dataset_id t.datasets))
            (λ found.
              >>=-Allows B _
                (or_raise found
                  (dataset_not_found ("Dataset " <> T.show_id dataset_id <> " was not found")))
                _ (or_raise-Reads B _ found _ refl)
                (λ dataset.
                  >>=-Allows B _ (check_source B N c H T spec dataset) _
                    (raise_if-Reads B _ _ _ refl)
                    (λ _.
                      >>=-Allows B _ (check_aoi B N c H T spec dataset) _
                        (raise_if-Reads B _ _ _ refl)
                        (λ _.
                          >>=-Allows B _ (check_linked B N c H T dataset) _
                            (check_linked-Reads dataset)
                            (λ _.
                              >>=-Allows B _ (read_payload B N c H T dataset) _
                                (read_payload-Reads dataset)
                                (λ raw_payload.
                                  >>=-Allows B _ (check_payload B N c H T dataset raw_payload) _
                                    (raise_if-Reads B _ _ _ refl)
                                    (λ _.
                                      >>=-Allows B _ (gets B.uuid4)
                                        (λ correlation_id.
                                          run_attempt B N c H T spec dataset raw_payload
                                            correlation_id)
                                        (gets-Reads B _ B.uuid4)
                                        (λ correlation_id. FailsWith-Allows B _ _ (λ w.
                                          settled correlation_id (
                                            attempt B N c H T spec dataset raw_payload
                                              correlation_id
                                              (record { world = w; created_keys = [] }))))))))))))

  -- For every lawful store and session, whatever the detectors and the host do: an exception that
  -- leaves `run_benchmark_pair` is one of the module's own four, or a SQLAlchemyError, and then no
  -- object and no table has changed.
  pub run_benchmark_pair-IsExpected :
      (detectors : Detectors P) (dataset_id : ℕ) (workload_slug : String) (w : World)
      → IsExpected w (run_benchmark_pair B N c H T detectors dataset_id workload_slug w)
  run_benchmark_pair-IsExpected detectors dataset_id workload_slug w =
      (run_benchmark_pair-Allows detectors dataset_id workload_slug).allowed w
