-- ===== src/Benchmarks/Atomic.antt =====
-- services/api/aries_api/benchmarks.py: "Benchmark pair failed atomically".
use aries_space.Base.{not, str_eq, ℕ, String, none, List, [], ◌∷◌, ◌≡◌, ◌∙◌, ap, ◌<>◌}
use aries_space.Exec.{Exec, Result, ok, err, lift, gets, modify, pure, ◌>>=◌, Failed, or_raise}
use aries_space.Exn.{workload_not_found, dataset_not_found}
use aries_space.Floats.{Floats}
use aries_space.Models.{Tables, Dataset, BenchmarkPair}
use aries_space.Backend.{select, Backend, Bytes}
use aries_space.Backend.Laws.{IsQuiet, IsLawful}
use aries_space.Storage.{minio_raw_bucket}
use aries_space.Benchmarks.Registry.{
  BenchmarkConfig, WorkloadSpec, Detectors, workload_registry, find_spec,
}
use aries_space.Benchmarks.Catalog.{seed_catalog}
use aries_space.Benchmarks.Execute.{Host}
use aries_space.Benchmarks.Rows.{
  has_observation, Attempt, within, Texts, RunEvidence, put_pair, find_dataset_by_id,
  assumptions_snapshot,
}
use aries_space.Benchmarks.Pair.{
  attempt, settle_attempt, run_attempt, run_benchmark_pair, run_targets, decide, complete_tables,
  completed_pair, conclude_pair, register_pair, pair_row, check_source, check_aoi, check_linked,
  read_payload, check_payload,
}
use aries_space.Benchmarks.Keeps.Run.{
  seed_catalog-IsKeeping, run_targets-IsKeepingIn, delete_created-Keeps,
}
use aries_space.Benchmarks.Keeps.{
  Keeps, Keeps-refl, IsKeepingIn, within-IsKeepingIn, flush-IsKeeping, modify-IsKeeping,
  rollback-Keeps, select-IsKeeping, if-IsKeeping, get-IsKeeping, raise_if-IsKeeping,
  or_raise-IsKeeping, raise_instead-IsKeeping, >>=-IsKeeping, IsKeeping, lift-IsKeeping,
  pure-IsKeeping,
}

module _ {F : Type 0} (B : Backend (Tables F)) where
  open B use {World, object, durable}

  -- The raw bucket is as it was, and a failure has committed nothing.
  pub record Atomic {A : Type 0} (w : World) (r : Result A) (w' : World) : Type 0 where
    pub raw : (k : String) → object w' minio_raw_bucket k ≡ object w minio_raw_bucket k
    pub failed : Failed r (durable w' ≡ durable w)

  record IsAtomicIn {A : Type 0} (m : Exec (Attempt World) A) : Type 0 where
    atomic : (a : Attempt World) → Atomic a.world (m a).0 (m a).1.world

  Atomic-Keeps :
      {A : Type 0} (u v w : World) (r : Result A) → Keeps B u v → Atomic v r w → Atomic u r w
  Atomic-Keeps u v w (ok x) h g = record { raw = λ k. g.raw k ∙ h.raw k; failed = tt }
  Atomic-Keeps u v w (err e) h g = record {
    raw = λ k. g.raw k ∙ h.raw k;
    failed = g.failed ∙ h.committed;
  }

  Keeps-Atomic : {A : Type 0} (w w' : World) (r : Result A) → Keeps B w w' → Atomic w r w'
  Keeps-Atomic w w' (ok x) h = record { raw = h.raw; failed = tt }
  Keeps-Atomic w w' (err e) h = record { raw = h.raw; failed = h.committed }

  then-Atomic :
      {A C : Type 0} (a : Attempt World) (x : Result A × Attempt World)
      (f : A → Exec (Attempt World) C)
      → Keeps B a.world x.1.world
      → ((y : A) → IsAtomicIn (f y))
      → Atomic a.world (((λ _. x) >>= f) a).0 (((λ _. x) >>= f) a).1.world
  then-Atomic a (ok y, b) f h hf =
      Atomic-Keeps a.world b.world (f y b).1.world (f y b).0 h ((hf y).atomic b)
  then-Atomic a (err e, b) f h hf = record { raw = h.raw; failed = h.committed }

  >>=-IsAtomicIn :
      {A C : Type 0} (m : Exec (Attempt World) A) (f : A → Exec (Attempt World) C)
      → IsKeepingIn B m
      → ((x : A) → IsAtomicIn (f x))
      → IsAtomicIn (m >>= f)
  >>=-IsAtomicIn m f hm hf = record { atomic = λ a. then-Atomic a (m a) f (hm.keeps a) hf }

  record IsAtomic {A : Type 0} (m : Exec World A) : Type 0 where
    atomic : (w : World) → Atomic w (m w).0 (m w).1

  then_after :
      {A C : Type 0} (w : World) (x : Result A × World) (f : A → Exec World C)
      → Keeps B w x.1
      → ((y : A) → IsAtomic (f y))
      → Atomic w (((λ _. x) >>= f) w).0 (((λ _. x) >>= f) w).1
  then_after w (ok y, v) f h hf = Atomic-Keeps w v (f y v).1 (f y v).0 h ((hf y).atomic v)
  then_after w (err e, v) f h hf = record { raw = h.raw; failed = h.committed }

  >>=-IsAtomic :
      {A C : Type 0} (m : Exec World A) (f : A → Exec World C)
      → IsKeeping B m
      → ((x : A) → IsAtomic (f x))
      → IsAtomic (m >>= f)
  >>=-IsAtomic m f hm hf = record { atomic = λ w. then_after w (m w) f (hm.keeps w) hf }

  settled :
      {A : Type 0} (y : A) (w : World) (t : Tables F) (x : Result (Unit {0}) × World)
      → ((k : String) → object x.1 minio_raw_bucket k ≡ object w minio_raw_bucket k)
      → durable x.1 ≡ elim x.0 [ ok _ ↦ t | err _ ↦ durable w ]
      → Atomic w (((λ _. x) >>= λ _. pure y) w).0 (((λ _. x) >>= λ _. pure y) w).1
  settled y w t (ok _, v) h g = record { raw = h; failed = tt }
  settled y w t (err e, v) h g = record { raw = h; failed = g }

module _ {P F : Type 0} (B : Backend (Tables F)) (N : Floats F) (c : BenchmarkConfig F)
    (H : Host B.World P F) (T : Texts) (L : IsLawful B)
    (elapsed-IsQuiet : (w : B.World) → IsQuiet B w (H.elapsed_ms w).1) where
  open B use {World, object, durable}

  commit-IsAtomic : {A : Type 0} (y : A) → IsAtomic B (B.commit >>= λ _. pure y)
  commit-IsAtomic y = record {
    atomic = λ w.
        settled B y w (B.pending w) (B.commit w)
          (λ k. ap (λ o. o minio_raw_bucket k) (L.commit-object w)) (L.commit-durable w);
  }

  gets-IsKeeping : {A : Type 0} (f : World → A) → IsKeeping B (gets f)
  gets-IsKeeping f = record { keeps = Keeps-refl B }

  register_pair-IsKeeping :
      (spec : WorkloadSpec P F) (dataset : Dataset) (correlation_id : String)
      → IsKeeping B (register_pair B N c H T spec dataset correlation_id)
  unfolding register_pair
  register_pair-IsKeeping spec dataset correlation_id =
      >>=-IsKeeping B (seed_catalog B N c spec) _
        (seed_catalog-IsKeeping B N c H T L elapsed-IsQuiet spec)
        (λ x. >>=-IsKeeping B (gets B.next_id) _ (gets-IsKeeping _) (λ id.
          >>=-IsKeeping B (gets B.now) _ (gets-IsKeeping _) (λ created_at.
            let pair =
              pair_row B N c H T id correlation_id dataset x.0 (assumptions_snapshot c spec)
                created_at in
            >>=-IsKeeping B (modify (B.write (λ t. record t { pairs = put_pair pair t.pairs }))) _
              (modify-IsKeeping B L _)
              (λ _.
                >>=-IsKeeping B B.flush _ (flush-IsKeeping B L)
                  (λ _. pure-IsKeeping B (pair, x.1, x.2))))))

  conclude_pair-IsAtomic :
      (spec : WorkloadSpec P F) (pair : BenchmarkPair F) (evidence : List (RunEvidence F))
      → IsAtomic B (conclude_pair B N c H T spec pair evidence)
  unfolding conclude_pair
  conclude_pair-IsAtomic spec pair evidence =
      >>=-IsAtomic B (lift (decide B N c H T spec evidence)) _ (lift-IsKeeping B _) (λ y.
        >>=-IsAtomic B (gets B.now) _ (gets-IsKeeping _) (λ completed_at.
          >>=-IsAtomic B (gets B.next_id) _ (gets-IsKeeping _) (λ run_id.
            let done = completed_pair B N c H T pair y.0 y.1 completed_at in
            >>=-IsAtomic B
              (modify (B.write (complete_tables B N c H T run_id done evidence completed_at))) _
              (modify-IsKeeping B L _) (λ _. commit-IsAtomic done))))

  attempt-IsAtomicIn :
      (spec : WorkloadSpec P F) (dataset : Dataset) (raw_payload : Bytes) (correlation_id : String)
      → IsAtomicIn B (attempt B N c H T spec dataset raw_payload correlation_id)
  unfolding attempt
  attempt-IsAtomicIn spec dataset raw_payload correlation_id =
      >>=-IsAtomicIn B (within (register_pair B N c H T spec dataset correlation_id)) _
        (within-IsKeepingIn B _ (register_pair-IsKeeping spec dataset correlation_id))
        (λ x.
          >>=-IsAtomicIn B
            (run_targets B N c H T correlation_id raw_payload spec (x.1 ∷ x.2 ∷ []) none)
            (λ evidence. within (conclude_pair B N c H T spec x.0 evidence))
            (run_targets-IsKeepingIn B N c H T L elapsed-IsQuiet correlation_id raw_payload spec
              (x.1 ∷ x.2 ∷ []) none)
            (λ evidence. record {
              atomic = λ a. (conclude_pair-IsAtomic spec x.0 evidence).atomic a.world;
            }))

  settle_attempt-Atomic :
      (w : World) (correlation_id : String) (x : Result (BenchmarkPair F) × Attempt World)
      → Atomic B w x.0 x.1.world
      → Atomic B w
          (settle_attempt B N c H T correlation_id x).0
          (settle_attempt B N c H T correlation_id x).1
  unfolding settle_attempt
  settle_attempt-Atomic w correlation_id (ok pair, a) h = h
  settle_attempt-Atomic w correlation_id (err e, a) h =
      let v = B.rollback a.world in
      let g = delete_created-Keeps B N c H T L elapsed-IsQuiet correlation_id a.created_keys v in
      let r = rollback-Keeps B L a.world in
      record {
        raw = λ k. g.raw k ∙ (r.raw k ∙ h.raw k);
        failed = g.committed ∙ (r.committed ∙ h.failed);
      }

  pub run_attempt-Atomic :
      (spec : WorkloadSpec P F) (dataset : Dataset) (raw_payload : Bytes) (correlation_id : String)
      (w : World)
      → Atomic B w
          (run_attempt B N c H T spec dataset raw_payload correlation_id w).0
          (run_attempt B N c H T spec dataset raw_payload correlation_id w).1
  unfolding run_attempt
  run_attempt-Atomic spec dataset raw_payload correlation_id w =
      settle_attempt-Atomic w correlation_id _ (
        (attempt-IsAtomicIn spec dataset raw_payload correlation_id).atomic
          (record { world = w; created_keys = [] }))

  check_linked-IsKeeping : (dataset : Dataset) → IsKeeping B (check_linked B N c H T dataset)
  unfolding check_linked
  check_linked-IsKeeping dataset =
      if-IsKeeping B (str_eq dataset.source "satnogs") _ _
        (>>=-IsKeeping B (select B (λ t. has_observation dataset.id t.observations)) _
          (select-IsKeeping B L (λ t. has_observation dataset.id t.observations))
          (λ linked. raise_if-IsKeeping B (not linked) _))
        (pure-IsKeeping B tt)

  run_benchmark_pair-IsAtomic :
      (detectors : Detectors P) (dataset_id : ℕ) (workload_slug : String)
      → IsAtomic B (run_benchmark_pair B N c H T detectors dataset_id workload_slug)
  unfolding run_benchmark_pair check_source check_aoi check_linked read_payload check_payload
  run_benchmark_pair-IsAtomic detectors dataset_id workload_slug =
      >>=-IsAtomic B
        (or_raise (find_spec workload_slug (workload_registry detectors c))
          (workload_not_found ("Unknown workload '" <> workload_slug <> "'")))
        _ (or_raise-IsKeeping B _ _)
        (λ spec.
          >>=-IsAtomic B (select B (λ t. find_dataset_by_id dataset_id t.datasets)) _
            (select-IsKeeping B L (λ t. find_dataset_by_id dataset_id t.datasets))
            (λ found.
              >>=-IsAtomic B
                (or_raise found
                  (dataset_not_found ("Dataset " <> T.show_id dataset_id <> " was not found")))
                _ (or_raise-IsKeeping B found _)
                (λ dataset.
                  >>=-IsAtomic B (check_source B N c H T spec dataset) _ (raise_if-IsKeeping B _ _)
                    (λ _.
                      >>=-IsAtomic B (check_aoi B N c H T spec dataset) _ (raise_if-IsKeeping B _ _)
                        (λ _.
                          >>=-IsAtomic B (check_linked B N c H T dataset) _
                            (check_linked-IsKeeping dataset)
                            (λ _.
                              >>=-IsAtomic B (read_payload B N c H T dataset) _
                                (raise_instead-IsKeeping B _ _
                                  (get-IsKeeping B L minio_raw_bucket dataset.object_key))
                                (λ raw_payload.
                                  >>=-IsAtomic B (check_payload B N c H T dataset raw_payload) _
                                    (raise_if-IsKeeping B _ _)
                                    (λ _.
                                      >>=-IsAtomic B (gets B.uuid4) _ (gets-IsKeeping B.uuid4)
                                        (λ correlation_id. record {
                                          atomic =
                                              run_attempt-Atomic spec dataset raw_payload
                                                correlation_id;
                                        })))))))))

  -- For every lawful store and session and a clock that changes neither: a benchmark leaves every
  -- object of the raw bucket as it was, and one that raises leaves the committed tables as they were.
  pub run_benchmark_pair-Atomic :
      (detectors : Detectors P) (dataset_id : ℕ) (workload_slug : String) (w : World)
      → Atomic B w
          (run_benchmark_pair B N c H T detectors dataset_id workload_slug w).0
          (run_benchmark_pair B N c H T detectors dataset_id workload_slug w).1
  run_benchmark_pair-Atomic detectors dataset_id workload_slug w =
      (run_benchmark_pair-IsAtomic detectors dataset_id workload_slug).atomic w
