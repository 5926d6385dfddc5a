-- ===== src/Benchmarks/Completed.antt =====
-- services/api/aries_api/benchmarks.py: what `run_benchmark_pair` has done when it returns.
use aries_space.Base.{
  ℕ, String, ◌<>◌, Option, none, some, List, [], ◌∷◌, ◌≡◌, refl, sym, ap, subst, ◌∙◌, arith, ◌==◌,
  if◌then◌else◌, inl, inr, Bool-cases,
}
use aries_space.Exec.{Exec, Result, ok, err, gets, modify, pure, lift, or_raise, Returned, ◌>>=◌}
use aries_space.Exn.{workload_not_found, dataset_not_found}
use aries_space.Floats.{Floats}
use aries_space.Models.{Tables, Dataset, BenchmarkPair, PairStatus}
use aries_space.Backend.{select, Backend, Bytes}
use aries_space.Backend.Laws.{IsLawful}
use aries_space.Benchmarks.Registry.{
  BenchmarkConfig, WorkloadSpec, Detectors, workload_registry, find_spec,
}
use aries_space.Benchmarks.Execute.{Host}
use aries_space.Benchmarks.Rows.{Texts, Attempt, within, RunEvidence, put_pair, find_dataset_by_id}
use aries_space.Benchmarks.Pair.{
  attempt, settle_attempt, run_attempt, run_benchmark_pair, check_source, check_aoi, check_linked,
  read_payload, check_payload, register_pair, run_targets, conclude_pair, decide, completed_pair,
  complete_tables,
}

abbrev pub find_pair : {F : Type 0} → ℕ → List (BenchmarkPair F) → Option (BenchmarkPair F)
find_pair id [] = none
find_pair id (x ∷ xs) = if x.id == id then some x else find_pair id xs

find_pair-put_pair :
    {F : Type 0} (row : BenchmarkPair F) (xs : List (BenchmarkPair F))
    → find_pair row.id (put_pair row xs) ≡ some row
unfolding put_pair
find_pair-put_pair row [] = ground arith
find_pair-put_pair row (x ∷ xs) = elim (Bool-cases (x.id == row.id)) [
  | inl h ↦ ground (arith, h)
  | inr h ↦ ground (arith, h, find_pair-put_pair row xs)
]

module _ {F : Type 0} (B : Backend (Tables F)) where
  open B use {World, durable}

  -- The committed tables have the pair under its key, completed and with its end.
  abbrev pub IsRecorded : World → BenchmarkPair F → Type 0
  IsRecorded w pair =
      (find_pair pair.id (durable w).pairs ≡ some pair) × (pair.status ≡ PairStatus.completed)

  record IsRecording (m : Exec World (BenchmarkPair F)) : Type 0 where
    recorded : (w : World) → Returned (m w).0 (IsRecorded (m w).1)

  then-IsRecorded :
      {A : Type 0} (w : World) (x : Result A × World) (f : A → Exec World (BenchmarkPair F))
      → ((y : A) → IsRecording (f y))
      → Returned (((λ _. x) >>= f) w).0 (IsRecorded (((λ _. x) >>= f) w).1)
  then-IsRecorded w (ok y, v) f hf = (hf y).recorded v
  then-IsRecorded w (err e, v) f hf = tt

  >>=-IsRecording :
      {A : Type 0} (m : Exec World A) (f : A → Exec World (BenchmarkPair F))
      → ((y : A) → IsRecording (f y))
      → IsRecording (m >>= f)
  >>=-IsRecording m f hf = record { recorded = λ w. then-IsRecorded w (m w) f hf }

  record IsRecordingIn (m : Exec (Attempt World) (BenchmarkPair F)) : Type 0 where
    recorded : (a : Attempt World) → Returned (m a).0 (IsRecorded (m a).1.world)

  then_in-IsRecorded :
      {A : Type 0} (a : Attempt World) (x : Result A × Attempt World)
      (f : A → Exec (Attempt World) (BenchmarkPair F))
      → ((y : A) → IsRecordingIn (f y))
      → Returned (((λ _. x) >>= f) a).0 (IsRecorded (((λ _. x) >>= f) a).1.world)
  then_in-IsRecorded a (ok y, b) f hf = (hf y).recorded b
  then_in-IsRecorded a (err e, b) f hf = tt

  >>=-IsRecordingIn :
      {A : Type 0} (m : Exec (Attempt World) A) (f : A → Exec (Attempt World) (BenchmarkPair F))
      → ((y : A) → IsRecordingIn (f y))
      → IsRecordingIn (m >>= f)
  >>=-IsRecordingIn m f hf = record { recorded = λ a. then_in-IsRecorded a (m a) f hf }

  -- The end of a commit with the pair among the pending rows.
  committed :
      (pair : BenchmarkPair F) (w : World) (t : Tables F) (x : Result (Unit {0}) × World)
      → durable x.1 ≡ elim x.0 [ ok _ ↦ t | err _ ↦ durable w ]
      → find_pair pair.id t.pairs ≡ some pair
      → pair.status ≡ PairStatus.completed
      → Returned
          (((λ _. x) >>= λ _. pure pair) w).0
          (IsRecorded (((λ _. x) >>= λ _. pure pair) w).1)
  committed pair w t (ok _, v) h g c = (ap (λ u. find_pair pair.id u.pairs) h ∙ g, c)
  committed pair w t (err e, v) h g c = tt

module _ {P F : Type 0} (B : Backend (Tables F)) (N : Floats F) (c : BenchmarkConfig F)
    (H : Host B.World P F) (T : Texts) (L : IsLawful B) where
  open B use {World, durable, pending}

  write_commit :
      (f : Tables F → Tables F) (pair : BenchmarkPair F) (w : World)
      → ((t : Tables F) → find_pair pair.id (f t).pairs ≡ some pair)
      → pair.status ≡ PairStatus.completed
      → Returned
          ((modify (B.write f) >>= λ _. B.commit >>= λ _. pure pair) w).0
          (IsRecorded B ((modify (B.write f) >>= λ _. B.commit >>= λ _. pure pair) w).1)
  write_commit f pair w h s =
      committed B pair (B.write f w) (pending (B.write f w)) (B.commit (B.write f w))
        (L.commit-durable (B.write f w))
        (subst (λ t. find_pair pair.id t.pairs ≡ some pair) (sym (L.write-pending f w))
          (h (pending w)))
        s

  conclude_pair-IsRecording :
      (spec : WorkloadSpec P F) (pair : BenchmarkPair F) (evidence : List (RunEvidence F))
      → IsRecording B (conclude_pair B N c H T spec pair evidence)
  unfolding conclude_pair
  conclude_pair-IsRecording spec pair evidence =
      >>=-IsRecording B (lift (decide B N c H T spec evidence)) _ (λ y.
        >>=-IsRecording B (gets B.now) _ (λ at. >>=-IsRecording B (gets B.next_id) _ (λ id.
          let done = completed_pair B N c H T pair y.0 y.1 at in
          record {
            recorded = λ w.
                write_commit (complete_tables B N c H T id done evidence at) done w
                  (λ t. find_pair-put_pair done t.pairs) refl;
          })))

  attempt-IsRecordingIn :
      (spec : WorkloadSpec P F) (dataset : Dataset) (raw_payload : Bytes) (correlation_id : String)
      → IsRecordingIn B (attempt B N c H T spec dataset raw_payload correlation_id)
  unfolding attempt
  attempt-IsRecordingIn spec dataset raw_payload correlation_id =
      >>=-IsRecordingIn B (within (register_pair B N c H T spec dataset correlation_id)) _ (λ x.
        >>=-IsRecordingIn B
          (run_targets B N c H T correlation_id raw_payload spec (x.1 ∷ x.2 ∷ []) none)
          (λ evidence. within (conclude_pair B N c H T spec x.0 evidence))
          (λ evidence. record {
            recorded = λ a. (conclude_pair-IsRecording spec x.0 evidence).recorded a.world;
          }))

  settle_attempt-IsRecorded :
      (s : String) (x : Result (BenchmarkPair F) × Attempt World)
      → Returned x.0 (IsRecorded B x.1.world)
      → Returned (settle_attempt B N c H T s x).0 (IsRecorded B (settle_attempt B N c H T s x).1)
  unfolding settle_attempt
  settle_attempt-IsRecorded s (ok pair, a) h = h
  settle_attempt-IsRecorded s (err e, a) h = tt

  run_benchmark_pair-IsRecording :
      (detectors : Detectors P) (dataset_id : ℕ) (workload_slug : String)
      → IsRecording B (run_benchmark_pair B N c H T detectors dataset_id workload_slug)
  unfolding run_benchmark_pair run_attempt
  run_benchmark_pair-IsRecording detectors dataset_id workload_slug =
      >>=-IsRecording B
        (or_raise (find_spec workload_slug (workload_registry detectors c))
          (workload_not_found ("Unknown workload '" <> workload_slug <> "'")))
        _
        (λ spec.
          >>=-IsRecording B (select B (λ t. find_dataset_by_id dataset_id t.datasets)) _ (λ found.
            >>=-IsRecording B
              (or_raise found
                (dataset_not_found ("Dataset " <> T.show_id dataset_id <> " was not found")))
              _
              (λ dataset. >>=-IsRecording B (check_source B N c H T spec dataset) _ (λ _.
                >>=-IsRecording B (check_aoi B N c H T spec dataset) _ (λ _.
                  >>=-IsRecording B (check_linked B N c H T dataset) _ (λ _.
                    >>=-IsRecording B (read_payload B N c H T dataset) _ (λ raw_payload.
                      >>=-IsRecording B (check_payload B N c H T dataset raw_payload) _ (λ _.
                        >>=-IsRecording B (gets B.uuid4)
                          (λ correlation_id.
                            run_attempt B N c H T spec dataset raw_payload correlation_id)
                          (λ correlation_id. record {
                            recorded = λ w.
                                settle_attempt-IsRecorded correlation_id
                                  (attempt B N c H T spec dataset raw_payload correlation_id
                                    (record { world = w; created_keys = [] }))
                                  ((attempt-IsRecordingIn spec dataset raw_payload
                                      correlation_id).recorded
                                    (record { world = w; created_keys = [] }));
                          })))))))))

  -- For every lawful store and session: a pair that `run_benchmark_pair` returns is completed, and
  -- the committed tables have it under its key.
  pub run_benchmark_pair-IsRecorded :
      (detectors : Detectors P) (dataset_id : ℕ) (workload_slug : String) (w : World)
      → Returned
          (run_benchmark_pair B N c H T detectors dataset_id workload_slug w).0
          (IsRecorded B (run_benchmark_pair B N c H T detectors dataset_id workload_slug w).1)
  run_benchmark_pair-IsRecorded detectors dataset_id workload_slug w =
      (run_benchmark_pair-IsRecording detectors dataset_id workload_slug).recorded w
