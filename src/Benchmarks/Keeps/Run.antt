-- ===== src/Benchmarks/Keeps/Run.antt =====
-- The catalogue, the execution of a target and the storing of its result in
-- services/api/aries_api/benchmarks.py leave the committed tables and the raw bucket alone.
use aries_space.Base.{
  ℕ, zero, suc, String, Bool, true, false, Option, none, some, List, [], ◌∷◌, ◌++◌, if◌then◌else◌,
  not, ◌<>◌, min, str_eq,
}
use aries_space.Exec.{Result, ok, err, lift, gets, modify, or_raise}
use aries_space.Exn.{Exn, other, benchmark_unavailable}
use aries_space.Floats.{Floats}
use aries_space.Models.{Tables, ExecutionTarget}
use aries_space.Backend.{select, Backend, Bytes}
use aries_space.Backend.Laws.{IsQuiet, IsLawful}
use aries_space.Storage.{get, put, delete}
use aries_space.Benchmarks.Registry.{BenchmarkConfig, WorkloadSpec, results_bucket}
use aries_space.Benchmarks.Catalog.{
  seed_catalog, seed_target, find_target, put_target, find_workload, put_workload, workload_row,
  ground_target, edge_target,
}
use aries_space.Benchmarks.Execute.{
  Host, Executed, dispatch, execute_target, execute_target_bounded, measured, simulated, warm_up,
  collect,
}
use aries_space.Benchmarks.Rows.{within, Texts}
use aries_space.Benchmarks.Pair.{store_result, run_target, run_targets, delete_created}
use aries_space.Benchmarks.Keeps.{
  IsQuiet-Keeps, delete-IsKeeping, Keeps, Keeps-refl, Keeps-trans, IsKeeping, IsKeepingIn,
  >>=-IsKeeping, >>=-IsKeepingIn, still, pure-IsKeeping, lift-IsKeeping, or_raise-IsKeeping,
  pure-IsKeepingIn, lift-IsKeepingIn, raise_if-IsKeepingIn, within-IsKeepingIn, modify-IsKeeping,
  flush-IsKeeping, select-IsKeeping, get-IsKeeping, put-IsKeeping,
}

module _ {P F : Type 0} (B : Backend (Tables F)) (N : Floats F) (c : BenchmarkConfig F)
    (H : Host B.World P F) (T : Texts) (L : IsLawful B)
    (elapsed-IsQuiet : (w : B.World) → IsQuiet B w (H.elapsed_ms w).1) where
  open B use {World}

  after_delete :
      (correlation_id key : String) (keys : List String) (w : World) (x : Result (Unit {0}) × World)
      → Keeps B w x.1
      → ((v : World) → Keeps B v (delete_created B N c H T correlation_id keys v))
      → (s : String)
      → Keeps B w (
          delete_created B N c H T correlation_id keys
            (elim x.0 [ ok _ ↦ x.1 | err _ ↦ B.log_error s x.1 ]))
  after_delete correlation_id key keys w (ok _, v) h rest s =
      Keeps-trans B w v (delete_created B N c H T correlation_id keys v) h (rest v)
  after_delete correlation_id key keys w (err _, v) h rest s =
      Keeps-trans B w v (delete_created B N c H T correlation_id keys (B.log_error s v)) h (
        Keeps-trans B v (B.log_error s v)
          (delete_created B N c H T correlation_id keys (B.log_error s v))
          (IsQuiet-Keeps B L v (B.log_error s v) (L.log-IsQuiet s v)) (rest (B.log_error s v)))

  pub delete_created-Keeps :
      (correlation_id : String) (keys : List String) (w : World)
      → Keeps B w (delete_created B N c H T correlation_id keys w)
  unfolding delete_created
  delete_created-Keeps correlation_id [] w = Keeps-refl B w
  delete_created-Keeps correlation_id (key ∷ keys) w =
      after_delete correlation_id key keys w (delete B results_bucket key w)
        ((delete-IsKeeping B L key).keeps w) (delete_created-Keeps correlation_id keys)
        ("benchmark_orphan_result correlation_id=" <> correlation_id <> " key=" <> key)

  seed_target-IsKeeping : (target : ℕ → ExecutionTarget F) → IsKeeping B (seed_target B N c target)
  unfolding seed_target
  seed_target-IsKeeping target = >>=-IsKeeping B (gets B.next_id) _ (still B _) (λ fresh.
      >>=-IsKeeping B (select B (λ t. find_target (target fresh).slug t.targets)) _
        (select-IsKeeping B L (λ t. find_target (target fresh).slug t.targets))
        (λ existing.
          let row = target (elim existing [ none ↦ fresh | some old ↦ old.id ]) in
          >>=-IsKeeping B (modify (B.write (λ t. record t { targets = put_target row t.targets })))
            _ (modify-IsKeeping B L _) (λ _. pure-IsKeeping B row)))

  pub seed_catalog-IsKeeping : (spec : WorkloadSpec P F) → IsKeeping B (seed_catalog B N c spec)
  unfolding seed_catalog
  seed_catalog-IsKeeping spec = >>=-IsKeeping B (gets B.next_id) _ (still B _) (λ id.
      >>=-IsKeeping B (select B (λ t. find_workload spec.slug t.workloads)) _
        (select-IsKeeping B L (λ t. find_workload spec.slug t.workloads))
        (λ old.
          >>=-IsKeeping B
            (modify (
              B.write (λ t. record t {
                workloads = put_workload (workload_row id spec old) t.workloads;
              })))
            _ (modify-IsKeeping B L _)
            (λ _.
              >>=-IsKeeping B (seed_target B N c (ground_target B N c)) _
                (seed_target-IsKeeping (ground_target B N c))
                (λ ground.
                  >>=-IsKeeping B (seed_target B N c (edge_target c spec)) _
                    (seed_target-IsKeeping (edge_target c spec))
                    (λ edge.
                      >>=-IsKeeping B B.flush _ (flush-IsKeeping B L)
                        (λ _. pure-IsKeeping B (workload_row id spec old, ground, edge)))))))

  warm_up-IsKeeping :
      (n : ℕ) (run_fn : Bytes → Result P) (payload : Bytes)
      → IsKeeping B (warm_up N H n run_fn payload)
  unfolding warm_up
  warm_up-IsKeeping zero run_fn payload = still B _
  warm_up-IsKeeping (suc n) run_fn payload =
      >>=-IsKeeping B (lift (run_fn payload)) (λ _. warm_up N H n run_fn payload) (still B _)
        (λ _. warm_up-IsKeeping n run_fn payload)

  collect-IsKeeping :
      (n : ℕ) (run_fn : Bytes → Result P) (payload : Bytes) (samples : List F) (proxy : Option P)
      → IsKeeping B (collect N H n run_fn payload samples proxy)
  unfolding collect
  collect-IsKeeping zero run_fn payload samples proxy = still B _
  collect-IsKeeping (suc n) run_fn payload samples proxy =
      >>=-IsKeeping B (lift (run_fn payload)) _ (still B _) (λ p.
        >>=-IsKeeping B (λ w. (ok (H.elapsed_ms w).0, (H.elapsed_ms w).1)) _
          (record { keeps = λ w. IsQuiet-Keeps B L w (H.elapsed_ms w).1 (elapsed-IsQuiet w) })
          (λ ms. collect-IsKeeping n run_fn payload (samples ++ ms ∷ []) (some p)))

  simulated-IsKeeping :
      (target : ExecutionTarget F) (payload : Bytes) (spec : WorkloadSpec P F) (base : Option F)
      → IsKeeping B (simulated N H target payload spec base)
  unfolding simulated
  simulated-IsKeeping target payload spec none = still B _
  simulated-IsKeeping target payload spec (some b) =
      >>=-IsKeeping B (lift (spec.run payload)) _ (lift-IsKeeping B (spec.run payload))
        (λ _. pure-IsKeeping B _)

  measured-IsKeeping :
      (target : ExecutionTarget F) (payload : Bytes) (spec : WorkloadSpec P F)
      → IsKeeping B (measured N H target payload spec)
  unfolding measured
  measured-IsKeeping target payload spec =
      >>=-IsKeeping B (lift (dispatch N H target spec)) _ (still B _) (λ x.
        >>=-IsKeeping B (warm_up N H (min 100 spec.sample_iterations) x.0 payload) _
          (warm_up-IsKeeping (min 100 spec.sample_iterations) x.0 payload)
          (λ _.
            >>=-IsKeeping B (collect N H spec.sample_iterations x.0 payload [] none) _
              (collect-IsKeeping spec.sample_iterations x.0 payload [] none)
              (λ y.
                >>=-IsKeeping B (or_raise (H.median y.1) other) _
                  (or_raise-IsKeeping B (H.median y.1) other)
                  (λ m.
                    >>=-IsKeeping B (or_raise y.0 _) _ (or_raise-IsKeeping B y.0 _)
                      (λ z. pure-IsKeeping B _)))))

  timed-IsKeeping :
      (simulation : Bool) (target : ExecutionTarget F) (payload : Bytes) (spec : WorkloadSpec P F)
      (base : Option F)
      → IsKeeping B (
          if simulation
          then simulated N H target payload spec base
          else measured N H target payload spec)
  timed-IsKeeping true target payload spec base = simulated-IsKeeping target payload spec base
  timed-IsKeeping false target payload spec base = measured-IsKeeping target payload spec

  execute_target-IsKeeping :
      (target : ExecutionTarget F) (payload : Bytes) (spec : WorkloadSpec P F) (base : Option F)
      → IsKeeping B (execute_target N H target payload spec base)
  unfolding execute_target
  execute_target-IsKeeping target payload spec base =
      >>=-IsKeeping B _ _ (timed-IsKeeping target.is_simulated target payload spec base)
        (λ x. >>=-IsKeeping B (lift _) _ (lift-IsKeeping B _) (λ y. pure-IsKeeping B _))

  after_time :
      (w : World) (late : Bool) (e : Exn) (x : Result (Executed F) × World)
      → Keeps B w x.1
      → Keeps B w (if◌then◌else◌ {A = Result (Executed F) × World} late (err e, x.1) (x.0, x.1)).1
  after_time w true e x h = h
  after_time w false e x h = h

  execute_target_bounded-IsKeeping :
      (target : ExecutionTarget F) (payload : Bytes) (spec : WorkloadSpec P F) (base : Option F)
      → IsKeeping B (execute_target_bounded N H target payload spec base)
  unfolding execute_target_bounded
  execute_target_bounded-IsKeeping target payload spec base = record {
    keeps = λ w.
        let x = execute_target N H target payload spec base w in
        after_time w (H.timed_out x.1) _ x
          ((execute_target-IsKeeping target payload spec base).keeps w);
  }

  store_result-IsKeepingIn :
      (key : String) (bytes : Bytes) → IsKeepingIn B (store_result B N c H T key bytes)
  unfolding store_result
  store_result-IsKeepingIn key bytes =
      >>=-IsKeepingIn B (within (put B results_bucket key bytes (T.sha256 bytes))) _
        (within-IsKeepingIn B _ (put-IsKeeping B L key bytes (T.sha256 bytes)))
        (λ _.
          >>=-IsKeepingIn B (modify (λ a. record a { created_keys = a.created_keys ++ key ∷ [] })) _
            (record { keeps = λ a. Keeps-refl B a.world })
            (λ _.
              >>=-IsKeepingIn B (within (get B results_bucket key)) _
                (within-IsKeepingIn B _ (get-IsKeeping B L results_bucket key))
                (λ stored.
                  raise_if-IsKeepingIn B (not (str_eq (T.sha256 stored) (T.sha256 bytes)))
                    (benchmark_unavailable "Stored result checksum mismatch"))))

  run_target-IsKeepingIn :
      (correlation_id : String) (raw : Bytes) (spec : WorkloadSpec P F) (target : ExecutionTarget F)
      (base : Option F)
      → IsKeepingIn B (run_target B N c H T correlation_id raw spec target base)
  unfolding run_target
  run_target-IsKeepingIn correlation_id raw spec target base =
      >>=-IsKeepingIn B (within (execute_target_bounded N H target raw spec base)) _
        (within-IsKeepingIn B _ (execute_target_bounded-IsKeeping target raw spec base))
        (λ x.
          >>=-IsKeepingIn B _ _ (store_result-IsKeepingIn _ x.bytes)
            (λ _. >>=-IsKeepingIn B (lift _) _ (lift-IsKeepingIn B _) (λ y. pure-IsKeepingIn B _)))

  pub run_targets-IsKeepingIn :
      (correlation_id : String) (raw : Bytes) (spec : WorkloadSpec P F)
      (targets : List (ExecutionTarget F)) (base : Option F)
      → IsKeepingIn B (run_targets B N c H T correlation_id raw spec targets base)
  unfolding run_targets
  run_targets-IsKeepingIn correlation_id raw spec [] base = pure-IsKeepingIn B _
  run_targets-IsKeepingIn correlation_id raw spec (target ∷ rest) base =
      >>=-IsKeepingIn B _ _ (run_target-IsKeepingIn correlation_id raw spec target base) (λ x.
        >>=-IsKeepingIn B _ _ (run_targets-IsKeepingIn correlation_id raw spec rest x.1)
          (λ items. pure-IsKeepingIn B _))
