-- ===== src/Benchmarks/Keeps.antt =====
-- What every step of services/api/aries_api/benchmarks.py's `run_benchmark_pair` leaves alone: the
-- committed tables and the raw bucket.
pub mod Run
use aries_space.Base.{
  ℕ, zero, suc, String, Bool, true, false, Option, none, some, List, [], ◌∷◌, ◌++◌, if◌then◌else◌,
  not, ◌≡◌, refl, ap, ◌<>◌, ◌∙◌, min, str_eq,
}
use aries_space.Exec.{
  Exec, Result, ok, err, lift, gets, modify, pure, or_raise, raise_if, raise, try_except, ◌>>=◌,
}
use aries_space.Exn.{Exn, other, benchmark_unavailable}
use aries_space.Floats.{Floats}
use aries_space.Models.{Tables, ExecutionTarget}
use aries_space.Backend.{select, Backend, Bytes}
use aries_space.Backend.Laws.{IsQuiet, IsLawful}
use aries_space.Storage.{get, put, delete, minio_raw_bucket}
use aries_space.Benchmarks.Registry.{BenchmarkConfig, WorkloadSpec, results_bucket}
use aries_space.Benchmarks.Catalog.{
  seed_catalog, seed_target, find_workload, put_workload, workload_row, ground_target, edge_target,
}
use aries_space.Benchmarks.Execute.{
  Host, Executed, dispatch, execute_target, execute_target_bounded, measured, simulated, warm_up,
  collect,
}
use aries_space.Benchmarks.Rows.{Attempt, within, Texts}
use aries_space.Benchmarks.Pair.{store_result, run_target, run_targets, delete_created}

module _ {F : Type 0} (B : Backend (Tables F)) where
  open B use {World, object, durable}

  pub record Keeps (w w' : World) : Type 0 where
    pub raw : (k : String) → object w' minio_raw_bucket k ≡ object w minio_raw_bucket k
    pub committed : durable w' ≡ durable w

  pub Keeps-refl : (w : World) → Keeps w w
  Keeps-refl w = record { raw = λ k. refl; committed = refl }

  pub Keeps-trans : (u v w : World) → Keeps u v → Keeps v w → Keeps u w
  Keeps-trans u v w h g = record {
    raw = λ k. g.raw k ∙ h.raw k;
    committed = g.committed ∙ h.committed;
  }

  pub record IsKeeping {A : Type 0} (m : Exec World A) : Type 0 where
    pub keeps : (w : World) → Keeps w (m w).1

  -- The same of an action on the attempt.
  pub record IsKeepingIn {A : Type 0} (m : Exec (Attempt World) A) : Type 0 where
    pub keeps : (a : Attempt World) → Keeps a.world (m a).1.world

  then-Keeps :
      {A C : Type 0} (w : World) (x : Result A × World) (f : A → Exec World C)
      → Keeps w x.1
      → ((y : A) → IsKeeping (f y))
      → Keeps w (((λ _. x) >>= f) w).1
  then-Keeps w (ok y, w') f h hf = Keeps-trans w w' (f y w').1 h ((hf y).keeps w')
  then-Keeps w (err e, w') f h hf = h

  pub >>=-IsKeeping :
      {A C : Type 0} (m : Exec World A) (f : A → Exec World C)
      → IsKeeping m
      → ((x : A) → IsKeeping (f x))
      → IsKeeping (m >>= f)
  >>=-IsKeeping m f hm hf = record { keeps = λ w. then-Keeps w (m w) f (hm.keeps w) hf }

  then-Keeps_in :
      {A C : Type 0} (a : Attempt World) (x : Result A × Attempt World)
      (f : A → Exec (Attempt World) C)
      → Keeps a.world x.1.world
      → ((y : A) → IsKeepingIn (f y))
      → Keeps a.world (((λ _. x) >>= f) a).1.world
  then-Keeps_in a (ok y, b) f h hf = Keeps-trans a.world b.world (f y b).1.world h ((hf y).keeps b)
  then-Keeps_in a (err e, b) f h hf = h

  pub >>=-IsKeepingIn :
      {A C : Type 0} (m : Exec (Attempt World) A) (f : A → Exec (Attempt World) C)
      → IsKeepingIn m
      → ((x : A) → IsKeepingIn (f x))
      → IsKeepingIn (m >>= f)
  >>=-IsKeepingIn m f hm hf = record { keeps = λ a. then-Keeps_in a (m a) f (hm.keeps a) hf }

  pub still : {A : Type 0} (r : World → Result A) → IsKeeping (λ w. (r w, w))
  still r = record { keeps = Keeps-refl }

  pub pure-IsKeeping : {A : Type 0} (x : A) → IsKeeping (pure x)
  pure-IsKeeping x = record { keeps = Keeps-refl }

  pub lift-IsKeeping : {A : Type 0} (r : Result A) → IsKeeping (lift r)
  lift-IsKeeping r = record { keeps = Keeps-refl }

  pub or_raise-IsKeeping : {A : Type 0} (o : Option A) (e : Exn) → IsKeeping (or_raise o e)
  or_raise-IsKeeping none e = record { keeps = Keeps-refl }
  or_raise-IsKeeping (some x) e = record { keeps = Keeps-refl }

  pub raise_if-IsKeeping : (b : Bool) (e : Exn) → IsKeeping (raise_if b e)
  raise_if-IsKeeping true e = record { keeps = Keeps-refl }
  raise_if-IsKeeping false e = record { keeps = Keeps-refl }

  recovered :
      {A : Type 0} (w : World) (x : Result A × World) (e : Exn)
      → Keeps w x.1
      → Keeps w (try_except (λ _. x) (λ _. raise e) w).1
  recovered w (ok y, v) e h = h
  recovered w (err _, v) e h = h

  pub if-IsKeeping :
      {A : Type 0} (b : Bool) (m k : Exec World A)
      → IsKeeping m
      → IsKeeping k
      → IsKeeping (if b then m else k)
  if-IsKeeping true m k h g = h
  if-IsKeeping false m k h g = g

  pub raise_instead-IsKeeping :
      {A : Type 0} (m : Exec World A) (e : Exn)
      → IsKeeping m
      → IsKeeping (try_except m (λ _. raise e))
  raise_instead-IsKeeping m e h = record { keeps = λ w. recovered w (m w) e (h.keeps w) }

  pub pure-IsKeepingIn : {A : Type 0} (x : A) → IsKeepingIn (pure x)
  pure-IsKeepingIn x = record { keeps = λ a. Keeps-refl a.world }

  pub lift-IsKeepingIn : {A : Type 0} (r : Result A) → IsKeepingIn (lift r)
  lift-IsKeepingIn r = record { keeps = λ a. Keeps-refl a.world }

  pub raise_if-IsKeepingIn : (b : Bool) (e : Exn) → IsKeepingIn (raise_if b e)
  raise_if-IsKeepingIn true e = record { keeps = λ a. Keeps-refl a.world }
  raise_if-IsKeepingIn false e = record { keeps = λ a. Keeps-refl a.world }

  pub within-IsKeepingIn : {A : Type 0} (m : Exec World A) → IsKeeping m → IsKeepingIn (within m)
  within-IsKeepingIn m h = record { keeps = λ a. h.keeps a.world }

  module _ (L : IsLawful B) where
    pub IsQuiet-Keeps : (w w' : World) → IsQuiet B w w' → Keeps w w'
    IsQuiet-Keeps w w' q = record {
      raw = λ k. ap (λ o. o minio_raw_bucket k) q.objects;
      committed = q.committed;
    }

    pub write-Keeps : (f : Tables F → Tables F) (w : World) → Keeps w (B.write f w)
    write-Keeps f w = record {
      raw = λ k. ap (λ o. o minio_raw_bucket k) (L.write-object f w);
      committed = L.write-durable f w;
    }

    pub modify-IsKeeping : (f : Tables F → Tables F) → IsKeeping (modify (B.write f))
    modify-IsKeeping f = record { keeps = write-Keeps f }

    pub flush-IsKeeping : IsKeeping B.flush
    flush-IsKeeping = record { keeps = λ w. IsQuiet-Keeps w (B.flush w).1 (L.flush-IsQuiet w) }

    pub select-IsKeeping : {A : Type 0} (f : Tables F → A) → IsKeeping (select B f)
    select-IsKeeping f =
        >>=-IsKeeping B.read (λ _. gets (λ w. f (B.pending w)))
          (record { keeps = λ w. IsQuiet-Keeps w (B.read w).1 (L.read-IsQuiet w) }) (λ _. still _)

    pub rollback-Keeps : (w : World) → Keeps w (B.rollback w)
    rollback-Keeps w = record {
      raw = λ k. ap (λ o. o minio_raw_bucket k) (L.rollback-object w);
      committed = L.rollback-durable w;
    }

    pub get-IsKeeping : (b k : String) → IsKeeping (get B b k)
    unfolding get
    get-IsKeeping b k = record {
      keeps = λ w. IsQuiet-Keeps w (B.get_object b k w).1 (L.get-IsQuiet b k w);
    }

    pub put-IsKeeping :
        (k : String) (p : Bytes) (m : String) → IsKeeping (put B results_bucket k p m)
    unfolding put
    put-IsKeeping k p m = record {
      keeps = λ w. record {
        raw = λ k'. L.put-others results_bucket k p m w minio_raw_bucket k' refl;
        committed = L.put-durable results_bucket k p m w;
      };
    }

    pub delete-IsKeeping : (k : String) → IsKeeping (delete B results_bucket k)
    unfolding delete
    delete-IsKeeping k = record {
      keeps = λ w. record {
        raw = λ k'. L.remove-others results_bucket k w minio_raw_bucket k' refl;
        committed = L.remove-durable results_bucket k w;
      };
    }
