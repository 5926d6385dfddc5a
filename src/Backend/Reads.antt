-- ===== src/Backend/Reads.antt =====
-- Queries and other steps that change nothing, in front of an action: how the two of them fail.
use aries_space.Base.{
  ◌≡◌, refl, ◌∙◌, ◌⊎◌, inl, inr, Bool, true, false, Option, none, some, String, if◌then◌else◌,
}
use aries_space.Exn.{Exn, sqlalchemy_error}
use aries_space.Exec.{
  Exec, Result, ok, err, pure, gets, raise, raise_if, or_raise, try_except, ◌>>=◌,
}
use aries_space.Exec.Fails.{FailsWith}
use aries_space.Backend.{Backend, select}
use aries_space.Backend.Laws.{IsLawful, IsQuiet, OnlySqlalchemy}

module _ {T : Type 0} (B : Backend T) (p : Exn → Bool) where
  open B use {World, object, pending, durable}

  -- An exception is an expected one, or a query's `SQLAlchemyError` before anything has changed.
  abbrev pub Allowed : {A : Type 0} → World → Result A × World → Type 0
  Allowed w (ok _, v) = Unit
  Allowed w (err e, v) = (p e ≡ true) ⊎ ((e ≡ sqlalchemy_error) × IsQuiet B w v)

  pub record Allows {A : Type 0} (m : Exec World A) : Type 0 where
    pub allowed : (w : World) → Allowed w (m w)

  -- A step that changes nothing, and how it fails.
  abbrev Read : {A : Type 0} → World → Result A × World → Type 0
  Read w x = IsQuiet B w x.1 × Allowed w x

  pub record Reads {A : Type 0} (m : Exec World A) : Type 0 where
    pub reads : (w : World) → Read w (m w)

  IsQuiet-refl : (w : World) → IsQuiet B w w
  IsQuiet-refl w = record { objects = refl; tables = refl; committed = refl }

  IsQuiet-trans : (u v w : World) → IsQuiet B u v → IsQuiet B v w → IsQuiet B u w
  IsQuiet-trans u v w h g = record {
    objects = g.objects ∙ h.objects;
    tables = g.tables ∙ h.tables;
    committed = g.committed ∙ h.committed;
  }

  Allowed-weaken :
      {A : Type 0} (w v : World) (x : Result A × World) → IsQuiet B w v → Allowed v x → Allowed w x
  Allowed-weaken w v (ok _, u) q h = tt
  Allowed-weaken w v (err e, u) q (inl h) = inl h
  Allowed-weaken w v (err e, u) q (inr (h, g)) = inr (h, IsQuiet-trans w v u q g)

  then-Allowed :
      {A C : Type 0} (w : World) (x : Result A × World) (f : A → Exec World C)
      → Read w x
      → ((y : A) → Allows (f y))
      → Allowed w (((λ _. x) >>= f) w)
  then-Allowed w (ok y, v) f (q, _) h = Allowed-weaken w v (f y v) q ((h y).allowed v)
  then-Allowed w (err e, v) f (_, a) h = a

  pub >>=-Allows :
      {A C : Type 0} (m : Exec World A) (f : A → Exec World C)
      → Reads m
      → ((y : A) → Allows (f y))
      → Allows (m >>= f)
  >>=-Allows m f hm hf = record { allowed = λ w. then-Allowed w (m w) f (hm.reads w) hf }

  then-Read :
      {A C : Type 0} (w : World) (x : Result A × World) (f : A → Exec World C)
      → Read w x
      → ((y : A) → Reads (f y))
      → Read w (((λ _. x) >>= f) w)
  then-Read w (ok y, v) f (q, _) h =
      let (r, a) = (h y).reads v in
      (IsQuiet-trans w v (f y v).1 q r, Allowed-weaken w v (f y v) q a)
  then-Read w (err e, v) f (q, a) h = (q, a)

  pub >>=-Reads :
      {A C : Type 0} (m : Exec World A) (f : A → Exec World C)
      → Reads m
      → ((y : A) → Reads (f y))
      → Reads (m >>= f)
  >>=-Reads m f hm hf = record { reads = λ w. then-Read w (m w) f (hm.reads w) hf }

  pub FailsWith-Allows :
      {A : Type 0} (m : Exec World A) → ((w : World) → FailsWith p (m w).0) → Allows m
  FailsWith-Allows m h = record { allowed = λ w. expected w (m w) (h w) }
    where
      expected : {A : Type 0} (w : World) (x : Result A × World) → FailsWith p x.0 → Allowed w x
      expected w (ok _, v) h = tt
      expected w (err e, v) h = inl h

  pub gets-Reads : {A : Type 0} (f : World → A) → Reads (gets f)
  gets-Reads f = record { reads = λ w. (IsQuiet-refl w, tt) }

  pub pure-Reads : {A : Type 0} (x : A) → Reads (pure x)
  pure-Reads x = record { reads = λ w. (IsQuiet-refl w, tt) }

  pub or_raise-Reads : {A : Type 0} (o : Option A) (e : Exn) → p e ≡ true → Reads (or_raise o e)
  or_raise-Reads none e h = record { reads = λ w. (IsQuiet-refl w, inl h) }
  or_raise-Reads (some x) e h = record { reads = λ w. (IsQuiet-refl w, tt) }

  pub raise_if-Reads : (b : Bool) (e : Exn) → p e ≡ true → Reads (raise_if b e)
  raise_if-Reads true e h = record { reads = λ w. (IsQuiet-refl w, inl h) }
  raise_if-Reads false e h = record { reads = λ w. (IsQuiet-refl w, tt) }

  pub if-Reads :
      {A : Type 0} (b : Bool) (m k : Exec World A) → Reads m → Reads k → Reads (if b then m else k)
  if-Reads true m k h g = h
  if-Reads false m k h g = g

  session_error :
      (w : World) (x : Result (Unit {0}) × World)
      → IsQuiet B w x.1
      → OnlySqlalchemy x.0
      → Allowed w x
  session_error w (ok _, v) q h = tt
  session_error w (err e, v) q h = inr (h, q)

  instead :
      {A : Type 0} (w : World) (x : Result A × World) (e : Exn)
      → p e ≡ true
      → IsQuiet B w x.1
      → Read w (try_except (λ _. x) (λ _. raise e) w)
  instead w (ok y, v) e h q = (q, tt)
  instead w (err _, v) e h q = (q, inl h)

  pub raise_instead-Reads :
      {A : Type 0} (m : Exec World A) (e : Exn)
      → p e ≡ true
      → ((w : World) → IsQuiet B w (m w).1)
      → Reads (try_except m (λ _. raise e))
  raise_instead-Reads m e h q = record { reads = λ w. instead w (m w) e h (q w) }

  module _ (L : IsLawful B) where
    pub select-Reads : {A : Type 0} (f : T → A) → Reads (select B f)
    select-Reads f =
        >>=-Reads B.read (λ _. gets (λ w. f (pending w)))
          (record {
            reads = λ w.
                (L.read-IsQuiet w, session_error w (B.read w) (L.read-IsQuiet w) (L.read-error w));
          })
          (λ _. gets-Reads (λ w. f (pending w)))

    pub advisory_lock-Reads : (s : String) → Reads (B.advisory_lock s)
    advisory_lock-Reads s = record {
      reads = λ w. (
        L.lock-IsQuiet s w,
        session_error w (B.advisory_lock s w) (L.lock-IsQuiet s w) (L.lock-error s w),
      );
    }
