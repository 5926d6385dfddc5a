-- ===== src/Sentinel2/Serving.antt =====
-- Actions of services/api/aries_api/sentinel2_ingest.py that raise a KeyError or an
-- IngestUnavailableError, or nothing.
use aries_space.Base.{
  Bool, true, false, Option, none, some, ◌≡◌, refl, sym, subst, arith, Bool-cases, inl, inr,
  if◌then◌else◌,
}
use aries_space.Exec.{
  Exec, Result, ok, err, gets, modify, pure, raise, raise_if, or_raise, try_except, try_else, ◌>>=◌,
  ◌>>◌,
}
use aries_space.Exn.{Exn, key_error, ingest_unavailable, sqlalchemy_error, is_not_found}
use aries_space.Exec.Fails.{FailsWith}
use aries_space.Backend.Laws.{OnlySqlalchemy}
use aries_space.Sentinel2.{unverified}

-- What the endpoint turns into a status: 404 or 503.
abbrev pub is_crop_error : Exn → Bool
is_crop_error key_error = true
is_crop_error (ingest_unavailable _) = true
is_crop_error _ = false

abbrev pub IsServed : {A : Type 0} → Result A → Type 0
IsServed = FailsWith is_crop_error

pub record IsServing {W A : Type 0} (m : Exec W A) : Type 0 where
  pub served : (w : W) → IsServed (m w).0

pub then-IsServed :
    {W A C : Type 0} (w : W) (x : Result A × W) (f : A → Exec W C)
    → IsServed x.0
    → ((y : A) → IsServing (f y))
    → IsServed (((λ _. x) >>= f) w).0
then-IsServed w (ok y, v) f h hf = (hf y).served v
then-IsServed w (err e, v) f h hf = h

pub >>=-IsServing :
    {W A C : Type 0} (m : Exec W A) (f : A → Exec W C)
    → IsServing m
    → ((y : A) → IsServing (f y))
    → IsServing (m >>= f)
>>=-IsServing m f hm hf = record { served = λ w. then-IsServed w (m w) f (hm.served w) hf }

pub pure-IsServing : {W A : Type 0} (x : A) → IsServing {W = W} (pure x)
pure-IsServing x = record { served = λ w. tt }

pub gets-IsServing : {W A : Type 0} (f : W → A) → IsServing (gets f)
gets-IsServing f = record { served = λ w. tt }

pub modify-IsServing : {W : Type 0} (f : W → W) → IsServing (modify f)
modify-IsServing f = record { served = λ w. tt }

pub raise_if-IsServing :
    {W : Type 0} (b : Bool) (e : Exn) → is_crop_error e ≡ true → IsServing {W = W} (raise_if b e)
raise_if-IsServing true e h = record { served = λ w. h }
raise_if-IsServing false e h = record { served = λ w. tt }

pub caught :
    {W A : Type 0} (x : Result A × W) (k : Exn → Exec W A) (w : W)
    → ((e : Exn) → IsServing (k e))
    → IsServed (try_except (λ _. x) k w).0
caught (ok y, v) k w h = tt
caught (err e, v) k w h = (h e).served v

pub try_except-IsServing :
    {W A : Type 0} (m : Exec W A) (k : Exn → Exec W A)
    → ((e : Exn) → IsServing (k e))
    → IsServing (try_except m k)
try_except-IsServing m k h = record { served = λ w. caught (m w) k w h }

pub branched :
    {W A C : Type 0} (x : Result A × W) (k : Exn → Exec W C) (f : A → Exec W C) (w : W)
    → ((e : Exn) → IsServing (k e))
    → ((y : A) → IsServing (f y))
    → IsServed (try_else (λ _. x) k f w).0
branched (ok y, v) k f w h g = (g y).served v
branched (err e, v) k f w h g = (h e).served v

pub try_else-IsServing :
    {W A C : Type 0} (m : Exec W A) (k : Exn → Exec W C) (f : A → Exec W C)
    → ((e : Exn) → IsServing (k e))
    → ((y : A) → IsServing (f y))
    → IsServing (try_else m k f)
try_else-IsServing m k f h g = record { served = λ w. branched (m w) k f w h g }

pub raise-IsServing :
    {W A : Type 0} (e : Exn) → is_crop_error e ≡ true → IsServing {W = W} {A = A} (raise e)
raise-IsServing e h = record { served = λ w. h }

pub if-IsServing :
    {W A : Type 0} (b : Bool) (m k : Exec W A)
    → IsServing m
    → IsServing k
    → IsServing (if b then m else k)
if-IsServing true m k h g = h
if-IsServing false m k h g = g

pub or_raise-IsServing : {W A : Type 0} (o : Option A) → IsServing {W = W} (or_raise o key_error)
or_raise-IsServing none = record { served = λ w. refl }
or_raise-IsServing (some x) = record { served = λ w. tt }

pub unverified-is_crop_error : (e : Exn) → is_crop_error (unverified e) ≡ true
unverified-is_crop_error e = elim (Bool-cases (is_not_found e)) [
  | inl h ↦ ground (arith, h)
  | inr h ↦ ground (arith, h)
]

pub only :
    {W : Type 0} (x : Result (Unit {0}) × W) (k : Exn → Exec W (Unit {0})) (w : W)
    → OnlySqlalchemy x.0
    → IsServing (k sqlalchemy_error)
    → IsServed (try_except (λ _. x) k w).0
only (ok y, v) k w o h = tt
only (err e, v) k w o h = subst (λ x. IsServed (k x v).0) (sym o) (h.served v)

pub both :
    {W : Type 0} (w : W) (x : Result (Unit {0}) × W) (m : Exec W (Unit {0}))
    → OnlySqlalchemy x.0
    → ((v : W) → OnlySqlalchemy (m v).0)
    → OnlySqlalchemy (((λ _. x) >> m) w).0
both w (ok y, v) m o h = h v
both w (err e, v) m o h = o
