-- ===== src/Fallible.antt =====
-- Computations that may raise and that change no state: what follows a value is skipped by an
-- exception.
use aries_space.Base.{◌&&◌, not, if◌then◌else◌, Bool, true, false, Option, none, some}
use aries_space.Exn.{Exn, zero_division_error}
use aries_space.Exec.{Result, ok, err, Returned}
use aries_space.Floats.{Floats}

infixl 5 ◌>>=◌
abbrev pub ◌>>=◌ : {A B : Type 0} → Result A → (A → Result B) → Result B
ok a >>= f = f a
err e >>= f = err e

abbrev pub return : {A : Type 0} → A → Result A
return a = ok a

-- `if b: raise e`
unfoldable pub raise_when : Bool → Exn → Result (Unit {0})
raise_when true e = err e
raise_when false e = ok tt

abbrev pub value_or : {A : Type 0} → Exn → Option A → Result A
value_or e none = err e
value_or e (some a) = ok a

module _ {F : Type 0} (N : Floats F) where
  -- `a / b`; a quotient by zero is a `ZeroDivisionError`.
  abbrev pub is_zero : F → Bool
  is_zero x = N.isfinite x && not (N.lt x (N.of_ℕ 0)) && not (N.lt (N.of_ℕ 0) x)

  unfoldable pub divide : F → F → Result F
  divide a b = if is_zero b then err zero_division_error else ok (N.div a b)

-- What every value that comes out satisfies.
pub record Gives {A : Type 0} (P : A → Type 0) (m : Result A) : Type 0 where
  pub returned : Returned m P

pub >>=-Gives :
    {A B : Type 0} {P : B → Type 0} (m : Result A) (f : A → Result B)
    → ((a : A) → Gives P (f a))
    → Gives P (m >>= f)
>>=-Gives (ok a) f g = g a
>>=-Gives (err e) f g = record { returned = tt }
