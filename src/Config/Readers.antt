-- ===== src/Config/Readers.antt =====
-- services/api/aries_api/config.py: what the readers of settings give, and steps that raise nothing
-- but the exceptions of the module.
use aries_space.Base.{
  Bool, true, false, not, ◌≡◌, refl, inl, inr, String, arith, Option-cases, if◌then◌else◌,
}
use aries_space.Base.Int.{ℤ}
use aries_space.Exec.{Result, ok, err}
use aries_space.Exn.{Exn, configuration_error, value_error, zero_division_error}
use aries_space.Floats.{Floats}
use aries_space.Fallible.{raise_when, ◌>>=◌}
use aries_space.Config.{
  Environment, required_env, float_env, int_env, bool_env, validate_range, validate_positive,
  is_positive,
}
use aries_space.Config.Load.{positive_env, range_env}

-- A ValueError, of which ConfigurationError is one, or a ZeroDivisionError.
abbrev pub is_expected : Exn → Bool
is_expected (configuration_error _) = true
is_expected value_error = true
is_expected zero_division_error = true
is_expected _ = false

-- What holds of the value, or the exceptions that may come instead.
abbrev pub Outcome : {A : Type 0} → (A → Type 0) → Result A → Type 0
Outcome P (ok a) = P a
Outcome P (err e) = is_expected e ≡ true

-- A call that comes out so.
pub record Succeeds {A : Type 0} (P : A → Type 0) (m : Result A) : Type 0 where
  pub outcome : Outcome P m

pub >>=-Succeeds :
    {A B : Type 0} {Q : A → Type 0} {P : B → Type 0} (m : Result A) (f : A → Result B)
    → Succeeds Q m
    → ((a : A) → Q a → Succeeds P (f a))
    → Succeeds P (m >>= f)
>>=-Succeeds (ok a) f h g = g a h.outcome
>>=-Succeeds (err e) f h g = record { outcome = h.outcome }

pub raise_when-Succeeds :
    (b : Bool) (e : Exn) → is_expected e ≡ true → Succeeds (λ _. b ≡ false) (raise_when b e)
unfolding raise_when
raise_when-Succeeds true e h = record { outcome = h }
raise_when-Succeeds false e h = record { outcome = refl }

pub return-Succeeds : {A : Type 0} {P : A → Type 0} (a : A) → P a → Succeeds P (ok a)
return-Succeeds a h = record { outcome = h }

pub not-false : (b : Bool) → not b ≡ false → b ≡ true
not-false true h = refl
not-false false h = ground (arith, h)

abbrev pub Anything : {A : Type 0} → A → Type 0
Anything _ = Unit

abbrev pub IsPositive : ℤ → Type 0
IsPositive n = is_positive n ≡ true

module _ {F : Type 0} (E : Environment F) (N : Floats F) where
  -- Finite and within two bounds.
  abbrev pub IsWithin : F → F → F → Type 0
  IsWithin low high x = (N.isfinite x ≡ true) × (N.lt x low ≡ false) × (N.lt high x ≡ false)

  pub int_env-Succeeds : (name : String) (d : ℤ) → Succeeds Anything (int_env E name d)
  unfolding int_env
  int_env-Succeeds name d = elim (Option-cases (E.environ name)) [
    | inl h ↦ record { outcome = ground (arith, h) }
    | inr (v, h) ↦ elim (Option-cases (E.read_int v)) [
      | inl g ↦ record { outcome = ground (arith, h, g) }
      | inr (x, g) ↦ record { outcome = ground (arith, h, g) }
    ]
  ]

  pub float_env-Succeeds : (name : String) (d : F) → Succeeds Anything (float_env E name d)
  unfolding float_env
  float_env-Succeeds name d = elim (Option-cases (E.environ name)) [
    | inl h ↦ record { outcome = ground (arith, h) }
    | inr (v, h) ↦ elim (Option-cases (E.read_float v)) [
      | inl g ↦ record { outcome = ground (arith, h, g) }
      | inr (x, g) ↦ record { outcome = ground (arith, h, g) }
    ]
  ]

  pub positive_env-Succeeds :
      (name : String) (d : ℤ) → Succeeds IsPositive (positive_env E N name d)
  unfolding positive_env validate_positive
  positive_env-Succeeds name d =
      >>=-Succeeds (int_env E name d) _ (int_env-Succeeds name d)
        (λ v _. record { outcome = ground arith })

  pub range_env-Succeeds :
      (name : String) (d low high : F)
      → Succeeds (IsWithin low high) (range_env E N name d low high)
  unfolding range_env validate_range
  range_env-Succeeds name d low high =
      >>=-Succeeds (float_env E name d) _ (float_env-Succeeds name d)
        (λ v _. record { outcome = ground arith })

  pub required_env-Succeeds : (name : String) → Succeeds Anything (required_env E name)
  unfolding required_env
  required_env-Succeeds name = record { outcome = ground arith }

  choice-Succeeds :
      (on off : Bool) (e : Exn)
      → is_expected e ≡ true
      → Succeeds Anything (if on then ok true else if off then ok false else err e)
  choice-Succeeds true off e h = record { outcome = tt }
  choice-Succeeds false true e h = record { outcome = tt }
  choice-Succeeds false false e h = record { outcome = h }

  pub bool_env-Succeeds : (name : String) (d : Bool) → Succeeds Anything (bool_env E name d)
  unfolding bool_env
  bool_env-Succeeds name d = elim (Option-cases (E.environ name)) [
    | inl h ↦ rw (h, bool_env) (record { outcome = tt })
    | inr (v, h) ↦ rw (h, bool_env) (choice-Succeeds _ _ _ refl)
  ]
