-- ===== src/Exec/Fails.antt =====
-- Actions that raise no exceptions but some.
use aries_space.Base.{◌≡◌, inl, inr, Bool, true, arith}
use aries_space.Exn.{Exn}
use aries_space.Exec.{Result, ok, err, Exec, Result-cases, pure, raise_if, lift, ◌>>=◌}

abbrev pub FailsWith : {A : Type 0} → (Exn → Bool) → Result A → Type 0
FailsWith p (ok _) = Unit
FailsWith p (err e) = p e ≡ true

-- An action that fails in no other way.
pub record Fails {W A : Type 0} (p : Exn → Bool) (m : Exec W A) : Type 0 where
  pub fails : (w : W) → FailsWith p (m w).0

pub >>=-Fails_from :
    {W A B : Type 0} {p : Exn → Bool} (m : Exec W A) (f : A → Exec W B)
    → Fails p m
    → ((a : A) (w : W) → (m w).0 ≡ ok a → Fails p (f a))
    → Fails p (m >>= f)
>>=-Fails_from m f h g = record {
  fails = λ w. elim (Result-cases (m w).0) [
    | inl (a, e) ↦ ground (arith, e, (g a w e).fails (m w).1)
    | inr (x, e) ↦ ground (arith, e, h.fails w)
  ];
}

pub >>=-Fails :
    {W A B : Type 0} {p : Exn → Bool} (m : Exec W A) (f : A → Exec W B)
    → Fails p m
    → ((a : A) → Fails p (f a))
    → Fails p (m >>= f)
>>=-Fails m f h g = >>=-Fails_from m f h (λ a w e. g a)

pub raise_if-Fails :
    {W : Type 0} {p : Exn → Bool} (b : Bool) (e : Exn) → p e ≡ true → Fails {W = W} p (raise_if b e)
raise_if-Fails b e h = record { fails = λ w. ground (arith, h) }

pub pure-Fails : {W A : Type 0} {p : Exn → Bool} (a : A) → Fails {W = W} p (pure a)
pure-Fails a = record { fails = λ w. tt }

pub lift-Fails :
    {W A : Type 0} {p : Exn → Bool} (r : Result A) → FailsWith p r → Fails {W = W} p (lift r)
lift-Fails r h = record { fails = λ w. h }
