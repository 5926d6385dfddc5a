-- ===== src/Exec.antt =====
-- Python statements as actions: a state, and a value or an exception. What was done before a raise
-- stays done, so the state comes back beside the exception too.
pub mod Fails
use aries_space.Base.{
  arith, if◌then◌else◌, ◌≡◌, refl, ◌⊎◌, inl, inr, Bool, true, false, Option, none, some,
}
use aries_space.Exn.{Exn}

pub data Result (A : Type 0) : Type 0 where
  ok : A → Result A
  err : Exn → Result A

pub Result-cases : {A : Type 0} (r : Result A) → ((a : A) × (r ≡ ok a)) ⊎ ((e : Exn) × (r ≡ err e))
Result-cases (ok a) = inl (a, refl)
Result-cases (err e) = inr (e, refl)

-- What holds of a call that returned, and of one that raised.
abbrev pub Failed : {A : Type 0} → Result A → Type 0 → Type 0
Failed (ok _) P = Unit
Failed (err _) P = P

abbrev pub Done : {A : Type 0} → Result A → Type 0 → Type 0
Done (ok _) P = P
Done (err _) P = Unit

pub Failed_of : {A P : Type 0} (r : Result A) → P → Failed r P
Failed_of (ok _) h = tt
Failed_of (err _) h = h

pub Done_of : {A P : Type 0} (r : Result A) → P → Done r P
Done_of (ok _) h = h
Done_of (err _) h = tt

-- What holds of a returned value.
abbrev pub Returned : {A : Type 0} → Result A → (A → Type 0) → Type 0
Returned (ok a) P = P a
Returned (err _) P = Unit

pub Done-map : {A P Q : Type 0} (r : Result A) → (P → Q) → Done r P → Done r Q
Done-map (ok _) f h = f h
Done-map (err _) f h = tt

abbrev pub exception : {A : Type 0} → Result A → Option Exn
exception (ok _) = none
exception (err e) = some e

abbrev pub Exec : Type 0 → Type 0 → Type 0
Exec W A = W → Result A × W

module _ {W A : Type 0} where
  abbrev pub pure : A → Exec W A
  pure a w = (ok a, w)

  abbrev pub raise : Exn → Exec W A
  raise e w = (err e, w)

  abbrev pub lift : Result A → Exec W A
  lift r w = (r, w)

  abbrev pub gets : (W → A) → Exec W A
  gets f w = (ok (f w), w)

  -- `try: m` with one handler for every exception; the handler re-raises what it does not catch.
  abbrev pub try_except : Exec W A → (Exn → Exec W A) → Exec W A
  try_except m handler w = let (r, w') = m w in elim r [ ok a ↦ (ok a, w') | err e ↦ handler e w' ]

  abbrev pub or_raise : Option A → Exn → Exec W A
  or_raise none e w = (err e, w)
  or_raise (some a) e w = (ok a, w)

abbrev pub modify : {W : Type 0} → (W → W) → Exec W (Unit {0})
modify f w = (ok tt, f w)

abbrev pub raise_if : {W : Type 0} → Bool → Exn → Exec W (Unit {0})
raise_if true e w = (err e, w)
raise_if false e w = (ok tt, w)

infixl 5 ◌>>=◌ ◌>>◌
abbrev pub ◌>>=◌ : {W A B : Type 0} → Exec W A → (A → Exec W B) → Exec W B
◌>>=◌ m f w = let (r, w') = m w in elim r [ ok a ↦ f a w' | err e ↦ (err e, w') ]

abbrev pub ◌>>◌ : {W B : Type 0} → Exec W (Unit {0}) → Exec W B → Exec W B
m >> k = m >>= λ _. k

-- `try: m` with handlers, and an `else` part that they do not guard.
abbrev pub try_else : {W A B : Type 0} → Exec W A → (Exn → Exec W B) → (A → Exec W B) → Exec W B
try_else m handler rest w = let (r, w') = m w in elim r [ ok a ↦ rest a w' | err e ↦ handler e w' ]

-- What always raises gives its exception and its state to the statements around it.
pub >>-raises :
    {W A : Type 0} (m : Exec W (Unit {0})) (k : Exec W A) (w : W)
    → Done (m w).0 ⊥
    → (exception ((m >> k) w).0 ≡ exception (m w).0) × (((m >> k) w).1 ≡ (m w).1)
>>-raises m k w h = ground arith

-- What both branches return.
pub Returned-if :
    {W A : Type 0} (P : A → Type 0) (b : Bool) (m k : Exec W A) (w : W)
    → Returned (m w).0 P
    → Returned (k w).0 P
    → Returned ((if◌then◌else◌ b m k) w).0 P
Returned-if P true m k w h g = h
Returned-if P false m k w h g = g

-- A statement and what follows it: what holds of every exception holds of both together when it
-- holds of what follows each returned value.
pub >>=-follows :
    {W A B : Type 0} (Q : Result B × W → Type 0) (m : Exec W A) (f : A → Exec W B) (w : W)
    → ((e : Exn) (v : W) → Q (err e, v))
    → ((a : A) → (m w).0 ≡ ok a → Q (f a (m w).1))
    → Q ((m >>= f) w)
>>=-follows Q m f w raised h = elim (Result-cases (m w).0) [
  | inl (a, g) ↦ ground (arith, g, h a g)
  | inr (e, g) ↦ ground (arith, g, raised e (m w).1)
]
