-- ===== src/Floats.antt =====
-- Python's floats: the operations that the program uses, as a parameter, and the facts of IEEE 754
-- arithmetic that its economics rest on. Rounding is monotone, so sums, products, differences and
-- quotients are; comparisons of finite numbers are a total order.
use aries_space.Base.{
  ℕ, ◌+◌, ◌*◌, ◌-◌, ◌/◌, ◌<◌, zero, suc, ◌≡◌, refl, Bool, true, false, ltb, arith, if◌then◌else◌,
}

pub record Floats (F : Type 0) : Type 0 where
  pub of_ℕ : ℕ → F
  pub add : F → F → F
  pub sub : F → F → F
  pub mul : F → F → F
  pub div : F → F → F
  pub isfinite : F → Bool
  pub lt : F → F → Bool
  -- `round(x, 6)`
  pub round6 : F → F

module _ {F : Type 0} (N : Floats F) where
  abbrev pub zero_F : F
  zero_F = N.of_ℕ 0

  -- `max(x, 0)`: the first argument, unless the second is greater
  abbrev pub max0 : F → F
  max0 x = if N.lt x zero_F then zero_F else x

  abbrev pub IsFinite : F → Type 0
  IsFinite x = N.isfinite x ≡ true

  -- Neither below zero nor above: zero of either sign.
  abbrev pub IsZero : F → Type 0
  IsZero x = (N.lt x zero_F ≡ false) × (N.lt zero_F x ≡ false)

  -- Facts of IEEE 754: finite numbers are ordered in a line, a difference `a - b` with `a ≤ b` is not
  -- above zero, and a zero divided by a positive number of bytes is a zero.
  pub record IsIeee : Type 0 where
    pub lt_split : (x y z : F) → IsFinite z → N.lt x y ≡ true → N.lt z y ≡ false → N.lt x z ≡ true
    pub sub_nonpos :
        (a b : F) → IsFinite a → IsFinite b → N.lt b a ≡ false → N.lt zero_F (N.sub a b) ≡ false
    pub zero-zero : N.lt zero_F zero_F ≡ false
    pub zero_quotient :
        (x : F) (n : ℕ)
        → 0 < n
        → IsZero x
        → IsFinite (N.div x (N.div (N.of_ℕ n) (N.of_ℕ 1000000000)))
          × IsZero (N.div x (N.div (N.of_ℕ n) (N.of_ℕ 1000000000)))

-- The numbers that are compared are in a line.
pub record IsLinear {F : Type 0} (N : Floats F) : Type 0 where
  pub asymmetric : (x y : F) → N.lt x y ≡ true → N.lt y x ≡ false
  pub transitive : (x y z : F) → N.lt x y ≡ false → N.lt y z ≡ false → N.lt x z ≡ false

-- The finite numbers are in a line; a comparison with NaN may say anything.
pub record IsFiniteLinear {F : Type 0} (N : Floats F) : Type 0 where
  pub asymmetric : (x y : F) → IsFinite N x → IsFinite N y → N.lt x y ≡ true → N.lt y x ≡ false
  pub transitive :
      (x y z : F)
      → IsFinite N x
      → IsFinite N y
      → IsFinite N z
      → N.lt x y ≡ false
      → N.lt y z ≡ false
      → N.lt x z ≡ false

-- Natural numbers, with a difference that stops at zero, meet the facts.
abbrev pub naturals : Floats ℕ
naturals = record {
  of_ℕ = λ n. n;
  add = λ a b. a + b;
  sub = λ a b. a - b;
  mul = λ a b. a * b;
  div = λ a b. a / b;
  isfinite = λ _. true;
  lt = ltb;
  round6 = λ x. x;
}

zero-div : (n : ℕ) → 0 / n ≡ 0
zero-div zero = refl
zero-div (suc n) = grind arith

pub naturals-IsIeee : IsIeee naturals
naturals-IsIeee = record {
  lt_split = λ x y z f h k. ground arith;
  sub_nonpos = λ a b f g h. ground arith;
  zero-zero = refl;
  zero_quotient =
      λ x n p z. let none : x ≡ 0 = ground (arith, z) in rw (none, zero-div) (refl, (refl, refl));
}

pub naturals-IsLinear : IsLinear naturals
naturals-IsLinear = record {
  asymmetric = λ x y h. ground (arith, h);
  transitive = λ x y z h g. ground (arith, h, g);
}

pub naturals-IsFiniteLinear : IsFiniteLinear naturals
naturals-IsFiniteLinear = record {
  asymmetric = λ x y _ _. naturals-IsLinear.asymmetric x y;
  transitive = λ x y z _ _ _. naturals-IsLinear.transitive x y z;
}
