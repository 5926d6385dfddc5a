-- ===== src/Overhead/Sorted.antt =====
-- services/api/aries_api/overhead.py: the order and the number of the states.
use aries_space.Base.{
  ℕ, zero, suc, ◌≤◌, ◌≡◌, ◌∙◌, refl, sym, subst, ◌&&◌, inl, inr, ◌⊎◌, Bool, true, false, none, some,
  List, [], ◌∷◌, take, length, count, All, arith, Bool-cases, Option-cases,
}
use aries_space.Floats.{Floats, IsFinite, IsFiniteLinear}
use aries_space.Tle.{TleRecord}
use aries_space.Overhead.{
  Sky, Settings, State, Propagated, insert, sort, propagated_states, satellite_states, is_finite,
  state_of, speed,
}

-- `take` takes no more than it is asked for.
length-take_le : {A : Type 0} (n : ℕ) (xs : List A) → length (take n xs) ≤ n
length-take_le zero xs = omega arith
length-take_le (suc n) [] = omega arith
length-take_le (suc n) (x ∷ xs) = omega (arith, length-take_le n xs)

count_le : {A : Type 0} (p : A → Bool) (xs : List A) → count p xs ≤ length xs
count_le p [] = omega arith
count_le p (x ∷ xs) = ground (arith, count_le p xs)

module _ {F : Type 0} (N : Floats F) (Y : Sky F) where
  abbrev pub NotAbove : State F → State F → Type 0
  NotAbove x y = N.lt x.elevation_deg y.elevation_deg ≡ false

  -- No state is followed by a higher one.
  abbrev pub IsDescending : List (State F) → Type 0
  IsDescending [] = Unit
  IsDescending (x ∷ xs) = All (NotAbove x) xs × IsDescending xs

  -- Height, place, elevation and speed are finite numbers.
  abbrev pub IsPlace : Propagated F → Type 0
  IsPlace p =
      IsFinite N p.altitude_km
      × IsFinite N p.latitude
      × IsFinite N p.longitude
      × IsFinite N p.elevation
      × IsFinite N (speed N Y p)

  -- The state of one of the records, which propagates to a finite place.
  abbrev pub IsStateOf : F → ℕ → List TleRecord → State F → Type 0
  IsStateOf threshold moment [] x = ⊥
  IsStateOf threshold moment (r ∷ rs) x =
      ((p : Propagated F) × (Y.propagate r moment ≡ some p)
        × IsPlace p
        × (x ≡ state_of N Y threshold r p))
      ⊎ IsStateOf threshold moment rs x

  -- Whether a record has a state.
  abbrev pub keeps : ℕ → TleRecord → Bool
  keeps moment r = elim (Y.propagate r moment) [
    | none ↦ false
    | some p ↦
        N.isfinite p.altitude_km
        && N.isfinite p.latitude
        && N.isfinite p.longitude
        && N.isfinite p.elevation
        && N.isfinite (speed N Y p)
  ]

  All-weaken :
      (threshold : F) (moment : ℕ) (r : TleRecord) (rs : List TleRecord) (xs : List (State F))
      → All (IsStateOf threshold moment rs) xs
      → All (IsStateOf threshold moment (r ∷ rs)) xs
  All-weaken threshold moment r rs [] h = tt
  All-weaken threshold moment r rs (x ∷ xs) h =
      (inr (h.0), All-weaken threshold moment r rs xs (h.1))

  is_finite-IsPlace : (p : Propagated F) → is_finite N Y p ≡ true → IsPlace p
  is_finite-IsPlace p h = ground (arith, h)

  propagated_states-IsStateOf :
      (threshold : F) (moment : ℕ) (rs : List TleRecord)
      → All (IsStateOf threshold moment rs) (propagated_states N Y threshold moment rs)
        × (length (propagated_states N Y threshold moment rs) ≡ count (keeps moment) rs)
  unfolding propagated_states
  propagated_states-IsStateOf threshold moment [] = (tt, refl)
  propagated_states-IsStateOf threshold moment (r ∷ rs) =
      let rest = propagated_states-IsStateOf threshold moment rs in
      let weaker =
        All-weaken threshold moment r rs (propagated_states N Y threshold moment rs) (rest.0) in
      elim (Option-cases (Y.propagate r moment)) [
        | inl e ↦ ground (arith, e, weaker, rest)
        | inr (p, e) ↦
            let here : is_finite N Y p ≡ true
                → IsStateOf threshold moment (r ∷ rs) (state_of N Y threshold r p) =
              λ g. inl (p, e, is_finite-IsPlace p g, refl) in
            elim (Bool-cases (is_finite N Y p)) [
              | inl g ↦ ground (arith, e, g, weaker, rest, here g)
              | inr g ↦ ground (arith, e, g, weaker, rest)
            ]
      ]

  module _ (P : State F → Type 0) where
    insert-All : (x : State F) (xs : List (State F)) → P x → All P xs → All P (insert N Y x xs)
    unfolding insert
    insert-All x [] h g = (h, tt)
    insert-All x (y ∷ ys) h g = elim (Bool-cases (N.lt x.elevation_deg y.elevation_deg)) [
      | inl e ↦ rw e (g.0, insert-All x ys h (g.1))
      | inr e ↦ rw e (h, g)
    ]

    pub sort-All : (xs : List (State F)) → All P xs → All P (sort N Y xs)
    unfolding sort
    sort-All [] h = tt
    sort-All (x ∷ xs) h = insert-All x (sort N Y xs) (h.0) (sort-All xs (h.1))

  length-insert : (x : State F) (xs : List (State F)) → length (insert N Y x xs) ≡ suc (length xs)
  unfolding insert
  length-insert x [] = refl
  length-insert x (y ∷ ys) = ground (arith, length-insert x ys)

  length-sort : (xs : List (State F)) → length (sort N Y xs) ≡ length xs
  unfolding sort
  length-sort [] = refl
  length-sort (x ∷ xs) = ground (arith, length-insert x (sort N Y xs), length-sort xs)

  abbrev IsHigh : State F → Type 0
  IsHigh x = IsFinite N x.elevation_deg

  module _ (L : IsFiniteLinear N) where
    All-NotAbove :
        (x y : State F) (ys : List (State F))
        → IsHigh x
        → IsHigh y
        → All IsHigh ys
        → NotAbove x y
        → All (NotAbove y) ys
        → All (NotAbove x) ys
    All-NotAbove x y [] p q r h g = tt
    All-NotAbove x y (z ∷ zs) p q r h g = (
      L.transitive x.elevation_deg y.elevation_deg z.elevation_deg p q (r.0) h (g.0),
      All-NotAbove x y zs p q (r.1) h (g.1),
    )

    insert-IsDescending :
        (x : State F) (xs : List (State F))
        → IsHigh x
        → All IsHigh xs
        → IsDescending xs
        → IsDescending (insert N Y x xs)
    unfolding insert
    insert-IsDescending x [] p r h = (tt, tt)
    insert-IsDescending x (y ∷ ys) p r h =
        elim (Bool-cases (N.lt x.elevation_deg y.elevation_deg)) [
          | inl e ↦ rw e (
            insert-All (NotAbove y) x ys (L.asymmetric x.elevation_deg y.elevation_deg p (r.0) e)
                (h.0),
            insert-IsDescending x ys p (r.1) (h.1),
          )
          | inr e ↦ rw e ((e, All-NotAbove x y ys p (r.0) (r.1) e (h.0)), h)
        ]

    sort-IsDescending : (xs : List (State F)) → All IsHigh xs → IsDescending (sort N Y xs)
    unfolding sort
    sort-IsDescending [] r = tt
    sort-IsDescending (x ∷ xs) r =
        insert-IsDescending x (sort N Y xs) (r.0) (sort-All IsHigh xs (r.1))
          (sort-IsDescending xs (r.1))

    module _ (rounded : (x : F) → IsFinite N x → IsFinite N (Y.round 2 x)) where
      IsStateOf-IsHigh :
          (threshold : F) (moment : ℕ) (rs : List TleRecord) (x : State F)
          → IsStateOf threshold moment rs x
          → IsHigh x
      unfolding state_of
      IsStateOf-IsHigh threshold moment [] x h = absurd h
      IsStateOf-IsHigh threshold moment (r ∷ rs) x (inl (p, e, place, same)) =
          subst IsHigh (sym same) (rounded p.elevation place.3)
      IsStateOf-IsHigh threshold moment (r ∷ rs) x (inr h) =
          IsStateOf-IsHigh threshold moment rs x h

      All-IsHigh :
          (threshold : F) (moment : ℕ) (rs : List TleRecord) (xs : List (State F))
          → All (IsStateOf threshold moment rs) xs
          → All IsHigh xs
      All-IsHigh threshold moment rs [] h = tt
      All-IsHigh threshold moment rs (x ∷ xs) h =
          (IsStateOf-IsHigh threshold moment rs x (h.0), All-IsHigh threshold moment rs xs (h.1))

      -- If finite floats are in a line and rounding keeps them finite: no state is followed by a
      -- higher one; every state is that of one of the first records, as many as the setting allows,
      -- whose height, place, elevation and speed are finite numbers; and there are as many states as
      -- such records, hence no more than the setting allows.
      pub satellite_states-IsDescending :
          (G : Settings F) (records : List TleRecord) (moment : ℕ) (threshold : F)
          → let states = satellite_states N Y G records moment (some threshold) in
            let first = take G.overhead_max_satellites records in
            IsDescending states
            × All (IsStateOf threshold moment first) states
            × (length states ≡ count (keeps moment) first)
            × (length states ≤ G.overhead_max_satellites)
      unfolding satellite_states
      satellite_states-IsDescending G records moment threshold =
          let first = take G.overhead_max_satellites records in
          let states = propagated_states N Y threshold moment first in
          let from = propagated_states-IsStateOf threshold moment first in
          (
            sort-IsDescending states (All-IsHigh threshold moment first states (from.0)),
            sort-All (IsStateOf threshold moment first) states (from.0),
            length-sort states ∙ from.1,
            ground (
              arith,
              length-sort states,
              from.1,
              count_le (keeps moment) first,
              length-take_le G.overhead_max_satellites records,
            ),
          )
