-- ===== src/Overhead/Track/Centred.antt =====
-- services/api/aries_api/overhead.py: the path of a satellite is centred on the moment asked for.
use aries_space.Base.{
  ℕ, zero, suc, ◌+◌, ◌-◌, ◌*◌, ◌/◌, ◌≤◌, ◌<◌, ◌≡◌, refl, Option, none, some, List, [], ◌∷◌, map,
  length, arith, ap,
}
use aries_space.Exec.{ok}
use aries_space.Tle.{TleRecord}
use aries_space.Overhead.{Sky, Settings}
use aries_space.Overhead.Track.{moments, span_of, ground_track}

abbrev pub nth : {A : Type 0} → ℕ → List A → Option A
nth i [] = none
nth zero (x ∷ xs) = some x
nth (suc i) (x ∷ xs) = nth i xs

nth-map :
    {A B : Type 0} (f : A → B) (i : ℕ) (xs : List A) (x : A)
    → nth i xs ≡ some x
    → nth i (map f xs) ≡ some (f x)
nth-map f i [] x h = ground (arith, h)
nth-map f zero (y ∷ xs) x h = ground (arith, h)
nth-map f (suc i) (y ∷ xs) x h = nth-map f i xs x h

length-map : {A B : Type 0} (f : A → B) (xs : List A) → length (map f xs) ≡ length xs
length-map f [] = refl
length-map f (x ∷ xs) = ap suc (length-map f xs)

length-moments : (start step steps : ℕ) → length (moments start step steps) ≡ steps
unfolding moments
length-moments start step zero = refl
length-moments start step (suc steps) = ap suc (length-moments (start + step) step steps)

-- A minute apart.
nth-moments :
    (i start steps : ℕ) → i < steps → nth i (moments start 60 steps) ≡ some (start + i * 60)
unfolding moments
nth-moments i start zero h = ground (arith, h)
nth-moments zero start (suc steps) h = ground arith
nth-moments (suc i) start (suc steps) h =
    ground (arith, nth-moments i (start + 60) steps (omega (arith, h)))

module _ {F : Type 0} (Y : Sky F) (G : Settings F) where
  abbrev pub rounded : F × F → F × F
  rounded (lon, lat) = (Y.round 3 lon, Y.round 3 lat)

  -- For an element set that Skyfield accepts, a path of an even number of minutes in steps of a minute,
  -- where half of them have passed since moments are counted,
  -- has one point more than minutes, and the point in its middle is the rounded position at the
  -- moment asked for.
  pub ground_track-IsCentred :
      (r : TleRecord) (minutes : Option ℕ) (now half : ℕ) (at : ℕ → F × F)
      → Y.position r ≡ some at
      → span_of Y G minutes ≡ 2 * half
      → half * 60 ≤ now
      → (path : List (F × F)) × (ground_track Y G r minutes 60 now ≡ ok path)
        × (length path ≡ 2 * half + 1)
        × (nth half path ≡ some (rounded (at now)))
  unfolding ground_track
  ground_track-IsCentred r minutes now half at known even late =
      let steps = span_of Y G minutes * 60 / 60 + 1 in
      let start = now - span_of Y G minutes * 30 in
      let times = moments start 60 steps in
      let point = λ (t : ℕ). rounded (at t) in
      let middle : start + half * 60 ≡ now = omega (arith, even, late) in
      (
        map point times,
        ground (arith, known),
        omega (arith, length-map point times, length-moments start 60 steps, even),
        ground (
          arith,
          nth-map point half times (start + half * 60)
              (nth-moments half start steps (omega (arith, even))),
          middle,
        ),
      )
