-- ===== src/Overhead/Snapshot/Tracked.antt =====
-- services/api/aries_api/overhead.py: the tracked satellite in the snapshot.
use aries_space.Base.{
  ℕ, zero, suc, ◌≤◌, ◌≡◌, refl, inl, inr, true, false, some, List, [], ◌∷◌, take, All, arith, subst,
  Bool-cases, Option-cases,
}
use aries_space.Base.Int.{ℤ, eq_ℤ, eq_ℤ_iff}
use aries_space.Exec.{ok, Result-cases}
use aries_space.Floats.{Floats}
use aries_space.Tle.{TleRecord, Strings, Celestrak, Caches, get_tle, get_group_tles}
use aries_space.Overhead.{
  Sky, Settings, State, Propagated, insert, sort, propagated_states, satellite_states, is_finite,
  state_of,
}
use aries_space.Overhead.Sorted.{sort-All}
use aries_space.Overhead.Track.{Clock, ground_track}
use aries_space.Overhead.Snapshot.{
  Snapshot, all_differ, catalog, find_state, assemble, build_snapshot,
}

all_differ-take :
    (k : ℤ) (n : ℕ) (rs : List TleRecord) → all_differ k rs ≡ true → all_differ k (take n rs) ≡ true
all_differ-take k zero rs h = refl
all_differ-take k (suc n) [] h = refl
all_differ-take k (suc n) (r ∷ rs) h = ground (arith, h, all_differ-take k n rs)

module _ {F : Type 0} (N : Floats F) (Y : Sky F) where
  abbrev Differs : ℤ → State F → Type 0
  Differs k x = eq_ℤ x.norad_id k ≡ false

  propagated_states-Differ :
      (threshold : F) (moment : ℕ) (k : ℤ) (rs : List TleRecord)
      → all_differ k rs ≡ true
      → All (Differs k) (propagated_states N Y threshold moment rs)
  unfolding propagated_states state_of
  propagated_states-Differ threshold moment k [] h = tt
  propagated_states-Differ threshold moment k (r ∷ rs) h =
      let rest = propagated_states-Differ threshold moment k rs in
      elim (Option-cases (Y.propagate r moment)) [
        | inl e ↦ ground (arith, h, e, rest)
        | inr (p, e) ↦ elim (Bool-cases (is_finite N Y p)) [
          | inl g ↦ ground (arith, h, e, g, rest)
          | inr g ↦ ground (arith, h, e, g, rest)
        ]
      ]

  -- The only state of a number is found wherever it is put in.
  find_state-insert :
      (k : ℤ) (x : State F) (xs : List (State F))
      → eq_ℤ x.norad_id k ≡ true
      → All (Differs k) xs
      → find_state k (insert N Y x xs) ≡ some x
  unfolding find_state insert
  find_state-insert k x [] h g = ground (arith, h)
  find_state-insert k x (y ∷ ys) h g = elim (Bool-cases (N.lt x.elevation_deg y.elevation_deg)) [
    | inl e ↦ ground (arith, h, g, e, find_state-insert k x ys h (g.1))
    | inr e ↦ ground (arith, h, e)
  ]

  tracked_first :
      (threshold : F) (moment n : ℕ) (k : ℤ) (r : TleRecord) (rs : List TleRecord)
      (p : Propagated F)
      → 1 ≤ n
      → eq_ℤ r.norad_id k ≡ true
      → all_differ k rs ≡ true
      → Y.propagate r moment ≡ some p
      → is_finite N Y p ≡ true
      → find_state k (sort N Y (propagated_states N Y threshold moment (take n (r ∷ rs))))
        ≡ some (state_of N Y threshold r p)
  unfolding propagated_states sort state_of
  tracked_first threshold moment zero k r rs p pos same differ known finite = ground (arith, pos)
  tracked_first threshold moment (suc n) k r rs p pos same differ known finite =
      let others = propagated_states N Y threshold moment (take n rs) in
      let x = state_of N Y threshold r p in
      let found = find_state-insert k x (sort N Y others) same (
        sort-All N Y (Differs k) others (
          propagated_states-Differ threshold moment k (take n rs)
            (all_differ-take k n rs differ))) in
      ground (arith, known, finite, found)

  module _ (G : Settings F) where
    abbrev pub tracked_state : TleRecord → Propagated F → State F
    tracked_state r p = state_of N Y G.overhead_min_elevation_deg r p

    assemble-Tracked :
        (clock : ℕ → Clock) (moment : ℕ) (records : List TleRecord) (r : TleRecord)
        (p : Propagated F) (at : ℕ → F × F)
        → 1 ≤ G.overhead_max_satellites
        → eq_ℤ r.norad_id G.norad_id ≡ true
        → all_differ r.norad_id records ≡ true
        → Y.propagate r moment ≡ some p
        → is_finite N Y p ≡ true
        → Y.position r ≡ some at
        → (snapshot : Snapshot F) × (assemble N Y G clock moment records (some r) ≡ ok snapshot)
          × (snapshot.tracked ≡ some (tracked_state r p))
    unfolding assemble satellite_states catalog ground_track
    assemble-Tracked clock moment records r p at pos same differ known finite place =
        let k = (eq_ℤ_iff r.norad_id G.norad_id).0 same in
        let found =
          tracked_first G.overhead_min_elevation_deg moment G.overhead_max_satellites G.norad_id r
            records p pos same (subst (λ j. all_differ j records ≡ true) k differ) known finite in
        elim (Result-cases (assemble N Y G clock moment records (some r))) [
          | inl (snapshot, e) ↦ (snapshot, e, ground (arith, e, found, differ, place))
          | inr (x, e) ↦ ground (arith, e, differ, place)
        ]

    module _ (S : Strings) {W : Type 0} (C : Celestrak W) (refresh : ℕ) where
      -- If the group is had and does not have the tracked satellite, its own element set is had and
      -- propagates to a finite place, and at least one satellite is allowed, then a snapshot is
      -- returned, and its tracked state is that of the element set.
      pub build_snapshot-IsTracked :
          (clock : ℕ → Clock) (moment : ℕ) (s s₁ s₂ : Caches W) (records : List TleRecord)
          (r : TleRecord) (p : Propagated F) (at : ℕ → F × F)
          → get_group_tles S C refresh G.overhead_tle_group s ≡ (ok records, s₁)
          → get_tle S C refresh G.norad_id s₁ ≡ (ok r, s₂)
          → 1 ≤ G.overhead_max_satellites
          → r.norad_id ≡ G.norad_id
          → all_differ r.norad_id records ≡ true
          → Y.propagate r moment ≡ some p
          → is_finite N Y p ≡ true
          → Y.position r ≡ some at
          → (snapshot : Snapshot F) × (build_snapshot N Y G S C refresh clock (some moment) s
              ≡ (ok snapshot, s₂))
            × (snapshot.tracked ≡ some (tracked_state r p))
      unfolding build_snapshot
      build_snapshot-IsTracked clock moment s s₁ s₂ records r p at group own pos same differ known
            finite place =
          let k = (eq_ℤ_iff r.norad_id G.norad_id).1 same in
          let made = assemble-Tracked clock moment records r p at pos k differ known finite place in
          (made.0, ground (arith, group, own, made.1), made.2)
