-- ===== src/Overhead.antt =====
-- services/api/aries_api/overhead.py: the states of the satellites overhead and the snapshot of the
-- live map. `F` stands for floats; a moment is a number of seconds. Skyfield's propagation, the
-- functions of `math` and the reading of a number from a line are parameters.
pub mod Sorted
pub mod Snapshot
pub mod Track
mod Tests
use aries_space.Base.{
  ℕ, zero, suc, ◌+◌, ◌-◌, ◌*◌, ◌/◌, ◌&&◌, not, Bool, true, false, String, Option, none, some, List,
  [], ◌∷◌, map, length, count, take, ◌==◌, if◌then◌else◌,
}
use aries_space.Base.Int.{ℤ, eq_ℤ}
use aries_space.Exn.{Exn, tle_unavailable, other}
use aries_space.Exec.{
  Result, ok, err, Exec, pure, raise, lift, gets, or_raise, try_except, ◌>>=◌, ◌>>◌,
}
use aries_space.Floats.{Floats}
use aries_space.Tle.{TleRecord, Strings, Celestrak, Caches, get_tle, get_group_tles}

-- Where a satellite is, before anything is rounded.
pub record Propagated (F : Type 0) : Type 0 where
  pub velocity : List F
  pub altitude_km : F
  pub latitude : F
  pub longitude : F
  pub elevation : F
  pub azimuth : F

-- `propagate` is none where Skyfield raises. `position` is the sub-satellite point, of an element set
-- that Skyfield accepts, at each of many moments. `inclination` and `mean_motion` are
-- `float(line2[8:16])` and `float(line2[52:63])`. `modulo` is Python's `%` on floats.
pub record Sky (F : Type 0) : Type 0 where
  pub propagate : TleRecord → ℕ → Option (Propagated F)
  pub position : TleRecord → Option (ℕ → F × F)
  pub inclination : String → Option F
  pub mean_motion : String → Option F
  pub acos : F → F
  pub sin : F → F
  pub radians : F → F
  pub sqrt : F → F
  pub modulo : F → F → F
  pub round : ℕ → F → F

-- The settings of services/api/aries_api/config.py that the module reads.
pub record Settings (F : Type 0) : Type 0 where
  pub station_name : String
  pub station_lat : F
  pub station_lon : F
  pub station_elev_m : F
  pub overhead_tle_group : String
  pub overhead_min_elevation_deg : F
  pub overhead_max_satellites : ℕ
  pub ground_track_minutes : ℕ
  pub norad_id : ℤ

pub record State (F : Type 0) : Type 0 where
  pub norad_id : ℤ
  pub name : String
  pub lat : F
  pub lon : F
  pub altitude_km : F
  pub velocity_km_s : F
  pub elevation_deg : F
  pub azimuth_deg : F
  pub footprint_radius_km : F
  pub visible : Bool
  pub inclination_deg : Option F
  pub period_minutes : Option F
  pub stale : Bool

module _ {F : Type 0} (N : Floats F) (Y : Sky F) where
  -- `max(-1, ratio)` and `min(1, ratio)` give the first unless the second passes it.
  unfoldable pub footprint_radius_km : F → F
  footprint_radius_km altitude_km =
      if not (N.lt (N.of_ℕ 0) altitude_km)
      then N.of_ℕ 0
      else let radius = N.of_ℕ 6371 in
        let ratio = N.div radius (N.add radius altitude_km) in
        let minus_one = N.sub (N.of_ℕ 0) (N.of_ℕ 1) in
        let above = if N.lt minus_one ratio then ratio else minus_one in
        N.mul radius (Y.acos (if N.lt above (N.of_ℕ 1) then above else N.of_ℕ 1))

  unfoldable pub inclination_deg : String → Option F
  inclination_deg line2 = Y.inclination line2

  unfoldable pub period_minutes : String → Option F
  period_minutes line2 = elim (Y.mean_motion line2) [
    | none ↦ none
    | some m ↦ if N.lt (N.of_ℕ 0) m then some (N.div (N.of_ℕ 1440) m) else none
  ]

  -- `sqrt(sum(component**2 for component in velocity))`
  abbrev sum_squares : F → List F → F
  sum_squares acc [] = acc
  sum_squares acc (x ∷ xs) = sum_squares (N.add acc (N.mul x x)) xs

  abbrev pub speed : Propagated F → F
  speed p = Y.sqrt (sum_squares (N.of_ℕ 0) p.velocity)

  abbrev pub is_finite : Propagated F → Bool
  is_finite p =
      N.isfinite p.altitude_km
      && N.isfinite p.latitude
      && N.isfinite p.longitude
      && N.isfinite p.elevation
      && N.isfinite (speed p)

  -- The threshold is finite, as config.py has checked.
  unfoldable pub state_of : F → TleRecord → Propagated F → State F
  unfolding footprint_radius_km inclination_deg period_minutes
  state_of threshold r p = record {
    norad_id = r.norad_id;
    name = r.name;
    lat = Y.round 3 p.latitude;
    lon = Y.round 3 p.longitude;
    altitude_km = Y.round 1 p.altitude_km;
    velocity_km_s = Y.round 2 (speed p);
    elevation_deg = Y.round 2 p.elevation;
    azimuth_deg = Y.round 2 p.azimuth;
    footprint_radius_km = Y.round 1 (footprint_radius_km p.altitude_km);
    visible = not (N.lt p.elevation threshold);
    inclination_deg = inclination_deg r.line2;
    period_minutes = elim (period_minutes r.line2) [ none ↦ none | some m ↦ some (Y.round 1 m) ];
    stale = r.stale;
  }

  -- The loop over the records: those that do not propagate, or to no finite place, are skipped.
  unfoldable pub propagated_states : F → ℕ → List TleRecord → List (State F)
  unfolding state_of
  propagated_states threshold moment [] = []
  propagated_states threshold moment (r ∷ records) =
      let rest = propagated_states threshold moment records in
      elim (Y.propagate r moment) [
        | none ↦ rest
        | some p ↦ if is_finite p then state_of threshold r p ∷ rest else rest
      ]

  -- Python's stable sort by elevation, the highest first.
  unfoldable pub insert : State F → List (State F) → List (State F)
  insert x [] = x ∷ []
  insert x (y ∷ ys) =
      let rest = insert x ys in
      if N.lt x.elevation_deg y.elevation_deg then y ∷ rest else x ∷ y ∷ ys

  unfoldable pub sort : List (State F) → List (State F)
  unfolding insert
  sort [] = []
  sort (x ∷ xs) = insert x (sort xs)

module _ {F : Type 0} (N : Floats F) (Y : Sky F) (G : Settings F) where
  unfoldable pub satellite_states : List TleRecord → ℕ → Option F → List (State F)
  unfolding propagated_states sort
  satellite_states records moment min_elevation_deg =
      let threshold : F = elim min_elevation_deg [
        | none ↦ G.overhead_min_elevation_deg
        | some x ↦ x
      ] in
      sort N Y (propagated_states N Y threshold moment (take G.overhead_max_satellites records))
