-- ===== src/Overhead/Snapshot.antt =====
-- services/api/aries_api/overhead.py: `build_snapshot`, the payload of the live map. The name of the
-- source and the text of the moment are left out.
pub mod Tracked
use aries_space.Base.{
  ℕ, not, ◌||◌, ◌&&◌, Bool, true, false, String, Option, none, some, List, [], ◌∷◌, count, length,
  if◌then◌else◌,
}
use aries_space.Base.Int.{ℤ, eq_ℤ}
use aries_space.Exec.{Result, ok, err, Exec, pure, lift, gets, ◌>>=◌}
use aries_space.Floats.{Floats}
use aries_space.Tle.{TleRecord, Strings, Celestrak, Caches, get_tle, get_group_tles}
use aries_space.Overhead.{Sky, Settings, State, satellite_states}
use aries_space.Overhead.Track.{Clock, subsolar_point, ground_track, or_none}

pub record Snapshot (F : Type 0) : Type 0 where
  pub generated_at : ℕ
  pub group : String
  pub station_name : String
  pub station_lat : F
  pub station_lon : F
  pub station_elev_m : F
  pub tracked_norad_id : ℤ
  pub tracked : Option (State F)
  pub ground_track : List (F × F)
  pub subsolar : F × F
  pub satellites : List (State F)
  pub visible_count : ℕ
  pub total_count : ℕ
  pub stale : Bool

abbrev pub all_differ : ℤ → List TleRecord → Bool
all_differ norad_id [] = true
all_differ norad_id (r ∷ rs) = not (eq_ℤ r.norad_id norad_id) && all_differ norad_id rs

-- The tracked record comes first, unless the group has it.
unfoldable pub catalog : Option TleRecord → List TleRecord → List TleRecord
catalog none records = records
catalog (some t) records = if all_differ t.norad_id records then t ∷ records else records

unfoldable pub find_state : {F : Type 0} → ℤ → List (State F) → Option (State F)
find_state norad_id [] = none
find_state norad_id (x ∷ xs) = if eq_ℤ x.norad_id norad_id then some x else find_state norad_id xs

abbrev pub any_stale : {F : Type 0} → List (State F) → Bool
any_stale [] = false
any_stale (x ∷ xs) = x.stale || any_stale xs

module _ {F : Type 0} (N : Floats F) (Y : Sky F) (G : Settings F) where
  -- The parts that need no element sets from outside, in the order of the dict.
  unfoldable pub assemble :
      (ℕ → Clock) → ℕ → List TleRecord → Option TleRecord → Result (Snapshot F)
  unfolding find_state catalog
  assemble clock moment records tracked_record =
      let states = satellite_states N Y G (catalog tracked_record records) moment none in
      let path : Result (List (F × F)) = elim tracked_record [
        | none ↦ ok []
        | some r ↦ ground_track Y G r none 60 moment
      ] in
      elim path [
        | err e ↦ err e
        | ok track ↦ ok (record {
          generated_at = moment;
          group = G.overhead_tle_group;
          station_name = G.station_name;
          station_lat = G.station_lat;
          station_lon = G.station_lon;
          station_elev_m = G.station_elev_m;
          tracked_norad_id = G.norad_id;
          tracked = find_state G.norad_id states;
          ground_track = track;
          subsolar = subsolar_point N Y (clock moment);
          satellites = states;
          visible_count = count (λ x. x.visible) states;
          total_count = length states;
          stale = any_stale states;
        })
      ]

  module _ (S : Strings) {W : Type 0} (C : Celestrak W) (refresh : ℕ) where
    unfoldable pub build_snapshot : (ℕ → Clock) → Option ℕ → Exec (Caches W) (Snapshot F)
    unfolding assemble
    build_snapshot clock now = do
      moment ← gets (λ s. elim now [ none ↦ C.now s.world | some t ↦ t ])
      records ← get_group_tles S C refresh G.overhead_tle_group
      tracked_record ← or_none (get_tle S C refresh G.norad_id)
      lift (assemble clock moment records tracked_record)
