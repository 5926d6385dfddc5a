-- ===== src/Overhead/Track.antt =====
-- services/api/aries_api/overhead.py: the path of a satellite on the ground, and where the sun stands.
pub mod Centred
use aries_space.Base.{
  ℕ, zero, suc, ◌+◌, ◌-◌, ◌*◌, ◌/◌, Option, none, some, List, [], ◌∷◌, map, ◌==◌, Bool, true, false,
  if◌then◌else◌,
}
use aries_space.Base.Int.{ℤ, eq_ℤ}
use aries_space.Exn.{Exn, tle_unavailable, other}
use aries_space.Exec.{Result, ok, err, Exec, pure, raise, lift, gets, try_except, ◌>>=◌}
use aries_space.Floats.{Floats}
use aries_space.Tle.{TleRecord, Strings, Celestrak, Caches, get_tle, get_group_tles}
use aries_space.Overhead.{Sky, Settings}

-- A moment's fields: `tm_yday`, hour, minute and second.
pub record Clock : Type 0 where
  pub day_of_year : ℕ
  pub hour : ℕ
  pub minute : ℕ
  pub second : ℕ

module _ {F : Type 0} (N : Floats F) (Y : Sky F) where
  unfoldable pub subsolar_point : Clock → F × F
  subsolar_point clock =
      let n = N.of_ℕ in
      let declination_deg =
        N.mul (N.div (n 2344) (n 100)) (
          Y.sin (Y.radians (N.mul (N.div (n 360) (n 365)) (N.sub (n clock.day_of_year) (n 81))))) in
      let hour =
        N.add (N.add (n clock.hour) (N.div (n clock.minute) (n 60)))
          (N.div (n clock.second) (n 3600)) in
      let longitude_deg = N.mul (N.sub (n 0) (n 15)) (N.sub hour (n 12)) in
      (
        Y.round 3 declination_deg,
        Y.round 3 (N.sub (Y.modulo (N.add longitude_deg (n 180)) (n 360)) (n 180)),
      )

-- `index * step_seconds` for `steps` indices.
unfoldable pub moments : ℕ → ℕ → ℕ → List ℕ
moments start step_seconds zero = []
moments start step_seconds (suc steps) = start ∷ moments (start + step_seconds) step_seconds steps

-- `next((r for r in records if r.norad_id == norad_id), None)`
unfoldable pub find_record : ℤ → List TleRecord → Option TleRecord
find_record norad_id [] = none
find_record norad_id (r ∷ rs) = if eq_ℤ r.norad_id norad_id then some r else find_record norad_id rs

-- `except TLEUnavailableError`
abbrev pub is_tle_unavailable : Exn → Bool
is_tle_unavailable (tle_unavailable _) = true
is_tle_unavailable _ = false

-- A record, or none where there is no element set.
abbrev pub or_none : {W : Type 0} → Exec W TleRecord → Exec W (Option TleRecord)
or_none m =
    try_except (do r ← m; pure (some r)) (λ e. if is_tle_unavailable e then pure none else raise e)

module _ {F : Type 0} (Y : Sky F) (G : Settings F) where
  -- `minutes or config.GROUND_TRACK_MINUTES`
  abbrev pub span_of : Option ℕ → ℕ
  span_of none = G.ground_track_minutes
  span_of (some zero) = G.ground_track_minutes
  span_of (some (suc m)) = suc m

  -- Half of a span of minutes is thirty times as many seconds. A moment lies long after the start of
  -- time, which the difference does not reach. Longitude first.
  unfoldable pub ground_track : TleRecord → Option ℕ → ℕ → ℕ → Result (List (F × F))
  unfolding moments
  ground_track record_ minutes step_seconds now =
      let span = span_of minutes in
      let steps = span * 60 / step_seconds + 1 in
      if step_seconds == 0 then err other else elim (Y.position record_) [
        | none ↦ err other
        | some at ↦ ok (
            map (λ t. let (lon, lat) = at t in (Y.round 3 lon, Y.round 3 lat))
              (moments (now - span * 30) step_seconds steps))
      ]

  module _ (S : Strings) {W : Type 0} (C : Celestrak W) (refresh : ℕ) where
    -- The moment is the given one, or the clock's after the look-up.
    unfoldable pub ground_track_for : ℤ → Option ℕ → Option ℕ → Exec (Caches W) (List (F × F))
    unfolding find_record ground_track
    ground_track_for norad_id minutes now = do
      records ← get_group_tles S C refresh G.overhead_tle_group
      found ← elim (find_record norad_id records) [
        | some r ↦ pure (some r)
        | none ↦ or_none (get_tle S C refresh norad_id)
      ]
      elim found [
        | none ↦ pure []
        | some r ↦
            λ s. (ground_track r minutes 60 (elim now [ none ↦ C.now s.world | some t ↦ t ]), s)
      ]
