-- ===== src/Predict.antt =====
-- services/api/aries_api/predict.py: `compute_passes` over the events that Skyfield finds, and
-- `_compass`. `F` stands for floats; an event has its time, its kind and where the satellite stands.

pub mod Order
mod Tests
use aries_space.Base.{
  ℕ, zero, suc, ◌%◌, ◌&&◌, Bool, true, false, String, ◌<>◌, Option, none, some, List, [], ◌∷◌, ◌++◌,
  length, leb, ltb, ◌==◌, if◌then◌else◌,
}
use aries_space.Floats.{Floats}

pub record Event (F : Type 0) : Type 0 where
  pub time : ℕ
  pub kind : ℕ
  pub altitude : F
  pub azimuth : F

pub record PredictedPass (F : Type 0) : Type 0 where
  pub aos : ℕ
  pub los : ℕ
  pub max_elevation_deg : F
  pub direction : String
  pub tle_stale : Bool

abbrev compass_points : List String
compass_points =
    "N" ∷ "NNE" ∷ "NE" ∷ "ENE" ∷ "E" ∷ "ESE" ∷ "SE" ∷ "SSE" ∷ "S" ∷ "SSW" ∷ "SW" ∷ "WSW" ∷ "W"
    ∷ "WNW" ∷ "NW" ∷ "NNW" ∷ []

get_point : ℕ → List String → Option String
get_point n [] = none
get_point zero (x ∷ xs) = some x
get_point (suc n) (x ∷ xs) = get_point n xs

-- `max_elevation` is `None` before the first ascent and after a pass; a culmination without an
-- ascent sets it and nothing reads it, since every ascent sets it again.
pub record Locals (F : Type 0) : Type 0 where
  pub rise : Option (ℕ × F)
  pub max_elevation : Option F
  pub passes : List (PredictedPass F)

module _ {F : Type 0} (N : Floats F) (sector : F → ℕ) (round2 : F → F) where
  -- `sector a` is `round(a / 22.5)`; the index is below 16, so the list has it.
  unfoldable pub compass : F → String
  unfolding get_point
  compass azimuth = elim (get_point (sector azimuth % 16) compass_points) [ none ↦ "" | some p ↦ p ]

  abbrev pub pass_of : Bool → ℕ → F → F → Event F → PredictedPass F
  pass_of stale aos_time aos_azimuth max_elevation e = record {
    aos = aos_time;
    los = e.time;
    max_elevation_deg = round2 max_elevation;
    direction = compass aos_azimuth <> " -> " <> compass e.azimuth;
    tle_stale = stale;
  }

  -- One turn of the loop, without the `break`. `float(None)` cannot occur: see above.
  unfoldable pub on_event : Bool → Event F → Locals F → Locals F
  unfolding compass
  on_event stale e l =
      if e.kind == 0
      then record l { rise = some (e.time, e.azimuth); max_elevation = some e.altitude }
      else if (e.kind == 1) && elim l.max_elevation [ none ↦ true | some m ↦ N.lt m e.altitude ]
      then record l { max_elevation = some e.altitude }
      else if e.kind == 2
      then elim l.rise [
        | none ↦ l
        | some (t, a) ↦ elim l.max_elevation [
          | none ↦ l
          | some m ↦ record {
            rise = none;
            max_elevation = none;
            passes = l.passes ++ pass_of stale t a m e ∷ [];
          }
        ]
      ]
      else l

  -- The `break` follows an appended pass.
  unfoldable pub scan : Bool → ℕ → List (Event F) → Locals F → List (PredictedPass F)
  unfolding on_event
  scan stale count [] l = l.passes
  scan stale count (e ∷ es) l =
      let l' = on_event stale e l in
      let rest = scan stale count es l' in
      if ltb (length l.passes) (length l'.passes) && leb count (length l'.passes)
      then l'.passes
      else rest

  unfoldable pub compute_passes : Bool → ℕ → List (Event F) → List (PredictedPass F)
  unfolding scan
  compute_passes stale count events =
      scan stale count events (record { rise = none; max_elevation = none; passes = [] })
