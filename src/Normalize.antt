-- ===== src/Normalize.antt =====
-- services/api/aries_api/normalize.py
use Prim.Native.Char.{code}
use aries_space.Base.{ℕ, String, ◌<>◌, Option, none, some, ◌==◌, if◌then◌else◌}
use aries_space.Base.Int.{ℤ}
use aries_space.Exn.{value_error, other}
use aries_space.Exec.{Result, ok, err}
use aries_space.Json.{Json, Fields, text, get, get_item, py_or, truthy, to_int}
use aries_space.Backend.{Runtime}

pub record NormalizedObservation : Type 0 where
  pub satnogs_observation_id : ℤ
  pub satellite_id : ℤ
  pub station_id : Json
  pub timestamp : ℕ
  pub frequency : Json
  pub signal_quality : Json
  pub waterfall_url : Json
  pub audio_url : Json
  pub decoded_data : Option String

-- `s.replace("Z", "+00:00")`
pub replace_z : String → String
replace_z String.[] = ""
replace_z (String.◌∷◌ c s) =
    let rest = replace_z s in if code c == b'Z' then "+00:00" <> rest else String.◌∷◌ c rest

infixl 5 ◌>>=◌
abbrev ◌>>=◌ : {A B : Type 0} → Result A → (A → Result B) → Result B
ok a >>= f = f a
err e >>= f = err e

module _ (R : Runtime Json ℤ) where
  -- `datetime.fromisoformat(start.replace("Z", "+00:00"))`; only a text has `replace`
  pub timestamp_of : Json → Result ℕ
  unfolding replace_z
  timestamp_of (text s) = elim (R.fromisoformat (replace_z s)) [
    | none ↦ err value_error
    | some t ↦ ok t
  ]
  timestamp_of _ = err other

  unfoldable pub normalize_observation : Fields → Result NormalizedObservation
  unfolding timestamp_of
  normalize_observation raw = do
    let demoddata = get "demoddata" raw
    id ← get_item "id" raw
    satnogs_observation_id ← to_int R.read_int id
    norad ← get_item "norad_cat_id" raw
    satellite_id ← to_int R.read_int norad
    start ← get_item "start" raw
    timestamp ← timestamp_of start
    ok (record {
      satnogs_observation_id = satnogs_observation_id;
      satellite_id = satellite_id;
      station_id = get "ground_station" raw;
      timestamp = timestamp;
      frequency = py_or (get "observation_frequency" raw) (get "center_frequency" raw);
      signal_quality = py_or (get "vetted_status" raw) (get "status" raw);
      waterfall_url = get "waterfall" raw;
      audio_url = get "payload" raw;
      decoded_data = if truthy demoddata then some (R.dumps_text demoddata) else none;
    })
