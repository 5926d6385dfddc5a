-- ===== src/Overhead/Tests.antt =====
-- The theorems on services/api/aries_api/overhead.py at a group of two satellites: numbers are natural,
-- and a satellite stands as high as its name is long.
use aries_space.Base.{
  ℕ, ◌+◌, ◌*◌, ◌≤◌, ◌≡◌, refl, true, false, String, none, some, List, [], ◌∷◌, take, length, count,
  All, arith, str_eq, if◌then◌else◌,
}
use aries_space.Base.Int.{pos}
use aries_space.Exec.{ok, err}
use aries_space.Exn.{http_error}
use aries_space.Floats.{naturals-IsFiniteLinear, naturals}
use aries_space.Tle.{TleRecord, Strings, Celestrak, Caches}
use aries_space.Tle
use aries_space.Overhead.{Sky, Settings, Propagated, satellite_states}
use aries_space.Overhead.Sorted.{IsDescending, IsStateOf, keeps, satellite_states-IsDescending}
use aries_space.Overhead.Track.{Clock, ground_track}
use aries_space.Overhead.Track.Centred.{nth, ground_track-IsCentred}
use aries_space.Overhead.Snapshot.{Snapshot, build_snapshot}
use aries_space.Overhead.Snapshot.Tracked.{tracked_state, build_snapshot-IsTracked}

abbrev place : ℕ → Propagated ℕ
place height = record {
  velocity = 7 ∷ [];
  altitude_km = 500;
  latitude = 21;
  longitude = 79;
  elevation = height;
  azimuth = 90;
}

abbrev sky : Sky ℕ
sky = record {
  propagate = λ r moment. some (place (if str_eq r.name "HIGH" then 60 else 30));
  position = λ r. some (λ t. (t, 1));
  inclination = λ _. none;
  mean_motion = λ _. some 15;
  acos = λ x. x;
  sin = λ x. x;
  radians = λ x. x;
  sqrt = λ x. x;
  modulo = λ x _. x;
  round = λ _ x. x;
}

abbrev settings : Settings ℕ
settings = record {
  station_name = "GHRCE campus (approx.)";
  station_lat = 21;
  station_lon = 79;
  station_elev_m = 310;
  overhead_tle_group = "resource";
  overhead_min_elevation_deg = 0;
  overhead_max_satellites = 2;
  ground_track_minutes = 100;
  norad_id = pos 68635;
}

abbrev tle : String → ℕ → TleRecord
tle name n = record {
  norad_id = pos n;
  name = name;
  line1 = "1 ";
  line2 = "2 ";
  fetched_at = 90;
  stale = false;
}

abbrev group : List TleRecord
group = tle "LOW" 1 ∷ tle "HIGH" 2 ∷ []

satellite_states-IsDescending_example :
    let states = satellite_states naturals sky settings group 1000 (some 0) in
    IsDescending naturals sky states
    × All (IsStateOf naturals sky 0 1000 (take 2 group)) states
    × (length states ≡ count (keeps naturals sky 1000) (take 2 group))
    × (length states ≤ 2)
satellite_states-IsDescending_example =
    satellite_states-IsDescending naturals sky naturals-IsFiniteLinear (λ _ _. refl) settings group
      1000 0

ground_track-IsCentred_example :
    (path : List (ℕ × ℕ)) × (ground_track sky settings (tle "LOW" 1) none 60 10000 ≡ ok path)
    × (length path ≡ 2 * 50 + 1)
    × (nth 50 path ≡ some (10000, 1))
ground_track-IsCentred_example =
    ground_track-IsCentred sky settings (tle "LOW" 1) none 10000 50 (λ t. (t, 1)) refl refl
      (omega arith)

-- A network that is down, and caches that are fresh.
abbrev strings : Strings
strings = record {
  splitlines = λ _. [];
  strip = λ s. s;
  rstrip = λ s. s;
  startswith = λ _ _. true;
  read_norad = λ _. none;
  show = λ _. "";
}

abbrev down : Celestrak (Unit {0})
down = record {
  get_catalogue = λ _ w. (err http_error, w);
  get_group = λ _ w. (err http_error, w);
  now = λ _. 100;
}

abbrev caches : Caches (Unit {0})
caches = record {
  world = tt;
  cache = (pos 68635, tle "CANVAS" 68635) ∷ [];
  group_cache = ("resource", group) ∷ [];
}

abbrev noon : ℕ → Clock
noon _ = record { day_of_year = 81; hour = 12; minute = 0; second = 0 }

build_snapshot-IsTracked_example :
    (snapshot : Snapshot ℕ) × (build_snapshot naturals sky settings strings down 43200 noon
        (some 10000)
        caches
      ≡ (ok snapshot, caches))
    × (snapshot.tracked
        ≡ some (tracked_state naturals sky settings (tle "CANVAS" 68635) (place 30)))
unfolding Tle.get_group_tles Tle.get_tle
build_snapshot-IsTracked_example =
    build_snapshot-IsTracked naturals sky settings strings down 43200 noon 10000 caches caches
      caches group (tle "CANVAS" 68635) (place 30) (λ t. (t, 1)) refl refl (omega arith) refl refl
      refl refl refl
