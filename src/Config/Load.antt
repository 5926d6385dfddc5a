-- ===== src/Config/Load.antt =====
-- services/api/aries_api/config.py: the constants, read and checked in the order of the module. A
-- default that the program writes as a decimal is a quotient here.
use aries_space.Base.{
  ℕ, Bool, true, false, not, String, Option, none, some, str_eq, ltb, if◌then◌else◌,
}
use aries_space.Base.Int.{ℤ, pos, negsuc}
use aries_space.Exec.{Result}
use aries_space.Exn.{configuration_error}
use aries_space.Floats.{Floats}
use aries_space.Fallible.{return, raise_when, ◌>>=◌}
use aries_space.Config.{
  Environment, required_env, float_env, int_env, bool_env, validate_range, validate_positive,
}

pub record Station (F : Type 0) : Type 0 where
  pub norad_id : ℤ
  pub satellite_name : String
  pub station_name : String
  pub station_lat : F
  pub station_lon : F
  pub station_elev_m : F

pub record Orbits (F : Type 0) : Type 0 where
  pub celestrak_url : String
  pub satnogs_observations_url : String
  pub satnogs_max_response_bytes : ℤ
  pub satnogs_fixture_path : Option String
  pub tle_refresh_hours : ℤ
  pub overhead_tle_group : String
  pub tle_group_timeout_seconds : ℤ
  pub overhead_min_elevation_deg : F
  pub overhead_max_satellites : ℤ
  pub ground_track_minutes : ℤ

pub record Service : Type 0 where
  pub obs_poll_minutes : ℤ
  pub scheduler_enabled : Bool
  pub readiness_timeout_seconds : ℤ
  pub rate_limit_requests_per_minute : ℤ
  pub database_url : String
  pub minio_endpoint : String
  pub minio_access_key : String
  pub minio_secret_key : String
  pub minio_secure : Bool
  pub api_bearer_token : String

pub record Economics (F : Type 0) : Type 0 where
  pub downlink_mbps : ℤ
  pub electricity_inr_per_kwh : F
  pub downlink_inr_per_gb : F
  pub ground_compute_inr_per_hour : F
  pub ground_estimated_watts : F
  pub edge_hardware_capex_inr : F
  pub edge_hardware_lifetime_hours : F
  pub edge_expected_runs_per_day : F
  pub edge_expected_total_runs : F
  pub edge_hardware_capex_per_run_inr : F
  pub edge_sim_watts : F
  pub edge_sim_slowdown_factor : F
  pub edge_measured_watts : F
  pub benchmark_timeout_seconds : ℤ
  pub benchmark_sample_iterations : ℤ
  pub sentinel2_benchmark_sample_iterations : ℤ

-- A time with whether it names its zone.
pub record Scene : Type 0 where
  pub observed_at : ℕ × Bool
  pub crop_col_off : ℤ
  pub crop_row_off : ℤ
  pub crop_width : ℤ
  pub crop_height : ℤ

pub record Configuration (F : Type 0) : Type 0 where
  pub station : Station F
  pub orbits : Orbits F
  pub service : Service
  pub economics : Economics F
  pub agricultural : Scene
  pub sentinel2_fetch_timeout_seconds : ℤ
  pub coastal : Scene

-- `OBS_POLL_MINUTES < 5`
abbrev pub below_five : ℤ → Bool
below_five (pos n) = ltb n 5
below_five (negsuc _) = true

module _ {F : Type 0} (E : Environment F) (N : Floats F) where
  -- `os.environ.get(name, default)`, and with `or None`
  abbrev pub text_env : String → String → String
  text_env name default = elim (E.environ name) [ none ↦ default | some v ↦ v ]

  abbrev pub path_env : String → Option String
  path_env name = elim (E.environ name) [
    | none ↦ none
    | some v ↦ if str_eq v "" then none else some v
  ]

  unfoldable pub positive_env : String → ℤ → Result ℤ
  positive_env name default = int_env E name default >>= validate_positive name

  unfoldable pub range_env : String → F → F → F → Result F
  range_env name default low high = do
    value ← float_env E name default
    validate_range E N name value low high

  abbrev pub minus : ℕ → F
  minus n = N.sub (N.of_ℕ 0) (N.of_ℕ n)

  unfoldable pub load_station : Result (Station F)
  unfolding range_env raise_when
  load_station = do
    norad_id ← int_env E "NORAD_ID" (pos 68635)
    station_lat ←
        range_env "STATION_LAT" (N.div (N.of_ℕ 211052484) (N.of_ℕ 10000000)) (minus 90) (N.of_ℕ 90)
    station_lon ←
        range_env "STATION_LON" (N.div (N.of_ℕ 790034903) (N.of_ℕ 10000000)) (minus 180)
          (N.of_ℕ 180)
    station_elev_m ← float_env E "STATION_ELEV_M" (N.of_ℕ 310)
    done ←
        raise_when (not (N.isfinite station_elev_m))
          (configuration_error "STATION_ELEV_M must be finite")
    return (record {
      norad_id = norad_id;
      satellite_name = text_env "SATELLITE_NAME" "CANVAS";
      station_name = text_env "STATION_NAME" "GHRCE campus (approx.)";
      station_lat = station_lat;
      station_lon = station_lon;
      station_elev_m = station_elev_m;
    })

  unfoldable pub load_orbits : Result (Orbits F)
  unfolding range_env positive_env
  load_orbits = do
    satnogs_max_response_bytes ← positive_env "SATNOGS_MAX_RESPONSE_BYTES" (pos 10000000)
    tle_refresh_hours ← positive_env "TLE_REFRESH_HOURS" (pos 12)
    tle_group_timeout_seconds ← positive_env "TLE_GROUP_TIMEOUT_SECONDS" (pos 30)
    overhead_min_elevation_deg ←
        range_env "OVERHEAD_MIN_ELEVATION_DEG" (N.of_ℕ 0) (minus 90) (N.of_ℕ 90)
    overhead_max_satellites ← positive_env "OVERHEAD_MAX_SATELLITES" (pos 200)
    ground_track_minutes ← positive_env "GROUND_TRACK_MINUTES" (pos 100)
    return (record {
      celestrak_url = text_env "CELESTRAK_URL" "https://celestrak.org/NORAD/elements/gp.php";
      satnogs_observations_url =
          text_env "SATNOGS_OBSERVATIONS_URL" "https://network.satnogs.org/api/observations/";
      satnogs_max_response_bytes = satnogs_max_response_bytes;
      satnogs_fixture_path = path_env "SATNOGS_FIXTURE_PATH";
      tle_refresh_hours = tle_refresh_hours;
      overhead_tle_group = text_env "OVERHEAD_TLE_GROUP" "resource";
      tle_group_timeout_seconds = tle_group_timeout_seconds;
      overhead_min_elevation_deg = overhead_min_elevation_deg;
      overhead_max_satellites = overhead_max_satellites;
      ground_track_minutes = ground_track_minutes;
    })

  unfoldable pub load_service : Result Service
  unfolding positive_env raise_when
  load_service = do
    obs_poll_minutes ← int_env E "OBS_POLL_MINUTES" (pos 10)
    frequent ←
        raise_when (below_five obs_poll_minutes)
          (configuration_error "OBS_POLL_MINUTES must be at least 5")
    scheduler_enabled ← bool_env E "SCHEDULER_ENABLED" true
    readiness_timeout_seconds ← positive_env "READINESS_TIMEOUT_SECONDS" (pos 2)
    rate_limit_requests_per_minute ← positive_env "RATE_LIMIT_REQUESTS_PER_MINUTE" (pos 120)
    database_url ← required_env E "DATABASE_URL"
    driver ←
        raise_when (not (E.startswith database_url "postgresql+psycopg://"))
          (configuration_error "DATABASE_URL must use postgresql+psycopg")
    minio_access_key ← required_env E "MINIO_ACCESS_KEY"
    minio_secret_key ← required_env E "MINIO_SECRET_KEY"
    minio_secure ← bool_env E "MINIO_SECURE" false
    api_bearer_token ← required_env E "API_BEARER_TOKEN"
    return (record {
      obs_poll_minutes = obs_poll_minutes;
      scheduler_enabled = scheduler_enabled;
      readiness_timeout_seconds = readiness_timeout_seconds;
      rate_limit_requests_per_minute = rate_limit_requests_per_minute;
      database_url = database_url;
      minio_endpoint = text_env "MINIO_ENDPOINT" "minio:9000";
      minio_access_key = minio_access_key;
      minio_secret_key = minio_secret_key;
      minio_secure = minio_secure;
      api_bearer_token = api_bearer_token;
    })
