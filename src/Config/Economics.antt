-- ===== src/Config/Economics.antt =====
-- services/api/aries_api/config.py: the prices, the benchmark's numbers and the scenes, the checks at
-- the end of the module, and the module as a whole.
use aries_space.Base.{
  ℕ, Bool, true, not, ◌||◌, String, ◌<>◌, none, some, List, [], ◌∷◌, if◌then◌else◌,
}
use aries_space.Base.Int.{pos}
use aries_space.Exec.{Result, ok, err}
use aries_space.Exn.{configuration_error, value_error}
use aries_space.Floats.{Floats}
use aries_space.Fallible.{divide, return, ◌>>=◌}
use aries_space.Config.{Environment, float_env, int_env}
use aries_space.Config.Load.{
  Economics, Scene, Configuration, positive_env, text_env, load_station, load_orbits, load_service,
}

module _ {F : Type 0} (E : Environment F) (N : Floats F) where
  unfoldable pub load_economics : Result (Economics F)
  unfolding positive_env divide
  load_economics = do
    downlink_mbps ← positive_env E N "DOWNLINK_MBPS" (pos 100)
    electricity ← float_env E "ELECTRICITY_INR_PER_KWH" (N.of_ℕ 8)
    downlink ← float_env E "DOWNLINK_INR_PER_GB" (N.of_ℕ 500)
    ground_compute ← float_env E "GROUND_COMPUTE_INR_PER_HOUR" (N.of_ℕ 100)
    ground_watts ← float_env E "GROUND_ESTIMATED_WATTS" (N.of_ℕ 25)
    capex ← float_env E "EDGE_HARDWARE_CAPEX_INR" (N.of_ℕ 300000)
    lifetime ← float_env E "EDGE_HARDWARE_LIFETIME_HOURS" (N.of_ℕ 43800)
    runs ← float_env E "EDGE_EXPECTED_RUNS_PER_DAY" (N.of_ℕ 1)
    let total = N.mul runs (N.div lifetime (N.of_ℕ 24))
    capex_per_run ← divide N capex total
    sim_watts ← float_env E "EDGE_SIM_WATTS" (N.of_ℕ 15)
    slowdown ← float_env E "EDGE_SIM_SLOWDOWN_FACTOR" (N.of_ℕ 4)
    measured_watts ← float_env E "EDGE_MEASURED_WATTS" (N.of_ℕ 8)
    timeout ← positive_env E N "BENCHMARK_TIMEOUT_SECONDS" (pos 10)
    iterations ← positive_env E N "BENCHMARK_SAMPLE_ITERATIONS" (pos 1000)
    s2_iterations ← positive_env E N "SENTINEL2_BENCHMARK_SAMPLE_ITERATIONS" (pos 15)
    return (record {
      downlink_mbps = downlink_mbps;
      electricity_inr_per_kwh = electricity;
      downlink_inr_per_gb = downlink;
      ground_compute_inr_per_hour = ground_compute;
      ground_estimated_watts = ground_watts;
      edge_hardware_capex_inr = capex;
      edge_hardware_lifetime_hours = lifetime;
      edge_expected_runs_per_day = runs;
      edge_expected_total_runs = total;
      edge_hardware_capex_per_run_inr = capex_per_run;
      edge_sim_watts = sim_watts;
      edge_sim_slowdown_factor = slowdown;
      edge_measured_watts = measured_watts;
      benchmark_timeout_seconds = timeout;
      benchmark_sample_iterations = iterations;
      sentinel2_benchmark_sample_iterations = s2_iterations;
    })

  -- `fromisoformat`, and `replace(tzinfo=timezone.utc)` where the text names no zone
  unfoldable pub time_env : String → String → Result (ℕ × Bool)
  time_env name default = elim (E.read_time (text_env E N name default)) [
    | none ↦ err value_error
    | some (t, aware) ↦ ok (if not aware then (t, true) else (t, aware))
  ]

  -- A scene's settings by the prefix of their names.
  unfoldable pub load_scene : String → String → ℕ → Result Scene
  unfolding time_env positive_env
  load_scene prefix observed_at offset = do
    at ← time_env (prefix <> "_OBSERVED_AT") observed_at
    col_off ← int_env E (prefix <> "_CROP_COL_OFF") (pos offset)
    row_off ← int_env E (prefix <> "_CROP_ROW_OFF") (pos offset)
    width ← positive_env E N (prefix <> "_CROP_WIDTH") (pos 1024)
    height ← positive_env E N (prefix <> "_CROP_HEIGHT") (pos 1024)
    return (record {
      observed_at = at;
      crop_col_off = col_off;
      crop_row_off = row_off;
      crop_width = width;
      crop_height = height;
    })

  -- The prices and powers that the last loop of the module goes over, in its order.
  abbrev pub checked : Economics F → List (String × F)
  checked e =
      ("ELECTRICITY_INR_PER_KWH", e.electricity_inr_per_kwh)
      ∷ ("DOWNLINK_INR_PER_GB", e.downlink_inr_per_gb)
      ∷ ("GROUND_COMPUTE_INR_PER_HOUR", e.ground_compute_inr_per_hour)
      ∷ ("GROUND_ESTIMATED_WATTS", e.ground_estimated_watts)
      ∷ ("EDGE_SIM_WATTS", e.edge_sim_watts)
      ∷ ("EDGE_SIM_SLOWDOWN_FACTOR", e.edge_sim_slowdown_factor)
      ∷ ("EDGE_MEASURED_WATTS", e.edge_measured_watts)
      ∷ ("EDGE_HARDWARE_CAPEX_INR", e.edge_hardware_capex_inr)
      ∷ ("EDGE_HARDWARE_LIFETIME_HOURS", e.edge_hardware_lifetime_hours)
      ∷ ("EDGE_EXPECTED_RUNS_PER_DAY", e.edge_expected_runs_per_day)
      ∷ []

  unfoldable pub check_positive : List (String × F) → Result (Unit {0})
  check_positive [] = ok tt
  check_positive ((name, value) ∷ rest) =
      if not (N.isfinite value) || not (N.lt (N.of_ℕ 0) value)
      then err (configuration_error (name <> " must be a positive finite number"))
      else check_positive rest

  unfoldable pub load : Result (Configuration F)
  unfolding load_station load_orbits load_service load_economics load_scene check_positive
  load = do
    station ← load_station E N
    orbits ← load_orbits E N
    service ← load_service E N
    economics ← load_economics
    agricultural ← load_scene "SENTINEL2" "2026-06-19T05:33:00.760000+00:00" 5000
    fetch_timeout ← positive_env E N "SENTINEL2_FETCH_TIMEOUT_SECONDS" (pos 20)
    coastal ← load_scene "SENTINEL2_COASTAL" "2026-04-28T05:54:10.923000+00:00" 0
    done ← check_positive (checked economics)
    return (record {
      station = station;
      orbits = orbits;
      service = service;
      economics = economics;
      agricultural = agricultural;
      sentinel2_fetch_timeout_seconds = fetch_timeout;
      coastal = coastal;
    })
