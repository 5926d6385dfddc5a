-- ===== src/Config/Valid.antt =====
-- services/api/aries_api/config.py: what a configuration that loads is.
use aries_space.Base.{
  ℕ, true, false, not, ◌||◌, ◌≡◌, refl, inl, inr, String, List, [], ◌∷◌, All, arith, Bool-cases,
  Option-cases,
}
use aries_space.Base.Int.{pos}
use aries_space.Exec.{Result-cases}
use aries_space.Floats.{Floats}
use aries_space.Fallible.{divide}
use aries_space.Config.{Environment, int_env}
use aries_space.Config.Load.{
  Station, Orbits, Service, Economics, Scene, Configuration, load_station, load_orbits,
  load_service, below_five, minus, text_env,
}
use aries_space.Config.Economics.{
  load_economics, time_env, load_scene, checked, check_positive, load,
}
use aries_space.Config.Readers.{
  Outcome, Succeeds, IsPositive, IsWithin, not-false, >>=-Succeeds, raise_when-Succeeds,
  return-Succeeds, int_env-Succeeds, float_env-Succeeds, positive_env-Succeeds, range_env-Succeeds,
  required_env-Succeeds, bool_env-Succeeds,
}

module _ {F : Type 0} (E : Environment F) (N : Floats F) where
  abbrev pub IsPrice : String × F → Type 0
  IsPrice (_, x) = (N.isfinite x ≡ true) × (N.lt (N.of_ℕ 0) x ≡ true)

  abbrev IsStation : Station F → Type 0
  IsStation c =
      IsWithin E N (minus E N 90) (N.of_ℕ 90) c.station_lat
      × IsWithin E N (minus E N 180) (N.of_ℕ 180) c.station_lon
      × (N.isfinite c.station_elev_m ≡ true)

  load_station-Succeeds : Succeeds IsStation (load_station E N)
  unfolding load_station
  load_station-Succeeds =
      >>=-Succeeds (int_env E "NORAD_ID" (pos 68635)) _ (int_env-Succeeds E N _ _) (λ norad_id _.
        >>=-Succeeds _ _ (range_env-Succeeds E N _ _ _ _) (λ lat within_lat.
          >>=-Succeeds _ _ (range_env-Succeeds E N _ _ _ _) (λ lon within_lon.
            >>=-Succeeds _ _ (float_env-Succeeds E N _ _) (λ elev _.
              >>=-Succeeds _ _ (raise_when-Succeeds _ _ refl) (λ _ finite.
                return-Succeeds _ (within_lat, within_lon, not-false (N.isfinite elev) finite))))))

  abbrev IsOrbits : Orbits F → Type 0
  IsOrbits c =
      IsPositive c.satnogs_max_response_bytes
      × IsPositive c.tle_refresh_hours
      × IsPositive c.tle_group_timeout_seconds
      × IsWithin E N (minus E N 90) (N.of_ℕ 90) c.overhead_min_elevation_deg
      × IsPositive c.overhead_max_satellites
      × IsPositive c.ground_track_minutes

  load_orbits-Succeeds : Succeeds IsOrbits (load_orbits E N)
  unfolding load_orbits
  load_orbits-Succeeds = >>=-Succeeds _ _ (positive_env-Succeeds E N _ _) (λ bytes a.
      >>=-Succeeds _ _ (positive_env-Succeeds E N _ _) (λ hours b.
        >>=-Succeeds _ _ (positive_env-Succeeds E N _ _) (λ timeout c.
          >>=-Succeeds _ _ (range_env-Succeeds E N _ _ _ _) (λ elevation d.
            >>=-Succeeds _ _ (positive_env-Succeeds E N _ _) (λ satellites e.
              >>=-Succeeds _ _ (positive_env-Succeeds E N _ _)
                (λ minutes f. return-Succeeds _ (a, b, c, d, e, f)))))))

  abbrev IsService : Service → Type 0
  IsService c =
      (below_five c.obs_poll_minutes ≡ false)
      × IsPositive c.readiness_timeout_seconds
      × IsPositive c.rate_limit_requests_per_minute
      × (E.startswith c.database_url "postgresql+psycopg://" ≡ true)

  load_service-Succeeds : Succeeds IsService (load_service E N)
  unfolding load_service
  load_service-Succeeds = >>=-Succeeds _ _ (int_env-Succeeds E N _ _) (λ poll _.
      >>=-Succeeds _ _ (raise_when-Succeeds (below_five poll) _ refl) (λ _ a.
        >>=-Succeeds _ _ (bool_env-Succeeds E N _ _) (λ enabled _.
          >>=-Succeeds _ _ (positive_env-Succeeds E N _ _) (λ timeout b.
            >>=-Succeeds _ _ (positive_env-Succeeds E N _ _) (λ limit c.
              >>=-Succeeds _ _ (required_env-Succeeds E N _) (λ url _.
                >>=-Succeeds _ _
                  (raise_when-Succeeds (not (E.startswith url "postgresql+psycopg://")) _ refl)
                  (λ _ d. >>=-Succeeds _ _ (required_env-Succeeds E N _) (λ access _.
                    >>=-Succeeds _ _ (required_env-Succeeds E N _) (λ secret _.
                      >>=-Succeeds _ _ (bool_env-Succeeds E N _ _) (λ secure _.
                        >>=-Succeeds _ _ (required_env-Succeeds E N _) (λ token _.
                          return-Succeeds _ (
                            a,
                            b,
                            c,
                            not-false (E.startswith url "postgresql+psycopg://") d,
                          ))))))))))))

  abbrev IsMarket : Economics F → Type 0
  IsMarket c =
      IsPositive c.downlink_mbps
      × (c.edge_hardware_capex_per_run_inr
          ≡ N.div c.edge_hardware_capex_inr c.edge_expected_total_runs)
      × IsPositive c.benchmark_timeout_seconds
      × IsPositive c.benchmark_sample_iterations
      × IsPositive c.sentinel2_benchmark_sample_iterations

  divide-Succeeds : (a b : F) → Succeeds (λ q. q ≡ N.div a b) (divide N a b)
  unfolding divide
  divide-Succeeds a b = record { outcome = ground arith }

  load_economics-Succeeds : Succeeds IsMarket (load_economics E N)
  unfolding load_economics
  load_economics-Succeeds = >>=-Succeeds _ _ (positive_env-Succeeds E N _ _) (λ mbps a.
      >>=-Succeeds _ _ (float_env-Succeeds E N _ _) (λ electricity _.
        >>=-Succeeds _ _ (float_env-Succeeds E N _ _) (λ downlink _.
          >>=-Succeeds _ _ (float_env-Succeeds E N _ _) (λ compute _.
            >>=-Succeeds _ _ (float_env-Succeeds E N _ _) (λ watts _.
              >>=-Succeeds _ _ (float_env-Succeeds E N _ _) (λ capex _.
                >>=-Succeeds _ _ (float_env-Succeeds E N _ _) (λ lifetime _.
                  >>=-Succeeds _ _ (float_env-Succeeds E N _ _) (λ runs _.
                    >>=-Succeeds _ _ (divide-Succeeds _ _) (λ per_run b.
                      >>=-Succeeds _ _ (float_env-Succeeds E N _ _) (λ sim _.
                        >>=-Succeeds _ _ (float_env-Succeeds E N _ _) (λ slowdown _.
                          >>=-Succeeds _ _ (float_env-Succeeds E N _ _) (λ measured _.
                            >>=-Succeeds _ _ (positive_env-Succeeds E N _ _) (λ timeout c.
                              >>=-Succeeds _ _ (positive_env-Succeeds E N _ _) (λ iterations d.
                                >>=-Succeeds _ _ (positive_env-Succeeds E N _ _)
                                  (λ s2 e. return-Succeeds _ (a, b, c, d, e))))))))))))))))

  abbrev IsScene : Scene → Type 0
  IsScene c = (c.observed_at.1 ≡ true) × IsPositive c.crop_width × IsPositive c.crop_height

  time_env-Succeeds : (name d : String) → Succeeds (λ t. t.1 ≡ true) (time_env E N name d)
  unfolding time_env
  time_env-Succeeds name d = elim (Option-cases (E.read_time (text_env E N name d))) [
    | inl h ↦ record { outcome = ground (arith, h) }
    | inr ((t, aware), h) ↦ record { outcome = ground (arith, h) }
  ]

  load_scene-Succeeds :
      (prefix at : String) (offset : ℕ) → Succeeds IsScene (load_scene E N prefix at offset)
  unfolding load_scene
  load_scene-Succeeds prefix at offset = >>=-Succeeds _ _ (time_env-Succeeds _ _) (λ t a.
      >>=-Succeeds _ _ (int_env-Succeeds E N _ _) (λ col _.
        >>=-Succeeds _ _ (int_env-Succeeds E N _ _) (λ row _.
          >>=-Succeeds _ _ (positive_env-Succeeds E N _ _) (λ width b.
            >>=-Succeeds _ _ (positive_env-Succeeds E N _ _)
              (λ height c. return-Succeeds _ (a, b, c))))))

  check_positive-Succeeds :
      (xs : List (String × F)) → Succeeds (λ _. All IsPrice xs) (check_positive E N xs)
  unfolding check_positive
  check_positive-Succeeds [] = record { outcome = tt }
  check_positive-Succeeds ((name, x) ∷ xs) =
      let rest = (check_positive-Succeeds xs).outcome in
      elim (Bool-cases (not (N.isfinite x) || not (N.lt (N.of_ℕ 0) x))) [
        | inl h ↦ record { outcome = ground (arith, h) }
        | inr h ↦ elim (Result-cases (check_positive E N xs)) [
          | inl (u, g) ↦ record { outcome = ground (arith, h, g, rest) }
          | inr (e, g) ↦ record { outcome = ground (arith, h, g, rest) }
        ]
      ]

  abbrev pub IsAbove : F → Type 0
  IsAbove x = (N.isfinite x ≡ true) × (N.lt (N.of_ℕ 0) x ≡ true)

  -- The three prices, the four powers and factors, the hardware's price, its life and its runs a day.
  abbrev pub IsPriced : Economics F → Type 0
  IsPriced e =
      IsAbove e.electricity_inr_per_kwh
      × IsAbove e.downlink_inr_per_gb
      × IsAbove e.ground_compute_inr_per_hour
      × IsAbove e.ground_estimated_watts
      × IsAbove e.edge_sim_watts
      × IsAbove e.edge_sim_slowdown_factor
      × IsAbove e.edge_measured_watts
      × IsAbove e.edge_hardware_capex_inr
      × IsAbove e.edge_hardware_lifetime_hours
      × IsAbove e.edge_expected_runs_per_day

  checked-IsPriced : (e : Economics F) → All IsPrice (checked E N e) → IsPriced e
  checked-IsPriced e h = ground (arith, h)

  abbrev pub IsValid : Configuration F → Type 0
  IsValid c =
      IsStation c.station
      × IsOrbits c.orbits
      × IsService c.service
      × IsMarket c.economics
      × IsScene c.agricultural
      × IsPositive c.sentinel2_fetch_timeout_seconds
      × IsScene c.coastal
      × IsPriced c.economics

  -- Whatever the environment, loading the configuration raises a ValueError or a ZeroDivisionError,
  -- or gives one in which the place of the station and the lowest elevation lie within their ranges,
  -- every count, size and timeout is positive, observations are polled at most every five minutes,
  -- the database is PostgreSQL, times name their zone, and the prices of electricity, of the downlink
  -- and of ground compute, the watts of the ground and of both edges, the slowdown of the simulated
  -- edge, and the price, the life and the runs a day of the edge hardware are finite numbers above
  -- zero.
  pub load-IsValid : Outcome IsValid (load E N)
  unfolding load
  load-IsValid =
      (>>=-Succeeds _ _ load_station-Succeeds (λ station a.
        >>=-Succeeds _ _ load_orbits-Succeeds (λ orbits b.
          >>=-Succeeds _ _ load_service-Succeeds (λ service c.
            >>=-Succeeds _ _ load_economics-Succeeds (λ economics d.
              >>=-Succeeds _ _
                (load_scene-Succeeds "SENTINEL2" "2026-06-19T05:33:00.760000+00:00" 5000)
                (λ agricultural e. >>=-Succeeds _ _ (positive_env-Succeeds E N _ _) (λ timeout f.
                  >>=-Succeeds _ _
                    (load_scene-Succeeds "SENTINEL2_COASTAL" "2026-04-28T05:54:10.923000+00:00" 0)
                    (λ coastal g.
                      >>=-Succeeds _ _ (check_positive-Succeeds (checked E N economics)) (λ done h.
                        return-Succeeds _
                          (a, b, c, d, e, f, g, checked-IsPriced economics h)))))))))).outcome
