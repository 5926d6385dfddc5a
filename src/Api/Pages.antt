-- ===== src/Api/Pages.antt =====
-- services/api/aries_api/main.py: the endpoints that only read. The settings that an answer repeats are
-- left out. What FastAPI checks of a request's numbers is not here.
use aries_space.Base.{
  ℕ, Bool, true, false, String, ◌<>◌, none, some, List, [], ◌∷◌, map, length, if◌then◌else◌,
}
use aries_space.Base.Int.{ℤ}
use aries_space.Exn.{Exn, detail, http_exception}
use aries_space.Exec.{Result, ok, err, Exec, pure, raise, gets, try_except, ◌>>=◌, ◌>>◌}
use aries_space.Floats.{Floats}
use aries_space.Json.{Json}
use aries_space.Models.{Observation, Tables, BenchmarkRun}
use aries_space.Tle.{TleRecord, Strings, Celestrak, Caches, get_tle}
use aries_space.Predict.{Event, PredictedPass, compute_passes}
use aries_space.Overhead.{Sky, Settings}
use aries_space.Overhead.Track.{Clock, is_tle_unavailable, ground_track_for}
use aries_space.Overhead.Snapshot.{Snapshot, build_snapshot}
use aries_space.Status.{Status, compute_status}
use aries_space.Dashboard.{Breakdown, Run, build_workload_matrix}

-- `except TLEUnavailableError`
abbrev pub tle_error : Exn → Exn
tle_error e = if is_tle_unavailable e then http_exception 503 (detail e) else e

pub record PassesPayload (F : Type 0) : Type 0 where
  pub tle_stale : Bool
  pub tle_fetched_at : ℕ
  pub passes : List (PredictedPass F)

-- Skyfield's events for an element set, and the parameters of `compute_passes`.
pub record Passes (F : Type 0) : Type 0 where
  pub events : TleRecord → ℕ → List (Event F)
  pub sector : F → ℕ
  pub round2 : F → F

module _ {F : Type 0} (N : Floats F) (S : Strings) {W : Type 0} (C : Celestrak W)
    (refresh : ℕ) where
  unfoldable pub passes_payload : Passes F → ℤ → ℕ → Exec (Caches W) (PassesPayload F)
  passes_payload T norad_id count = do
    tle ← try_except (get_tle S C refresh norad_id) (λ e. raise (tle_error e))
    now ← gets (λ s. C.now s.world)
    pure (record {
      tle_stale = tle.stale;
      tle_fetched_at = tle.fetched_at;
      passes = compute_passes N T.sector T.round2 tle.stale count (T.events tle now);
    })

  unfoldable pub api_passes : Passes F → ℤ → ℕ → Exec (Caches W) (PassesPayload F)
  unfolding passes_payload
  api_passes T norad_id count = passes_payload T norad_id count

  -- `shift` adds the offset in minutes to the clock.
  unfoldable pub api_overhead :
      Sky F → Settings F → (ℕ → Clock) → (ℕ → ℕ) → Exec (Caches W) (Snapshot F)
  api_overhead Y G clock shift = do
    moment ← gets (λ s. shift (C.now s.world))
    try_except (build_snapshot N Y G S C refresh clock (some moment)) (λ e. raise (tle_error e))

  -- `show` is `str` of an int.
  unfoldable pub api_overhead_track : Sky F → Settings F → ℤ → ℕ → Exec (Caches W) (List (F × F))
  api_overhead_track Y G norad_id minutes = do
    track ←
        try_except (ground_track_for Y G S C refresh norad_id (some minutes) none)
          (λ e. raise (tle_error e))
    elim track [
      | [] ↦ raise (http_exception 404 ("No TLE found for NORAD " <> S.show norad_id))
      | p ∷ rest ↦ pure (p ∷ rest)
    ]

pub record ObservationRow : Type 0 where
  pub satnogs_observation_id : ℤ
  pub satellite_id : ℤ
  pub station_id : Json
  pub timestamp : ℕ
  pub frequency : Json
  pub signal_quality : Json
  pub waterfall_url : Json
  pub audio_url : Json
  pub has_decoded_data : Bool

pub record ObservationPage : Type 0 where
  pub total : ℕ
  pub limit : ℕ
  pub offset : ℕ
  pub observations : List ObservationRow

-- The link to SatNOGS repeats the first number.
unfoldable pub observation_row : Observation → ObservationRow
observation_row o = record {
  satnogs_observation_id = o.satnogs_observation_id;
  satellite_id = o.satellite_id;
  station_id = o.station_id;
  timestamp = o.timestamp;
  frequency = o.frequency;
  signal_quality = o.signal_quality;
  waterfall_url = o.waterfall_url;
  audio_url = o.audio_url;
  has_decoded_data = elim o.decoded_data [ none ↦ false | some _ ↦ true ];
}

-- The two queries of the endpoint, which may raise: the rows by `ORDER BY timestamp DESC`, from an
-- offset on and at most so many, where those of one timestamp come in an order that may differ from
-- one query to the next; and the count of all rows.
pub record ObservationQueries (W : Type 0) : Type 0 where
  pub rows : ℕ → ℕ → Exec W (List Observation)
  pub count : Exec W ℕ

unfoldable pub api_observations :
    {W : Type 0} → ObservationQueries W → ℕ → ℕ → Exec W ObservationPage
unfolding observation_row
api_observations queries limit offset = do
  rows ← queries.rows offset limit
  total ← queries.count
  pure (record {
    total = total;
    limit = limit;
    offset = offset;
    observations = map observation_row rows;
  })

unfoldable pub api_status : ℕ → List Observation → Status
api_status now observations = compute_status now observations

pub record MatrixPage (F : Type 0) : Type 0 where
  pub workloads : List (Breakdown F)
  pub total_registered : ℕ

module _ {F : Type 0} (N : Floats F) (is_measured : BenchmarkRun F → Bool)
    (order_by_slug : List (Run F) → List (Run F)) where
  -- The slugs are the keys of `WORKLOAD_REGISTRY`.
  unfoldable pub workload_matrix : List String → Tables F → Result (List (Breakdown F))
  workload_matrix slugs t = build_workload_matrix N is_measured order_by_slug t slugs

  unfoldable pub api_benchmark_matrix : List String → Tables F → Result (MatrixPage F)
  unfolding workload_matrix
  api_benchmark_matrix slugs t = elim (workload_matrix slugs t) [
    | err e ↦ err e
    | ok matrix ↦ ok (record { workloads = matrix; total_registered = length slugs })
  ]

-- `lifespan` around the service: `serve` is what runs between start and stop.
unfoldable pub lifespan :
    {W : Type 0}
    → Exec W (Unit {0})
    → Bool
    → Exec W (Unit {0})
    → Exec W (Unit {0})
    → Exec W (Unit {0})
    → Exec W (Unit {0})
lifespan ensure_buckets scheduler_enabled start stop serve = do
  ensure_buckets
  if scheduler_enabled then start else pure tt
  finally serve (if scheduler_enabled then stop else pure tt)
  where
    -- `try: m` with `finally: k`; what `k` raises comes instead.
    finally : {W : Type 0} → Exec W (Unit {0}) → Exec W (Unit {0}) → Exec W (Unit {0})
    finally m k w =
        let (r, w') = m w in
        let (r', w'') = k w' in elim r' [ ok _ ↦ (r, w'') | err e ↦ (err e, w'') ]
