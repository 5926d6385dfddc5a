-- ===== src/Lib.antt =====
-- Aries Stage 0: a service that ingests satellite observations and Sentinel-2 crops as verified
-- objects with database rows, runs each workload on a ground and an edge target, prices both, and
-- serves the results. This library models the Python service of services/api/aries_api and two scripts.
--
-- How the parts interact: an endpoint (Api) passes its guards and calls an ingestion (Ingest,
-- Sentinel2) or a benchmark (Benchmarks); these read and write objects through the wrapper of the
-- object store (Storage) and rows through the session, and keep the two consistent when either fails.
-- The benchmark executes a workload on two targets, encodes and stores each result, prices it
-- (Metrics) and commits the pair. The limiter (RateLimit) stands before every endpoint. The scheduler
-- (Scheduler) polls and refreshes element sets (Tle), from which passes are predicted (Predict).
--
-- Files and what they model:
--   Exn, Exec          Python's exceptions and statements: an action takes a state to a value or an
--                      exception, and the state as it was left
--   Models             services/api/aries_api/models.py, the tables as lists of rows
--   Backend            the MinIO client, the SQLAlchemy session, the clock and the log, as an interface;
--                      Backend/Laws states what the program relies on, Backend/Memory fills it,
--                      Backend/Reads has steps that change nothing
--   Storage            services/api/aries_api/storage.py, `ObjectStore`
--   Json, Normalize    services/api/aries_api/normalize.py, `normalize_observation`
--   Ingest             services/api/aries_api/ingest.py, `ingest_satnogs_observation` in its parts
--   Sentinel2          services/api/aries_api/sentinel2_ingest.py, `ingest_sentinel2_crop` in its parts
--   Floats, Metrics    services/api/aries_api/metrics.py over an interface of floats
--   Benchmarks         services/api/aries_api/benchmarks.py: Registry, Catalog (`_seed_catalog`),
--                      Encoding (`_result_bytes`), Execute (`_execute_target`), Rows and Pair
--                      (`run_benchmark_pair`), Read (`latest_completed_pair`, `serialize_pair`)
--   RateLimit, Api     services/api/aries_api/main.py; Pages has the endpoints that only read, Context
--                      the context of the dashboard
--   Fallible           exceptions without a state
--   Tle                services/api/aries_api/tle.py, both caches
--   Overhead           services/api/aries_api/overhead.py: the states, Track (`ground_track`,
--                      `ground_track_for`, `subsolar_point`) and Snapshot (`build_snapshot`)
--   Workloads          services/api/aries_api/workloads, a module for each detector
--   Fetch              services/api/aries_api/ingest.py, `fetch_observation`
--   Predict            services/api/aries_api/predict.py, the loop over events
--   Scheduler          services/api/aries_api/scheduler.py: start, stop and the jobs
--   Config             services/api/aries_api/config.py: the readers and validators, and Load and
--                      Economics, the constants in the module's order
--   Dashboard          services/api/aries_api/dashboard_data.py, the breakdown and the matrix
--   Status             services/api/aries_api/status.py, `compute_status`
--   Snapshot           scripts/storage_snapshot.py, backup, restore and verify
--   ComposeSmoke       scripts/compose_smoke.py, the settings and `_wait_ready`
--
-- State is passed explicitly. Code that is not in the repository is a parameter: the object store, the
-- database, the clock, Skyfield, APScheduler, httpx, the JSON encoder, digests and Python's string
-- methods. Three functions run on fuel: `_result_bytes`, whose four rounds are the source's own;
-- `_wait_ready`, for which a round each half second until the deadline is enough; and Python's `range`,
-- whose end is enough for it. A query of an ingestion, of a benchmark, of `serialize_pair` and of the
-- observations may raise, as may what the dashboard reads; the status, `latest_completed_pair` and the
-- matrix are modelled on tables that are had. Times are whole numbers. Of a run's row the document
-- itself is left out.
--
-- The benchmarks take the detectors as parameters, since a run needs no more of one than its result.
-- Rasters are read by rasterio, and numpy's statistics, zlib and ONNX Runtime are parameters; what the
-- detectors compute around them is modelled.
--
-- Not modelled: the templates and the pages that only fill them, migrations, the links and fixture
-- paths of the scenes, and the scripts that deploy, train or smoke-test but for what is named above.
pub mod Base
pub mod Exn
pub mod Exec
pub mod Fallible
pub mod Json
pub mod Models
pub mod Backend
pub mod Storage
pub mod RateLimit
pub mod Normalize
pub mod Ingest
pub mod Floats
pub mod Metrics
pub mod Benchmarks
pub mod Tle
pub mod Sentinel2
pub mod Predict
pub mod Scheduler
pub mod Api
pub mod Config
pub mod Snapshot
pub mod Status
pub mod Workloads
pub mod Overhead
pub mod Dashboard
pub mod ComposeSmoke
pub mod Fetch
