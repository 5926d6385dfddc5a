-- ===== src/Workloads/Tests.antt =====
-- The theorems on services/api/aries_api/workloads at small crops: pixels are natural numbers, and the
-- statistics of numpy are stood for by sums.
use aries_space.Base.{
  ℕ, ◌+◌, ◌*◌, ◌≡◌, refl, Bool, true, false, none, some, List, [], ◌∷◌, count, All, arith,
}
use aries_space.Base.Int.{pos}
use aries_space.Exec.{Result, ok}
use aries_space.Json.{Json, Fields, obj, int, field, end}
use aries_space.Floats.{naturals, naturals-IsLinear}
use aries_space.Backend.{Bytes}
use aries_space.Workloads.Raster.{Raster, IsShaped, sum_mask}
use aries_space.Workloads.ShipDetect
use aries_space.Workloads.ShipDetect.{ShipDetectResult, bright_mask}
use aries_space.Workloads.ShipDetect.Cells.{run-IsCovered, IsBright, total}
use aries_space.Workloads.CloudMask.{quadrants, size}
use aries_space.Workloads.CloudMask.Quadrants.{
  quadrants-IsPartition, placed, pixel, total_size, total_set,
}
use aries_space.Workloads.Pixels.{Codec, read_bands, pixels}
use aries_space.Workloads.Recompress
use aries_space.Workloads.Recompress.{
  LosslessRecompressResult, run-RoundTrip, canonical_result_bytes,
}
use aries_space.Workloads.Quicklook.{block_mean_downsample}
use aries_space.Workloads.Quicklook.Bounds.{AreBetween, block_mean_downsample-Between}
use aries_space.Workloads.PayloadProxy
use aries_space.Workloads.PayloadProxy.Anomaly.{found}
use aries_space.Workloads.NdviSummary
use aries_space.Workloads.Landcover
use aries_space.Workloads.Landcover.{LandcoverClassifierResult, Runtime, Process}
use aries_space.Workloads.Landcover.Sessions.{run_once}
use aries_space.Workloads.Landcover.Dominant.{IsDominant, run_edge-IsDominant}

abbrev sums : ShipDetect.Statistics ℕ
sums = record { mean = λ _. 100; std = λ _. 10; fraction = λ mask. sum_mask mask; round3 = λ x. x }

-- One ship of two pixels in a band of two rows of three.
abbrev sea : List (List ℕ)
sea = (100 ∷ 5000 ∷ 100 ∷ []) ∷ (90 ∷ 4000 ∷ 80 ∷ []) ∷ []

abbrev crop : Raster ℕ
crop = record { width = 3; height = 2; bands = sea ∷ [] }

abbrev opened : Bytes → Result (Raster ℕ)
opened _ = ok crop

run-IsCovered_example :
    (r : ShipDetectResult ℕ) × (ShipDetect.run naturals sums opened (1 ∷ []) ≡ ok r)
    × (r.bright_pixel_count ≡ sum_mask (bright_mask naturals sums sea))
    × (total r.candidate_cells ≡ r.bright_pixel_count)
    × All IsBright r.candidate_cells
run-IsCovered_example =
    run-IsCovered naturals sums opened (1 ∷ []) crop sea refl refl (refl, (refl, (refl, tt)))

ships : sum_mask (bright_mask naturals sums sea) ≡ 2
unfolding bright_mask ShipDetect.threshold
ships = refl

abbrev clouds : List (List Bool)
clouds = (true ∷ true ∷ false ∷ []) ∷ (false ∷ true ∷ true ∷ []) ∷ (true ∷ true ∷ true ∷ []) ∷ []

quadrants-IsPartition_example :
    ((i j : ℕ) → placed 3 3 i j (quadrants 3 3 clouds) ≡ pixel i j clouds)
    × (total_size (quadrants 3 3 clouds) ≡ size clouds)
    × (total_set (quadrants 3 3 clouds) ≡ sum_mask clouds)
quadrants-IsPartition_example = quadrants-IsPartition 3 3 clouds

abbrev identity : Codec
identity = record { compress = λ _ b. b; sha256 = λ _. "digest" }

run-RoundTrip_example :
    (r : LosslessRecompressResult) × (Recompress.run identity opened (1 ∷ []) ≡ ok r)
    × ((raw : Bytes) × (some (canonical_result_bytes r) ≡ some raw)
        × (read_bands r.band_count r.height r.width raw ≡ some (sea ∷ [], []))
        × (r.raw_pixel_bytes ≡ 2 * pixels (sea ∷ [])))
run-RoundTrip_example =
    run-RoundTrip identity opened some (λ _ _. refl) (1 ∷ []) crop refl
      ((refl, (refl, (refl, tt))), tt) (ground arith)

abbrev wide : List (List ℕ)
wide =
    (1 ∷ 2 ∷ 3 ∷ 4 ∷ 9 ∷ [])
    ∷ (5 ∷ 6 ∷ 7 ∷ 8 ∷ 9 ∷ [])
    ∷ (1 ∷ 2 ∷ 3 ∷ 4 ∷ 9 ∷ [])
    ∷ (5 ∷ 6 ∷ 7 ∷ 8 ∷ 9 ∷ [])
    ∷ []

block_mean_downsample-Between_example :
    IsShaped 1 1 (block_mean_downsample 4 5 wide) × AreBetween 1 9 (block_mean_downsample 4 5 wide)
block_mean_downsample-Between_example =
    block_mean_downsample-Between 1 9 4 5 wide (omega arith) (ground arith) (ground arith)

thumbnail_of_wide : block_mean_downsample 4 5 wide ≡ (4 ∷ []) ∷ []
unfolding block_mean_downsample
thumbnail_of_wide = refl

abbrev observation : Fields
observation = field "frequency" (int (pos 437)) end

abbrev loaded : Bytes → Result Json
loaded _ = ok (obj observation)

one_field : found observation ≡ 1
unfolding PayloadProxy.found_fields
one_field = refl

-- The world counts the sessions that were made; a session answers with one row.
abbrev runtime : Runtime ℕ ℕ ℕ
runtime = record {
  create = λ _ made. (ok made, made + 1);
  infer = λ _ _. ok ((1 ∷ 7 ∷ 2 ∷ []) ∷ []);
}

abbrev started : Process ℕ ℕ
started = record { world = 0; ground = none; edge = none }

abbrev two_bands : Raster ℕ
two_bands = record { width = 1; height = 1; bands = ((5 ∷ []) ∷ []) ∷ ((6 ∷ []) ∷ []) ∷ [] }

abbrev opened_two : Bytes → Result (Raster ℕ)
opened_two _ = ok two_bands

run_edge-IsDominant_example :
    (r : LandcoverClassifierResult ℕ) × ((Landcover.run_edge_constrained naturals runtime opened_two
        [] started).0
      ≡ ok r)
    × IsDominant naturals r.dominant_class r.class_pixel_fraction
unfolding Landcover.edge_constrained_session
run_edge-IsDominant_example =
    run_edge-IsDominant naturals naturals-IsLinear runtime opened_two [] started two_bands
      ((5 ∷ []) ∷ []) ((6 ∷ []) ∷ []) 0 (1 ∷ 7 ∷ 2 ∷ []) [] refl refl refl refl (omega arith, tt)

-- What the first run returned, and the process that it left.
abbrev first_result : LandcoverClassifierResult ℕ
unfolding Landcover.summarize
first_result = Landcover.summarize naturals 1 1 (1 ∷ []) []

run_once_example :
    let s' = (Landcover.run naturals runtime opened_two [] started).1 in
    ((m : ℕ) × (s'.ground ≡ some m))
    × ((Landcover.run naturals runtime opened_two (1 ∷ []) s').1 ≡ s')
    × (s'.edge ≡ none)
unfolding Landcover.run Landcover.classify Landcover.ground_session Landcover.read_features
    Landcover.predict Landcover.summarize
run_once_example = run_once naturals runtime opened_two [] (1 ∷ []) started first_result refl

abbrev ndvi : NdviSummary.Statistics ℕ
ndvi = record {
  mean = λ _. 0;
  least = λ _. 0;
  greatest = λ _. 0;
  std = λ _. 0;
  percentile = λ _ p. p;
  fraction = λ mask. count (λ b. b) mask;
}
