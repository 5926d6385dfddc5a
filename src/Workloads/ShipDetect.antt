-- ===== src/Workloads/ShipDetect.antt =====
-- services/api/aries_api/workloads/ship_detect.py. `F` stands for numpy's floats; a pixel is one.
pub mod Cells
use aries_space.Base.{
  ℕ, ◌+◌, ◌*◌, ◌/◌, Bool, true, false, String, List, [], ◌∷◌, ◌++◌, ◌<>◌, map, length, take, drop,
  ltb, max, if◌then◌else◌,
}
use aries_space.Base.Int.{pos}
use aries_space.Json.{Json, int, text, arr, dict, items}
use aries_space.Exec.{Result, ok, err}
use aries_space.Floats.{Floats}
use aries_space.Backend.{Bytes}
use aries_space.Workloads.Raster.{Raster, read_one, raster_json, columns, sum_mask, range}

-- numpy's statistics of a band and of a mask, and `round(x, 3)`.
pub record Statistics (F : Type 0) : Type 0 where
  pub mean : List (List F) → F
  pub std : List (List F) → F
  pub fraction : List (List Bool) → F
  pub round3 : F → F

abbrev pub workload_slug : String
workload_slug = "ship-detect"

abbrev pub detector_version : String
detector_version = "bright-pixel-cluster-v1"

abbrev pub grid_cells_per_side : ℕ
grid_cells_per_side = 8

pub record Cell : Type 0 where
  pub row : ℕ
  pub col : ℕ
  pub bright_pixel_count : ℕ

pub record ShipDetectResult (F : Type 0) : Type 0 where
  pub detector_version : String
  pub width : ℕ
  pub height : ℕ
  pub background_mean : F
  pub background_std : F
  pub bright_pixel_count : ℕ
  pub bright_pixel_fraction : F
  pub candidate_cells : List Cell
  pub input_bytes : ℕ

-- The cells of one row of the grid that have a bright pixel; `cell_w` is never zero.
unfoldable pub cells_of_row : List (List Bool) → ℕ → ℕ → ℕ → List ℕ → List Cell
cells_of_row band row cell_w cell_h [] = []
cells_of_row band row cell_w cell_h (col ∷ cols) =
    let n = sum_mask (columns col cell_w band) in
    let rest = cells_of_row band row cell_w cell_h cols in
    if ltb 0 n
    then record { row = row / cell_h; col = col / cell_w; bright_pixel_count = n } ∷ rest
    else rest

unfoldable pub cells : List (List Bool) → ℕ → ℕ → List ℕ → List ℕ → List Cell
unfolding cells_of_row
cells mask cell_h cell_w cols [] = []
cells mask cell_h cell_w cols (row ∷ rows) =
    cells_of_row (take cell_h (drop row mask)) row cell_w cell_h cols
    ++ cells mask cell_h cell_w cols rows

-- `max(side // GRID_CELLS_PER_SIDE, 1)`
abbrev pub cell_side : ℕ → ℕ
cell_side side = max (side / grid_cells_per_side) 1

unfoldable pub candidate_cells : ℕ → ℕ → List (List Bool) → List Cell
unfolding cells
candidate_cells height width mask =
    cells mask (cell_side height) (cell_side width) (range width (cell_side width))
      (range height (cell_side height))

module _ {F : Type 0} (N : Floats F) (S : Statistics F) where
  -- `max(mean + BRIGHTNESS_SIGMA * std, MIN_ABSOLUTE_THRESHOLD)`
  unfoldable pub threshold : List (List F) → F
  threshold band =
      let bright = N.add (S.mean band) (N.mul (N.of_ℕ 4) (S.std band)) in
      if N.lt bright (N.of_ℕ 1200) then N.of_ℕ 1200 else bright

  -- `band > threshold`
  unfoldable pub bright_mask : List (List F) → List (List Bool)
  unfolding threshold
  bright_mask band = map (map (λ x. N.lt (threshold band) x)) band

  unfoldable pub detect : ℕ → ℕ → List (List F) → Bytes → ShipDetectResult F
  unfolding bright_mask candidate_cells
  detect width height band payload = record {
    detector_version = detector_version;
    width = width;
    height = height;
    background_mean = S.round3 (S.mean band);
    background_std = S.round3 (S.std band);
    bright_pixel_count = sum_mask (bright_mask band);
    bright_pixel_fraction = N.round6 (S.fraction (bright_mask band));
    candidate_cells = candidate_cells height width (bright_mask band);
    input_bytes = length payload;
  }

  unfoldable pub run : (Bytes → Result (Raster F)) → Bytes → Result (ShipDetectResult F)
  unfolding detect
  run open_raster payload = elim (open_raster payload) [
    | err e ↦ err e
    | ok src ↦ elim (read_one src.bands) [
      | err e ↦ err e
      | ok band ↦ ok (detect src.width src.height band payload)
    ]
  ]

abbrev limitations : String
limitations =
    "Deterministic bright-pixel-cluster count from a single Sentinel-2 NIR "
    <> "band over water; a statistical proxy for vessel presence, not a "
    <> "validated ship-detection model. Reports coarse grid-cell candidate "
    <> "regions, not per-pixel bounding boxes."

abbrev cell_json : Cell → Json
cell_json c = dict (
    ("row", int (pos c.row))
    ∷ ("col", int (pos c.col))
    ∷ ("bright_pixel_count", int (pos c.bright_pixel_count))
    ∷ [])

-- `number` is how a float stands in JSON.
unfoldable pub payload : {F : Type 0} → (F → Json) → ShipDetectResult F → Json
payload number r = dict (
    ("workload", text workload_slug)
    ∷ ("detector_version", text r.detector_version)
    ∷ ("raster", raster_json r.width r.height 1)
    ∷ (
      "background",
      dict (("mean", number r.background_mean) ∷ ("std", number r.background_std) ∷ []),
    )
    ∷ ("bright_pixel_count", int (pos r.bright_pixel_count))
    ∷ ("bright_pixel_fraction", number r.bright_pixel_fraction)
    ∷ ("candidate_cells", arr (items (map cell_json r.candidate_cells)))
    ∷ ("input_bytes", int (pos r.input_bytes))
    ∷ ("limitations", text limitations)
    ∷ [])
