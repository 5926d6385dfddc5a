-- ===== src/Workloads/NdviSummary.antt =====
-- services/api/aries_api/workloads/sentinel2_ndvi_summary.py. `F` stands for numpy's floats; a pixel
-- is one.
use aries_space.Base.{
  ℕ, ◌<>◌, Bool, ◌&&◌, String, none, some, List, [], ◌∷◌, ◌++◌, map, length, if◌then◌else◌,
}
use aries_space.Base.Int.{pos}
use aries_space.Json.{Json, int, text, dict}
use aries_space.Exec.{Result, ok, err}
use aries_space.Exn.{value_error}
use aries_space.Floats.{Floats}
use aries_space.Backend.{Bytes}
use aries_space.Workloads.Raster.{Raster, read_two, raster_json, fractions_json}

-- numpy's statistics of an array of numbers and of one of Booleans.
pub record Statistics (F : Type 0) : Type 0 where
  pub mean : List F → F
  pub least : List F → F
  pub greatest : List F → F
  pub std : List F → F
  pub percentile : List F → ℕ → F
  pub fraction : List Bool → F

abbrev pub workload_slug : String
workload_slug = "sentinel2-ndvi-summary"

abbrev pub detector_version : String
detector_version = "ndvi-summary-v1"

pub record NdviSummaryResult (F : Type 0) : Type 0 where
  pub detector_version : String
  pub width : ℕ
  pub height : ℕ
  pub band_count : ℕ
  pub valid_pixel_fraction : F
  pub ndvi_mean : F
  pub ndvi_min : F
  pub ndvi_max : F
  pub ndvi_std : F
  pub ndvi_percentiles : List (String × F)
  pub vegetation_fraction : F
  pub input_bytes : ℕ

-- The pixels of two bands at the same places, row by row.
abbrev zip_row : {F : Type 0} → List F → List F → List (F × F)
zip_row (r ∷ rs) (n ∷ ns) = (r, n) ∷ zip_row rs ns
zip_row _ _ = []

abbrev pub zip_bands : {F : Type 0} → List (List F) → List (List F) → List (F × F)
zip_bands (r ∷ rs) (n ∷ ns) = zip_row r n ++ zip_bands rs ns
zip_bands _ _ = []

abbrev percentile_points : List (String × ℕ)
percentile_points = ("5", 5) ∷ ("25", 25) ∷ ("50", 50) ∷ ("75", 75) ∷ ("95", 95) ∷ []

module _ {F : Type 0} (N : Floats F) (S : Statistics F) where
  -- Both bands above zero: zero means no data.
  abbrev pub is_valid : F × F → Bool
  is_valid (red, nir) = N.lt (N.of_ℕ 0) red && N.lt (N.of_ℕ 0) nir

  abbrev pub ndvi_of : F × F → F
  ndvi_of (red, nir) =
      if N.lt (N.of_ℕ 0) (N.add red nir) then N.div (N.sub nir red) (N.add red nir) else N.of_ℕ 0

  -- `ndvi[valid]`
  unfoldable pub valid_ndvi : List (F × F) → List F
  valid_ndvi [] = []
  valid_ndvi (p ∷ ps) = let rest = valid_ndvi ps in if is_valid p then ndvi_of p ∷ rest else rest

  -- One zero where no pixel is valid.
  unfoldable pub values_of : List (F × F) → List F
  unfolding valid_ndvi
  values_of ps = elim (valid_ndvi ps) [ [] ↦ N.of_ℕ 0 ∷ [] | x ∷ xs ↦ x ∷ xs ]

  unfoldable pub summarize : ℕ → ℕ → List (F × F) → Bytes → NdviSummaryResult F
  unfolding values_of
  summarize width height ps crop =
      let values = values_of ps in
      let valid_fraction : F = elim ps [
        | [] ↦ N.of_ℕ 0
        | p ∷ rest ↦ S.fraction (map is_valid (p ∷ rest))
      ] in
      record {
        detector_version = detector_version;
        width = width;
        height = height;
        band_count = 2;
        valid_pixel_fraction = N.round6 valid_fraction;
        ndvi_mean = N.round6 (S.mean values);
        ndvi_min = N.round6 (S.least values);
        ndvi_max = N.round6 (S.greatest values);
        ndvi_std = N.round6 (S.std values);
        ndvi_percentiles =
            map (λ (l, point). (l, N.round6 (S.percentile values point))) percentile_points;
        vegetation_fraction =
            N.round6 (S.fraction (map (λ x. N.lt (N.div (N.of_ℕ 3) (N.of_ℕ 10)) x) values));
        input_bytes = length crop;
      }

  unfoldable pub run : (Bytes → Result (Raster F)) → Bytes → Result (NdviSummaryResult F)
  unfolding summarize
  run open_raster crop = elim (open_raster crop) [
    | err e ↦ err e
    | ok src ↦ elim (read_two src.bands) [
      | none ↦ err value_error
      | some (red, nir) ↦ ok (summarize src.width src.height (zip_bands red nir) crop)
    ]
  ]

abbrev limitations : String
limitations =
    "Deterministic NDVI summary statistics computed from a real Sentinel-2 "
    <> "L2A B04 (red) / B08 (NIR) crop; not a validated land-cover classification " <> "product."

-- `number` is how a float stands in JSON.
unfoldable pub payload : {F : Type 0} → (F → Json) → NdviSummaryResult F → Json
payload number r = dict (
    ("workload", text workload_slug)
    ∷ ("detector_version", text r.detector_version)
    ∷ ("raster", raster_json r.width r.height r.band_count)
    ∷ ("valid_pixel_fraction", number r.valid_pixel_fraction)
    ∷ (
      "ndvi",
      dict (
          ("mean", number r.ndvi_mean)
          ∷ ("min", number r.ndvi_min)
          ∷ ("max", number r.ndvi_max)
          ∷ ("std", number r.ndvi_std)
          ∷ ("percentiles", dict (fractions_json number r.ndvi_percentiles))
          ∷ []),
    )
    ∷ ("vegetation_fraction", number r.vegetation_fraction)
    ∷ ("input_bytes", int (pos r.input_bytes))
    ∷ ("limitations", text limitations)
    ∷ [])
