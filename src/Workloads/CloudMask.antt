-- ===== src/Workloads/CloudMask.antt =====
-- services/api/aries_api/workloads/cloud_mask.py. `F` stands for numpy's floats; a pixel is one.
pub mod Quadrants
use aries_space.Base.{
  ℕ, ◌+◌, ◌/◌, ◌<>◌, Bool, ◌&&◌, String, none, some, map, List, [], ◌∷◌, length, take, drop, ◌==◌,
  ltb, if◌then◌else◌,
}
use aries_space.Base.Int.{pos}
use aries_space.Json.{Json, int, text, dict}
use aries_space.Exec.{Result, ok, err}
use aries_space.Exn.{value_error}
use aries_space.Floats.{Floats}
use aries_space.Backend.{Bytes}
use aries_space.Workloads.Raster.{
  Raster, read_two, raster_json, fractions_json, columns, drop_columns,
}

abbrev pub workload_slug : String
workload_slug = "cloud-mask"

abbrev pub detector_version : String
detector_version = "red-nir-brightness-v1"

pub record CloudMaskResult (F : Type 0) : Type 0 where
  pub detector_version : String
  pub width : ℕ
  pub height : ℕ
  pub cloud_fraction : F
  pub clear_fraction : F
  -- by the labels "nw", "ne", "sw" and "se"
  pub quadrant_cloud_fraction : List (String × F)
  pub input_bytes : ℕ

-- `a & b` of two masks of one raster
abbrev both_row : List Bool → List Bool → List Bool
both_row (a ∷ cs) (b ∷ ds) = (a && b) ∷ both_row cs ds
both_row _ _ = []

abbrev pub both : List (List Bool) → List (List Bool) → List (List Bool)
both (a ∷ cs) (b ∷ ds) = both_row a b ∷ both cs ds
both _ _ = []

-- `mask.size`
abbrev pub size : List (List Bool) → ℕ
size [] = 0
size (row ∷ rows) = length row + size rows

unfoldable pub quadrants : ℕ → ℕ → List (List Bool) → List (String × List (List Bool))
quadrants height width mask =
    let half_h = height / 2 in
    let half_w = width / 2 in
    ("nw", columns 0 half_w (take half_h mask))
    ∷ ("ne", drop_columns half_w (take half_h mask))
    ∷ ("sw", columns 0 half_w (drop half_h mask))
    ∷ ("se", drop_columns half_w (drop half_h mask))
    ∷ []

-- `fraction` is `float(mask.mean())`.
module _ {F : Type 0} (N : Floats F) (fraction : List (List Bool) → F) where
  -- `(red > CLOUD_REFLECTANCE_THRESHOLD) & (nir > CLOUD_REFLECTANCE_THRESHOLD)`
  unfoldable pub cloud_mask : List (List F) → List (List F) → List (List Bool)
  cloud_mask red nir =
      let above = λ (band : List (List F)). map (map (λ x. N.lt (N.of_ℕ 2000) x)) band in
      both (above red) (above nir)

  -- The mean of no pixels is not taken.
  abbrev pub quadrant_fraction : List (String × List (List Bool)) → List (String × F)
  quadrant_fraction [] = []
  quadrant_fraction ((label, q) ∷ rest) =
      (label, if size q == 0 then N.of_ℕ 0 else N.round6 (fraction q)) ∷ quadrant_fraction rest

  unfoldable pub summarize : ℕ → ℕ → List (List F) → List (List F) → Bytes → CloudMaskResult F
  unfolding cloud_mask quadrants
  summarize width height red nir payload =
      let mask = cloud_mask red nir in
      let cloud_fraction = N.round6 (fraction mask) in
      record {
        detector_version = detector_version;
        width = width;
        height = height;
        cloud_fraction = cloud_fraction;
        clear_fraction = N.round6 (N.sub (N.of_ℕ 1) cloud_fraction);
        quadrant_cloud_fraction = quadrant_fraction (quadrants height width mask);
        input_bytes = length payload;
      }

  unfoldable pub run : (Bytes → Result (Raster F)) → Bytes → Result (CloudMaskResult F)
  unfolding summarize
  run open_raster payload = elim (open_raster payload) [
    | err e ↦ err e
    | ok src ↦ elim (read_two src.bands) [
      | none ↦ err value_error
      | some (red, nir) ↦ ok (summarize src.width src.height red nir payload)
    ]
  ]

abbrev limitations : String
limitations =
    "Deterministic red+NIR joint-brightness threshold, computed from raw "
    <> "bands (not the SCL scene-classification shortcut); clouds are bright "
    <> "in both visible red and NIR simultaneously, unlike vegetation (dark "
    <> "red, bright NIR) or bare soil/water. A coarse proxy, not a validated " <> "cloud product."

-- `number` is how a float stands in JSON.
unfoldable pub payload : {F : Type 0} → (F → Json) → CloudMaskResult F → Json
payload number r = dict (
    ("workload", text workload_slug)
    ∷ ("detector_version", text r.detector_version)
    ∷ ("raster", raster_json r.width r.height 2)
    ∷ ("cloud_fraction", number r.cloud_fraction)
    ∷ ("clear_fraction", number r.clear_fraction)
    ∷ ("quadrant_cloud_fraction", dict (fractions_json number r.quadrant_cloud_fraction))
    ∷ ("input_bytes", int (pos r.input_bytes))
    ∷ ("limitations", text limitations)
    ∷ [])
