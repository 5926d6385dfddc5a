-- ===== src/Workloads/Landcover.antt =====
-- services/api/aries_api/workloads/sentinel2_landcover_classifier.py. `F` stands for numpy's floats,
-- none of which is a NaN here; `M` for the sessions of ONNX Runtime, `W` for the rest of the world.
-- The two module variables that keep a session are the process's state.
pub mod Sessions
pub mod Dominant
use aries_space.Base.{
  ℕ, zero, suc, ◌+◌, ◌/◌, ◌<>◌, ◌||◌, Bool, true, false, String, Option, none, some, List, [], ◌∷◌,
  map, length, count, ◌==◌, if◌then◌else◌,
}
use aries_space.Base.Int.{pos}
use aries_space.Json.{Json, int, text, arr, dict, items}
use aries_space.Exec.{
  Result, ok, err, Exec, pure, lift, raise, modify, gets, or_raise, raise_if, ◌>>=◌, ◌>>◌,
}
use aries_space.Exn.{value_error, other}
use aries_space.Floats.{Floats}
use aries_space.Backend.{Bytes}
use aries_space.Workloads.Raster.{Raster, read_two, raster_json, fractions_json}
use aries_space.Workloads.NdviSummary.{zip_bands}

abbrev pub workload_slug : String
workload_slug = "sentinel2-landcover-classifier"

abbrev pub detector_version : String
detector_version = "onnx-mlp-landcover-v1"

abbrev pub class_names : List String
class_names = "vegetation" ∷ "bare_soil" ∷ "cloud" ∷ []

pub record LandcoverClassifierResult (F : Type 0) : Type 0 where
  pub detector_version : String
  pub width : ℕ
  pub height : ℕ
  pub class_names : List String
  pub class_pixel_fraction : List (String × F)
  pub dominant_class : String
  pub input_bytes : ℕ

-- `ort.SessionOptions`, where a value was set.
pub record SessionOptions : Type 0 where
  pub intra_op_num_threads : Option ℕ
  pub inter_op_num_threads : Option ℕ
  pub sequential : Bool

-- `ort.InferenceSession` on the committed model, and its `run`: a row of probabilities per pixel.
pub record Runtime (W M F : Type 0) : Type 0 where
  pub create : SessionOptions → Exec W M
  pub infer : M → List (List F) → Result (List (List F))

pub record Process (W M : Type 0) : Type 0 where
  pub world : W
  pub ground : Option M
  pub edge : Option M

abbrev pub default_options : SessionOptions
default_options = record {
  intra_op_num_threads = none;
  inter_op_num_threads = none;
  sequential = false;
}

abbrev pub edge_options : SessionOptions
edge_options = record {
  intra_op_num_threads = some 1;
  inter_op_num_threads = some 1;
  sequential = true;
}

module _ {W M F : Type 0} (R : Runtime W M F) where
  abbrev pub create_on : SessionOptions → Exec (Process W M) M
  create_on options s = let (r, w) = R.create options s.world in (r, record s { world = w })

  unfoldable pub ground_session : Exec (Process W M) M
  ground_session s = elim s.ground [
    | some m ↦ (ok m, s)
    | none ↦
        (do m ← create_on default_options; modify (λ p. record p { ground = some m }); pure m) s
  ]

  unfoldable pub edge_constrained_session : Exec (Process W M) M
  edge_constrained_session s = elim s.edge [
    | some m ↦ (ok m, s)
    | none ↦ (do m ← create_on edge_options; modify (λ p. record p { edge = some m }); pure m) s
  ]

abbrev pub fractions : {F : Type 0} → List (String × F) → List F
fractions [] = []
fractions ((_, x) ∷ rest) = x ∷ fractions rest

abbrev pub name_at : ℕ → List String → String
name_at n [] = ""
name_at zero (x ∷ xs) = x
name_at (suc n) (x ∷ xs) = name_at n xs

module _ {F : Type 0} (N : Floats F) where
  abbrev pub is_nonzero : F → Bool
  is_nonzero x = N.lt x (N.of_ℕ 0) || N.lt (N.of_ℕ 0) x

  abbrev pub feature_row : F × F → List F
  feature_row (red, nir) =
      let scale = N.of_ℕ 10000 in
      let sum = N.add red nir in
      let ndvi =
        if is_nonzero (N.add nir red) then N.div (N.sub nir red) (N.add nir red) else N.of_ℕ 0 in
      N.div red scale ∷ N.div nir scale ∷ ndvi ∷ N.div (N.div sum (N.of_ℕ 2)) scale ∷ []

  unfoldable pub read_features :
      (Bytes → Result (Raster F)) → Bytes → Result (List (List F) × ℕ × ℕ)
  read_features open_raster crop = elim (open_raster crop) [
    | err e ↦ err e
    | ok src ↦ elim (read_two src.bands) [
      | none ↦ err value_error
      | some (red, nir) ↦ ok (map feature_row (zip_bands red nir), src.width, src.height)
    ]
  ]

  -- `np.argmax`: the first of the greatest, and none of nothing.
  abbrev pub argmax_on : ℕ → F → ℕ → List F → ℕ
  argmax_on at best i [] = at
  argmax_on at best i (x ∷ xs) =
      if N.lt best x then argmax_on i x (suc i) xs else argmax_on at best (suc i) xs

  abbrev pub argmax : List F → Option ℕ
  argmax [] = none
  argmax (x ∷ xs) = some (argmax_on 0 x 1 xs)

  -- `np.argmax(probs, axis=1)`
  unfoldable pub predict : List (List F) → Option (List ℕ)
  predict [] = some []
  predict (row ∷ rows) = elim (argmax row) [
    | none ↦ none
    | some i ↦ elim (predict rows) [ none ↦ none | some rest ↦ some (i ∷ rest) ]
  ]

  -- `enumerate(CLASS_NAMES)` from an index on
  unfoldable pub class_fractions : List ℕ → ℕ → List String → List (String × F)
  class_fractions predicted idx [] = []
  class_fractions predicted idx (name ∷ names) =
      let hits = count (λ p. p == idx) predicted in
      (name, N.round6 (N.div (N.of_ℕ hits) (N.of_ℕ (length predicted))))
      ∷ class_fractions predicted (suc idx) names

  -- There are as many fractions as class names, so the index is that of a name.
  unfoldable pub dominant_class : List (String × F) → String
  dominant_class fs = elim (argmax (fractions fs)) [ none ↦ "" | some i ↦ name_at i class_names ]

  unfoldable pub summarize : ℕ → ℕ → List ℕ → Bytes → LandcoverClassifierResult F
  unfolding class_fractions dominant_class
  summarize width height predicted crop =
      let class_pixel_fraction = class_fractions predicted 0 class_names in
      record {
        detector_version = detector_version;
        width = width;
        height = height;
        class_names = class_names;
        class_pixel_fraction = class_pixel_fraction;
        dominant_class = dominant_class class_pixel_fraction;
        input_bytes = length crop;
      }

  module _ {W M : Type 0} (R : Runtime W M F) (open_raster : Bytes → Result (Raster F)) where
    -- A division by no pixels is a `ZeroDivisionError`.
    unfoldable pub classify :
        Bytes → Exec (Process W M) M → Exec (Process W M) (LandcoverClassifierResult F)
    unfolding read_features predict summarize
    classify crop session_factory = do
      (features, width, height) ← lift (read_features open_raster crop)
      session ← session_factory
      probs ← lift (R.infer session features)
      predicted ← or_raise (predict probs) value_error
      raise_if (length predicted == 0) other
      pure (summarize width height predicted crop)

    unfoldable pub run : Bytes → Exec (Process W M) (LandcoverClassifierResult F)
    unfolding classify
    run crop = classify crop (ground_session R)

    unfoldable pub run_edge_constrained : Bytes → Exec (Process W M) (LandcoverClassifierResult F)
    unfolding classify
    run_edge_constrained crop = classify crop (edge_constrained_session R)

abbrev limitations : String
limitations =
    "Real trained multi-class MLP (ONNX Runtime inference), not a "
    <> "hand-written threshold -- but trained against spectral-index weak "
    <> "labels (NDVI/brightness thresholds), not ground-truth land-cover "
    <> "annotation. 'Water' is out of scope for this committed model: the "
    <> "training crop (GHRCE agricultural AOI) contains no water pixels. "
    <> "The 'edge' target is a single-core-constrained execution on this "
    <> "host's Apple Silicon CPU -- a real, measured stand-in for "
    <> "dedicated edge/space silicon, not a measurement from actual " <> "space-qualified hardware."

-- `number` is how a float stands in JSON.
unfoldable pub payload : {F : Type 0} → (F → Json) → LandcoverClassifierResult F → Json
payload number r = dict (
    ("workload", text workload_slug)
    ∷ ("detector_version", text r.detector_version)
    ∷ ("raster", raster_json r.width r.height 2)
    ∷ ("class_names", arr (items (map text r.class_names)))
    ∷ ("class_pixel_fraction", dict (fractions_json number r.class_pixel_fraction))
    ∷ ("dominant_class", text r.dominant_class)
    ∷ ("input_bytes", int (pos r.input_bytes))
    ∷ ("limitations", text limitations)
    ∷ [])
