-- ===== src/Workloads/Quicklook.antt =====
-- services/api/aries_api/workloads/sentinel2_quicklook_thumbnail.py. Pixels are those of a crop of
-- sixteen bits: a block's sum and its sixteenth are then exact in a double, and the cast to `uint16`
-- cuts off the fraction.
pub mod Bounds
use aries_space.Base.{
  ℕ, zero, suc, ◌+◌, ◌*◌, ◌/◌, ◌<>◌, String, List, [], ◌∷◌, map, length, take, drop,
}
use aries_space.Base.Int.{pos}
use aries_space.Json.{Json, int, text, dict}
use aries_space.Exec.{Result, ok, err}
use aries_space.Exn.{value_error}
use aries_space.Backend.{Bytes}
use aries_space.Workloads.Raster.{Raster, columns, drop_columns, raster_json}
use aries_space.Workloads.Pixels.{Codec, uint16, to_bytes}

abbrev pub workload_slug : String
workload_slug = "sentinel2-quicklook-thumbnail"

abbrev pub detector_version : String
detector_version = "block-mean-decimate-4x-zlib6-v1"

abbrev pub decimation_factor : ℕ
decimation_factor = 4

pub record QuicklookThumbnailResult : Type 0 where
  pub detector_version : String
  pub source_width : ℕ
  pub source_height : ℕ
  pub thumbnail_width : ℕ
  pub thumbnail_height : ℕ
  pub band_count : ℕ
  pub input_bytes : ℕ
  pub thumbnail_raw_bytes : ℕ
  pub compressed_bytes : Bytes
  pub compressed_sha256 : String

unfoldable pub canonical_result_bytes : QuicklookThumbnailResult → Bytes
canonical_result_bytes r = r.compressed_bytes

abbrev limitations : String
limitations =
    "Real block-mean spatial decimation (each axis /4) followed by "
    <> "zlib-level-6 compression of the thumbnail pixels -- a real, "
    <> "viewable lower-resolution preview, not a semantic summary. "
    <> "Deliberately a mid-range placement-frontier workload: the "
    <> "output is still pixel data (lossy at the resolution level, "
    <> "lossless below that), not an extracted insight."

unfoldable pub payload : QuicklookThumbnailResult → Json
payload r = dict (
    ("workload", text workload_slug)
    ∷ ("detector_version", text r.detector_version)
    ∷ (
      "source_raster",
      dict (("width", int (pos r.source_width)) ∷ ("height", int (pos r.source_height)) ∷ []),
    )
    ∷ ("thumbnail_raster", raster_json r.thumbnail_width r.thumbnail_height r.band_count)
    ∷ ("input_bytes", int (pos r.input_bytes))
    ∷ ("thumbnail_raw_bytes", int (pos r.thumbnail_raw_bytes))
    ∷ ("compressed_bytes_size", int (pos (length r.compressed_bytes)))
    ∷ ("compressed_sha256", text r.compressed_sha256)
    ∷ ("decimation_factor", int (pos decimation_factor))
    ∷ ("limitations", text limitations)
    ∷ [])

abbrev pub sum_row : List ℕ → ℕ
sum_row [] = 0
sum_row (x ∷ xs) = x + sum_row xs

abbrev pub sum_block : List (List ℕ) → ℕ
sum_block [] = 0
sum_block (row ∷ rows) = sum_row row + sum_block rows

-- The means of the blocks in a band of blocks, as many as are wanted; what is left over is trimmed.
unfoldable pub block_means : ℕ → ℕ → List (List ℕ) → List ℕ
block_means factor zero rows = []
block_means factor (suc n) rows =
    uint16 (sum_block (columns 0 factor rows) / (factor * factor))
    ∷ block_means factor n (drop_columns factor rows)

unfoldable pub block_rows : ℕ → ℕ → ℕ → List (List ℕ) → List (List ℕ)
unfolding block_means
block_rows factor n zero band = []
block_rows factor n (suc m) band =
    block_means factor n (take factor band) ∷ block_rows factor n m (drop factor band)

-- The band's shape is its dataset's.
unfoldable pub block_mean_downsample : ℕ → ℕ → List (List ℕ) → List (List ℕ)
unfolding block_rows
block_mean_downsample height width band =
    block_rows decimation_factor (width / decimation_factor) (height / decimation_factor) band

module _ (Z : Codec) where
  unfoldable pub thumbnail : Raster ℕ → Bytes → QuicklookThumbnailResult
  unfolding block_mean_downsample
  thumbnail src crop =
      let raw = to_bytes (map (block_mean_downsample src.height src.width) src.bands) in
      let compressed = Z.compress 6 raw in
      record {
        detector_version = detector_version;
        source_width = src.width;
        source_height = src.height;
        thumbnail_width = src.width / decimation_factor;
        thumbnail_height = src.height / decimation_factor;
        band_count = length src.bands;
        input_bytes = length crop;
        thumbnail_raw_bytes = length raw;
        compressed_bytes = compressed;
        compressed_sha256 = Z.sha256 compressed;
      }

  -- `np.stack` of no bands is a `ValueError`.
  unfoldable pub run : (Bytes → Result (Raster ℕ)) → Bytes → Result QuicklookThumbnailResult
  unfolding thumbnail
  run open_raster crop = elim (open_raster crop) [
    | err e ↦ err e
    | ok src ↦ elim src.bands [ [] ↦ err value_error | _ ∷ _ ↦ ok (thumbnail src crop) ]
  ]
