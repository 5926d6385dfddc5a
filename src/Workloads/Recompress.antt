-- ===== src/Workloads/Recompress.antt =====
-- services/api/aries_api/workloads/sentinel2_lossless_recompress.py: the pixels of a crop, compressed.
use aries_space.Base.{
  ℕ, ◌*◌, ◌≡◌, arith, ◌<>◌, String, Option, some, [], ◌∷◌, length, All, ◌==◌, if◌then◌else◌,
}
use aries_space.Base.Int.{pos}
use aries_space.Json.{Json, null, int, text, dict}
use aries_space.Exec.{Result, ok, err}
use aries_space.Floats.{Floats}
use aries_space.Backend.{Bytes}
use aries_space.Workloads.Raster.{Raster, IsShaped, raster_json}
use aries_space.Workloads.Pixels.{
  Codec, to_bytes, read_bands, IsUint16, pixels, append_nil, read_bands-to_bytes, length-to_bytes,
}

abbrev pub workload_slug : String
workload_slug = "sentinel2-lossless-recompress"

abbrev pub detector_version : String
detector_version = "zlib-level9-v1"

pub record LosslessRecompressResult : Type 0 where
  pub detector_version : String
  pub width : ℕ
  pub height : ℕ
  pub band_count : ℕ
  pub input_bytes : ℕ
  pub raw_pixel_bytes : ℕ
  pub compressed_bytes : Bytes
  pub compressed_sha256 : String

unfoldable pub canonical_result_bytes : LosslessRecompressResult → Bytes
canonical_result_bytes r = r.compressed_bytes

abbrev limitations : String
limitations =
    "Real DEFLATE (zlib level 9) recompression of the raw pixel bytes "
    <> "-- lossless, no semantic analysis. Deliberately a near-1x "
    <> "placement-frontier workload: unlike the detection/summary "
    <> "workloads, its output IS the (compressed) data, not an "
    <> "extracted insight, so it should NOT be expected to show a "
    <> "large data reduction factor."

-- `round4` is `round(x, 4)`, `number` how a float stands in JSON.
unfoldable pub payload :
    {F : Type 0} → Floats F → (F → F) → (F → Json) → LosslessRecompressResult → Json
payload N round4 number r =
    let compressed_size = length r.compressed_bytes in
    dict (
      ("workload", text workload_slug)
      ∷ ("detector_version", text r.detector_version)
      ∷ ("raster", raster_json r.width r.height r.band_count)
      ∷ ("input_bytes", int (pos r.input_bytes))
      ∷ ("raw_pixel_bytes", int (pos r.raw_pixel_bytes))
      ∷ ("compressed_bytes_size", int (pos compressed_size))
      ∷ ("compressed_sha256", text r.compressed_sha256)
      ∷ (
        "compression_ratio",
        if compressed_size == 0
            then null
            else number (round4 (N.div (N.of_ℕ r.raw_pixel_bytes) (N.of_ℕ compressed_size))),
      )
      ∷ ("limitations", text limitations)
      ∷ [])

module _ (Z : Codec) (open_raster : Bytes → Result (Raster ℕ)) where
  unfoldable pub recompress : Raster ℕ → Bytes → LosslessRecompressResult
  recompress src crop =
      let raw = to_bytes src.bands in
      let compressed = Z.compress 9 raw in
      record {
        detector_version = detector_version;
        width = src.width;
        height = src.height;
        band_count = length src.bands;
        input_bytes = length crop;
        raw_pixel_bytes = length raw;
        compressed_bytes = compressed;
        compressed_sha256 = Z.sha256 compressed;
      }

  unfoldable pub run : Bytes → Result LosslessRecompressResult
  unfolding recompress
  run crop = elim (open_raster crop) [ err e ↦ err e | ok src ↦ ok (recompress src crop) ]

  -- If decompression undoes compression, and the crop opens as bands of its shape whose pixels have
  -- sixteen bits, the detector returns a result from whose bytes, decompressed, the bands are read
  -- back, and which counts two bytes for every pixel.
  pub run-RoundTrip :
      (decompress : Bytes → Option Bytes)
      → ((level : ℕ) (b : Bytes) → decompress (Z.compress level b) ≡ some b)
      → (crop : Bytes) (src : Raster ℕ) → open_raster crop ≡ ok src
      → All (λ band. IsShaped src.height src.width band) src.bands
      → All IsUint16 src.bands
      → (r : LosslessRecompressResult) × (run crop ≡ ok r)
        × ((raw : Bytes) × (decompress (canonical_result_bytes r) ≡ some raw)
            × (read_bands r.band_count r.height r.width raw ≡ some (src.bands, []))
            × (r.raw_pixel_bytes ≡ 2 * pixels src.bands))
  unfolding run recompress canonical_result_bytes
  run-RoundTrip decompress inverse crop src opened shaped small = (
    recompress src crop,
    ground (arith, opened),
    (
      to_bytes src.bands,
      inverse 9 (to_bytes src.bands),
      ground (
        arith,
        append_nil (to_bytes src.bands),
        read_bands-to_bytes src.height src.width src.bands [] shaped small,
      ),
      length-to_bytes src.bands,
    ),
  )
