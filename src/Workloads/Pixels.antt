-- ===== src/Workloads/Pixels.antt =====
-- `bands.astype(np.uint16).tobytes()` in services/api/aries_api/workloads, and its inverse.
use aries_space.Base.{
  ℕ, zero, suc, ◌+◌, ◌*◌, ◌/◌, ◌%◌, ◌<◌, ◌≡◌, refl, String, Option, none, some, List, [], ◌∷◌, ◌++◌,
  length, All, arith,
}
use aries_space.Base.{length-append}
use aries_space.Backend.{Bytes}
use aries_space.Workloads.Raster.{IsShaped}

-- zlib and hashlib.
pub record Codec : Type 0 where
  pub compress : ℕ → Bytes → Bytes
  pub sha256 : Bytes → String

abbrev pub uint16 : ℕ → ℕ
uint16 x = x % 65536

-- Two bytes a pixel, the low one first, as numpy writes them on a little-endian host.
abbrev pub row_bytes : List ℕ → Bytes
row_bytes [] = []
row_bytes (x ∷ xs) = (uint16 x % 256) ∷ (uint16 x / 256) ∷ row_bytes xs

abbrev pub band_bytes : List (List ℕ) → Bytes
band_bytes [] = []
band_bytes (row ∷ rows) = row_bytes row ++ band_bytes rows

abbrev pub to_bytes : List (List (List ℕ)) → Bytes
to_bytes [] = []
to_bytes (band ∷ bands) = band_bytes band ++ to_bytes bands

-- Reading back: a number of pixels, rows or bands, and what follows them.
abbrev read_row : ℕ → Bytes → Option (List ℕ × Bytes)
read_row zero bytes = some ([], bytes)
read_row (suc n) (low ∷ high ∷ bytes) = elim (read_row n bytes) [
  | none ↦ none
  | some (xs, rest) ↦ some ((low + 256 * high) ∷ xs, rest)
]
read_row (suc n) _ = none

abbrev read_band : ℕ → ℕ → Bytes → Option (List (List ℕ) × Bytes)
read_band zero width bytes = some ([], bytes)
read_band (suc n) width bytes = elim (read_row width bytes) [
  | none ↦ none
  | some (row, after) ↦ elim (read_band n width after) [
    | none ↦ none
    | some (rows, rest) ↦ some (row ∷ rows, rest)
  ]
]

abbrev pub read_bands : ℕ → ℕ → ℕ → Bytes → Option (List (List (List ℕ)) × Bytes)
read_bands zero height width bytes = some ([], bytes)
read_bands (suc n) height width bytes = elim (read_band height width bytes) [
  | none ↦ none
  | some (band, after) ↦ elim (read_bands n height width after) [
    | none ↦ none
    | some (bands, rest) ↦ some (band ∷ bands, rest)
  ]
]

-- Pixels of sixteen bits.
abbrev pub IsUint16 : List (List ℕ) → Type 0
IsUint16 rows = All (λ row. All (λ x. x < 65536) row) rows

append_assoc : {A : Type 0} (a b c : List A) → (a ++ b) ++ c ≡ a ++ (b ++ c)
append_assoc [] b c = refl
append_assoc (x ∷ a) b c = ground (arith, append_assoc a b c)

read_row-row_bytes :
    (row : List ℕ) (rest : Bytes)
    → All (λ x. x < 65536) row
    → read_row (length row) (row_bytes row ++ rest) ≡ some (row, rest)
read_row-row_bytes [] rest h = refl
read_row-row_bytes (x ∷ xs) rest h = ground (arith, h, read_row-row_bytes xs rest (h.1))

read_band-band_bytes :
    (width : ℕ) (rows : List (List ℕ)) (rest : Bytes)
    → All (λ row. length row ≡ width) rows
    → IsUint16 rows
    → read_band (length rows) width (band_bytes rows ++ rest) ≡ some (rows, rest)
read_band-band_bytes width [] rest h g = refl
read_band-band_bytes width (row ∷ rows) rest h g = ground (
  arith,
  h.0,
  append_assoc (row_bytes row) (band_bytes rows) rest,
  read_row-row_bytes row (band_bytes rows ++ rest) (g.0),
  read_band-band_bytes width rows rest (h.1) (g.1),
)

pub append_nil : (a : Bytes) → a ++ [] ≡ a
append_nil [] = refl
append_nil (x ∷ a) = ground (arith, append_nil a)

-- Bands of one shape whose pixels have sixteen bits are read back from their bytes.
pub read_bands-to_bytes :
    (height width : ℕ) (bands : List (List (List ℕ))) (rest : Bytes)
    → All (λ band. IsShaped height width band) bands
    → All IsUint16 bands
    → read_bands (length bands) height width (to_bytes bands ++ rest) ≡ some (bands, rest)
read_bands-to_bytes height width [] rest h g = refl
read_bands-to_bytes height width (band ∷ bands) rest h g = ground (
  arith,
  h.0.0,
  append_assoc (band_bytes band) (to_bytes bands) rest,
  read_band-band_bytes width band (to_bytes bands ++ rest) (h.0.1) (g.0),
  read_bands-to_bytes height width bands rest (h.1) (g.1),
)

-- How many pixels the bands have; each is two bytes.
abbrev pub pixels_of_band : List (List ℕ) → ℕ
pixels_of_band [] = 0
pixels_of_band (row ∷ rows) = length row + pixels_of_band rows

abbrev pub pixels : List (List (List ℕ)) → ℕ
pixels [] = 0
pixels (band ∷ bands) = pixels_of_band band + pixels bands

length-row_bytes : (row : List ℕ) → length (row_bytes row) ≡ 2 * length row
length-row_bytes [] = omega arith
length-row_bytes (x ∷ xs) = omega (arith, length-row_bytes xs)

length-band_bytes : (rows : List (List ℕ)) → length (band_bytes rows) ≡ 2 * pixels_of_band rows
length-band_bytes [] = omega arith
length-band_bytes (row ∷ rows) = ground (
  arith,
  length-append (row_bytes row) (band_bytes rows),
  length-row_bytes row,
  length-band_bytes rows,
)

pub length-to_bytes : (bands : List (List (List ℕ))) → length (to_bytes bands) ≡ 2 * pixels bands
length-to_bytes [] = omega arith
length-to_bytes (band ∷ bands) = ground (
  arith,
  length-append (band_bytes band) (to_bytes bands),
  length-band_bytes band,
  length-to_bytes bands,
)
