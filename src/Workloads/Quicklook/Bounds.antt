-- ===== src/Workloads/Quicklook/Bounds.antt =====
-- services/api/aries_api/workloads/sentinel2_quicklook_thumbnail.py: the shape of a thumbnail, and the
-- pixels between which its pixels lie.
use aries_space.Base.{
  ℕ, zero, suc, ◌+◌, ◌*◌, ◌/◌, ◌%◌, ◌≤◌, ◌<◌, ◌≡◌, ◌∙◌, ap, refl, List, [], ◌∷◌, length, take, drop,
  All, arith,
}
use aries_space.Base.{length-take, length-drop}
use aries_space.Workloads.Raster.{IsShaped, columns, drop_columns}
use aries_space.Workloads.Quicklook.{
  sum_row, sum_block, block_means, block_rows, block_mean_downsample,
}

abbrev pub IsBetween : ℕ → ℕ → ℕ → Type 0
IsBetween low high x = (low ≤ x) × (x ≤ high)

abbrev pub AreBetween : ℕ → ℕ → List (List ℕ) → Type 0
AreBetween low high rows = All (λ row. All (IsBetween low high) row) rows

abbrev times : ℕ → ℕ → ℕ
times zero x = 0
times (suc n) x = x + times n x

sum_row-Between :
    (low high : ℕ) (row : List ℕ)
    → All (IsBetween low high) row
    → IsBetween (times (length row) low) (times (length row) high) (sum_row row)
sum_row-Between low high [] h = omega arith
sum_row-Between low high (x ∷ row) h = omega (arith, h.0, sum_row-Between low high row (h.1))

-- Rows of four pixels.
sum_block-Between :
    (low high : ℕ) (rows : List (List ℕ))
    → All (λ row. length row ≡ 4) rows
    → AreBetween low high rows
    → IsBetween (times (length rows) (4 * low)) (times (length rows) (4 * high)) (sum_block rows)
sum_block-Between low high [] h g = omega arith
sum_block-Between low high (row ∷ rows) h g =
    ground
      (arith, h.0, sum_row-Between low high row (g.0), sum_block-Between low high rows (h.1) (g.1))

module _ {A : Type 0} (P : A → Type 0) where
  All-take : (n : ℕ) (xs : List A) → All P xs → All P (take n xs)
  All-take zero xs h = tt
  All-take (suc n) [] h = tt
  All-take (suc n) (x ∷ xs) h = (h.0, All-take n xs (h.1))

  All-drop : (n : ℕ) (xs : List A) → All P xs → All P (drop n xs)
  All-drop zero xs h = h
  All-drop (suc n) [] h = tt
  All-drop (suc n) (x ∷ xs) h = All-drop n xs (h.1)

-- The next four columns, and those after them.
columns-Between :
    (low high n : ℕ) (rows : List (List ℕ))
    → All (λ row. 4 * suc n ≤ length row) rows
    → AreBetween low high rows
    → All (λ row. length row ≡ 4) (columns 0 4 rows)
      × AreBetween low high (columns 0 4 rows)
      × (length (columns 0 4 rows) ≡ length rows)
columns-Between low high n [] h g = (tt, tt, refl)
columns-Between low high n (row ∷ rows) h g = ground (
  arith,
  columns-Between low high n rows (h.1) (g.1),
  length-take 4 row (ground (arith, h.0)),
  All-take (IsBetween low high) 4 row (g.0),
)

drop_columns-Between :
    (low high n : ℕ) (rows : List (List ℕ))
    → All (λ row. 4 * suc n ≤ length row) rows
    → AreBetween low high rows
    → All (λ row. 4 * n ≤ length row) (drop_columns 4 rows)
      × AreBetween low high (drop_columns 4 rows)
      × (length (drop_columns 4 rows) ≡ length rows)
drop_columns-Between low high n [] h g = (tt, tt, refl)
drop_columns-Between low high n (row ∷ rows) h g = ground (
  arith,
  drop_columns-Between low high n rows (h.1) (g.1),
  h.0,
  length-drop 4 row,
  All-drop (IsBetween low high) 4 row (g.0),
)

-- The mean of a block of sixteen.
mean-Between :
    (low high : ℕ) (rows : List (List ℕ))
    → high < 65536
    → length rows ≡ 4
    → All (λ row. length row ≡ 4) rows
    → AreBetween low high rows
    → IsBetween low high (sum_block rows / (4 * 4) % 65536)
mean-Between low high rows small four h g =
    ground (arith, four, sum_block-Between low high rows h g)

block_means-Between :
    (low high n : ℕ) (rows : List (List ℕ))
    → high < 65536
    → length rows ≡ 4
    → All (λ row. 4 * n ≤ length row) rows
    → AreBetween low high rows
    → (length (block_means 4 n rows) ≡ n) × All (IsBetween low high) (block_means 4 n rows)
unfolding block_means
block_means-Between low high zero rows small four h g = (refl, tt)
block_means-Between low high (suc n) rows small four h g =
    let block = columns-Between low high n rows h g in
    let rest = drop_columns-Between low high n rows h g in
    let mean =
      mean-Between low high (columns 0 4 rows) small (block.2 ∙ four) (block.0) (block.1) in
    let means =
      block_means-Between low high n (drop_columns 4 rows) small (rest.2 ∙ four) (rest.0)
        (rest.1) in
    (ap suc (means.0), (mean, means.1))

All-le :
    (width n : ℕ) (rows : List (List ℕ))
    → 4 * n ≤ width
    → All (λ row. length row ≡ width) rows
    → All (λ row. 4 * n ≤ length row) rows
All-le width n [] h g = tt
All-le width n (row ∷ rows) h g = (ground (arith, h, g.0), All-le width n rows h (g.1))

block_rows-Between :
    (low high width n m : ℕ) (band : List (List ℕ))
    → high < 65536
    → 4 * n ≤ width
    → 4 * m ≤ length band
    → All (λ row. length row ≡ width) band
    → AreBetween low high band
    → IsShaped m n (block_rows 4 n m band) × AreBetween low high (block_rows 4 n m band)
unfolding block_rows
block_rows-Between low high width n zero band small wide tall h g = ((refl, tt), tt)
block_rows-Between low high width n (suc m) band small wide tall h g =
    let top = take 4 band in
    let shape = λ (row : List ℕ). length row ≡ width in
    let row =
      block_means-Between low high n top small (length-take 4 band (omega (arith, tall)))
        (All-le width n top wide (All-take shape 4 band h))
        (All-take (λ r. All (IsBetween low high) r) 4 band g) in
    let rows =
      block_rows-Between low high width n m (drop 4 band) small wide
        (ground (arith, tall, length-drop 4 band)) (All-drop shape 4 band h)
        (All-drop (λ r. All (IsBetween low high) r) 4 band g) in
    ((ap suc (rows.0.0), (row.0, rows.0.1)), (row.1, rows.1))

-- A band of the given shape, whose pixels lie between two bounds of sixteen bits, has a thumbnail of
-- a quarter of its height and of its width, rounded down, whose pixels lie between the same bounds.
pub block_mean_downsample-Between :
    (low high height width : ℕ) (band : List (List ℕ))
    → high < 65536
    → IsShaped height width band
    → AreBetween low high band
    → IsShaped (height / 4) (width / 4) (block_mean_downsample height width band)
      × AreBetween low high (block_mean_downsample height width band)
unfolding block_mean_downsample
block_mean_downsample-Between low high height width band small shaped h =
    block_rows-Between low high width (width / 4) (height / 4) band small (omega arith)
      (ground (arith, shaped.0)) (shaped.1) h
