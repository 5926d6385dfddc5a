-- ===== src/Workloads/ShipDetect/Cells.antt =====
-- services/api/aries_api/workloads/ship_detect.py: the grid cells cover the raster.
use aries_space.Base.{
  ℕ, zero, suc, ap, ◌+◌, ◌≤◌, ◌<◌, ◌≡◌, refl, Bool, List, [], ◌∷◌, ◌++◌, arith, length, take, drop,
  All,
}
use aries_space.Base.{drop_all}
use aries_space.Exec.{Result, ok}
use aries_space.Floats.{Floats}
use aries_space.Backend.{Bytes}
use aries_space.Workloads.Raster.{
  Raster, IsShaped, read_one, columns, drop_columns, sum_mask, range, sum_of, sum_mask-columns,
  sum_mask-rows, sum_mask-drop_columns, drop_columns_zero, sum_of-range, map-IsShaped,
}
use aries_space.Workloads.ShipDetect.{
  Statistics, Cell, ShipDetectResult, cells_of_row, cells, cell_side, candidate_cells, bright_mask,
  threshold, detect, run,
}

abbrev pub total : List Cell → ℕ
total [] = 0
total (c ∷ cs) = c.bright_pixel_count + total cs

total-append : (a b : List Cell) → total (a ++ b) ≡ total a + total b
total-append [] b = omega arith
total-append (c ∷ a) b = omega (arith, total-append a b)

total-cells_of_row :
    (band : List (List Bool)) (row cell_w cell_h : ℕ) (cols : List ℕ)
    → total (cells_of_row band row cell_w cell_h cols)
      ≡ sum_of (λ col. sum_mask (columns col cell_w band)) cols
unfolding cells_of_row
total-cells_of_row band row cell_w cell_h [] = refl
total-cells_of_row band row cell_w cell_h (col ∷ cols) =
    ground (arith, total-cells_of_row band row cell_w cell_h cols)

cell_side-pos : (n : ℕ) → 1 ≤ cell_side n
cell_side-pos n = ground arith

-- One row of cells has the bright pixels of its rows.
total-row :
    (band : List (List Bool)) (row cell_h width : ℕ)
    → All (λ r. length r ≡ width) band
    → total (cells_of_row band row (cell_side width) cell_h (range width (cell_side width)))
      ≡ sum_mask band
total-row band row cell_h width shaped =
    let step = cell_side width in
    ground (
      arith,
      total-cells_of_row band row step cell_h (range width step),
      sum_of-range (λ a. sum_mask (drop_columns a band)) (λ a. sum_mask (columns a step band)) width
          step (cell_side-pos width) (λ a. sum_mask-columns a step band)
          (λ a h. sum_mask-drop_columns a width band h shaped) width 0 (omega arith),
      drop_columns_zero band,
    )

-- Rows of one width, some of them.
abbrev HasWidth : ℕ → List (List Bool) → Type 0
HasWidth width rows = All (λ row. length row ≡ width) rows

HasWidth-drop :
    (width n : ℕ) (rows : List (List Bool)) → HasWidth width rows → HasWidth width (drop n rows)
HasWidth-drop width zero rows h = h
HasWidth-drop width (suc n) [] h = h
HasWidth-drop width (suc n) (row ∷ rows) h = HasWidth-drop width n rows (h.1)

HasWidth-take :
    (width n : ℕ) (rows : List (List Bool)) → HasWidth width rows → HasWidth width (take n rows)
HasWidth-take width zero rows h = tt
HasWidth-take width (suc n) [] h = tt
HasWidth-take width (suc n) (row ∷ rows) h = (h.0, HasWidth-take width n rows (h.1))

total-cells :
    (mask : List (List Bool)) (cell_h width : ℕ) (rows : List ℕ)
    → HasWidth width mask
    → total (cells mask cell_h (cell_side width) (range width (cell_side width)) rows)
      ≡ sum_of (λ row. sum_mask (take cell_h (drop row mask))) rows
unfolding cells
total-cells mask cell_h width [] shaped = refl
total-cells mask cell_h width (row ∷ rows) shaped =
    let step = cell_side width in
    let band = take cell_h (drop row mask) in
    ground (
      arith,
      total-cells mask cell_h width rows shaped,
      total-append (cells_of_row band row step cell_h (range width step))
          (cells mask cell_h step (range width step) rows),
      total-row band row cell_h width
          (HasWidth-take width cell_h (drop row mask) (HasWidth-drop width row mask shaped)),
    )

pub total-candidate_cells :
    (height width : ℕ) (mask : List (List Bool))
    → IsShaped height width mask
    → total (candidate_cells height width mask) ≡ sum_mask mask
unfolding candidate_cells
total-candidate_cells height width mask shaped =
    let step = cell_side height in
    ground (
      arith,
      total-cells mask step width (range height step) (shaped.1),
      sum_of-range (λ a. sum_mask (drop a mask)) (λ a. sum_mask (take step (drop a mask))) height
          step (cell_side-pos height) (λ a. sum_mask-rows a step mask)
          (λ a h. ap sum_mask (drop_all a mask (ground (arith, h, shaped.0)))) height 0
          (omega arith),
    )

abbrev pub IsBright : Cell → Type 0
IsBright c = 0 < c.bright_pixel_count

IsBright-append : (a b : List Cell) → All IsBright a → All IsBright b → All IsBright (a ++ b)
IsBright-append [] b h g = g
IsBright-append (c ∷ a) b h g = (h.0, IsBright-append a b (h.1) g)

cells_of_row-IsBright :
    (band : List (List Bool)) (row cell_w cell_h : ℕ) (cols : List ℕ)
    → All IsBright (cells_of_row band row cell_w cell_h cols)
unfolding cells_of_row
cells_of_row-IsBright band row cell_w cell_h [] = tt
cells_of_row-IsBright band row cell_w cell_h (col ∷ cols) =
    ground (arith, cells_of_row-IsBright band row cell_w cell_h cols)

cells-IsBright :
    (mask : List (List Bool)) (cell_h cell_w : ℕ) (cols rows : List ℕ)
    → All IsBright (cells mask cell_h cell_w cols rows)
unfolding cells
cells-IsBright mask cell_h cell_w cols [] = tt
cells-IsBright mask cell_h cell_w cols (row ∷ rows) =
    IsBright-append (cells_of_row (take cell_h (drop row mask)) row cell_w cell_h cols)
      (cells mask cell_h cell_w cols rows)
      (cells_of_row-IsBright (take cell_h (drop row mask)) row cell_w cell_h cols)
      (cells-IsBright mask cell_h cell_w cols rows)

candidate_cells-IsBright :
    (height width : ℕ) (mask : List (List Bool)) → All IsBright (candidate_cells height width mask)
unfolding candidate_cells
candidate_cells-IsBright height width mask =
    cells-IsBright mask (cell_side height) (cell_side width) (range width (cell_side width))
      (range height (cell_side height))

module _ {F : Type 0} (N : Floats F) (S : Statistics F)
    (open_raster : Bytes → Result (Raster F)) where
  bright_mask-IsShaped :
      (height width : ℕ) (band : List (List F))
      → IsShaped height width band
      → IsShaped height width (bright_mask N S band)
  unfolding bright_mask
  bright_mask-IsShaped height width band h =
      map-IsShaped (λ x. N.lt (threshold N S band) x) height width band h

  -- If the payload opens as a raster with a first band of its height and width, the detector returns
  -- a result in which the bright pixels of the candidate cells add up to the bright pixels of the
  -- whole band, and every candidate cell has one.
  pub run-IsCovered :
      (payload : Bytes) (src : Raster F) (band : List (List F))
      → open_raster payload ≡ ok src
      → read_one src.bands ≡ ok band
      → IsShaped src.height src.width band
      → (r : ShipDetectResult F) × (run N S open_raster payload ≡ ok r)
        × (r.bright_pixel_count ≡ sum_mask (bright_mask N S band))
        × (total r.candidate_cells ≡ r.bright_pixel_count)
        × All IsBright r.candidate_cells
  unfolding run detect
  run-IsCovered payload src band opened read shaped = (
    detect N S src.width src.height band payload,
    ground (arith, opened, read),
    refl,
    total-candidate_cells src.height src.width (bright_mask N S band)
        (bright_mask-IsShaped src.height src.width band shaped),
    candidate_cells-IsBright src.height src.width (bright_mask N S band),
  )
