-- ===== src/Workloads/Raster.antt =====
-- Rasters as services/api/aries_api/workloads read them with rasterio, and the windows of a mask that
-- numpy's slices give.
use aries_space.Base.{
  String, ℕ, zero, suc, ◌+◌, ◌≤◌, ◌≡◌, refl, Bool, Option, none, some, List, [], ◌∷◌, ◌++◌, length,
  count, map, take, drop, All, arith, ltb, if◌then◌else◌,
}
use aries_space.Base.{count-append, take-drop, drop-drop, drop_all}
use aries_space.Base.Int.{pos}
use aries_space.Json.{Json, int, dict}
use aries_space.Exec.{Result, ok, err}
use aries_space.Exn.{other}

-- An open dataset: `src.width`, `src.height`, and `src.read()` band by band, row by row.
pub record Raster (P : Type 0) : Type 0 where
  pub width : ℕ
  pub height : ℕ
  pub bands : List (List (List P))

module _ {P : Type 0} where
  -- Rows of one length.
  abbrev pub IsShaped : ℕ → ℕ → List (List P) → Type 0
  IsShaped height width rows = (length rows ≡ height) × All (λ row. length row ≡ width) rows

  -- `src.read(1)` and `src.read(2)`; an index that no band has is an `IndexError`.
  abbrev pub read_one : List (List (List P)) → Result (List (List P))
  read_one [] = err other
  read_one (b ∷ _) = ok b

  -- `src.read(1)` and `src.read(2)` after `src.count < 2`.
  abbrev pub read_two : List (List (List P)) → Option (List (List P) × List (List P))
  read_two (red ∷ nir ∷ _) = some (red, nir)
  read_two _ = none

  -- `[:, start : start + size]`
  abbrev pub columns : ℕ → ℕ → List (List P) → List (List P)
  columns start size [] = []
  columns start size (row ∷ rows) = take size (drop start row) ∷ columns start size rows

  abbrev pub drop_columns : ℕ → List (List P) → List (List P)
  drop_columns start [] = []
  drop_columns start (row ∷ rows) = drop start row ∷ drop_columns start rows

  pub columns-append :
      (start size : ℕ) (a b : List (List P))
      → columns start size (a ++ b) ≡ columns start size a ++ columns start size b
  columns-append start size [] b = refl
  columns-append start size (row ∷ a) b = ground (arith, columns-append start size a b)

map-length : {A B : Type 0} (f : A → B) (xs : List A) → length (map f xs) ≡ length xs
map-length f [] = refl
map-length f (x ∷ xs) = ground (arith, map-length f xs)

-- `{"width": ..., "height": ..., "band_count": ...}`
abbrev pub raster_json : ℕ → ℕ → ℕ → Json
raster_json width height band_count = dict (
    ("width", int (pos width))
    ∷ ("height", int (pos height))
    ∷ ("band_count", int (pos band_count))
    ∷ [])

-- A dict from labels to floats.
abbrev pub fractions_json : {F : Type 0} → (F → Json) → List (String × F) → List (String × Json)
fractions_json number [] = []
fractions_json number ((k, x) ∷ rest) = (k, number x) ∷ fractions_json number rest

-- A mask of a band has its shape.
pub map-IsShaped :
    {P Q : Type 0} (f : P → Q) (height width : ℕ) (rows : List (List P))
    → IsShaped height width rows
    → IsShaped height width (map (map f) rows)
map-IsShaped f height width [] h = (h.0, tt)
map-IsShaped f height width (row ∷ rows) h =
    let rest = map-IsShaped f (length rows) width rows (refl, h.1.1) in
    ground (arith, h, rest, map-length f row)

-- `mask.sum()`
abbrev pub sum_mask : List (List Bool) → ℕ
sum_mask [] = 0
sum_mask (row ∷ rows) = count (λ b. b) row + sum_mask rows

pub sum_mask-append : (a b : List (List Bool)) → sum_mask (a ++ b) ≡ sum_mask a + sum_mask b
sum_mask-append [] b = omega arith
sum_mask-append (row ∷ a) b = omega (arith, sum_mask-append a b)

-- The columns from a start on are the first of them and the rest.
pub sum_mask-columns :
    (start size : ℕ) (rows : List (List Bool))
    → sum_mask (drop_columns start rows)
      ≡ sum_mask (columns start size rows) + sum_mask (drop_columns (start + size) rows)
sum_mask-columns start size [] = omega arith
sum_mask-columns start size (row ∷ rows) = ground (
  arith,
  sum_mask-columns start size rows,
  count-append (λ b. b) (take size (drop start row)) (drop size (drop start row)),
  take-drop size (drop start row),
  drop-drop start size row,
)

pub drop_columns_zero : {P : Type 0} (rows : List (List P)) → drop_columns 0 rows ≡ rows
drop_columns_zero [] = refl
drop_columns_zero (row ∷ rows) = ground (arith, drop_columns_zero rows)

pub sum_mask-drop_columns :
    (start width : ℕ) (rows : List (List Bool))
    → width ≤ start
    → All (λ row. length row ≡ width) rows
    → sum_mask (drop_columns start rows) ≡ 0
sum_mask-drop_columns start width [] h shaped = refl
sum_mask-drop_columns start width (row ∷ rows) h shaped = ground (
  arith,
  drop_all start row (omega (arith, h, shaped.0)),
  sum_mask-drop_columns start width rows h (shaped.1),
)

-- The rows from a start on.
pub sum_mask-rows :
    (start size : ℕ) (rows : List (List Bool))
    → sum_mask (drop start rows)
      ≡ sum_mask (take size (drop start rows)) + sum_mask (drop (start + size) rows)
sum_mask-rows start size rows = ground (
  arith,
  sum_mask-append (take size (drop start rows)) (drop size (drop start rows)),
  take-drop size (drop start rows),
  drop-drop start size rows,
)

-- `range(start, stop, step)`; as many steps as the distance are enough, since a step is not zero.
abbrev pub range_on : ℕ → ℕ → ℕ → ℕ → List ℕ
range_on zero start stop step = []
range_on (suc fuel) start stop step =
    let rest = range_on fuel (start + step) stop step in if ltb start stop then start ∷ rest else []

abbrev pub range : ℕ → ℕ → List ℕ
range stop step = range_on stop 0 stop step

abbrev pub sum_of : (ℕ → ℕ) → List ℕ → ℕ
sum_of f [] = 0
sum_of f (x ∷ xs) = f x + sum_of f xs

-- A quantity that each step takes a part of, and of which nothing is left at the end, is the sum of
-- the parts.
pub sum_of-range :
    (whole part : ℕ → ℕ) (stop step : ℕ)
    → 1 ≤ step
    → ((a : ℕ) → whole a ≡ part a + whole (a + step))
    → ((a : ℕ) → stop ≤ a → whole a ≡ 0)
    → (fuel start : ℕ) → stop ≤ start + fuel
    → sum_of part (range_on fuel start stop step) ≡ whole start
sum_of-range whole part stop step h split done zero start enough =
    omega (arith, done start (omega (arith, enough)))
sum_of-range whole part stop step h split done (suc fuel) start enough = ground (
  arith,
  split start,
  done start,
  sum_of-range whole part stop step h split done fuel (start + step) (omega (arith, enough, h)),
)
