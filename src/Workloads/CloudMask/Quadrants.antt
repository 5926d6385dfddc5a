-- ===== src/Workloads/CloudMask/Quadrants.antt =====
-- services/api/aries_api/workloads/cloud_mask.py: every pixel of the mask stands in one quadrant.
use aries_space.Base.{
  ℕ, zero, suc, ◌+◌, ◌-◌, ◌/◌, ◌≡◌, ◌∙◌, ◌<◌, ◌≤◌, refl, Bool, String, Option, none, some, List, [],
  ◌∷◌, ◌++◌, arith, take, drop, ltb, str_eq, Bool-cases, inl, inr, if◌then◌else◌,
}
use aries_space.Base.{take-drop, length-append}
use aries_space.Workloads.Raster.{
  columns, drop_columns, sum_mask, sum_mask-append, sum_mask-columns, drop_columns_zero,
}
use aries_space.Workloads.CloudMask.{size, quadrants}

-- The pixels of the four windows, and those that are set.
abbrev pub total_size : List (String × List (List Bool)) → ℕ
total_size [] = 0
total_size ((_, q) ∷ rest) = size q + total_size rest

abbrev pub total_set : List (String × List (List Bool)) → ℕ
total_set [] = 0
total_set ((_, q) ∷ rest) = sum_mask q + total_set rest

abbrev nth : {A : Type 0} → ℕ → List A → Option A
nth i [] = none
nth zero (x ∷ xs) = some x
nth (suc i) (x ∷ xs) = nth i xs

-- The pixel of a row and a column.
abbrev pub pixel : ℕ → ℕ → List (List Bool) → Option Bool
pixel i j rows = elim (nth i rows) [ none ↦ none | some row ↦ nth j row ]

abbrev pub pixel_of : String → ℕ → ℕ → List (String × List (List Bool)) → Option Bool
pixel_of label i j [] = none
pixel_of label i j ((l, q) ∷ rest) = if str_eq l label then pixel i j q else pixel_of label i j rest

-- Where a pixel of the mask stands: north of the middle row or south, west of the middle column or
-- east, counted from there.
abbrev pub placed : ℕ → ℕ → ℕ → ℕ → List (String × List (List Bool)) → Option Bool
placed height width i j windows =
    if ltb i (height / 2)
    then (if ltb j (width / 2)
        then pixel_of "nw" i j windows
        else pixel_of "ne" i (j - width / 2) windows)
    else if ltb j (width / 2)
    then pixel_of "sw" (i - height / 2) j windows
    else pixel_of "se" (i - height / 2) (j - width / 2) windows

nth-take : {A : Type 0} (i n : ℕ) (xs : List A) → i < n → nth i (take n xs) ≡ nth i xs
nth-take i zero xs h = ground (arith, h)
nth-take i (suc n) [] h = refl
nth-take zero (suc n) (x ∷ xs) h = refl
nth-take (suc i) (suc n) (x ∷ xs) h = nth-take i n xs (omega (arith, h))

nth-drop : {A : Type 0} (i n : ℕ) (xs : List A) → n ≤ i → nth (i - n) (drop n xs) ≡ nth i xs
nth-drop i zero xs h = ground arith
nth-drop i (suc n) [] h = refl
nth-drop zero (suc n) (x ∷ xs) h = ground (arith, h)
nth-drop (suc i) (suc n) (x ∷ xs) h = ground (arith, nth-drop i n xs (omega (arith, h)))

pixel-columns :
    (i j n : ℕ) (rows : List (List Bool)) → j < n → pixel i j (columns 0 n rows) ≡ pixel i j rows
pixel-columns i j n [] h = refl
pixel-columns zero j n (row ∷ rows) h = nth-take j n row h
pixel-columns (suc i) j n (row ∷ rows) h = pixel-columns i j n rows h

pixel-drop_columns :
    (i j n : ℕ) (rows : List (List Bool))
    → n ≤ j
    → pixel i (j - n) (drop_columns n rows) ≡ pixel i j rows
pixel-drop_columns i j n [] h = refl
pixel-drop_columns zero j n (row ∷ rows) h = nth-drop j n row h
pixel-drop_columns (suc i) j n (row ∷ rows) h = pixel-drop_columns i j n rows h

size-append : (a b : List (List Bool)) → size (a ++ b) ≡ size a + size b
size-append [] b = omega arith
size-append (row ∷ a) b = omega (arith, size-append a b)

size-columns :
    (n : ℕ) (rows : List (List Bool))
    → size (columns 0 n rows) + size (drop_columns n rows) ≡ size rows
size-columns n [] = omega arith
size-columns n (row ∷ rows) =
    ground (arith, size-columns n rows, take-drop n row, length-append (take n row) (drop n row))

sum_mask-halves :
    (n : ℕ) (rows : List (List Bool))
    → sum_mask (columns 0 n rows) + sum_mask (drop_columns n rows) ≡ sum_mask rows
sum_mask-halves n rows = ground (arith, sum_mask-columns 0 n rows, drop_columns_zero rows)

quadrants-totals :
    (height width : ℕ) (mask : List (List Bool))
    → (total_size (quadrants height width mask) ≡ size mask)
      × (total_set (quadrants height width mask) ≡ sum_mask mask)
unfolding quadrants
quadrants-totals height width mask =
    let north = take (height / 2) mask in
    let south = drop (height / 2) mask in
    ground (
      arith,
      take-drop (height / 2) mask,
      size-append north south,
      sum_mask-append north south,
      size-columns (width / 2) north,
      size-columns (width / 2) south,
      sum_mask-halves (width / 2) north,
      sum_mask-halves (width / 2) south,
    )

pixel-north :
    (i j n : ℕ) (rows : List (List Bool)) → i < n → pixel i j (take n rows) ≡ pixel i j rows
pixel-north i j n rows h = ground (arith, nth-take i n rows h)

pixel-south :
    (i j n : ℕ) (rows : List (List Bool)) → n ≤ i → pixel (i - n) j (drop n rows) ≡ pixel i j rows
pixel-south i j n rows h = ground (arith, nth-drop i n rows h)

quadrants-pixel :
    (height width : ℕ) (mask : List (List Bool)) (i j : ℕ)
    → placed height width i j (quadrants height width mask) ≡ pixel i j mask
unfolding quadrants
quadrants-pixel height width mask i j =
    let north = take (height / 2) mask in
    let south = drop (height / 2) mask in
    elim (Bool-cases (ltb i (height / 2))) [
      | inl e ↦ elim (Bool-cases (ltb j (width / 2))) [
        | inl f ↦
            rw (e, f)
              (pixel-columns i j (width / 2) north (ground (arith, f))
                ∙ pixel-north i j (height / 2) mask (ground (arith, e)))
        | inr f ↦
            rw (e, f)
              (pixel-drop_columns i j (width / 2) north (ground (arith, f))
                ∙ pixel-north i j (height / 2) mask (ground (arith, e)))
      ]
      | inr e ↦ elim (Bool-cases (ltb j (width / 2))) [
        | inl f ↦
            rw (e, f)
              (pixel-columns (i - height / 2) j (width / 2) south (ground (arith, f))
                ∙ pixel-south i j (height / 2) mask (ground (arith, e)))
        | inr f ↦
            rw (e, f)
              (pixel-drop_columns (i - height / 2) j (width / 2) south (ground (arith, f))
                ∙ pixel-south i j (height / 2) mask (ground (arith, e)))
      ]
    ]

-- Every pixel of the mask stands in the quadrant that its row and its column name, counted from the
-- middle of the raster, where it is one south or east of it, and a place outside the mask has none; and the four quadrants
-- have together as many pixels as the mask, and as many of them are set.
pub quadrants-IsPartition :
    (height width : ℕ) (mask : List (List Bool))
    → ((i j : ℕ) → placed height width i j (quadrants height width mask) ≡ pixel i j mask)
      × (total_size (quadrants height width mask) ≡ size mask)
      × (total_set (quadrants height width mask) ≡ sum_mask mask)
quadrants-IsPartition height width mask =
    let totals = quadrants-totals height width mask in
    (quadrants-pixel height width mask, totals.0, totals.1)
