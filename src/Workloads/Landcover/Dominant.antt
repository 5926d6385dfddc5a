-- ===== src/Workloads/Landcover/Dominant.antt =====
-- services/api/aries_api/workloads/sentinel2_landcover_classifier.py: the dominant class.
use aries_space.Base.{
  ℕ, ◌≤◌, ◌≡◌, refl, inl, inr, true, false, String, str_eq, Option, none, some, List, [], ◌∷◌,
  length, count, arith, All, Bool-cases, map, ◌==◌,
}
use aries_space.Exec.{Result, ok}
use aries_space.Floats.{Floats, IsLinear}
use aries_space.Backend.{Bytes}
use aries_space.Workloads.Raster.{Raster, read_two}
use aries_space.Workloads.NdviSummary.{zip_bands}
use aries_space.Workloads.Landcover.{
  LandcoverClassifierResult, Runtime, Process, class_fractions, dominant_class, summarize,
  read_features, predict, classify, edge_constrained_session, run_edge_constrained, fractions,
  argmax_on, feature_row,
}

abbrev pub fraction_of : {F : Type 0} → String → List (String × F) → Option F
fraction_of name [] = none
fraction_of name ((n, x) ∷ rest) = elim (str_eq n name) [
  | true ↦ some x
  | false ↦ fraction_of name rest
]

-- No class has a greater fraction.
abbrev pub IsDominant : {F : Type 0} → Floats F → String → List (String × F) → Type 0
IsDominant N name fs =
    (x : _) × (fraction_of name fs ≡ some x) × All (λ y. N.lt x y ≡ false) (fractions fs)

abbrev three : {F : Type 0} → F → F → F → List (String × F)
three a b c = ("vegetation", a) ∷ ("bare_soil", b) ∷ ("cloud", c) ∷ []

module _ {F : Type 0} (N : Floats F) (L : IsLinear N) where
  irreflexive : (x : F) → N.lt x x ≡ false
  irreflexive x = elim (Bool-cases (N.lt x x)) [ inl h ↦ L.asymmetric x x h | inr h ↦ h ]

  three-IsDominant : (a b c : F) → IsDominant N (dominant_class N (three a b c)) (three a b c)
  unfolding dominant_class
  three-IsDominant a b c = elim (Bool-cases (N.lt a b)) [
    | inl h ↦ elim (Bool-cases (N.lt b c)) [
      | inl g ↦
          rw (h, g)
            (
              c,
              refl,
              ground (
                arith,
                L.asymmetric b c g,
                L.asymmetric a b h,
                L.transitive c b a,
                irreflexive c,
              ),
            )
      | inr g ↦ rw (h, g) (b, refl, ground (arith, g, L.asymmetric a b h, irreflexive b))
    ]
    | inr h ↦ elim (Bool-cases (N.lt a c)) [
      | inl g ↦
          rw (h, g)
            (c, refl, ground (arith, L.asymmetric a c g, L.transitive c a b, h, irreflexive c))
      | inr g ↦ rw (h, g) (a, refl, ground (arith, h, g, irreflexive a))
    ]
  ]

  predict_total :
      (probs : List (List F))
      → All (λ row. 1 ≤ length row) probs
      → (p : List ℕ) × (predict N probs ≡ some p) × (length p ≡ length probs)
  unfolding predict
  predict_total [] h = ([], refl, refl)
  predict_total ([] ∷ probs) h = elim (impossible (h.0)) [ ]
    where
      impossible : 1 ≤ 0 → ⊥
      impossible k = omega (arith, k)
  predict_total ((x ∷ row) ∷ probs) h =
      let (p, e, l) = predict_total probs (h.1) in
      (argmax_on N 0 x 1 row ∷ p, ground (arith, e), ground (arith, l))

  module _ {W M : Type 0} (R : Runtime W M F) (open_raster : Bytes → Result (Raster F)) where
    -- For numbers in a line: if the crop has two bands, a session is had and gives at least one row of
    -- probabilities and no row that is empty, then the edge run returns a result, in which the
    -- dominant class has a fraction and no class has a greater one.
    pub run_edge-IsDominant :
        (crop : Bytes) (s : Process W M) (src : Raster F) (red nir : List (List F)) (m : M)
        (row : List F) (rows : List (List F))
        → open_raster crop ≡ ok src
        → read_two src.bands ≡ some (red, nir)
        → (edge_constrained_session R s).0 ≡ ok m
        → R.infer m (map (feature_row N) (zip_bands red nir)) ≡ ok (row ∷ rows)
        → All (λ ps. 1 ≤ length ps) (row ∷ rows)
        → (r : LandcoverClassifierResult F) × ((run_edge_constrained N R open_raster crop s).0
            ≡ ok r)
          × IsDominant N r.dominant_class r.class_pixel_fraction
    unfolding run_edge_constrained classify read_features summarize class_fractions
    run_edge-IsDominant crop s src red nir m row rows opened bands session probs full =
        let (p, e, l) = predict_total (row ∷ rows) full in
        let share =
          λ (i : ℕ). N.round6 (N.div (N.of_ℕ (count (λ k. k == i) p)) (N.of_ℕ (length p))) in
        (
          summarize N src.width src.height p crop,
          ground (arith, opened, bands, session, probs, e, l),
          three-IsDominant (share 0) (share 1) (share 2),
        )
