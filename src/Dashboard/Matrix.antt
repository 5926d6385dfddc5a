-- ===== src/Dashboard/Matrix.antt =====
-- services/api/aries_api/dashboard_data.py: the rows of the matrix are of the workloads asked for.
use aries_space.Base.{
  ◌≡◌, refl, ◌⊎◌, inl, inr, Bool, true, ◌&&◌, String, Option, none, some, List, [], ◌∷◌, arith,
  eq_iff, Bool-cases, Option-cases, subst,
}
use aries_space.Exec.{Result, ok, Result-cases, Returned}
use aries_space.Fallible.{Gives, >>=-Gives}
use aries_space.Floats.{Floats}
use aries_space.Models.{BenchmarkPair, BenchmarkRun, Workload, Tables}
use aries_space.Benchmarks.Rows.{find_dataset_by_id}
use aries_space.Benchmarks.Read.{
  SerializedPair, find_workload_by_id, is_completed, is_later, is_of_workload, latest,
  latest_completed_pair, serialized, serialize_rows,
}
use aries_space.Dashboard.{
  Breakdown, Run, is_skipped, ground_run, edge_run, breakdown_of, number_at, headroom, break_even,
  economics_breakdown, latest_pair, matrix_row, build_workload_matrix,
}

-- The first list can be had from the second by leaving elements out.
abbrev pub IsSublist : List String → List String → Type 0
IsSublist [] slugs = Unit
IsSublist (x ∷ xs) [] = ⊥
IsSublist (x ∷ xs) (slug ∷ slugs) = ((x ≡ slug) × IsSublist xs slugs) ⊎ IsSublist (x ∷ xs) slugs

IsSublist-skip :
    (xs : List String) (slug : String) (slugs : List String)
    → IsSublist xs slugs
    → IsSublist xs (slug ∷ slugs)
IsSublist-skip [] slug slugs h = tt
IsSublist-skip (x ∷ xs) slug slugs h = inr h

abbrev pub slugs_of : {F : Type 0} → List (Breakdown F) → List String
slugs_of [] = []
slugs_of (b ∷ bs) = b.workload_slug ∷ slugs_of bs

Returned_at : {A : Type 0} (P : A → Type 0) {m : Result A} {a : A} → m ≡ ok a → Returned m P → P a
Returned_at P e h = subst (λ r. Returned r P) e h

module _ {F : Type 0} where
  latest-is_of_workload :
      (workloads : List Workload) (slug : String) (pairs : List (BenchmarkPair F))
      (p : BenchmarkPair F)
      → latest workloads (some slug) pairs ≡ some p
      → is_of_workload workloads (some slug) p ≡ true
  unfolding latest
  latest-is_of_workload workloads slug [] p h = ground (arith, h)
  latest-is_of_workload workloads slug (q ∷ pairs) p h =
      let rest = latest-is_of_workload workloads slug pairs p in
      elim (Bool-cases (is_completed q && is_of_workload workloads (some slug) q)) [
        | inr e ↦ ground (arith, h, e, rest)
        | inl e ↦ elim (Option-cases (latest workloads (some slug) pairs)) [
          | inl g ↦ ground (arith, h, e, g)
          | inr (b, g) ↦ elim (Bool-cases (is_later b q)) [
            | inl k ↦ ground (arith, h, e, g, k, rest)
            | inr k ↦ ground (arith, h, e, g, k)
          ]
        ]
      ]

  serialized-slug :
      (order_by_slug : List (Run F) → List (Run F)) (t : Tables F) (p : BenchmarkPair F)
      (s : SerializedPair F) (slug : String)
      → serialized order_by_slug t p ≡ ok s
      → is_of_workload t.workloads (some slug) p ≡ true
      → s.workload.slug ≡ slug
  unfolding serialized serialize_rows is_of_workload
  serialized-slug order_by_slug t p s slug h g =
      elim (Option-cases (find_workload_by_id p.workload_id t.workloads)) [
        | inl e ↦ ground (arith, h, e)
        | inr (x, e) ↦ elim (Option-cases (find_dataset_by_id p.dataset_id t.datasets)) [
          | inl k ↦ ground (arith, h, e, k)
          | inr (d, k) ↦ ground (arith, h, g, e, k, (eq_iff x.slug slug).0)
        ]
      ]

module _ {F : Type 0} (N : Floats F) (is_measured : BenchmarkRun F → Bool)
    (order_by_slug : List (Run F) → List (Run F)) (t : Tables F) where
  -- A row is of the pair's workload.
  abbrev IsOf : String → Option (Breakdown F) → Type 0
  IsOf slug none = Unit
  IsOf slug (some b) = b.workload_slug ≡ slug

  breakdown_of-slug :
      (s : SerializedPair F) (edge ground_ : Run F)
      → Gives (λ b. b.workload_slug ≡ s.workload.slug) (breakdown_of N is_measured s edge ground_)
  unfolding breakdown_of
  breakdown_of-slug s (edge, target) (ground_, ground_target) =
      let known = s.pair.assumptions in
      >>=-Gives (number_at N "electricity_inr_per_kwh" known) _ (λ electricity.
        >>=-Gives (number_at N "downlink_inr_per_gb" known) _ (λ price.
          >>=-Gives (number_at N "edge_hardware_capex_per_run_inr" known) _ (λ per_run.
            >>=-Gives (number_at N "edge_hardware_lifetime_hours" known) _ (λ lifetime.
              >>=-Gives
                (break_even N known (headroom N electricity price edge ground_)
                  (N.div lifetime (N.of_ℕ 24)))
                _ (λ breakeven. record { returned = refl })))))

  economics_breakdown-slug :
      (s : SerializedPair F) → Returned (economics_breakdown N is_measured s) (IsOf s.workload.slug)
  unfolding economics_breakdown
  economics_breakdown-slug s = elim (Option-cases (edge_run s.runs)) [
    | inl e ↦ ground (arith, e)
    | inr (edge, e) ↦ elim (Option-cases (ground_run s.runs)) [
      | inl g ↦ ground (arith, e, g)
      | inr (ground_, g) ↦
          let b = (breakdown_of-slug s edge ground_).returned in
          elim (Result-cases (breakdown_of N is_measured s edge ground_)) [
            | inl (x, k) ↦ ground (arith, e, g, k, b)
            | inr (x, k) ↦ ground (arith, e, g, k)
          ]
    ]
  ]

  latest_pair-slug :
      (slug : String)
      → Returned (latest_pair N is_measured order_by_slug t slug) (λ s. s.workload.slug ≡ slug)
  unfolding latest_pair latest_completed_pair
  latest_pair-slug slug = elim (Option-cases (latest t.workloads (some slug) t.pairs)) [
    | inl e ↦ ground (arith, e)
    | inr (p, e) ↦ elim (Result-cases (serialized order_by_slug t p)) [
      | inl (s, g) ↦ ground (
        arith,
        e,
        g,
        serialized-slug order_by_slug t p s slug g
            (latest-is_of_workload t.workloads slug t.pairs p e),
      )
      | inr (x, g) ↦ ground (arith, e, g)
    ]
  ]

  matrix_row-slug :
      (slug : String) → Returned (matrix_row N is_measured order_by_slug t slug) (IsOf slug)
  unfolding matrix_row
  matrix_row-slug slug = elim (Result-cases (latest_pair N is_measured order_by_slug t slug)) [
    | inl (s, e) ↦ ground (arith, e, latest_pair-slug slug, economics_breakdown-slug s)
    | inr (x, e) ↦ elim (Bool-cases (is_skipped x)) [
      | inl g ↦ ground (arith, e, g)
      | inr g ↦ ground (arith, e, g)
    ]
  ]

  row-IsSublist :
      (slug : String) (row : Option (Breakdown F)) (rows : List (Breakdown F)) (slugs : List String)
      → IsOf slug row
      → IsSublist (slugs_of rows) slugs
      → IsSublist (slugs_of (elim row [ none ↦ rows | some b ↦ b ∷ rows ])) (slug ∷ slugs)
  row-IsSublist slug none rows slugs h g = IsSublist-skip (slugs_of rows) slug slugs g
  row-IsSublist slug (some b) rows slugs h g = inl (h, g)

  -- The rows of a matrix are of some of the workloads asked for, in their order, with at most one row
  -- for each.
  pub build_workload_matrix-IsSublist :
      (slugs : List String)
      → Returned
          (build_workload_matrix N is_measured order_by_slug t slugs)
          (λ rows. IsSublist (slugs_of rows) slugs)
  unfolding build_workload_matrix
  build_workload_matrix-IsSublist [] = tt
  build_workload_matrix-IsSublist (slug ∷ slugs) =
      elim (Result-cases (matrix_row N is_measured order_by_slug t slug)) [
        | inr (x, e) ↦ ground (arith, e)
        | inl (row, e) ↦
            elim (Result-cases (build_workload_matrix N is_measured order_by_slug t slugs)) [
              | inr (x, g) ↦ ground (arith, e, g)
              | inl (rows, g) ↦
                  rw (e, g)
                    (row-IsSublist slug row rows slugs
                      (Returned_at (IsOf slug) e (matrix_row-slug slug))
                      (Returned_at (λ r. IsSublist (slugs_of r) slugs) g
                        (build_workload_matrix-IsSublist slugs)))
            ]
      ]
