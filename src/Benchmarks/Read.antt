-- ===== src/Benchmarks/Read.antt =====
-- services/api/aries_api/benchmarks.py: `latest_completed_pair` and `serialize_pair`.
use aries_space.Base.{
  ℕ, Bool, true, false, ◌&&◌, ◌||◌, String, Option, none, some, List, [], ◌∷◌, length, ltb, ◌==◌,
  str_eq, if◌then◌else◌,
}
use aries_space.Exn.{benchmark_not_found, benchmark_unavailable}
use aries_space.Exec.{Result, ok, err, Exec, lift, ◌>>=◌}
use aries_space.Models.{
  Dataset, Workload, ExecutionTarget, BenchmarkPair, BenchmarkRun, Tables, PairStatus, RunStatus,
}
use aries_space.Backend.{Backend, select}
use aries_space.Benchmarks.Rows.{find_dataset_by_id}

-- services/api/aries_api/sentinel2_ingest.py
abbrev pub aoi_name : ℕ → Option String
aoi_name n =
    if n == 1
    then some "GHRCE agricultural region (Nagpur)"
    else if n == 2
    then some "Mumbai/JNPT coastal water"
    else none

unfoldable pub find_workload_by_id : ℕ → List Workload → Option Workload
find_workload_by_id id [] = none
find_workload_by_id id (x ∷ xs) = if x.id == id then some x else find_workload_by_id id xs

pub record SerializedPair (F : Type 0) : Type 0 where
  pub pair : BenchmarkPair F
  pub workload : Workload
  pub dataset : Dataset
  pub dataset_aoi_name : Option String
  pub runs : List (BenchmarkRun F × ExecutionTarget F)

module _ {F : Type 0} where
  pub is_completed : BenchmarkPair F → Bool
  is_completed pair = elim pair.status [
    | PairStatus.running ↦ false
    | PairStatus.completed ↦ true
    | PairStatus.failed ↦ false
  ]

  -- `order_by(completed_at.desc(), id.desc())`; PostgreSQL puts a null first in descending order.
  unfoldable pub is_later : BenchmarkPair F → BenchmarkPair F → Bool
  is_later a b = elim a.completed_at [
    | none ↦ elim b.completed_at [ none ↦ ltb b.id a.id | some _ ↦ true ]
    | some t ↦ elim b.completed_at [
      | none ↦ false
      | some u ↦ ltb u t || ((t == u) && ltb b.id a.id)
    ]
  ]

  -- The pair belongs to a workload of the slug; no slug asks for nothing.
  unfoldable pub is_of_workload : List Workload → Option String → BenchmarkPair F → Bool
  unfolding find_workload_by_id
  is_of_workload workloads none pair = true
  is_of_workload workloads (some slug) pair =
      elim (find_workload_by_id pair.workload_id workloads) [
        | none ↦ false
        | some x ↦ str_eq x.slug slug
      ]

  unfoldable pub latest :
      List Workload → Option String → List (BenchmarkPair F) → Option (BenchmarkPair F)
  unfolding is_completed is_later is_of_workload
  latest workloads slug [] = none
  latest workloads slug (pair ∷ pairs) =
      let best = latest workloads slug pairs in
      if is_completed pair && is_of_workload workloads slug pair
      then elim best [ none ↦ some pair | some b ↦ if is_later b pair then some b else some pair ]
      else best

  unfoldable pub latest_completed_pair : Tables F → Option String → Result (BenchmarkPair F)
  unfolding latest
  latest_completed_pair t workload_slug = elim (latest t.workloads workload_slug t.pairs) [
    | none ↦ err (benchmark_not_found "No completed benchmark pair found")
    | some pair ↦ ok pair
  ]

  find_target_by_id : ℕ → List (ExecutionTarget F) → Option (ExecutionTarget F)
  find_target_by_id id [] = none
  find_target_by_id id (x ∷ xs) = if x.id == id then some x else find_target_by_id id xs

  -- The join: completed runs of the pair with their targets.
  unfoldable pub runs_of :
      ℕ
      → List (ExecutionTarget F)
      → List (BenchmarkRun F)
      → List (BenchmarkRun F × ExecutionTarget F)
  unfolding find_target_by_id
  runs_of pair_id targets [] = []
  runs_of pair_id targets (run ∷ runs) =
      let rest = runs_of pair_id targets runs in
      if (run.pair_id == pair_id)
        && elim run.status [ RunStatus.completed ↦ true | RunStatus.failed ↦ false ]
      then elim (find_target_by_id run.target_id targets) [ none ↦ rest | some x ↦ (run, x) ∷ rest ]
      else rest

  -- What the three answers make together.
  unfoldable pub serialize_rows :
      BenchmarkPair F
      → Option Workload
      → Option Dataset
      → List (BenchmarkRun F × ExecutionTarget F)
      → Result (SerializedPair F)
  serialize_rows pair workload dataset runs =
      let incomplete = benchmark_unavailable "Benchmark pair is incomplete" in
      elim workload [
        | none ↦ err incomplete
        | some workload ↦ elim dataset [
          | none ↦ err incomplete
          | some dataset ↦
              if length runs == 2
              then ok (record {
                pair = pair;
                workload = workload;
                dataset = dataset;
                dataset_aoi_name = elim dataset.aoi_id [
                  | none ↦ none
                  | some n ↦ if n == 0 then none else aoi_name n
                ];
                runs = runs;
              })
              else err incomplete
        ]
      ]

  -- `order_by_slug` orders rows by their target's slug, as the database does. A query that fails
  -- raises its `SQLAlchemyError`.
  unfoldable pub serialize_pair :
      (B : Backend (Tables F))
      → (List (BenchmarkRun F × ExecutionTarget F) → List (BenchmarkRun F × ExecutionTarget F))
      → BenchmarkPair F
      → Exec B.World (SerializedPair F)
  unfolding serialize_rows find_dataset_by_id find_workload_by_id runs_of
  serialize_pair B order_by_slug pair = do
    workload ← select B (λ t. find_workload_by_id pair.workload_id t.workloads)
    dataset ← select B (λ t. find_dataset_by_id pair.dataset_id t.datasets)
    runs ← select B (λ t. order_by_slug (runs_of pair.id t.targets t.runs))
    lift (serialize_rows pair workload dataset runs)

  -- The same from tables whose reading raises nothing.
  unfoldable pub serialized :
      (List (BenchmarkRun F × ExecutionTarget F) → List (BenchmarkRun F × ExecutionTarget F))
      → Tables F
      → BenchmarkPair F
      → Result (SerializedPair F)
  unfolding serialize_rows find_dataset_by_id find_workload_by_id runs_of
  serialized order_by_slug t pair =
      serialize_rows pair (find_workload_by_id pair.workload_id t.workloads)
        (find_dataset_by_id pair.dataset_id t.datasets)
        (order_by_slug (runs_of pair.id t.targets t.runs))
