-- ===== src/Metrics/Decision.antt =====
-- The placement decision of services/api/aries_api/metrics.py, as `run_benchmark_pair` makes it.
use aries_space.Base.{ℕ, ◌+◌, ◌<◌, ◌≡◌, true, false, String, Option, some, arith, min}
use aries_space.Exec.{Result, ok, err}
use aries_space.Floats.{Floats, IsIeee, IsFinite, IsZero, zero_F, max0}
use aries_space.Metrics.{
  RunCost, RunMetrics, metrics_of, is_bad, any_bad, costs, calculate_run_metrics,
  break_even_downlink_price, recommendation_for_price,
}

module _ {F : Type 0} (N : Floats F) where
  abbrev then_recommend : F → Result (Option F) → Result (Option String)
  then_recommend price (ok b) = recommendation_for_price N price b
  then_recommend price (err e) = err e

  -- The two calls in a row.
  unfoldable pub recommend : F → F → ℕ → F → Result (Option String)
  unfolding break_even_downlink_price recommendation_for_price
  recommend ground_cost edge_cost saved price =
      then_recommend price (break_even_downlink_price N ground_cost edge_cost saved)

  abbrev pub IsCost : F → Type 0
  IsCost x = is_bad N x ≡ false

  -- A finite number that is not below zero.
  abbrev pub IsRate : F → Type 0
  IsRate x = IsFinite N x × (N.lt x (zero_F N) ≡ false)

  -- Both sizes are positive, every rate of the run is a finite number that is not below zero, and the
  -- downlink's is above it.
  abbrev pub IsPriceable : RunCost F → Type 0
  IsPriceable c =
      (0 < c.input_bytes)
      × (0 < c.output_bytes)
      × IsRate c.wall_ms
      × IsRate c.avg_watts
      × IsRate c.downlink_mbps
      × IsRate c.electricity_inr_per_kwh
      × IsRate c.compute_inr_per_hour
      × IsRate c.fixed_cost_inr_per_run
      × (N.lt (zero_F N) c.downlink_mbps ≡ true)

  good-IsRate : (x : F) → is_bad N x ≡ false → IsRate x
  good-IsRate x h = ground (arith, h)

  costs-IsRate :
      (c : RunCost F)
      → any_bad N (costs N c) ≡ false
      → IsRate c.wall_ms
        × IsRate c.avg_watts
        × IsRate c.downlink_mbps
        × IsRate c.electricity_inr_per_kwh
        × IsRate c.compute_inr_per_hour
        × IsRate c.fixed_cost_inr_per_run
  unfolding any_bad
  costs-IsRate c h = ground (arith, h)

  priced :
      (c : RunCost F) (m : RunMetrics F)
      → calculate_run_metrics N c ≡ ok m
      → IsPriceable c × (m.downlink_saved_bytes + min c.input_bytes c.output_bytes ≡ c.input_bytes)
  unfolding calculate_run_metrics any_bad
  priced c m e = ground (arith, costs-IsRate c)

  priceable :
      (c : RunCost F) → IsPriceable c → (m : RunMetrics F) × (calculate_run_metrics N c ≡ ok m)
  unfolding calculate_run_metrics any_bad
  priceable c h = (metrics_of N c, ground (arith, h))

  -- A run is priced exactly if both sizes are positive, the wall time, the power, the downlink's rate,
  -- the two prices and the fixed cost are finite numbers that are not below zero, and the downlink's
  -- rate is above it; the saved bytes of a priced run and the smaller of its sizes make up the input.
  pub calculate_run_metrics_ok :
      (c : RunCost F)
      → ((m : RunMetrics F)
          → calculate_run_metrics N c ≡ ok m
          → IsPriceable c
            × (m.downlink_saved_bytes + min c.input_bytes c.output_bytes ≡ c.input_bytes))
        × (IsPriceable c → (m : RunMetrics F) × (calculate_run_metrics N c ≡ ok m))
  calculate_run_metrics_ok c = (priced c, priceable c)

  module _ (I : IsIeee N) where
    -- Once the edge is recommended, it is at every higher price of the downlink.
    pub recommend-price :
        (ground_cost edge_cost : F) (saved : ℕ) (price price' : F)
        → IsCost price'
        → N.lt price' price ≡ false
        → recommend ground_cost edge_cost saved price ≡ ok (some "edge")
        → recommend ground_cost edge_cost saved price' ≡ ok (some "edge")
    unfolding recommend
    recommend-price ground_cost edge_cost saved price price' p h e =
        let below = max0 N (N.sub edge_cost ground_cost) in
        let point = N.div below (N.div (N.of_ℕ saved) (N.of_ℕ 1000000000)) in
        ground (arith, I.lt_split point price price')

    -- An edge run that costs no more than the ground run and saves bytes is recommended at every
    -- positive price.
    pub recommend-cheaper :
        (ground_cost edge_cost : F) (saved : ℕ) (price : F)
        → IsCost ground_cost
        → IsCost edge_cost
        → N.lt ground_cost edge_cost ≡ false
        → 0 < saved
        → IsCost price
        → N.lt (zero_F N) price ≡ true
        → recommend ground_cost edge_cost saved price ≡ ok (some "edge")
    unfolding recommend
    recommend-cheaper ground_cost edge_cost saved price g e le s p pos =
        let difference = N.sub edge_cost ground_cost in
        let nonpos = I.sub_nonpos edge_cost ground_cost (ground arith) (ground arith) le in
        let none : IsZero N (max0 N difference) = ground (arith, nonpos, I.zero-zero) in
        let q = I.zero_quotient (max0 N difference) saved s none in
        ground (
          arith,
          q,
          I.lt_split (zero_F N) price
              (N.div (max0 N difference) (N.div (N.of_ℕ saved) (N.of_ℕ 1000000000))),
        )
