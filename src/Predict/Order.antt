-- ===== src/Predict/Order.antt =====
-- services/api/aries_api/predict.py: the passes that `compute_passes` returns.
use aries_space.Base.{
  ℕ, suc, ◌≤◌, ◌<◌, Bool, Option, none, some, List, [], ◌∷◌, ◌++◌, length, inl, inr, arith, All,
  Bool-cases, leb, ltb, ◌&&◌,
}
use aries_space.Base.{length-append}
use aries_space.Floats.{Floats}
use aries_space.Predict.{Event, PredictedPass, Locals, on_event, scan, compute_passes, pass_of}

module _ {F : Type 0} (N : Floats F) (sector : F → ℕ) (round2 : F → F) where
  -- Events in the order of their times.
  abbrev pub IsSorted : ℕ → List (Event F) → Type 0
  IsSorted t [] = Unit
  IsSorted t (e ∷ es) = (t ≤ e.time) × IsSorted e.time es

  abbrev pub IsForward : PredictedPass F → Type 0
  IsForward p = p.aos ≤ p.los

  abbrev IsRisenBy : ℕ → Option (ℕ × F) → Type 0
  IsRisenBy t none = Unit
  IsRisenBy t (some (s, _)) = s ≤ t

  All-append :
      (ps : List (PredictedPass F)) (p : PredictedPass F)
      → All IsForward ps
      → IsForward p
      → All IsForward (ps ++ p ∷ [])
  All-append [] p h g = ground (arith, g)
  All-append (x ∷ xs) p h g = ground (arith, h, All-append xs p (h.1) g)

  on_event-Forward :
      (stale : Bool) (t : ℕ) (e : Event F) (rise : Option (ℕ × F)) (top : Option F)
      (passes : List (PredictedPass F))
      → t ≤ e.time
      → IsRisenBy t rise
      → All IsForward passes
      → let l' =
          on_event N sector round2 stale e
            (record { rise = rise; max_elevation = top; passes = passes }) in
        IsRisenBy e.time l'.rise
        × All IsForward l'.passes
        × (length l'.passes ≤ suc (length passes))
  unfolding on_event
  on_event-Forward stale t e none none passes later r h = ground (arith, h)
  on_event-Forward stale t e none (some m) passes later r h =
      elim (Bool-cases (N.lt m e.altitude)) [
        | inl g ↦ ground (arith, g, h)
        | inr g ↦ ground (arith, g, h)
      ]
  on_event-Forward stale t e (some (s, a)) none passes later r h = ground (arith, h, r, later)
  on_event-Forward stale t e (some (s, a)) (some m) passes later r h =
      let p = pass_of N sector round2 stale s a m e in
      elim (Bool-cases (N.lt m e.altitude)) [
        | inl g ↦
            ground (arith, g, h, r, later, All-append passes p h, length-append passes (p ∷ []))
        | inr g ↦
            ground (arith, g, h, r, later, All-append passes p h, length-append passes (p ∷ []))
      ]

  scan-Forward :
      (stale : Bool) (count t : ℕ) (es : List (Event F)) (l : Locals F)
      → IsSorted t es
      → IsRisenBy t l.rise
      → All IsForward l.passes
      → length l.passes < count
      → All IsForward (scan N sector round2 stale count es l)
        × (length (scan N sector round2 stale count es l) ≤ count)
  unfolding scan
  scan-Forward stale count t [] l sorted r h few = ground (arith, h, few)
  scan-Forward stale count t (e ∷ es) l sorted r h few =
      let l' = on_event N sector round2 stale e l in
      let next = on_event-Forward stale t e l.rise l.max_elevation l.passes (sorted.0) r h in
      elim (Bool-cases (ltb (length l.passes) (length l'.passes) && leb count (length l'.passes))) [
        | inl g ↦ ground (arith, g, next, few)
        | inr g ↦ ground (
          arith,
          g,
          next,
          few,
          scan-Forward stale count e.time es l' (sorted.1) (next.0) (next.1),
        )
      ]

  -- For events in the order of their times and a positive count, every pass that `compute_passes`
  -- returns ends no earlier than it begins, and there are at most that many passes.
  pub compute_passes-Forward :
      (stale : Bool) (count : ℕ) (events : List (Event F))
      → 1 ≤ count
      → IsSorted 0 events
      → All IsForward (compute_passes N sector round2 stale count events)
        × (length (compute_passes N sector round2 stale count events) ≤ count)
  unfolding compute_passes
  compute_passes-Forward stale count events positive sorted =
      scan-Forward stale count 0 events (record { rise = none; max_elevation = none; passes = [] })
        sorted tt tt (ground (arith, positive))
