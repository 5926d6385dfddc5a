-- ===== src/Workloads/Landcover/Sessions.antt =====
-- services/api/aries_api/workloads/sentinel2_landcover_classifier.py: a session is made once.
use aries_space.Base.{◌≡◌, some, inl, inr, arith, Option-cases}
use aries_space.Exec.{Result, ok, Exec, Result-cases}
use aries_space.Floats.{Floats}
use aries_space.Backend.{Bytes}
use aries_space.Workloads.Raster.{Raster}
use aries_space.Workloads.Landcover.{
  LandcoverClassifierResult, Runtime, Process, ground_session, default_options, classify, run,
}

module _ {F : Type 0} (N : Floats F) {W M : Type 0} (R : Runtime W M F)
    (open_raster : Bytes → Result (Raster F)) where
  -- A factory that has its session gives it and does nothing; so does the classifier.
  classify-unchanged :
      (crop : Bytes) (factory : Exec (Process W M) M) (s : Process W M) (m : M)
      → factory s ≡ (ok m, s)
      → (classify N R open_raster crop factory s).1 ≡ s
  unfolding classify
  classify-unchanged crop factory s m h = ground (arith, h)

  classify-kept :
      (crop : Bytes) (factory : Exec (Process W M) M) (s : Process W M)
      (r : LandcoverClassifierResult F)
      → (classify N R open_raster crop factory s).0 ≡ ok r
      → ((m : M) × ((factory s).0 ≡ ok m))
        × ((classify N R open_raster crop factory s).1 ≡ (factory s).1)
  unfolding classify
  classify-kept crop factory s r h = elim (Result-cases (factory s).0) [
    | inl (m, e) ↦ ((m, e), ground (arith, h, e))
    | inr (e, g) ↦ ground (arith, h, g)
  ]

  factory_kept :
      (s : Process W M) (m : M)
      → (ground_session R s).0 ≡ ok m
      → ((ground_session R s).1.ground ≡ some m) × ((ground_session R s).1.edge ≡ s.edge)
  unfolding ground_session
  factory_kept s m h = elim (Option-cases s.ground) [
    | inl e ↦ elim (Result-cases (R.create default_options s.world).0) [
      | inl (k, g) ↦ ground (arith, h, e, g)
      | inr (x, g) ↦ ground (arith, h, e, g)
    ]
    | inr (k, e) ↦ ground (arith, h, e)
  ]

  ground_session-unchanged :
      (s : Process W M) (m : M) → s.ground ≡ some m → ground_session R s ≡ (ok m, s)
  unfolding ground_session
  ground_session-unchanged s m h = ground (arith, h)

  -- After a run on the ground that returned, the process keeps its session: whatever the next crop
  -- is, a run on the ground changes nothing. The session of the edge is as it was.
  pub run_once :
      (first second : Bytes) (s : Process W M) (r : LandcoverClassifierResult F)
      → (run N R open_raster first s).0 ≡ ok r
      → let s' = (run N R open_raster first s).1 in
        ((m : M) × (s'.ground ≡ some m))
        × ((run N R open_raster second s').1 ≡ s')
        × (s'.edge ≡ s.edge)
  unfolding run
  run_once first second s r h =
      let kept = classify-kept first (ground_session R) s r h in
      let m = kept.0.0 in
      let s' = (classify N R open_raster first (ground_session R) s).1 in
      let made = factory_kept s m (kept.0.1) in
      let held : s'.ground ≡ some m = ground (arith, made, kept.1) in
      (
        (m, held),
        classify-unchanged second (ground_session R) s' m (ground_session-unchanged s' m held),
        ground (arith, made, kept.1),
      )
