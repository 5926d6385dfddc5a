-- ===== src/Status.antt =====
-- services/api/aries_api/status.py: the counts and the last ingestion of `compute_status`.
mod Tests
use aries_space.Base.{
  ℕ, ◌-◌, ◌*◌, ◌≤◌, Option, none, some, List, [], ◌∷◌, length, count, leb, max, ◌≡◌, arith, All,
  refl, ◌+◌, ◌⊎◌, inl, inr, Bool-cases, subst,
}
use aries_space.Models.{Observation}

-- The settings that the answer repeats and its constant `last_ingestion_error` are left out. Times
-- here are seconds.
abbrev day : ℕ
day = 24 * 3600

pub record Status : Type 0 where
  pub observations_ingested_last_24h : ℕ
  pub observations_total : ℕ
  pub last_successful_ingestion : Option ℕ

-- `func.max`
unfoldable pub last_ingested : List Observation → Option ℕ
last_ingested [] = none
last_ingested (o ∷ os) = elim (last_ingested os) [
  | none ↦ some o.ingested_at
  | some t ↦ some (max o.ingested_at t)
]

unfoldable pub compute_status : ℕ → List Observation → Status
unfolding last_ingested
compute_status now observations = record {
  observations_ingested_last_24h = count (λ o. leb (now - day) o.ingested_at) observations;
  observations_total = length observations;
  last_successful_ingestion = last_ingested observations;
}

-- The time of one of the observations.
abbrev pub IsTimeOf : ℕ → List Observation → Type 0
IsTimeOf t [] = ⊥
IsTimeOf t (o ∷ os) = (o.ingested_at ≡ t) ⊎ IsTimeOf t os

abbrev pub IsLast : Option ℕ → List Observation → Type 0
IsLast none os = length os ≡ 0
IsLast (some t) os = IsTimeOf t os × All (λ o. o.ingested_at ≤ t) os

-- What was ingested at a time less than a day ago, or a day.
count-recent :
    (now : ℕ) (os : List Observation)
    → count (λ o. leb (now - day) o.ingested_at) os
      ≡ count (λ o. leb now (o.ingested_at + 86400)) os
count-recent now [] = refl
count-recent now (o ∷ os) = ground (arith, count-recent now os)

All-le :
    (s t : ℕ) (os : List Observation)
    → s ≤ t
    → All (λ o. o.ingested_at ≤ s) os
    → All (λ o. o.ingested_at ≤ t) os
All-le s t [] k h = tt
All-le s t (o ∷ os) k h = ground (arith, h, All-le s t os k (h.1))

last_ingested-IsLast : (os : List Observation) → IsLast (last_ingested os) os
unfolding last_ingested
last_ingested-IsLast [] = refl
last_ingested-IsLast (o ∷ os) = later (last_ingested os) (last_ingested-IsLast os)
  where
    none_left : (xs : List Observation) (t : ℕ) → length xs ≡ 0 → All (λ x. x.ingested_at ≤ t) xs
    none_left [] t h = tt
    none_left (x ∷ xs) t h = ground (arith, h)

    later :
        (last : Option ℕ)
        → IsLast last os
        → IsLast
            (elim last as (λ _. Option ℕ) [
              | none ↦ some o.ingested_at
              | some t ↦ some (max o.ingested_at t)
            ])
            (o ∷ os)
    later none h = (inl refl, (omega arith, none_left os o.ingested_at h))
    later (some t) (there, h) =
        (latest t there, (ground arith, All-le t (max o.ingested_at t) os (ground arith) h))
      where
        latest : (t : ℕ) → IsTimeOf t os → IsTimeOf (max o.ingested_at t) (o ∷ os)
        latest t there = elim (Bool-cases (leb o.ingested_at t)) [
          | inl e ↦ inr (subst (λ s. IsTimeOf s os) (ground (arith, e)) there)
          | inr e ↦ inl (ground (arith, e))
        ]

-- The last day's count is that of the observations to which less than a day, or a day, has to be added
-- to reach the present, and the total that of all; without an observation, and only then, there is
-- no last ingestion, and otherwise it is the time of one of the observations, after which none was
-- ingested.
pub compute_status-IsLast :
    (now : ℕ) (os : List Observation)
    → ((compute_status now os).observations_ingested_last_24h
        ≡ count (λ o. leb now (o.ingested_at + 86400)) os)
      × ((compute_status now os).observations_total ≡ length os)
      × IsLast (compute_status now os).last_successful_ingestion os
unfolding compute_status
compute_status-IsLast now os = (count-recent now os, refl, last_ingested-IsLast os)
