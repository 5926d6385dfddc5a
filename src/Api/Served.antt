-- ===== src/Api/Served.antt =====
-- services/api/aries_api/main.py: the context of the dashboard is built whatever is down.
use aries_space.Base.{
  ◌≡◌, refl, inl, inr, Bool, true, false, String, Option, none, some, List, arith,
}
use aries_space.Exn.{
  Exn, http_exception, benchmark_not_found, benchmark_unavailable, sqlalchemy_error,
  is_sqlalchemy_error,
}
use aries_space.Exec.{Result, ok, err, Exec, Result-cases}
use aries_space.Models.{Observation}
use aries_space.Api.Context.{
  Context, read_database, read_benchmark, benchmark_fallback, read_passes, passes_fallback,
  dashboard_context,
}

-- What each read may raise.
abbrev pub is_benchmark_failure : Exn → Bool
is_benchmark_failure (benchmark_not_found _) = true
is_benchmark_failure (benchmark_unavailable _) = true
is_benchmark_failure sqlalchemy_error = true
is_benchmark_failure _ = false

abbrev pub is_http_exception : Exn → Bool
is_http_exception (http_exception _ _) = true
is_http_exception _ = false

-- An action that raises nothing else, wherever it starts.
abbrev pub RaisesOnly : {W A : Type 0} → (Exn → Bool) → Exec W A → Type 0
RaisesOnly expected m = (w : _) (e : Exn) → (m w).0 ≡ err e → expected e ≡ true

-- A part is there, or a text says why it is not.
abbrev pub IsShown : {A : Type 0} → Option A → Option String → Type 0
IsShown (some _) none = Unit
IsShown none (some _) = Unit
IsShown _ _ = ⊥

-- A call that returns such a value.
abbrev pub Serves : {A : Type 0} → (A → Type 0) → Result A → Type 0
Serves P (ok a) = P a
Serves P (err _) = ⊥

Serves-value :
    {A : Type 0} (P : A → Type 0) (r : Result A) → Serves P r → (a : A) × (r ≡ ok a) × P a
Serves-value P (ok a) h = (a, refl, h)
Serves-value P (err _) h = elim h [ ]

read_database-Serves :
    {W S : Type 0} (log_error : String → W → W) (read_status : Exec W S)
    (read_recent : Exec W (List Observation)) (w : W)
    → RaisesOnly is_sqlalchemy_error read_status
    → RaisesOnly is_sqlalchemy_error read_recent
    → Serves (λ r. IsShown r.0 r.2) (read_database log_error read_status read_recent w).0
unfolding read_database
read_database-Serves log_error read_status read_recent w f g =
    elim (Result-cases (read_status w).0) [
      | inr (e, h) ↦ ground (arith, h, f w e h)
      | inl (s, h) ↦ elim (Result-cases (read_recent (read_status w).1).0) [
        | inr (e, k) ↦ ground (arith, h, k, g (read_status w).1 e k)
        | inl (os, k) ↦ ground (arith, h, k)
      ]
    ]

benchmark_fallback-Serves :
    {W : Type 0} (B : Type 0) (e : Exn) (w : W)
    → is_benchmark_failure e ≡ true
    → Serves (λ r. IsShown r.0 r.1) (benchmark_fallback {W = W} {B = B} e w).0
unfolding benchmark_fallback
benchmark_fallback-Serves B e w h = ground (arith, h)

read_benchmark-Serves :
    {W B : Type 0} (read_pair : Exec W B) (w : W)
    → RaisesOnly is_benchmark_failure read_pair
    → Serves (λ r. IsShown r.0 r.1) (read_benchmark read_pair w).0
unfolding read_benchmark
read_benchmark-Serves read_pair w f = elim (Result-cases (read_pair w).0) [
  | inl (b, h) ↦ ground (arith, h)
  | inr (e, h) ↦ rw (h, Serves) (benchmark_fallback-Serves _ e _ (f w e h))
]

passes_fallback-Serves :
    {W : Type 0} (P : Type 0) (e : Exn) (w : W)
    → is_http_exception e ≡ true
    → Serves (λ _. Unit {0}) (passes_fallback {W = W} {P = P} e w).0
unfolding passes_fallback
passes_fallback-Serves P e w h = ground (arith, h)

read_passes-Serves :
    {W P : Type 0} (read_payload : Exec W (List P × Bool)) (w : W)
    → RaisesOnly is_http_exception read_payload
    → Serves (λ _. Unit {0}) (read_passes read_payload w).0
unfolding read_passes
read_passes-Serves read_payload w f = elim (Result-cases (read_payload w).0) [
  | inl (b, h) ↦ ground (arith, h)
  | inr (e, h) ↦ rw (h, Serves) (passes_fallback-Serves _ e _ (f w e h))
]

-- If the reads of the database raise nothing but SQLAlchemyError, the read of the pair nothing but that
-- and the two exceptions of a pair that is missing or incomplete, and the passes nothing but an
-- HTTPException, then the context is built, and the status and the pair are each there or stand beside
-- the text that says why not, never both.
pub dashboard_context-IsShown :
    {W S B P : Type 0} (log_error : String → W → W) (read_status : Exec W S)
    (read_recent : Exec W (List Observation)) (read_pair : Exec W B)
    (read_payload : Exec W (List P × Bool)) (w : W)
    → RaisesOnly is_sqlalchemy_error read_status
    → RaisesOnly is_sqlalchemy_error read_recent
    → RaisesOnly is_benchmark_failure read_pair
    → RaisesOnly is_http_exception read_payload
    → (c : Context S B P) × ((dashboard_context log_error read_status read_recent read_pair
          read_payload w).0
        ≡ ok c)
      × IsShown c.status c.database_error
      × IsShown c.benchmark c.benchmark_error
unfolding dashboard_context
dashboard_context-IsShown log_error read_status read_recent read_pair read_payload w f g h k =
    let database = read_database log_error read_status read_recent in
    let w₁ = (database w).1 in
    let w₂ = (read_benchmark read_pair w₁).1 in
    let (a, e, shown) =
      Serves-value _ (database w).0
        (read_database-Serves log_error read_status read_recent w f g) in
    let (b, e', shown') =
      Serves-value _ (read_benchmark read_pair w₁).0 (read_benchmark-Serves read_pair w₁ h) in
    let (p, e'', _) =
      Serves-value _ (read_passes read_payload w₂).0 (read_passes-Serves read_payload w₂ k) in
    let (c, built, (status, benchmark)) =
      Serves-value (λ c. IsShown c.status c.database_error × IsShown c.benchmark c.benchmark_error)
        (dashboard_context log_error read_status read_recent read_pair read_payload w).0
        (ground (arith, e, e', e'', shown, shown')) in
    (c, built, status, benchmark)
