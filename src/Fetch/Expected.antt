-- ===== src/Fetch/Expected.antt =====
-- services/api/aries_api/ingest.py: how `fetch_observation` fails.
use aries_space.Base.{
  ℕ, ◌≡◌, refl, inl, inr, Bool, true, false, not, ◌||◌, String, Option, none, some, arith, ltb,
  Bool-cases, Option-cases,
}
use aries_space.Base.Int.{ℤ, eq_ℤ}
use aries_space.Exn.{
  Exn, ingest_conflict, ingest_unavailable, os_error, timeout_error, value_error, http_error,
  type_error, key_error, overflow_error,
}
use aries_space.Exec.{Result, ok, err, Exec, Result-cases, raise, lift, try_except}
use aries_space.Exec.Fails.{FailsWith, Fails, >>=-Fails_from, >>=-Fails, raise_if-Fails, pure-Fails}
use aries_space.Json.{Json, Fields, find, get_item, to_int}
use aries_space.Fetch.{
  Sources, Answer, at_key, fetch_error, int_at, fetch_fixture, read_answer, fetch_network, first_of,
  fetch_observation,
}

-- What reading a file, a query and a parse may raise: OSError, ValueError or an HTTPError.
abbrev pub is_io : Exn → Bool
is_io os_error = true
is_io timeout_error = true
is_io value_error = true
is_io http_error = true
is_io _ = false

-- A conflict, an IngestUnavailableError, or a KeyError, TypeError or OverflowError from the fixture's
-- fields.
abbrev pub is_fetch_error : Exn → Bool
is_fetch_error (ingest_conflict _) = true
is_fetch_error (ingest_unavailable _) = true
is_fetch_error key_error = true
is_fetch_error type_error = true
is_fetch_error overflow_error = true
is_fetch_error _ = false

-- Inside the `try`.
abbrev is_inner : Exn → Bool
is_inner e = is_io e || is_fetch_error e

fetch_error_lem : (e : Exn) → is_inner e ≡ true → is_fetch_error (fetch_error e) ≡ true
unfolding fetch_error
fetch_error_lem e h = ground (arith, h)

get_item-FailsWith : (key : String) (fs : Fields) → FailsWith is_inner (get_item key fs)
get_item-FailsWith key fs = elim (Option-cases (find key fs)) [
  | inl h ↦ ground (arith, h)
  | inr (v, h) ↦ ground (arith, h)
]

at_key-FailsWith : (key : String) (v : Json) → FailsWith is_inner (at_key key v)
at_key-FailsWith key (Json.obj fs) = get_item-FailsWith key fs
at_key-FailsWith key (Json.arr fs) = refl
at_key-FailsWith key (Json.text fs) = refl
at_key-FailsWith key (Json.int fs) = refl
at_key-FailsWith key (Json.float a b) = refl
at_key-FailsWith key (Json.bool b) = refl
at_key-FailsWith key (Json.infinite b) = refl
at_key-FailsWith key Json.nan = refl
at_key-FailsWith key Json.null = refl

to_int-FailsWith : (read : String → Option ℤ) (v : Json) → FailsWith is_inner (to_int read v)
unfolding to_int
to_int-FailsWith read (Json.obj fs) = refl
to_int-FailsWith read (Json.arr fs) = refl
to_int-FailsWith read (Json.text s) = elim (Option-cases (read s)) [
  | inl h ↦ ground (arith, h)
  | inr (n, h) ↦ ground (arith, h)
]
to_int-FailsWith read (Json.int n) = tt
to_int-FailsWith read (Json.float a b) = tt
to_int-FailsWith read (Json.bool true) = tt
to_int-FailsWith read (Json.bool false) = tt
to_int-FailsWith read (Json.infinite b) = refl
to_int-FailsWith read Json.nan = refl
to_int-FailsWith read Json.null = refl

handled-Fails :
    {W A : Type 0} (m : Exec W A)
    → Fails is_inner m
    → Fails is_fetch_error (try_except m (λ e. raise (fetch_error e)))
handled-Fails m h = record {
  fails = λ w. elim (Result-cases (m w).0) [
    | inl (a, e) ↦ ground (arith, e)
    | inr (x, e) ↦ ground (arith, e, h.fails w, fetch_error_lem x)
  ];
}

widen : {A : Type 0} (r : Result A) → FailsWith is_io r → FailsWith is_inner r
widen (ok a) h = tt
widen (err e) h = ground (arith, h)

widen-Fails : {W A : Type 0} (m : Exec W A) → Fails is_io m → Fails is_inner m
widen-Fails m h = record { fails = λ w. widen (m w).0 (h.fails w) }

first_of-Fails : {W : Type 0} (v : Json) → Fails {W = W} is_fetch_error (first_of v)
unfolding first_of
first_of-Fails v = record { fails = λ w. ground arith }

module _ {W : Type 0} (S : Sources W) where
  int_at-Fails : (key : String) (v : Json) → Fails {W = W} is_inner (lift (int_at S key v))
  unfolding int_at
  int_at-Fails key v = record {
    fails = λ w. elim (Result-cases (at_key key v)) [
      | inl (a, e) ↦ ground (arith, e, to_int-FailsWith S.read_int a)
      | inr (x, e) ↦ ground (arith, e, at_key-FailsWith key v)
    ];
  }

  fetch_fixture-Fails :
      (read : Exec W Json) (norad_id : ℤ) (observation_id : Option ℤ)
      → Fails is_inner read
      → Fails is_inner (fetch_fixture S read norad_id observation_id)
  unfolding fetch_fixture
  fetch_fixture-Fails read norad_id none h = >>=-Fails read _ h (λ payload.
      >>=-Fails _ _ (int_at-Fails "norad_cat_id" payload) (λ n.
        >>=-Fails _ _ (raise_if-Fails (not (eq_ℤ n norad_id)) _ refl) (λ _. pure-Fails payload)))
  fetch_fixture-Fails read norad_id (some wanted) h = >>=-Fails read _ h (λ payload.
      >>=-Fails _ _ (int_at-Fails "norad_cat_id" payload) (λ n.
        >>=-Fails _ _ (raise_if-Fails (not (eq_ℤ n norad_id)) _ refl) (λ _.
          >>=-Fails _ _ (int_at-Fails "id" payload) (λ id.
            >>=-Fails _ _ (raise_if-Fails (not (eq_ℤ id wanted)) _ refl)
              (λ _. pure-Fails payload)))))

  read_answer-Fails : (a : Answer) → FailsWith is_inner a.json → Fails is_inner (read_answer S a)
  unfolding read_answer
  read_answer-Fails a h = record {
    fails = λ w. elim (Bool-cases (ltb S.max_response_bytes a.content_length)) [
      | inl e ↦ ground (arith, e)
      | inr e ↦ ground (arith, e, h)
    ];
  }

  fetch_network-Fails :
      (norad_id : ℤ) (limit : ℕ) (observation_id : Option ℤ)
      → Fails is_inner (S.query norad_id limit observation_id)
      → ((a : Answer) (w : W)
          → (S.query norad_id limit observation_id w).0 ≡ ok a
          → FailsWith is_inner a.json)
      → Fails is_inner (fetch_network S norad_id limit observation_id)
  unfolding fetch_network
  fetch_network-Fails norad_id limit observation_id h parsed =
      >>=-Fails_from (S.query norad_id limit observation_id) (read_answer S) h
        (λ answer w e. read_answer-Fails answer (parsed answer w e))

  -- If reading the fixture, the query and the parse of its answer raise nothing but an OSError, a
  -- ValueError or an HTTPError, then an exception that leaves the fetch is an IngestConflictError or
  -- an IngestUnavailableError, or a KeyError, TypeError or OverflowError.
  pub fetch_observation-IsExpected :
      (norad_id : ℤ) (limit : ℕ) (observation_id : Option ℤ)
      → ((read : Exec W Json) → S.fixture ≡ some read → Fails is_io read)
      → Fails is_io (S.query norad_id limit observation_id)
      → ((a : Answer) (v : W)
          → (S.query norad_id limit observation_id v).0 ≡ ok a
          → FailsWith is_io a.json)
      → (w : W) → FailsWith is_fetch_error (fetch_observation S norad_id limit observation_id w).0
  unfolding fetch_observation
  fetch_observation-IsExpected norad_id limit observation_id file query parsed w =
      elim (Option-cases S.fixture) [
        | inr (read, e) ↦
            let guarded =
              handled-Fails (fetch_fixture S read norad_id observation_id) (
                fetch_fixture-Fails read norad_id observation_id
                  (widen-Fails read (file read e))) in
            rw e (guarded.fails w)
        | inl e ↦
            let guarded = handled-Fails (fetch_network S norad_id limit observation_id) (
              fetch_network-Fails norad_id limit observation_id
                (widen-Fails (S.query norad_id limit observation_id) query)
                (λ a v e. widen a.json (parsed a v e))) in
            rw e (
              (>>=-Fails
                  (try_except (fetch_network S norad_id limit observation_id)
                    (λ x. raise (fetch_error x)))
                  first_of guarded first_of-Fails).fails
                w)
      ]
