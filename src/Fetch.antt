-- ===== src/Fetch.antt =====
-- services/api/aries_api/ingest.py: `fetch_observation`, from a fixture or from the SatNOGS network.
pub mod Expected
mod Tests
use aries_space.Base.{
  ℕ, not, Bool, true, false, String, Option, none, some, List, [], ◌∷◌, ltb, if◌then◌else◌,
}
use aries_space.Base.Int.{ℤ, eq_ℤ}
use aries_space.Exn.{
  Exn, ingest_conflict, ingest_unavailable, orphan_object, configuration_error, os_error,
  timeout_error, value_error, http_error, type_error,
}
use aries_space.Exec.{Result, ok, err, Exec, pure, raise, raise_if, lift, try_except, ◌>>=◌, ◌>>◌}
use aries_space.Json.{Json, obj, arr, nil, cons, get_item, to_int}

-- `httpx.get(...)` with `raise_for_status()`: the length of the content, and `response.json()`.
pub record Answer : Type 0 where
  pub content_length : ℕ
  pub json : Result Json

-- The fixture of the settings, if there is one, read as JSON; the query by catalogue number, limit and
-- observation; and `int` of a text.
pub record Sources (W : Type 0) : Type 0 where
  pub fixture : Option (Exec W Json)
  pub query : ℤ → ℕ → Option ℤ → Exec W Answer
  pub max_response_bytes : ℕ
  pub read_int : String → Option ℤ

-- `payload[key]`; only a dict takes a text for a key.
abbrev pub at_key : String → Json → Result Json
at_key key (obj fields) = get_item key fields
at_key key _ = err type_error

-- The `except` clauses.
unfoldable pub fetch_error : Exn → Exn
fetch_error os_error = ingest_unavailable "SatNOGS observation is unavailable"
fetch_error timeout_error = ingest_unavailable "SatNOGS observation is unavailable"
fetch_error value_error = ingest_unavailable "SatNOGS observation is unavailable"
fetch_error (configuration_error _) = ingest_unavailable "SatNOGS observation is unavailable"
fetch_error http_error = ingest_unavailable "SatNOGS observation is unavailable"
fetch_error e = e

-- What stands after the `try`: the first of a list that is not empty.
unfoldable pub first_of : {W : Type 0} → Json → Exec W Json
first_of (arr (cons first rest)) = pure first
first_of _ = raise (ingest_unavailable "SatNOGS returned no matching observation")

module _ {W : Type 0} (S : Sources W) where
  unfoldable pub int_at : String → Json → Result ℤ
  int_at key payload = elim (at_key key payload) [ err e ↦ err e | ok v ↦ to_int S.read_int v ]

  unfoldable pub fetch_fixture : Exec W Json → ℤ → Option ℤ → Exec W Json
  unfolding int_at
  fetch_fixture read norad_id observation_id = do
    payload ← read
    norad_cat_id ← lift (int_at "norad_cat_id" payload)
    raise_if (not (eq_ℤ norad_cat_id norad_id))
        (ingest_conflict "Fixture NORAD ID does not match request")
    elim observation_id [
      | none ↦ pure payload
      | some wanted ↦ (do
        id ← lift (int_at "id" payload)
        raise_if (not (eq_ℤ id wanted)) (ingest_unavailable "Fixture has no matching observation")
        pure payload)
    ]

  unfoldable pub read_answer : Answer → Exec W Json
  read_answer answer = do
    raise_if (ltb S.max_response_bytes answer.content_length)
        (ingest_unavailable "SatNOGS response exceeds size limit")
    lift answer.json

  unfoldable pub fetch_network : ℤ → ℕ → Option ℤ → Exec W Json
  unfolding read_answer
  fetch_network norad_id limit observation_id = do
    answer ← S.query norad_id limit observation_id
    read_answer answer

  unfoldable pub fetch_observation : ℤ → ℕ → Option ℤ → Exec W Json
  unfolding fetch_fixture fetch_network first_of fetch_error
  fetch_observation norad_id limit observation_id = elim S.fixture [
    | some read ↦
        try_except (fetch_fixture read norad_id observation_id) (λ e. raise (fetch_error e))
    | none ↦ (do
      payload ←
          try_except (fetch_network norad_id limit observation_id) (λ e. raise (fetch_error e))
      first_of payload)
  ]
