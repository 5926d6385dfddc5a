-- ===== src/ComposeSmoke.antt =====
-- scripts/compose_smoke.py: the settings and `_wait_ready`. `W` stands for the world that the script
-- runs in; its clock counts milliseconds. The requests, the databases and the checks of `main` that
-- follow are not here.
pub mod Ready
mod Tests
use aries_space.Base.{
  ℕ, zero, suc, ◌||◌, ◌&&◌, Bool, true, false, String, ◌<>◌, Option, none, some, List, [], ◌∷◌, ltb,
  ◌==◌, str_eq, if◌then◌else◌,
}
use aries_space.Base.Int.{pos}
use aries_space.Exn.{Exn, os_error, timeout_error, value_error, other}
use aries_space.Exec.{Result, ok, err, Exec}
use aries_space.Json.{Json, text, obj, field, end}

-- `os.environ.get`, the lines of `.env` where it is a file, and Python's `str.startswith` and the
-- stripped rest of a line after its first "=".
pub record Environment : Type 0 where
  pub environ : String → Option String
  pub dotenv : Option (List String)
  pub startswith : String → String → Bool
  pub after_equals : String → String

module _ (E : Environment) where
  find_line : String → List String → Option String
  find_line name [] = none
  find_line name (line ∷ lines) =
      let later = find_line name lines in
      if E.startswith line (name <> "=") then some (E.after_equals line) else later

  unfoldable pub dotenv_value : String → Option String
  unfolding find_line
  dotenv_value name = elim E.dotenv [ none ↦ none | some lines ↦ find_line name lines ]

  -- `os.environ.get(name) or _dotenv_value(name)`
  unfoldable pub setting : String → Option String
  unfolding dotenv_value
  setting name = elim (E.environ name) [
    | none ↦ dotenv_value name
    | some v ↦ if str_eq v "" then dotenv_value name else some v
  ]

  -- A `RuntimeError` where there is no value or the template's.
  unfoldable pub required_setting : String → Result String
  unfolding setting
  required_setting name = elim (setting name) [
    | none ↦ err other
    | some v ↦ if str_eq v "" || E.startswith v "replace-with-" then err other else ok v
  ]

-- `except (OSError, urllib.error.HTTPError, json.JSONDecodeError)`; the last is a `ValueError`, and the
-- only one that a request raises.
abbrev pub is_retried : Exn → Bool
is_retried os_error = true
is_retried timeout_error = true
is_retried value_error = true
is_retried _ = false

-- `status == 200 and body == {"status": "ready"}`
unfoldable pub is_ready : ℕ × Json → Bool
is_ready (status, obj (field key (text value) end)) =
    (status == 200) && str_eq key "status" && str_eq value "ready"
is_ready _ = false

-- `time.monotonic`, `_json_request("/health/ready")` and `time.sleep(0.5)`.
pub record Client (W : Type 0) : Type 0 where
  pub monotonic : W → ℕ
  pub request : Exec W (ℕ × Json)
  pub sleep : W → W

module _ {W : Type 0} (C : Client W) where
  -- The loop, on fuel: none where the fuel is spent. The text of the last error is left out.
  unfoldable pub wait_ready : ℕ → ℕ → W → Option (Result (Unit {0}) × W)
  unfolding is_ready
  wait_ready zero deadline w = none
  wait_ready (suc fuel) deadline w =
      let (r, w') = C.request w in
      let again = wait_ready fuel deadline (C.sleep w') in
      if ltb (C.monotonic w) deadline
      then elim r [
        | ok answer ↦ if is_ready answer then some (ok tt, w') else again
        | err e ↦ if is_retried e then again else some (err e, w')
      ]
      else some (err timeout_error, w)
