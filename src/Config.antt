-- ===== src/Config.antt =====
-- services/api/aries_api/config.py: how a setting is read from the environment and checked.
pub mod Economics
pub mod Load
pub mod Readers
pub mod Valid
mod Tests
use aries_space.Base.{
  ℕ, zero, suc, Bool, true, false, not, ◌||◌, String, ◌<>◌, Option, none, some, List, [], ◌∷◌,
  str_eq, if◌then◌else◌,
}
use aries_space.Base.Int.{ℤ, pos, negsuc}
use aries_space.Exec.{Result, ok, err}
use aries_space.Exn.{configuration_error}
use aries_space.Floats.{Floats}

-- `os.environ`, and Python's `str.strip`, `str.lower`, `str.startswith`, `in` on strings, `int(s)`,
-- `float(s)`, and `datetime.fromisoformat`, with whether the time names its zone.
pub record Environment (F : Type 0) : Type 0 where
  pub environ : String → Option String
  pub strip : String → String
  pub lower : String → String
  pub startswith : String → String → Bool
  pub read_time : String → Option (ℕ × Bool)
  pub contains : String → String → Bool
  pub read_int : String → Option ℤ
  pub read_float : String → Option F
  pub show_float : F → String

module _ {F : Type 0} (E : Environment F) where
  unfoldable pub required_env : String → Result String
  required_env name =
      let value = E.strip (elim (E.environ name) [ none ↦ "" | some v ↦ v ]) in
      if str_eq value "" || E.contains "replace-with-" value
      then err (configuration_error (name <> " must be configured"))
      else ok value

  unfoldable pub float_env : String → F → Result F
  float_env name default = elim (E.environ name) [
    | none ↦ ok default
    | some v ↦ elim (E.read_float v) [
      | none ↦ err (configuration_error (name <> " must be a number"))
      | some x ↦ ok x
    ]
  ]

  unfoldable pub int_env : String → ℤ → Result ℤ
  int_env name default = elim (E.environ name) [
    | none ↦ ok default
    | some v ↦ elim (E.read_int v) [
      | none ↦ err (configuration_error (name <> " must be an integer"))
      | some x ↦ ok x
    ]
  ]

  abbrev is_one_of : String → List String → Bool
  is_one_of s [] = false
  is_one_of s (x ∷ xs) = str_eq s x || is_one_of s xs

  abbrev pub yes_words : List String
  yes_words = "1" ∷ "true" ∷ "yes" ∷ "on" ∷ []

  abbrev pub no_words : List String
  no_words = "0" ∷ "false" ∷ "no" ∷ "off" ∷ []

  unfoldable pub bool_env : String → Bool → Result Bool
  bool_env name default = elim (E.environ name) [
    | none ↦ ok default
    | some raw_value ↦
        let normalized = E.lower (E.strip raw_value) in
        if is_one_of normalized yes_words
        then ok true
        else if is_one_of normalized no_words
        then ok false
        else err (configuration_error (name <> " must be true or false"))
  ]

  unfoldable pub validate_range : Floats F → String → F → F → F → Result F
  validate_range N name value minimum maximum =
      if not (N.isfinite value) || N.lt value minimum || N.lt maximum value
      then err (
          configuration_error (
            name <> " must be between " <> E.show_float minimum <> " and " <> E.show_float maximum))
      else ok value

-- `value <= 0`
abbrev pub is_positive : ℤ → Bool
is_positive (pos zero) = false
is_positive (pos (suc _)) = true
is_positive (negsuc _) = false

unfoldable pub validate_positive : String → ℤ → Result ℤ
validate_positive name value =
    if not (is_positive value)
    then err (configuration_error (name <> " must be greater than zero"))
    else ok value
