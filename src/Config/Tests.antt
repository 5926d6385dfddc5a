-- ===== src/Config/Tests.antt =====
-- services/api/aries_api/config.py with the required settings and no other; numbers are natural.
use aries_space.Base.{ℕ, Bool, true, false, ◌≡◌, refl, none, some, str_eq, if◌then◌else◌}
use aries_space.Exec.{Result, ok, err}
use aries_space.Floats.{naturals}
use aries_space.Config
use aries_space.Config.{Environment}
use aries_space.Config.Economics.{load}
use aries_space.Config.Readers.{Outcome}
use aries_space.Config.Valid.{IsValid, load-IsValid}

abbrev environment : Environment ℕ
environment = record {
  environ = λ name.
      if str_eq name "DATABASE_URL"
      then some "postgresql+psycopg://aries@localhost/aries"
      else if str_eq name "MINIO_ACCESS_KEY"
      then some "key"
      else if str_eq name "MINIO_SECRET_KEY"
      then some "secret"
      else if str_eq name "API_BEARER_TOKEN"
      then some "token"
      else none;
  strip = λ s. s;
  lower = λ s. s;
  startswith = λ s p. true;
  read_time = λ s. some (1781847180, true);
  contains = λ s t. false;
  read_int = λ s. none;
  read_float = λ s. none;
  show_float = λ x. "";
}

abbrev is_loaded : {A : Type 0} → Result A → Bool
is_loaded (ok _) = true
is_loaded (err _) = false

load-IsValid_example : Outcome (IsValid environment naturals) (load environment naturals)
load-IsValid_example = load-IsValid environment naturals

-- The defaults load.
defaults_load : is_loaded (load environment naturals) ≡ true
unfolding load Config.int_env Config.float_env Config.validate_range Config.validate_positive
    Config.bool_env Config.required_env
defaults_load = refl
