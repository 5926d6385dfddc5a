-- ===== src/Json.antt =====
-- JSON values as Python's `json` reads them, and what services/api/aries_api does with a dict of
-- them: `raw.get(k)`, `raw[k]`, `a or b`, `int(v)`.
use Prim.Native.Nat.{◌^◌}
use aries_space.Base.{
  ℕ, zero, suc, ◌/◌, Bool, true, false, not, String, Option, none, some, List, [], ◌∷◌, str_eq,
  if◌then◌else◌, ◌==◌,
}
use aries_space.Base.Int.{ℤ, pos, negsuc}
use aries_space.Exn.{key_error, value_error, type_error, overflow_error}
use aries_space.Exec.{Result, ok, err}

-- `float z e` is z / 10^e. `json` also reads `Infinity`, `-Infinity` (as it does numbers that are too
-- large) and `NaN`; the flag of `infinite` is the sign.
mutual
  pub data Json : Type 0 where
    null : Json
    bool : Bool → Json
    int : ℤ → Json
    float : ℤ → ℕ → Json
    infinite : Bool → Json
    nan : Json
    text : String → Json
    arr : Items → Json
    obj : Fields → Json

  pub data Items : Type 0 where
    nil : Items
    cons : Json → Items → Items

  pub data Fields : Type 0 where
    end : Fields
    field : String → Json → Fields → Fields

-- A dict and a list as literals.
abbrev fields : List (String × Json) → Fields
fields [] = end
fields ((k, v) ∷ rest) = field k v (fields rest)

abbrev pub dict : List (String × Json) → Json
dict entries = obj (fields entries)

abbrev pub items : List Json → Items
items [] = nil
items (v ∷ rest) = cons v (items rest)

abbrev pub find : String → Fields → Option Json
find k end = none
find k (field j v fs) = if str_eq j k then some v else find k fs

-- `raw.get(k)`, with `None` for a missing key
abbrev pub get : String → Fields → Json
get k fs = elim (find k fs) [ none ↦ null | some v ↦ v ]

-- `raw[k]`
abbrev pub get_item : String → Fields → Result Json
get_item k fs = elim (find k fs) [ none ↦ err key_error | some v ↦ ok v ]

abbrev pub truthy : Json → Bool
truthy null = false
truthy (bool b) = b
truthy (int (pos n)) = not (n == 0)
truthy (int (negsuc _)) = true
truthy (float (pos n) _) = not (n == 0)
truthy (float (negsuc _) _) = true
truthy (infinite _) = true
truthy nan = true
truthy (text s) = not (str_eq s "")
truthy (arr nil) = false
truthy (arr (cons _ _)) = true
truthy (obj end) = false
truthy (obj (field _ _ _)) = true

-- `a or b`
abbrev pub py_or : Json → Json → Json
py_or a b = if truthy a then a else b

-- the integer part, towards zero
abbrev truncate : ℤ → ℕ → ℤ
truncate (pos n) e = pos (n / 10 ^ e)
truncate (negsuc n) e = elim (suc n / 10 ^ e) [ zero ↦ pos 0 | suc m ↦ negsuc m ]

-- `int(v)`; the reading of a text is the caller's
unfoldable pub to_int : (String → Option ℤ) → Json → Result ℤ
to_int read (int n) = ok n
to_int read (bool true) = ok (pos 1)
to_int read (bool false) = ok (pos 0)
to_int read (float z e) = ok (truncate z e)
to_int read (infinite _) = err overflow_error
to_int read nan = err value_error
to_int read (text s) = elim (read s) [ none ↦ err value_error | some n ↦ ok n ]
to_int read _ = err type_error
