-- ===== src/Server/Input.antt =====
-- server/input.py: the constraints on declared operator inputs.
pub mod Inline
pub mod Constraints
use Prim.Native.String.{count}
use lumencast_py.Prelude.{
  ℕ, String, Bool, true, false, Option, none, some, List, [], ◌∷◌, str_eq, any_of, if◌then◌else◌,
  ltb, not,
}
use lumencast_py.Prelude.Dict.{get}
use lumencast_py.Json.{
  Result, ok, raise, overflow_error, ◌>>=◌, ℤ, pos, negsuc, Float, Json, null, bool, int, real,
  text, arr, obj, Items, nil, cons, Fields, to_dict, to_list,
}
use lumencast_py.Json.Builtins.{Builtins, or_raise}

pub record InputSpec : Type 0 where
  pub path : String
  pub type : String
  pub max_length : Option ℤ
  pub min_value : Option Float
  pub max_value : Option Float
  pub values : List String

-- The message that `check_constraint` returns, by its kind.
pub data Violation : Type 0 where
  expected_string too_long expected_number below_min above_max : Violation
  expected_boolean expected_enum not_in_domain : Violation

-- n < m for a length and a bound
abbrev pub longer_than : ℕ → ℤ → Bool
longer_than n (pos m) = ltb m n
longer_than n (negsuc m) = true

unfoldable pub check_string : Option ℤ → Json → Option Violation
check_string none (text s) = none
check_string (some m) (text s) = if longer_than (count s) m then some too_long else none
check_string max_length v = some expected_string

unfoldable pub check_boolean : Json → Option Violation
check_boolean (bool b) = none
check_boolean v = some expected_boolean

unfoldable pub check_enum : List String → Json → Option Violation
check_enum values (text s) = if any_of (str_eq s) values then none else some not_in_domain
check_enum values v = some expected_enum

module _ (py : Builtins) where
  abbrev pub below : Float → Option Float → Bool
  below n none = false
  below n (some m) = py.float_lt n m

  abbrev pub above : Float → Option Float → Bool
  above n none = false
  above n (some m) = py.float_lt m n

  unfoldable pub check_range : Option Float → Option Float → Float → Option Violation
  check_range min_value max_value n =
      if below n min_value
      then some below_min
      else if above n max_value
      then some above_max
      else none

  -- `float(value)` overflows at an integer that is out of range
  unfoldable pub check_number : Option Float → Option Float → Json → Result (Option Violation)
  unfolding check_range
  check_number lo hi (int n) = do
    x ← or_raise (py.float_of_int n) (raise overflow_error)
    ok (check_range lo hi x)
  check_number lo hi (real x) = ok (check_range lo hi x)
  check_number lo hi v = ok (some expected_number)

  -- `ok none` is a value that passes
  unfoldable pub check_constraint : InputSpec → Json → Result (Option Violation)
  unfolding check_string check_number check_boolean check_enum
  check_constraint spec value =
      if str_eq spec.type ""
      then ok none
      else if str_eq spec.type "string"
      then ok (check_string spec.max_length value)
      else if str_eq spec.type "number"
      then check_number spec.min_value spec.max_value value
      else if str_eq spec.type "boolean"
      then ok (check_boolean value)
      else if str_eq spec.type "enum"
      then ok (check_enum spec.values value)
      else ok none
