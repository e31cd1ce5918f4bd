-- ===== src/Json/Builtins.antt =====
-- The builtins that the code applies to JSON values: `bool`, `int`, `float`, `str`, `dict`.
use lumencast_py.Prelude.{
  ℕ, String, Bool, true, false, Option, none, some, [], not, str_eq, if◌then◌else◌,
}
use lumencast_py.Prelude.Dict.{Dict}
use lumencast_py.Json.{
  ℤ, Float, Json, null, bool, int, real, text, arr, obj, Items, Fields, to_dict, Result, ok, raise,
  value_error, type_error, overflow_error,
}

-- The conversions that are more than a case split. They are the interpreter's: the code calls them.
pub record Builtins : Type 0 where
  pub int_of_float : Float → Option ℤ
  pub int_of_text : String → Option ℤ
  pub float_of_int : ℤ → Option Float
  pub float_of_text : String → Option Float
  pub float_lt : Float → Float → Bool
  pub is_zero : Float → Bool
  pub show : Json → String
  pub dict_of_pairs : Items → Result (Dict Json)

abbrev pub or_raise {ℓ} : {A : Type ℓ} → Option A → Result A → Result A
or_raise none e = e
or_raise (some a) e = ok a

-- d.get(k, default)
abbrev pub default : Option Json → Json → Json
default none d = d
default (some v) d = v

module _ (py : Builtins) where
  -- bool(v)
  unfoldable pub truthy : Json → Bool
  truthy null = false
  truthy (bool b) = b
  truthy (int (ℤ.pos ℕ.zero)) = false
  truthy (int n) = true
  truthy (real x) = not (py.is_zero x)
  truthy (text s) = not (str_eq s "")
  truthy (arr Items.nil) = false
  truthy (arr xs) = true
  truthy (obj Fields.end) = false
  truthy (obj fs) = true

  -- v or d
  abbrev pub or_else : Json → Json → Json
  or_else v d = if truthy v then v else d

  -- int(v)
  unfoldable pub to_int : Json → Result ℤ
  to_int null = raise type_error
  to_int (bool true) = ok (ℤ.pos 1)
  to_int (bool false) = ok (ℤ.pos 0)
  to_int (int n) = ok n
  to_int (real x) = or_raise (py.int_of_float x) (raise value_error)
  to_int (text s) = or_raise (py.int_of_text s) (raise value_error)
  to_int (arr xs) = raise type_error
  to_int (obj fs) = raise type_error

  -- float(v)
  unfoldable pub to_float : Json → Result Float
  to_float null = raise type_error
  to_float (bool true) = or_raise (py.float_of_int (ℤ.pos 1)) (raise overflow_error)
  to_float (bool false) = or_raise (py.float_of_int (ℤ.pos 0)) (raise overflow_error)
  to_float (int n) = or_raise (py.float_of_int n) (raise overflow_error)
  to_float (real x) = ok x
  to_float (text s) = or_raise (py.float_of_text s) (raise value_error)
  to_float (arr xs) = raise type_error
  to_float (obj fs) = raise type_error

  -- str(v)
  unfoldable pub to_text : Json → String
  to_text (text s) = s
  to_text v = py.show v

  -- dict(v): a text that is not empty has no pairs in it
  unfoldable pub to_mapping : Json → Result (Dict Json)
  to_mapping (obj fs) = ok (to_dict fs)
  to_mapping (arr xs) = py.dict_of_pairs xs
  to_mapping (text s) = if str_eq s "" then ok [] else raise value_error
  to_mapping v = raise type_error
