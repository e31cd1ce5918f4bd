-- ===== src/Server/Input/Inline.antt =====
-- server/input.py: `parse_inline_specs`, the specs of an LSML bundle.
use lumencast_py.Prelude.{String, Option, none, some, List, [], ◌∷◌, map, str_eq, if◌then◌else◌}
use lumencast_py.Prelude.Dict.{Dict, get}
use lumencast_py.Json.{
  ℤ, Float, Json, int, real, text, arr, obj, to_dict, to_list, Result, ok, raise, value_error,
  overflow_error, ◌>>=◌,
}
use lumencast_py.Json.Builtins.{Builtins, or_raise, default, to_text}
use lumencast_py.Server.Input.{InputSpec}

module _ (py : Builtins) where
  -- constraints.get("maxLength"), where it is a number
  unfoldable pub read_length : Option Json → Result (Option ℤ)
  read_length (some (int n)) = ok (some n)
  read_length (some (real x)) = do n ← or_raise (py.int_of_float x) (raise value_error); ok (some n)
  read_length _ = ok none

  -- constraints.get("min") and .get("max"), where they are numbers
  unfoldable pub read_bound : Option Json → Result (Option Float)
  read_bound (some (int n)) = do
    x ← or_raise (py.float_of_int n) (raise overflow_error)
    ok (some x)
  read_bound (some (real x)) = ok (some x)
  read_bound _ = ok none

  -- [str(v) for v in vals], where `vals` is a list
  unfoldable pub read_values : Option Json → List String
  read_values (some (arr xs)) = map (to_text py) (to_list xs)
  read_values _ = []

  -- an empty list of values gives way to the one beside `constraints`
  abbrev or_values : List String → List String → List String
  or_values [] top = top
  or_values (v ∷ vs) top = v ∷ vs

  read_constraints : Dict Json → InputSpec → Result InputSpec
  unfolding read_length read_bound read_values
  read_constraints c spec = do
    max_length ← read_length (get "maxLength" c)
    min_value ← read_bound (get "min" c)
    max_value ← read_bound (get "max" c)
    ok (record spec {
      max_length = max_length;
      min_value = min_value;
      max_value = max_value;
      values = read_values (get "values" c);
    })

  unfoldable pub constrained : Option Json → InputSpec → Result InputSpec
  unfolding read_constraints
  constrained (some (obj c)) spec = read_constraints (to_dict c) spec
  constrained _ spec = ok spec

  unfoldable pub read_spec : Dict Json → Result InputSpec
  unfolding constrained read_values to_text
  read_spec item = do
    spec ← constrained (get "constraints" item) (record {
      path = to_text py (default (get "path" item) (text ""));
      type = to_text py (default (get "type" item) (text ""));
      max_length = none;
      min_value = none;
      max_value = none;
      values = [];
    })
    ok (record spec { values = or_values spec.values (read_values (get "values" item)) })

  -- The loop. An item that is no object, or has no path, is passed over.
  unfoldable pub read_specs : List Json → Result (List InputSpec)
  unfolding read_spec
  read_specs [] = ok []
  read_specs (obj item ∷ items) =
      let rest = read_specs items in
      if str_eq (to_text py (default (get "path" (to_dict item)) (text ""))) ""
      then rest
      else (do spec ← read_spec (to_dict item); specs ← rest; ok (spec ∷ specs))
  read_specs (_ ∷ items) = read_specs items

  unfoldable pub parse_inline_specs : Json → Result (List InputSpec)
  unfolding read_specs
  parse_inline_specs (arr items) = read_specs (to_list items)
  parse_inline_specs _ = ok []
