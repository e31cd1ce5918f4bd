-- ===== src/Server/Input/Constraints.antt =====
-- server/input.py: what a value that passes `check_constraint` is.
use Prim.Native.String.{count}
use lumencast_py.Prelude.{
  ℕ, String, Bool, true, false, Option, none, some, List, ◌≡◌, refl, str_eq, any_of, arith, inl,
  inr, ◌⊎◌,
}
use lumencast_py.Json.{
  ok, raise, overflow_error, ◌>>=◌, ℤ, Float, Json, null, bool, int, real, text, arr, obj,
}
use lumencast_py.Json.Builtins.{Builtins, or_raise}
use lumencast_py.Server.Input.{
  InputSpec, Violation, longer_than, check_string, check_boolean, check_enum, below, above,
  check_range, check_number, check_constraint,
}

-- the length is within the bound, if there is one
abbrev pub Fits : Option ℤ → ℕ → Type 0
Fits none n = Unit
Fits (some m) n = longer_than n m ≡ false

-- the number that the bounds are compared with, and that it is within them
abbrev pub InRange : Builtins → InputSpec → Float → Type 0
InRange py spec x = (below py x spec.min_value ≡ false) × (above py x spec.max_value ≡ false)

-- What the four types that the code checks ask of a value. The other types ask nothing.
pub record Conforms (py : Builtins) (spec : InputSpec) (value : Json) : Type 0 where
  pub string :
      spec.type ≡ "string" → (s : String) × ((value ≡ text s) × Fits spec.max_length (count s))
  pub boolean : spec.type ≡ "boolean" → (b : Bool) × (value ≡ bool b)
  pub one_of :
      spec.type ≡ "enum"
      → (s : String) × ((value ≡ text s) × (any_of (str_eq s) spec.values ≡ true))
  pub number :
      spec.type ≡ "number"
      → (x : Float) × ((((value ≡ real x))
            ⊎ ((n : ℤ) × ((value ≡ int n) × (py.float_of_int n ≡ some x))))
          × InRange py spec x)

string_lem :
    (o : Option ℤ) (v : Json)
    → check_string o v ≡ none
    → (s : String) × ((v ≡ text s) × Fits o (count s))
unfolding check_string
string_lem none (text s) h = (s, (refl, tt))
string_lem (some m) (text s) h = (s, (refl, ground arith))
string_lem none null h = cc
string_lem none (bool b) h = cc
string_lem none (int n) h = cc
string_lem none (real x) h = cc
string_lem none (arr xs) h = cc
string_lem none (obj fs) h = cc
string_lem (some m) null h = cc
string_lem (some m) (bool b) h = cc
string_lem (some m) (int n) h = cc
string_lem (some m) (real x) h = cc
string_lem (some m) (arr xs) h = cc
string_lem (some m) (obj fs) h = cc

boolean_lem : (v : Json) → check_boolean v ≡ none → (b : Bool) × (v ≡ bool b)
unfolding check_boolean
boolean_lem (bool b) h = (b, refl)
boolean_lem null h = cc
boolean_lem (int n) h = cc
boolean_lem (real x) h = cc
boolean_lem (text s) h = cc
boolean_lem (arr xs) h = cc
boolean_lem (obj fs) h = cc

enum_lem :
    (values : List String) (v : Json)
    → check_enum values v ≡ none
    → (s : String) × ((v ≡ text s) × (any_of (str_eq s) values ≡ true))
unfolding check_enum
enum_lem values (text s) h = (s, (refl, ground (arith, h)))
enum_lem values null h = cc
enum_lem values (bool b) h = cc
enum_lem values (int n) h = cc
enum_lem values (real x) h = cc
enum_lem values (arr xs) h = cc
enum_lem values (obj fs) h = cc

abbrev passes : Option Violation
passes = none

ok_none : (o : Option Violation) → ok o ≡ ok passes → o ≡ none
ok_none o h = cc

module _ (py : Builtins) where
  range_lem :
      (spec : InputSpec) (x : Float)
      → check_range py spec.min_value spec.max_value x ≡ none
      → InRange py spec x
  unfolding check_range
  range_lem spec x h = (ground arith, ground arith)

  abbrev Number : InputSpec → Json → Type 0
  Number spec v =
      (x : Float) × (((v ≡ real x) ⊎ ((n : ℤ) × ((v ≡ int n) × (py.float_of_int n ≡ some x))))
        × InRange py spec x)

  int_lem :
      (spec : InputSpec) (n : ℤ) (o : Option Float)
      → py.float_of_int n ≡ o
      → (or_raise o (raise overflow_error) >>= λ x.
          ok (check_range py spec.min_value spec.max_value x))
        ≡ ok passes
      → Number spec (int n)
  int_lem spec n none e h = cc
  int_lem spec n (some x) e h = (x, (inr (n, (refl, e)), range_lem spec x (ok_none _ h)))

  number_lem :
      (spec : InputSpec) (v : Json)
      → check_number py spec.min_value spec.max_value v ≡ ok passes
      → Number spec v
  unfolding check_number
  number_lem spec (int n) h = int_lem spec n _ refl h
  number_lem spec (real x) h = (x, (inl refl, range_lem spec x (ok_none _ h)))
  number_lem spec null h = cc
  number_lem spec (bool b) h = cc
  number_lem spec (text s) h = cc
  number_lem spec (arr xs) h = cc
  number_lem spec (obj fs) h = cc

  -- A value that passes the check of an input declared as string, boolean, enum or number has that
  -- type and is within the declared bounds: a text of at most the maximal length, a boolean, a text
  -- of the domain, or a number (an integer that a float can hold, or a float) that is not outside
  -- the range. Nothing is said of the other types, whose values the code does not check.
  pub check_constraint-Conforms :
      (spec : InputSpec) (value : Json)
      → check_constraint py spec value ≡ ok none
      → Conforms py spec value
  unfolding check_constraint
  check_constraint-Conforms spec value h = record {
    string = λ e. string_lem spec.max_length value (ok_none _ (rw e at h));
    boolean = λ e. boolean_lem value (ok_none _ (rw e at h));
    one_of = λ e. enum_lem spec.values value (ok_none _ (rw e at h));
    number = λ e. number_lem spec value (rw e at h);
  }
