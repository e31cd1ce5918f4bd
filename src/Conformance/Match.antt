-- ===== src/Conformance/Match.antt =====
-- conformance/match.py: the frame matcher.
pub mod Extends
use Prim.Native.Nat.{◌%◌}
use lumencast_py.Prelude.{
  ℕ, ◌+◌, String, Bool, true, false, not, ◌&&◌, ◌||◌, Option, none, some, List, [], ◌∷◌, ◌++◌, ltb,
  ◌==◌, str_eq, if◌then◌else◌,
}
use lumencast_py.Prelude.Dict.{Dict, get}
use lumencast_py.Json.{
  ℤ, pos, negsuc, Float, Json, null, bool, int, real, text, arr, obj, Items, nil, cons, Fields, end,
  field, to_dict, Result, ok, raise, overflow_error, ◌>>=◌,
}
use lumencast_py.Json.Builtins.{Builtins, or_raise}

-- `_SHA256_RE.match(s)` is not None
pub record HashPattern : Type 0 where
  pub matches : String → Bool

-- The message of an AssertionError, by its kind, beside the path of the value.
pub data Mismatch : Type 0 where
  missing not_sha256 not_mapping not_list other_length other_scalar : Mismatch

pub data Place : Type 0 where
  key : String → Place
  index : ℕ → Place

-- `ok none` is a return; an overflow of `float` is let through
abbrev pub Matched : Type 0
Matched = Result (Option (Mismatch × List Place))

abbrev pub mismatch : Mismatch → List Place → Matched
mismatch m path = ok (some (m, path))

abbrev pub and_then : Matched → Matched → Matched
and_then (ok none) rest = rest
and_then (ok (some m)) rest = ok (some m)
and_then (raise e) rest = raise e

abbrev pub nan_above : ℕ
nan_above = 9218868437227405312

-- x != x
abbrev pub is_nan : Float → Bool
is_nan x = ltb nan_above (x.bits % 9223372036854775808)

abbrev pub same_bool : Bool → Bool → Bool
same_bool true b = b
same_bool false b = not b

abbrev pub sentinel_any : String
sentinel_any = "$ANY"

abbrev pub sentinel_any_hash : String
sentinel_any_hash = "$ANY_HASH"

module _ (py : Builtins) where
  -- `_to_float`: `none` where the flag is false
  unfoldable pub number_of : Json → Result (Option Float)
  number_of (int n) = do x ← or_raise (py.float_of_int n) (raise overflow_error); ok (some x)
  number_of (real x) = ok (some x)
  number_of v = ok none

  -- x == y on floats
  unfoldable pub float_eq : Float → Float → Bool
  float_eq x y = (x.bits == y.bits && not (is_nan x)) || (py.is_zero x && py.is_zero y)

  abbrev pub numbers_eq : Option Float → Option Float → Bool → Bool
  numbers_eq (some x) (some y) other = float_eq x y
  numbers_eq _ _ other = other

  -- want == got, where one of them is no number
  abbrev pub plain_eq : Json → Json → Bool
  plain_eq null null = true
  plain_eq (text s) (text t) = str_eq s t
  plain_eq want got = false

  abbrev pub compare_numbers : Json → Json → Result Bool
  compare_numbers want got = do
    x ← number_of want
    y ← number_of got
    ok (numbers_eq x y (plain_eq want got))

  -- `_equal_scalar`
  unfoldable pub equal_scalar : Json → Json → Result Bool
  equal_scalar (bool b) (bool c) = ok (same_bool b c)
  equal_scalar (bool b) got = ok false
  equal_scalar want (bool c) = ok false
  equal_scalar want got = compare_numbers want got

  abbrev pub scalar_answer : List Place → Result Bool → Matched
  scalar_answer path (ok true) = ok none
  scalar_answer path (ok false) = mismatch other_scalar path
  scalar_answer path (raise e) = raise e

  abbrev pub is_hash : HashPattern → Json → Bool
  is_hash re (text s) = re.matches s
  is_hash re v = false

  abbrev pub match_text : HashPattern → String → Json → List Place → Matched
  match_text re s actual path =
      if str_eq s sentinel_any
      then ok none
      else if str_eq s sentinel_any_hash
      then (if is_hash re actual then ok none else mismatch not_sha256 path)
      else scalar_answer path (equal_scalar (text s) actual)

abbrev pub count_items : Items → ℕ
count_items nil = 0
count_items (cons x xs) = count_items xs + 1

module _ (py : Builtins) (re : HashPattern) where
  unfoldable mutual
    pub match_value : Json → Json → List Place → Matched
    match_value (text s) actual path = match_text py re s actual path
    match_value (obj fs) (obj gs) path = match_fields fs (to_dict gs) path
    match_value (obj fs) actual path = mismatch not_mapping path
    match_value (arr xs) (arr ys) path =
        let rest = match_items xs ys path 0 in
        if count_items ys == count_items xs then rest else mismatch other_length path
    match_value (arr xs) actual path = mismatch not_list path
    match_value want actual path = scalar_answer py path (equal_scalar py want actual)

    pub match_fields : Fields → Dict Json → List Place → Matched
    match_fields end actual path = ok none
    match_fields (field k v fs) actual path = elim (get k actual) [
      | none ↦ mismatch missing (path ++ key k ∷ [])
      | some a ↦ and_then (match_value v a (path ++ key k ∷ [])) (match_fields fs actual path)
    ]

    -- the two lists have the same length
    pub match_items : Items → Items → List Place → ℕ → Matched
    match_items (cons x xs) (cons y ys) path i =
        and_then (match_value x y (path ++ index i ∷ [])) (match_items xs ys path (i + 1))
    match_items _ _ path i = ok none

  -- `ok none` is a frame that matches
  unfoldable pub match_frame : Fields → Fields → Matched
  match_frame expected actual = match_fields expected (to_dict actual) []
