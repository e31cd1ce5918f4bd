-- ===== src/Conformance/Match/Extends.antt =====
-- conformance/match.py: a frame matches every frame that has its fields, and more.
use lumencast_py.Prelude.{
  ℕ, ◌+◌, String, Bool, true, false, Option, none, some, List, [], ◌∷◌, ◌++◌, ◌==◌, ◌≡◌, ◌≢◌, refl,
  str_eq, arith, eq_iff, Bool-cases, inl, inr,
}
use lumencast_py.Prelude.Dict.{Dict, get, has}
use lumencast_py.Json.{
  ℤ, Float, Json, null, bool, int, real, text, arr, obj, Items, nil, cons, Fields, end, field,
  to_dict, ok,
}
use lumencast_py.Json.Builtins.{Builtins}
use lumencast_py.Conformance.Match.{
  HashPattern, Place, key, index, and_then, is_nan, sentinel_any_hash, sentinel_any, number_of,
  float_eq, equal_scalar, match_value, match_fields, match_items, match_frame, match_text,
  count_items,
}

module _ (py : Builtins) where
  -- A number that `float` takes and that equals itself.
  abbrev pub IsFinite : Option Float → Type 0
  IsFinite none = ⊥
  IsFinite (some x) = is_nan x ≡ false

  -- JSON values without the sentinel for hashes, without NaN, and with no key written twice.
  unfoldable mutual
    pub Plain : Json → Type 0
    Plain (int n) = IsFinite (py.float_of_int n)
    Plain (real x) = is_nan x ≡ false
    Plain (text s) = s ≢ sentinel_any_hash
    Plain (arr xs) = PlainItems xs
    Plain (obj fs) = PlainFields fs
    Plain v = Unit

    pub PlainItems : Items → Type 0
    PlainItems nil = Unit
    PlainItems (cons x xs) = Plain x × PlainItems xs

    pub PlainFields : Fields → Type 0
    PlainFields end = Unit
    PlainFields (field k v fs) = (has k (to_dict fs) ≡ false) × (Plain v × PlainFields fs)

  -- the dict has every field
  unfoldable pub Has : Dict Json → Fields → Type 0
  Has d end = Unit
  Has d (field k v fs) = (get k d ≡ some v) × Has d fs

  Has-cons :
      (k : String) (v : Json) (d : Dict Json) (fs : Fields)
      → has k (to_dict fs) ≡ false
      → Has d fs
      → Has ((k, v) ∷ d) fs
  unfolding Has get has to_dict
  Has-cons k v d end new h = tt
  Has-cons k v d (field j w fs) new (here, rest) =
      (ground (arith, eq_iff k j, eq_iff j k), Has-cons k v d fs (ground arith) rest)

  Has-to_dict : (fs : Fields) → PlainFields fs → Has (to_dict fs) fs
  unfolding Has to_dict get Plain
  Has-to_dict end p = tt
  Has-to_dict (field k v fs) (new, (p, ps)) =
      (ground (arith, eq_iff k k), Has-cons k v (to_dict fs) fs new (Has-to_dict fs ps))

float_eq_self : (py : Builtins) (x : Float) → is_nan x ≡ false → float_eq py x x ≡ true
unfolding float_eq
float_eq_self py x h = ground (arith, h)

number_self :
    (py : Builtins) (n : ℤ) (o : Option Float)
    → py.float_of_int n ≡ o
    → IsFinite py o
    → equal_scalar py (int n) (int n) ≡ ok true
unfolding equal_scalar number_of
number_self py n none h f = absurd f
number_self py n (some x) h f = rw h (rw (float_eq_self py x f) refl)

real_self :
    (py : Builtins) (x : Float) → is_nan x ≡ false → equal_scalar py (real x) (real x) ≡ ok true
unfolding equal_scalar number_of
real_self py x h = rw (float_eq_self py x h) refl

bool_self : (py : Builtins) (b : Bool) → equal_scalar py (bool b) (bool b) ≡ ok true
unfolding equal_scalar
bool_self py true = refl
bool_self py false = refl

null_self : (py : Builtins) → equal_scalar py null null ≡ ok true
unfolding equal_scalar number_of
null_self py = refl

text_self : (py : Builtins) (s : String) → equal_scalar py (text s) (text s) ≡ ok true
unfolding equal_scalar number_of
text_self py s = rw (str_eq_self s) refl
  where
    str_eq_self : (s : String) → str_eq s s ≡ true
    str_eq_self s = ground (arith, eq_iff s s)

match_text_self :
    (py : Builtins) (re : HashPattern) (s : String) (path : List Place)
    → s ≢ sentinel_any_hash
    → match_text py re s (text s) path ≡ ok none
match_text_self py re s path ne = elim (Bool-cases (str_eq s sentinel_any)) [
  | inl wild ↦ rw wild refl
  | inr plain ↦ rw plain (rw (other_text s ne) (rw (text_self py s) refl))
]
  where
    other_text : (s : String) → s ≢ sentinel_any_hash → str_eq s sentinel_any_hash ≡ false
    other_text s ne = ground (arith, eq_iff s sentinel_any_hash)

same_count : (xs : Items) → (count_items xs == count_items xs) ≡ true
same_count xs = ground arith

module _ (py : Builtins) (re : HashPattern) where
  match_fields_cons :
      (k : String) (v a : Json) (fs : Fields) (d : Dict Json) (path : List Place)
      → get k d ≡ some a
      → match_fields py re (field k v fs) d path
        ≡ and_then (match_value py re v a (path ++ key k ∷ [])) (match_fields py re fs d path)
  unfolding match_value
  match_fields_cons k v a fs d path h = rw (h, match_fields) refl

  mutual
    unfolding match_value Plain Has

    match_value_self :
        (v : Json) (path : List Place) → Plain py v → match_value py re v v path ≡ ok none
    match_value_self null path p = rw (null_self py) refl
    match_value_self (bool b) path p = rw (bool_self py b) refl
    match_value_self (int n) path p = rw (number_self py n _ refl p) refl
    match_value_self (real x) path p = rw (real_self py x p) refl
    match_value_self (text s) path p = match_text_self py re s path p
    match_value_self (arr xs) path p = rw (same_count xs) (match_items_self xs path 0 p)
    match_value_self (obj fs) path p = match_fields-Has fs (to_dict fs) path p (Has-to_dict py fs p)

    match_fields-Has :
        (fs : Fields) (d : Dict Json) (path : List Place)
        → PlainFields py fs
        → Has py d fs
        → match_fields py re fs d path ≡ ok none
    match_fields-Has end d path p h = refl
    match_fields-Has (field k v fs) d path (new, (p, ps)) (here, rest) =
        rw (match_fields_cons k v v fs d path here)
          (rw (match_value_self v (path ++ key k ∷ []) p) (match_fields-Has fs d path ps rest))

    match_items_self :
        (xs : Items) (path : List Place) (i : ℕ)
        → PlainItems py xs
        → match_items py re xs xs path i ≡ ok none
    match_items_self nil path i p = refl
    match_items_self (cons x xs) path i (p, ps) =
        rw (match_value_self x (path ++ index i ∷ []) p) (match_items_self xs path (i + 1) ps)

  -- A frame without the sentinel for hashes, without NaN, without an integer beyond the range of a
  -- float and with no key written twice matches every frame that has its fields at their values,
  -- whatever other fields that one has.
  pub match_frame-Has :
      (expected actual : Fields)
      → PlainFields py expected
      → Has py (to_dict actual) expected
      → match_frame py re expected actual ≡ ok none
  unfolding match_frame
  match_frame-Has expected actual p h = match_fields-Has expected (to_dict actual) [] p h
