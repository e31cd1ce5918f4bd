-- ===== src/Json.antt =====
-- JSON values as `json.loads` returns them, and the builtins that the code applies to them
-- (protocol/envelope.py, protocol/codec.py).
pub mod Builtins
pub mod Integers
use lumencast_py.Prelude.{
  ℕ, String, Bool, true, false, Option, none, some, List, [], ◌∷◌, ◌≡◌, refl, ap, not, str_eq,
}
use lumencast_py.Prelude.Dict.{Dict}

-- `negsuc n` is -(n + 1).
pub data ℤ : Type 0 where
  pos : ℕ → ℤ
  negsuc : ℕ → ℤ

-- A float64 by its bit pattern. The code only moves, compares and converts floats.
pub record Float : Type 0 where
  pub bits : ℕ

mutual
  pub data Json : Type 0 where
    null : Json
    bool : Bool → Json
    int : ℤ → Json
    real : Float → Json
    text : String → Json
    arr : Items → Json
    obj : Fields → Json

  pub data Items : Type 0 where
    nil : Items
    cons : Json → Items → Items

  pub data Fields : Type 0 where
    end : Fields
    field : String → Json → Fields → Fields

unfoldable pub to_list : Items → List Json
to_list nil = []
to_list (cons x xs) = x ∷ to_list xs

unfoldable pub of_list : List Json → Items
of_list [] = nil
of_list (x ∷ xs) = cons x (of_list xs)

unfoldable pub to_dict : Fields → Dict Json
to_dict end = []
to_dict (field k v fs) = (k, v) ∷ to_dict fs

unfoldable pub of_dict : Dict Json → Fields
of_dict [] = end
of_dict ((k, v) ∷ d) = field k v (of_dict d)

pub to_list-of_list : (xs : List Json) → to_list (of_list xs) ≡ xs
unfolding to_list of_list
to_list-of_list [] = refl
to_list-of_list (x ∷ xs) = ap (◌∷◌ x) (to_list-of_list xs)

pub to_dict-of_dict : (d : Dict Json) → to_dict (of_dict d) ≡ d
unfolding to_dict of_dict
to_dict-of_dict [] = refl
to_dict-of_dict ((k, v) ∷ d) = ap (◌∷◌ (k, v)) (to_dict-of_dict d)

-- The exceptions that the modelled code raises or lets through.
pub data Exception : Type 0 where
  decode_error version_mismatch unknown_type value_error type_error overflow_error key_error
        attribute_error runtime_error :
      Exception

pub data Result {ℓ} (A : Type ℓ) : Type ℓ where
  ok : A → Result A
  raise : Exception → Result A

infixl 5 ◌>>=◌
abbrev pub ◌>>=◌ {ℓ κ} : {A : Type ℓ} {B : Type κ} → Result A → (A → Result B) → Result B
ok a >>= f = f a
raise e >>= f = raise e

-- A chain that went through went through at each of its links.
pub bind-ok {ℓ κ} :
    {A : Type ℓ} {B : Type κ} (r : Result A) (f : A → Result B) (b : B)
    → (r >>= f) ≡ ok b
    → (a : A) × ((r ≡ ok a) × (f a ≡ ok b))
bind-ok (ok a) f b h = (a, (refl, h))
bind-ok (raise e) f b h = cc
