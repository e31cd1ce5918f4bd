-- ===== src/Cli/Validate.antt =====
-- cli/validate.py: the structural check of an LSML bundle.
pub mod Run
use lumencast_py.Prelude.{
  ℕ, ◌+◌, String, Bool, true, false, Option, none, some, List, [], ◌∷◌, ◌++◌, any_of, str_eq,
  if◌then◌else◌, ◌≡◌, refl, arith, Bool-cases, inl, inr, All,
}
use lumencast_py.Prelude.Dict
use lumencast_py.Prelude.Dict.{Dict}
use lumencast_py.Json.{Json, null, bool, int, real, text, arr, obj, Fields, to_dict, to_list}

-- An error message, by its kind.
pub data Complaint : Type 0 where
  not_object bad_lsml bad_layout bad_kind inputs_not_array : Complaint
  missing_field : String → Complaint
  input_not_object : ℕ → Complaint
  input_missing : ℕ → String → Complaint

abbrev pub primitives : List String
primitives = "stack" ∷ "grid" ∷ "frame" ∷ "text" ∷ "image" ∷ "shape" ∷ "media" ∷ "repeat" ∷ []

abbrev pub required_fields : List String
required_fields = "scene_id" ∷ "scene_version" ∷ "layout" ∷ []

abbrev pub input_fields : List String
input_fields = "path" ∷ "label" ∷ "type" ∷ "writable_by" ∷ []

-- v in {...}, for a set of texts
abbrev pub is_one_of : List String → Option Json → Bool
is_one_of names (some (text s)) = any_of (str_eq s) names
is_one_of names v = false

unfoldable pub missing : (String → Complaint) → List String → Dict Json → List Complaint
missing say [] d = []
missing say (name ∷ names) d =
    let rest = missing say names d in if Dict.has name d then rest else say name ∷ rest

unfoldable pub check_lsml : Option Json → List Complaint
check_lsml v = if is_one_of ("1.0" ∷ "1" ∷ []) v then [] else bad_lsml ∷ []

unfoldable pub check_layout : Option Json → List Complaint
check_layout none = []
check_layout (some null) = []
check_layout (some (obj layout)) =
    if is_one_of primitives (Dict.get "kind" (to_dict layout)) then [] else bad_kind ∷ []
check_layout (some v) = bad_layout ∷ []

unfoldable pub check_inputs : ℕ → List Json → List Complaint
unfolding missing
check_inputs i [] = []
check_inputs i (obj item ∷ items) =
    missing (input_missing i) input_fields (to_dict item) ++ check_inputs (i + 1) items
check_inputs i (item ∷ items) = input_not_object i ∷ check_inputs (i + 1) items

unfoldable pub check_operator_inputs : Option Json → List Complaint
unfolding check_inputs
check_operator_inputs none = []
check_operator_inputs (some null) = []
check_operator_inputs (some (arr items)) = check_inputs 0 (to_list items)
check_operator_inputs (some v) = inputs_not_array ∷ []

-- `_validate`
unfoldable pub validate : Json → List Complaint
validate (obj fs) =
    let bundle = to_dict fs in
    check_lsml (Dict.get "lsml" bundle)
    ++ missing missing_field required_fields bundle
    ++ check_layout (Dict.get "layout" bundle)
    ++ check_operator_inputs (Dict.get "operator_inputs" bundle)
validate bundle = not_object ∷ []

-- every name is a key
abbrev pub HasAll : List String → Dict Json → Type 0
HasAll names d = All (λ name. Dict.has name d ≡ true) names

abbrev pub IsInput : Json → Type 0
IsInput (obj item) = HasAll input_fields (to_dict item)
IsInput v = ⊥

-- The layout, which may also be null.
abbrev pub IsLayout : Option Json → Type 0
IsLayout none = Unit
IsLayout (some null) = Unit
IsLayout (some (obj layout)) = is_one_of primitives (Dict.get "kind" (to_dict layout)) ≡ true
IsLayout (some v) = ⊥

abbrev pub AreInputs : Option Json → Type 0
AreInputs none = Unit
AreInputs (some null) = Unit
AreInputs (some (arr items)) = All IsInput (to_list items)
AreInputs (some v) = ⊥

-- What the check promises of a bundle.
pub record Valid (bundle : Json) : Type 0 where
  pub fields : Fields
  pub object : bundle ≡ obj fields
  pub lsml : is_one_of ("1.0" ∷ "1" ∷ []) (Dict.get "lsml" (to_dict fields)) ≡ true
  pub present : HasAll required_fields (to_dict fields)
  pub layout : IsLayout (Dict.get "layout" (to_dict fields))
  pub inputs : AreInputs (Dict.get "operator_inputs" (to_dict fields))

append_empty {ℓ} : {A : Type ℓ} (xs ys : List A) → xs ++ ys ≡ [] → (xs ≡ []) × (ys ≡ [])
append_empty [] ys h = (refl, h)
append_empty (x ∷ xs) ys h = cc

no_complaint {ℓ κ} : {A : Type ℓ} {B : Type κ} (x : A) (xs : List A) → x ∷ xs ≡ [] → B
no_complaint x xs h = cc

missing-HasAll :
    (say : String → Complaint) (names : List String) (d : Dict Json)
    → missing say names d ≡ []
    → HasAll names d
unfolding missing
missing-HasAll say [] d h = tt
missing-HasAll say (name ∷ names) d h = elim (Bool-cases (Dict.has name d)) [
  | inl there ↦ (there, missing-HasAll say names d (rw there at h))
  | inr gone ↦ no_complaint (say name) (missing say names d) (rw gone at h)
]

check_lsml_lem : (v : Option Json) → check_lsml v ≡ [] → is_one_of ("1.0" ∷ "1" ∷ []) v ≡ true
unfolding check_lsml
check_lsml_lem v h = ground (arith, h)

check_layout-IsLayout : (v : Option Json) → check_layout v ≡ [] → IsLayout v
unfolding check_layout
check_layout-IsLayout none h = tt
check_layout-IsLayout (some null) h = tt
check_layout-IsLayout (some (obj layout)) h = ground (arith, h)
check_layout-IsLayout (some (bool b)) h = cc
check_layout-IsLayout (some (int n)) h = cc
check_layout-IsLayout (some (real x)) h = cc
check_layout-IsLayout (some (text s)) h = cc
check_layout-IsLayout (some (arr xs)) h = cc

check_inputs-All : (i : ℕ) (items : List Json) → check_inputs i items ≡ [] → All IsInput items
unfolding check_inputs
check_inputs-All i [] h = tt
check_inputs-All i (obj item ∷ items) h =
    let (here, rest) =
      append_empty (missing (input_missing i) input_fields (to_dict item))
        (check_inputs (i + 1) items) h in
    (
      missing-HasAll (input_missing i) input_fields (to_dict item) here,
      check_inputs-All (i + 1) items rest,
    )
check_inputs-All i (null ∷ items) h = cc
check_inputs-All i (bool b ∷ items) h = cc
check_inputs-All i (int n ∷ items) h = cc
check_inputs-All i (real x ∷ items) h = cc
check_inputs-All i (text s ∷ items) h = cc
check_inputs-All i (arr xs ∷ items) h = cc

check_operator_inputs-AreInputs : (v : Option Json) → check_operator_inputs v ≡ [] → AreInputs v
unfolding check_operator_inputs
check_operator_inputs-AreInputs none h = tt
check_operator_inputs-AreInputs (some null) h = tt
check_operator_inputs-AreInputs (some (arr items)) h = check_inputs-All 0 (to_list items) h
check_operator_inputs-AreInputs (some (bool b)) h = cc
check_operator_inputs-AreInputs (some (int n)) h = cc
check_operator_inputs-AreInputs (some (real x)) h = cc
check_operator_inputs-AreInputs (some (text s)) h = cc
check_operator_inputs-AreInputs (some (obj fs)) h = cc

-- A bundle without complaints is as Valid says.
pub validate-Valid : (bundle : Json) → validate bundle ≡ [] → Valid bundle
unfolding validate
validate-Valid (obj fs) h =
    let d = to_dict fs in
    let lsml_of = check_lsml (Dict.get "lsml" d) in
    let present_of = missing missing_field required_fields d in
    let layout_of = check_layout (Dict.get "layout" d) in
    let inputs_of = check_operator_inputs (Dict.get "operator_inputs" d) in
    let (front, inputs) = append_empty ((lsml_of ++ present_of) ++ layout_of) inputs_of h in
    let (first, layout) = append_empty (lsml_of ++ present_of) layout_of front in
    let (lsml, present) = append_empty lsml_of present_of first in
    record {
      fields = fs;
      object = refl;
      lsml = check_lsml_lem (Dict.get "lsml" d) lsml;
      present = missing-HasAll missing_field required_fields d present;
      layout = check_layout-IsLayout (Dict.get "layout" d) layout;
      inputs = check_operator_inputs-AreInputs (Dict.get "operator_inputs" d) inputs;
    }
validate-Valid null h = cc
validate-Valid (bool b) h = cc
validate-Valid (int n) h = cc
validate-Valid (real x) h = cc
validate-Valid (text s) h = cc
validate-Valid (arr xs) h = cc
