-- ===== src/Protocol/Codec/Parts.antt =====
-- protocol/codec.py: what the parsers read in the dicts that the encoder writes for the parts of a frame.
use lumencast_py.Prelude.{
  String, false, Option, none, some, List, [], ◌∷◌, ◌⊎◌, inl, inr, map, ◌≡◌, refl, str_eq, arith,
  eq_iff,
}
use lumencast_py.Prelude.Dict.{Dict, get, put, get-put}
use lumencast_py.Json.{
  ℤ, Float, Json, null, bool, int, real, text, arr, obj, of_dict, ok, ◌>>=◌, to_dict-of_dict,
  to_list-of_list,
}
use lumencast_py.Json.Builtins.{Builtins, to_int, to_float, to_text, default}
use lumencast_py.Protocol.Frames.{
  TransitionKind, tween, spring, snap, Easing, linear, ease_in, ease_out, ease_in_out,
  TransitionSpec, Cause, SceneTransition, Patch,
}
use lumencast_py.Protocol.Codec.Parse.{
  parse_kind, parse_easing, int_if_present, float_if_present, int_if_set, spec_of,
  parse_transition_spec, parse_patch, parse_all, require_text, parse_patches, parse_cause,
  parse_scene_transition,
}
use lumencast_py.Protocol.Codec.Encode.{
  put_some, put_set, kind_text, easing_text, transition_spec_to_dict, patch_to_dict, cause_to_dict,
  scene_transition_to_dict, patches_to_json,
}

pub set_cases : (v : Json) → (v ≡ null) ⊎ ((k : String) (d : Dict Json) → put_set k v d ≡ put k v d)
set_cases null = inl refl
set_cases (bool b) = inr (λ k d. refl)
set_cases (int n) = inr (λ k d. refl)
set_cases (real x) = inr (λ k d. refl)
set_cases (text s) = inr (λ k d. refl)
set_cases (arr xs) = inr (λ k d. refl)
set_cases (obj fs) = inr (λ k d. refl)

parse_kind-kind_text : (k : TransitionKind) → parse_kind (some (kind_text k)) ≡ ok k
unfolding parse_kind kind_text
parse_kind-kind_text tween = refl
parse_kind-kind_text spring = refl
parse_kind-kind_text snap = refl

abbrev pub opt {ℓ} : {A : Type ℓ} → (A → Json) → Option A → Option Json
opt f none = none
opt f (some a) = some (f a)

parse_easing-easing_text : (e : Option Easing) → parse_easing (opt easing_text e) ≡ ok e
unfolding parse_easing easing_text
parse_easing-easing_text none = refl
parse_easing-easing_text (some linear) = refl
parse_easing-easing_text (some ease_in) = refl
parse_easing-easing_text (some ease_out) = refl
parse_easing-easing_text (some ease_in_out) = refl

-- What `get` answers after a conditional write.
pub get-put_some_same {ℓ} :
    {A : Type ℓ} (k : String) (f : A → Json) (o : Option A) (d : Dict Json)
    → get k d ≡ none
    → get k (put_some k f o d) ≡ opt f o
get-put_some_same k f none d h = h
get-put_some_same k f (some a) d h = ground (arith, eq_iff k k, get-put k k (f a) d)

pub get-put_some_other {ℓ} :
    {A : Type ℓ} (k j : String) (f : A → Json) (o : Option A) (d : Dict Json)
    → str_eq k j ≡ false
    → get j (put_some k f o d) ≡ get j d
get-put_some_other k j f none d h = refl
get-put_some_other k j f (some a) d h = ground (arith, h, get-put k j (f a) d)

module _ (py : Builtins) where
  int_if_present_lem : (o : Option ℤ) → int_if_present py (opt int o) ≡ ok o
  unfolding to_int
  int_if_present_lem none = refl
  int_if_present_lem (some n) = refl

  pub int_if_set_lem : (o : Option ℤ) → int_if_set py (opt int o) ≡ ok o
  unfolding to_int
  int_if_set_lem none = refl
  int_if_set_lem (some n) = refl

  float_if_present_lem : (o : Option Float) → float_if_present py (opt real o) ≡ ok o
  unfolding to_float
  float_if_present_lem none = refl
  float_if_present_lem (some x) = refl

  spec_of-transition_spec_to_dict :
      (t : TransitionSpec) → spec_of py (transition_spec_to_dict t) ≡ ok t
  unfolding spec_of transition_spec_to_dict get put
  spec_of-transition_spec_to_dict t = simp (
    get-put_some_same, get-put_some_other, parse_kind-kind_text, parse_easing-easing_text,
    int_if_present_lem, float_if_present_lem,
  )

  parse_transition_spec_lem :
      (o : Option TransitionSpec)
      → parse_transition_spec py (opt (λ t. obj (of_dict (transition_spec_to_dict t))) o) ≡ ok o
  unfolding parse_transition_spec
  parse_transition_spec_lem none = refl
  parse_transition_spec_lem (some t) =
      rw (to_dict-of_dict (transition_spec_to_dict t)) (rw (spec_of-transition_spec_to_dict t) refl)

  parse_patch-patch_to_dict : (p : Patch) → parse_patch py (obj (of_dict (patch_to_dict p))) ≡ ok p
  unfolding parse_patch patch_to_dict get to_text
  parse_patch-patch_to_dict p =
      rw (to_dict-of_dict (patch_to_dict p))
        (simp (get-put_some_same, get-put_some_other, parse_transition_spec_lem))

  parse_all_cons :
      (item : Json) (items : List Json)
      → parse_all py (item ∷ items)
        ≡ (do p ← parse_patch py item; ps ← parse_all py items; ok (p ∷ ps))
  unfolding parse_all
  parse_all_cons item items = refl

  parse_all_nil : parse_all py [] ≡ ok []
  unfolding parse_all
  parse_all_nil = refl

  parse_all-map :
      (ps : List Patch) → parse_all py (map (λ p. obj (of_dict (patch_to_dict p))) ps) ≡ ok ps
  parse_all-map [] = parse_all_nil
  parse_all-map (p ∷ ps) =
      rw
        (parse_all_cons (obj (of_dict (patch_to_dict p)))
          (map (λ q. obj (of_dict (patch_to_dict q))) ps))
        (rw (parse_patch-patch_to_dict p) (rw (parse_all-map ps) refl))

  pub parse_patches-patches_to_json :
      (ps : List Patch) → parse_patches py (some (patches_to_json ps)) ≡ ok ps
  unfolding parse_patches patches_to_json
  parse_patches-patches_to_json ps =
      rw (to_list-of_list (map (λ p. obj (of_dict (patch_to_dict p))) ps)) (parse_all-map ps)

  pub parse_scene_transition_lem :
      (o : Option SceneTransition)
      → parse_scene_transition py (opt (λ t. obj (of_dict (scene_transition_to_dict t))) o) ≡ ok o
  unfolding parse_scene_transition scene_transition_to_dict get require_text
  parse_scene_transition_lem none = refl
  parse_scene_transition_lem (some t) =
      rw (to_dict-of_dict (scene_transition_to_dict t))
        (simp (get-put_some_same, get-put_some_other, int_if_set_lem))

pub default-put_set_same :
    (k : String) (v : Json) (d : Dict Json)
    → get k d ≡ none
    → default (get k (put_set k v d)) null ≡ v
default-put_set_same k v d h = elim (set_cases v) [
  | inl e ↦ rw e (rw h refl)
  | inr e ↦ rw (e k d) (ground (arith, get-put k k v d, eq_iff k k))
]

pub get-put_set_other :
    (k j : String) (v : Json) (d : Dict Json) → str_eq k j ≡ false → get j (put_set k v d) ≡ get j d
get-put_set_other k j v d h = elim (set_cases v) [
  | inl e ↦ rw e refl
  | inr e ↦ rw (e k d) (ground (arith, get-put k j v d, h))
]

pub parse_cause_lem :
    (o : Option Cause) → parse_cause (opt (λ c. obj (of_dict (cause_to_dict c))) o) ≡ ok o
unfolding parse_cause cause_to_dict get require_text
parse_cause_lem none = refl
parse_cause_lem (some c) =
    rw (to_dict-of_dict (cause_to_dict c)) (simp (default-put_set_same, get-put_set_other))
