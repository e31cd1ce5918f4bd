-- ===== src/Tests/Input.antt =====
-- Input frames from an operator.
use lumencast_py.Prelude.{String, ◌≡◌, ◌≢◌, refl, false, some, none, List, [], ◌∷◌, eq_iff, All}
use lumencast_py.Prelude.Dict
use lumencast_py.Prelude.Dict.{Dict}
use lumencast_py.Json.{text, pos, negsuc, ok, raise, value_error}
use lumencast_py.Json.Builtins.{Builtins}
use lumencast_py.Protocol.Frames.{Patch}
use lumencast_py.Protocol.LeafPath.{split, has_prefix}
use lumencast_py.Protocol.Types.{Role}
use lumencast_py.Server.Input.{InputSpec, check_constraint, check_string, too_long}
use lumencast_py.Server.Input.Constraints.{Conforms, check_constraint-Conforms}
use lumencast_py.Server.Auth.{Identity, can_write}
use lumencast_py.Server.Role.{role_can_write}
use lumencast_py.Server.Scene.{Scene, init, default_scene_version, emit}
use lumencast_py.Server.Scene.Resume.{Emission, patches_of, after_emit, heap_after}
use lumencast_py.Server.Scene.ApplyInput.{
  Rejection, write_forbidden, accepts_input_path, check_patch, check_patches, apply_input, as_dict,
}
use lumencast_py.Server.Scene.ApplyInput.Admission.{
  Admissible, apply_input_atomic, apply_input_admits, apply_input_commits,
}
use lumencast_py.Server.Scene.ApplyInput.Namespaces.{IsPrivate}
use lumencast_py.Server.Subscription.{Heap, fresh}

-- An interpreter whose floats are small integers.
abbrev pub py : Builtins
py = record {
  int_of_float = λ x. some (pos x.bits);
  int_of_text = λ s. none;
  float_of_int = λ n. elim n [ pos k ↦ some (record { bits = k }) | negsuc k ↦ none ];
  float_of_text = λ s. none;
  float_lt = λ x y. false;
  is_zero = λ x. false;
  show = λ v. "";
  dict_of_pairs = λ xs. raise value_error;
}

abbrev pub alice : Identity
alice = record { subject = "alice"; role = some Role.operator; paths = [] }

abbrev pub scene : Scene
scene = init "main" default_scene_version []

abbrev pub heap : Heap
heap = record { next = 0; at = λ i. fresh false }

abbrev pub title : Patch
title = record { path = "__inputs.title"; value = text "hello"; transition = none }

abbrev pub stray : Patch
stray = record { path = "show.title"; value = text "hello"; transition = none }

program : Unit {0}
unfolding init apply_input check_patches check_patch can_write role_can_write has_prefix
    accepts_input_path Dict.get
program = tt

abbrev pub forbidden : Rejection
forbidden = record { code = "WRITE_FORBIDDEN"; reason = write_forbidden; path = some "show.title" }

-- the second patch is refused, and the first is not applied either
pub refused :
    apply_input py alice (title ∷ stray ∷ []) none scene heap ≡ ok (some forbidden, (scene, heap))
unfolding program
refused = refl

apply_input_atomic_example : (scene ≡ scene) × (heap ≡ heap)
apply_input_atomic_example =
    apply_input_atomic py alice (title ∷ stray ∷ []) none scene scene heap heap forbidden refused

pub title-Admissible : Admissible py alice scene title
unfolding program
title-Admissible = record { writable = refl; accepted = refl; conforms = λ spec e. cc }

title_run :
    (e : Emission) × (patches_of e ≡ as_dict (title ∷ []) [])
    × (e.cause ≡ none)
    × (apply_input py alice (title ∷ []) none scene heap
        ≡ ok (none, (after_emit e scene, heap_after e scene heap)))
title_run = apply_input_commits py alice title [] none scene heap (title-Admissible, tt)

abbrev committed : Emission
committed = title_run.0

apply_input_admits_example :
    (title ∷ [] ≢ [])
    × All (Admissible py alice scene) (title ∷ [])
    × (emit (as_dict (title ∷ []) []) none scene heap
        ≡ some (after_emit committed scene, heap_after committed scene heap))
apply_input_admits_example =
    apply_input_admits py alice (title ∷ []) none scene heap
      (after_emit committed scene, heap_after committed scene heap) title_run.3

pub show-IsPrivate : IsPrivate "show.title"
unfolding split
show-IsPrivate = record {
  not_input = λ u. first_ne "__inputs" u.0 (λ e. cc ((eq_iff "show" "__inputs").1 e)) u.1;
  not_test = λ u. first_ne "__test" u.0 (λ e. cc ((eq_iff "show" "__test").1 e)) u.1;
}
  where
    first_ne :
        (name : String) (rest : List String)
        → ◌≢◌ {A = String} "show" name
        → "show" ∷ "title" ∷ [] ≡ name ∷ rest
        → ⊥
    first_ne name rest h e = h (cc)

abbrev short : InputSpec
short = record {
  path = "__inputs.title";
  type = "string";
  max_length = some (pos 5);
  min_value = none;
  max_value = none;
  values = [];
}

-- five characters fit, six do not
short_run :
    (check_constraint py short (text "hello") ≡ ok none)
    × (check_constraint py short (text "hello!") ≡ ok (some too_long))
unfolding check_constraint check_string
short_run = (refl, refl)

check_constraint-Conforms_example : Conforms py short (text "hello")
check_constraint-Conforms_example = check_constraint-Conforms py short (text "hello") short_run.0
