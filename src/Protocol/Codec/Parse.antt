-- ===== src/Protocol/Codec/Parse.antt =====
-- protocol/codec.py: the envelope check and the parsers of the parts of a frame.
use lumencast_py.Prelude.{
  String, Bool, false, Option, none, some, List, [], ◌∷◌, ◌==◌, if◌then◌else◌, str_eq,
}
use lumencast_py.Prelude.Dict.{Dict, get}
use lumencast_py.Json.{
  ℤ, pos, Float, Json, null, bool, int, real, text, arr, obj, to_dict, to_list, Result, ok, raise,
  ◌>>=◌, decode_error, version_mismatch,
}
use lumencast_py.Json.Builtins.{Builtins, to_int, to_float, to_text, default}
use lumencast_py.Protocol.Envelope.{JsonText, decode_json}
use lumencast_py.Protocol.Frames.{
  TransitionKind, tween, spring, snap, Easing, linear, ease_in, ease_out, ease_in_out,
  TransitionSpec, Cause, SceneTransition, Patch,
}

-- v == VERSION, which holds of 1, 1.0 and true
unfoldable pub is_version : Option Json → Bool
is_version (some (int (pos n))) = n == 1
is_version (some (bool b)) = b
is_version (some (real x)) = x.bits == 4607182418800017408
is_version _ = false

-- the discriminator, where it is there and a text
abbrev pub type_of : Option Json → Result String
type_of (some (text t)) = ok t
type_of _ = raise decode_error

-- The envelope with its discriminator.
unfoldable pub check_envelope : Dict Json → Result (String × Dict Json)
unfolding is_version
check_envelope env =
    if is_version (get "v" env)
    then (do t ← type_of (get "type" env); ok (t, env))
    else raise version_mismatch

abbrev pub as_decode_error {ℓ} : {A : Type ℓ} → Result A → Result A
as_decode_error (ok a) = ok a
as_decode_error (raise e) = raise decode_error

unfoldable pub parse_envelope : JsonText → String → Result (String × Dict Json)
unfolding check_envelope decode_json
parse_envelope jt raw = as_decode_error (decode_json jt raw) >>= check_envelope

unfoldable pub parse_kind : Option Json → Result TransitionKind
parse_kind (some (text s)) =
    if str_eq s "tween"
    then ok tween
    else if str_eq s "spring"
    then ok spring
    else if str_eq s "snap"
    then ok snap
    else raise decode_error
parse_kind _ = raise decode_error

unfoldable pub parse_easing : Option Json → Result (Option Easing)
parse_easing none = ok none
parse_easing (some (text s)) =
    if str_eq s "linear"
    then ok (some linear)
    else if str_eq s "ease-in"
    then ok (some ease_in)
    else if str_eq s "ease-out"
    then ok (some ease_out)
    else if str_eq s "ease-in-out"
    then ok (some ease_in_out)
    else raise decode_error
parse_easing (some v) = raise decode_error

-- `raw.get("source")` and `raw.get("kind")`, which must be texts
unfoldable pub require_text : Option Json → Result String
require_text (some (text s)) = ok s
require_text _ = raise decode_error

module _ (py : Builtins) where
  -- int(raw[key]) if key in raw
  abbrev pub int_if_present : Option Json → Result (Option ℤ)
  int_if_present none = ok none
  int_if_present (some v) = do n ← to_int py v; ok (some n)

  abbrev pub float_if_present : Option Json → Result (Option Float)
  float_if_present none = ok none
  float_if_present (some v) = do x ← to_float py v; ok (some x)

  -- int(v) if v is not None
  abbrev pub int_if_set : Option Json → Result (Option ℤ)
  int_if_set none = ok none
  int_if_set (some null) = ok none
  int_if_set (some v) = do n ← to_int py v; ok (some n)

  unfoldable pub spec_of : Dict Json → Result TransitionSpec
  unfolding parse_kind parse_easing
  spec_of raw = do
    kind ← parse_kind (get "kind" raw)
    duration_ms ← int_if_present (get "duration_ms" raw)
    easing ← parse_easing (get "easing" raw)
    stiffness ← float_if_present (get "stiffness" raw)
    damping ← float_if_present (get "damping" raw)
    ok (record {
      kind = kind;
      duration_ms = duration_ms;
      easing = easing;
      stiffness = stiffness;
      damping = damping;
    })

  unfoldable pub parse_transition_spec : Option Json → Result (Option TransitionSpec)
  parse_transition_spec none = ok none
  parse_transition_spec (some null) = ok none
  parse_transition_spec (some (obj raw)) = do spec ← spec_of (to_dict raw); ok (some spec)
  parse_transition_spec (some v) = raise decode_error

  -- item["path"], if it is there
  abbrev pub path_of : Option Json → Result String
  path_of none = raise decode_error
  path_of (some v) = ok (to_text py v)

  unfoldable pub parse_patch : Json → Result Patch
  parse_patch (obj item) = do
    path ← path_of (get "path" (to_dict item))
    transition ← parse_transition_spec (get "transition" (to_dict item))
    ok (record {
      path = path;
      value = default (get "value" (to_dict item)) null;
      transition = transition;
    })
  parse_patch v = raise decode_error

  unfoldable pub parse_all : List Json → Result (List Patch)
  parse_all [] = ok []
  parse_all (item ∷ items) =
      let rest = parse_all items in do p ← parse_patch item; ps ← rest; ok (p ∷ ps)

  unfoldable pub parse_patches : Option Json → Result (List Patch)
  parse_patches none = ok []
  parse_patches (some null) = ok []
  parse_patches (some (arr items)) = parse_all (to_list items)
  parse_patches (some v) = raise decode_error

  unfoldable pub parse_scene_transition : Option Json → Result (Option SceneTransition)
  unfolding require_text
  parse_scene_transition none = ok none
  parse_scene_transition (some null) = ok none
  parse_scene_transition (some (obj raw)) = do
    kind ← require_text (get "kind" (to_dict raw))
    duration_ms ← int_if_set (get "duration_ms" (to_dict raw))
    ok (some (record { kind = kind; duration_ms = duration_ms }))
  parse_scene_transition (some v) = raise decode_error

unfoldable pub parse_cause : Option Json → Result (Option Cause)
unfolding require_text
parse_cause none = ok none
parse_cause (some null) = ok none
parse_cause (some (obj raw)) = do
  source ← require_text (get "source" (to_dict raw))
  ok (some (record { source = source; input_id = default (get "input_id" (to_dict raw)) null }))
parse_cause (some v) = raise decode_error
