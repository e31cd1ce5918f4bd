-- ===== src/Protocol/Codec/Encode.antt =====
-- protocol/codec.py: `encode`, by the on-wire dict of each frame.
use lumencast_py.Prelude.{String, Option, none, some, List, [], ◌∷◌, map, if◌then◌else◌}
use lumencast_py.Prelude.Dict.{Dict, put}
use lumencast_py.Json.{pos, Json, null, bool, int, real, text, arr, obj, of_dict, of_list}
use lumencast_py.Json.Builtins.{Builtins, truthy}
use lumencast_py.Protocol.Envelope.{JsonText, version, encode_json}
use lumencast_py.Protocol.Frames.{
  TransitionKind, tween, spring, snap, Easing, linear, ease_in, ease_out, ease_in_out,
  TransitionSpec, Cause, SceneTransition, Patch, ClientFrame, ServerFrame,
}
use lumencast_py.Protocol.Types.{
  frame_snapshot, frame_delta, frame_scene_changed, frame_error, frame_pong, frame_subscribe,
  frame_input, frame_ping, frame_unsubscribe,
}

-- out[key] = f(v), where v is not None
abbrev pub put_some {ℓ} : {A : Type ℓ} → String → (A → Json) → Option A → Dict Json → Dict Json
put_some key f none out = out
put_some key f (some v) out = put key (f v) out

-- out[key] = v, where v is not None
abbrev pub put_set : String → Json → Dict Json → Dict Json
put_set key null out = out
put_set key v out = put key v out

unfoldable pub kind_text : TransitionKind → Json
kind_text tween = text "tween"
kind_text spring = text "spring"
kind_text snap = text "snap"

unfoldable pub easing_text : Easing → Json
easing_text linear = text "linear"
easing_text ease_in = text "ease-in"
easing_text ease_out = text "ease-out"
easing_text ease_in_out = text "ease-in-out"

unfoldable pub transition_spec_to_dict : TransitionSpec → Dict Json
unfolding kind_text easing_text
transition_spec_to_dict t = put_some "damping" real t.damping (
    put_some "stiffness" real t.stiffness (
      put_some "easing" easing_text t.easing
        (put_some "duration_ms" int t.duration_ms (("kind", kind_text t.kind) ∷ []))))

unfoldable pub patch_to_dict : Patch → Dict Json
patch_to_dict p =
    put_some "transition" (λ t. obj (of_dict (transition_spec_to_dict t))) p.transition
      (("path", text p.path) ∷ ("value", p.value) ∷ [])

unfoldable pub cause_to_dict : Cause → Dict Json
cause_to_dict c = put_set "input_id" c.input_id (("source", text c.source) ∷ [])

unfoldable pub scene_transition_to_dict : SceneTransition → Dict Json
scene_transition_to_dict t = put_some "duration_ms" int t.duration_ms (("kind", text t.kind) ∷ [])

unfoldable pub patches_to_json : List Patch → Json
patches_to_json ps = arr (of_list (map (λ p. obj (of_dict (patch_to_dict p))) ps))

-- the fields that every frame starts with
abbrev pub stamped : String → Dict Json → Dict Json
stamped t rest = ("v", int (pos version)) ∷ ("type", text t) ∷ rest

module _ (py : Builtins) where
  -- out[key] = v, where v is true as a test
  abbrev pub put_truthy : String → Json → Dict Json → Dict Json
  put_truthy key v out = if truthy py v then put key v out else out

  unfoldable pub server_frame_to_dict : ServerFrame → Dict Json
  server_frame_to_dict (ServerFrame.snapshot m) = put_truthy "ts" m.ts (
      stamped frame_snapshot (
        ("seq", int m.seq)
        ∷ ("scene_id", m.scene_id)
        ∷ ("scene_version", m.scene_version)
        ∷ ("state", obj (of_dict m.state))
        ∷ []))
  server_frame_to_dict (ServerFrame.delta m) =
      put_some "cause" (λ c. obj (of_dict (cause_to_dict c))) m.cause
        (put_truthy "ts" m.ts
          (stamped frame_delta (("seq", int m.seq) ∷ ("patches", patches_to_json m.patches) ∷ [])))
  server_frame_to_dict (ServerFrame.scene_changed m) =
      put_some "transition" (λ t. obj (of_dict (scene_transition_to_dict t))) m.transition
        (put_truthy "from_scene_id" m.from_scene_id (
          put_truthy "ts" m.ts (
            stamped frame_scene_changed (
              ("seq", int m.seq)
              ∷ ("scene_id", m.scene_id)
              ∷ ("scene_version", m.scene_version)
              ∷ []))))
  server_frame_to_dict (ServerFrame.error m) = put_set "path" m.path (
      put_truthy "retry_after_ms" (int m.retry_after_ms) (
        put_truthy "ts" m.ts (
          stamped frame_error (
            ("seq", int m.seq)
            ∷ ("code", m.code)
            ∷ ("message", m.message)
            ∷ ("recoverable", bool m.recoverable)
            ∷ []))))
  server_frame_to_dict (ServerFrame.pong nonce) = put_set "nonce" nonce (stamped frame_pong [])
  server_frame_to_dict (ServerFrame.ping nonce) = put_set "nonce" nonce (stamped frame_ping [])

  unfoldable pub client_frame_to_dict : ClientFrame → Dict Json
  client_frame_to_dict (ClientFrame.pong nonce) = put_set "nonce" nonce (stamped frame_pong [])
  client_frame_to_dict (ClientFrame.ping nonce) = put_set "nonce" nonce (stamped frame_ping [])
  client_frame_to_dict ClientFrame.unsubscribe = stamped frame_unsubscribe []
  client_frame_to_dict (ClientFrame.subscribe m) = put_some "since_sequence" int m.since_sequence (
      put_truthy "session" m.session
        (put_truthy "scene" m.scene (stamped frame_subscribe (("token", m.token) ∷ []))))
  client_frame_to_dict (ClientFrame.input m) =
      put_set "client_msg_id" m.client_msg_id
        (stamped frame_input (("patches", patches_to_json m.patches) ∷ []))

  unfoldable pub encode_server : JsonText → ServerFrame → String
  encode_server jt msg = encode_json jt (obj (of_dict (server_frame_to_dict msg)))

  unfoldable pub encode_client : JsonText → ClientFrame → String
  encode_client jt msg = encode_json jt (obj (of_dict (client_frame_to_dict msg)))
