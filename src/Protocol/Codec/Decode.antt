-- ===== src/Protocol/Codec/Decode.antt =====
-- protocol/codec.py: `decode_client` and `decode_server`.
use lumencast_py.Prelude.{String, false, Option, if◌then◌else◌, str_eq}
use lumencast_py.Prelude.Dict.{Dict, get}
use lumencast_py.Json.{
  ℤ, pos, Json, null, bool, int, text, obj, Fields, Result, ok, raise, ◌>>=◌, unknown_type,
}
use lumencast_py.Json.Builtins.{Builtins, to_int, truthy, or_else, to_mapping, default}
use lumencast_py.Protocol.Envelope.{JsonText}
use lumencast_py.Protocol.Frames.{
  ClientFrame, ServerFrame, Subscribe, Input, Snapshot, Delta, SceneChanged, Error,
}
use lumencast_py.Protocol.Types.{
  frame_snapshot, frame_delta, frame_scene_changed, frame_error, frame_pong, frame_subscribe,
  frame_input, frame_ping, frame_unsubscribe,
}
use lumencast_py.Protocol.Codec.Parse.{
  parse_envelope, int_if_set, parse_patches, parse_cause, parse_scene_transition,
}

module _ (py : Builtins) where
  -- env.get(key, "") or ""
  abbrev pub text_or_empty : Option Json → Json
  text_or_empty v = or_else py (default v (text "")) (text "")

  unfoldable pub decode_subscribe : Dict Json → Result Subscribe
  decode_subscribe env = do
    since_sequence ← int_if_set py (get "since_sequence" env)
    ok (record {
      token = default (get "token" env) (text "");
      scene = text_or_empty (get "scene" env);
      session = text_or_empty (get "session" env);
      since_sequence = since_sequence;
    })

  unfoldable pub decode_input : Dict Json → Result Input
  decode_input env = do
    patches ← parse_patches py (get "patches" env)
    ok (record { patches = patches; client_msg_id = default (get "client_msg_id" env) null })

  unfoldable pub client_frame : String × Dict Json → Result ClientFrame
  client_frame (t, env) =
      if str_eq t frame_subscribe
      then (do s ← decode_subscribe env; ok (ClientFrame.subscribe s))
      else if str_eq t frame_input
      then (do i ← decode_input env; ok (ClientFrame.input i))
      else if str_eq t frame_ping
      then ok (ClientFrame.ping (default (get "nonce" env) null))
      else if str_eq t frame_pong
      then ok (ClientFrame.pong (default (get "nonce" env) null))
      else if str_eq t frame_unsubscribe
      then ok ClientFrame.unsubscribe
      else raise unknown_type

  unfoldable pub decode_client : JsonText → String → Result ClientFrame
  decode_client jt raw = parse_envelope jt raw >>= client_frame

  -- int(env.get("seq", 0))
  abbrev pub seq_of : Dict Json → Result ℤ
  seq_of env = to_int py (default (get "seq" env) (int (pos 0)))

  unfoldable pub decode_snapshot : Dict Json → Result Snapshot
  decode_snapshot env = do
    seq ← seq_of env
    state ← to_mapping py (or_else py (default (get "state" env) null) (obj Fields.end))
    ok (record {
      scene_id = default (get "scene_id" env) (text "");
      scene_version = default (get "scene_version" env) (text "");
      state = state;
      seq = seq;
      ts = text_or_empty (get "ts" env);
    })

  unfoldable pub decode_delta : Dict Json → Result Delta
  decode_delta env = do
    seq ← seq_of env
    patches ← parse_patches py (get "patches" env)
    cause ← parse_cause (get "cause" env)
    ok (record { patches = patches; seq = seq; ts = text_or_empty (get "ts" env); cause = cause })

  unfoldable pub decode_scene_changed : Dict Json → Result SceneChanged
  decode_scene_changed env = do
    seq ← seq_of env
    transition ← parse_scene_transition py (get "transition" env)
    ok (record {
      scene_id = default (get "scene_id" env) (text "");
      scene_version = default (get "scene_version" env) (text "");
      seq = seq;
      ts = text_or_empty (get "ts" env);
      from_scene_id = default (get "from_scene_id" env) null;
      transition = transition;
    })

  unfoldable pub decode_error_frame : Dict Json → Result Error
  decode_error_frame env = do
    seq ← seq_of env
    retry_after_ms ←
        to_int py (or_else py (default (get "retry_after_ms" env) (int (pos 0))) (int (pos 0)))
    ok (record {
      code = default (get "code" env) (text "");
      message = default (get "message" env) (text "");
      recoverable = truthy py (default (get "recoverable" env) (bool false));
      seq = seq;
      ts = text_or_empty (get "ts" env);
      retry_after_ms = retry_after_ms;
      path = default (get "path" env) null;
    })

  unfoldable pub server_frame : String × Dict Json → Result ServerFrame
  server_frame (t, env) =
      if str_eq t frame_snapshot
      then (do s ← decode_snapshot env; ok (ServerFrame.snapshot s))
      else if str_eq t frame_delta
      then (do d ← decode_delta env; ok (ServerFrame.delta d))
      else if str_eq t frame_scene_changed
      then (do c ← decode_scene_changed env; ok (ServerFrame.scene_changed c))
      else if str_eq t frame_error
      then (do e ← decode_error_frame env; ok (ServerFrame.error e))
      else if str_eq t frame_pong
      then ok (ServerFrame.pong (default (get "nonce" env) null))
      else if str_eq t frame_ping
      then ok (ServerFrame.ping (default (get "nonce" env) null))
      else raise unknown_type

  unfoldable pub decode_server : JsonText → String → Result ServerFrame
  decode_server jt raw = parse_envelope jt raw >>= server_frame
