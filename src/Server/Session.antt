-- ===== src/Server/Session.antt =====
-- server/ws_handler.py: a WebSocket session, from the handshake to its end. What the handler sends
-- is kept as a list, and each received text is one round of the reader. A send that fails ends the
-- session and is left out; the writer moves the queue of the subscription to the socket.
pub mod Handshake
pub mod Admitted
pub mod Inputs
pub mod Writer
use lumencast_py.Prelude.{
  ℕ, String, Bool, true, false, not, Option, none, some, List, [], ◌∷◌, ◌++◌, map, any_of, str_eq,
  if◌then◌else◌,
}
use Prim.Native.String.{◌++◌ as cat}
use lumencast_py.Json.{
  ℤ, pos, Json, null, bool, int, real, text, arr, obj, Result, ok, raise, ◌>>=◌, Exception,
  version_mismatch, decode_error, unknown_type, value_error, type_error, overflow_error,
}
use lumencast_py.Json.Builtins.{Builtins}
use lumencast_py.Protocol.Envelope.{JsonText, subprotocols}
use lumencast_py.Protocol.Codec.Decode.{decode_client}
use lumencast_py.Protocol.Errors.{ErrorCode, auth_denied, internal, value, of_value}
use lumencast_py.Protocol.Frames.{Cause, ClientFrame, ServerFrame, Error, Input, Subscribe, Patch}
use lumencast_py.Protocol.Types.{Role}
use lumencast_py.Server.Auth.{Identity, is_authenticated}
use lumencast_py.Server.Kit.{Server, Route, to_scene, refused, resolve_scene, store}
use lumencast_py.Server.ReplayBuffer.{ReplayRecord}
use lumencast_py.Server.Scene.{Scene, current_seq, subscribe_with_resume, Subscribed, to_delta}
use lumencast_py.Server.Scene.ApplyInput.{Rejection, Reason, apply_input}
use lumencast_py.Server.Subscription.{Heap}

-- What the handler does to the socket.
pub data Out : Type 0 where
  accept : Option String → Out
  send : ServerFrame → Out
  close : ℕ → Out

abbrev pub ws_close_normal : ℕ
ws_close_normal = 1000

abbrev pub ws_close_protocol_error : ℕ
ws_close_protocol_error = 1002

abbrev pub ws_close_policy_violation : ℕ
ws_close_policy_violation = 1008

-- The texts that the code formats: messages of errors, and a role in an f-string.
pub record Texts : Type 0 where
  pub reason : Reason → String
  pub exception : Exception → String
  pub auth_error : String
  pub role : Role → String

-- The first of the candidates that was requested.
unfoldable pub choose : List String → List String → Option String
choose [] requested = none
choose (c ∷ cs) requested = if any_of (str_eq c) requested then some c else choose cs requested

-- `_send_error`
unfoldable pub send_error : ℕ → ErrorCode → String → Bool → Option String → Out
send_error seq code message recoverable path = send (
    ServerFrame.error (record {
      code = text (value code);
      message = text message;
      recoverable = recoverable;
      seq = pos seq;
      ts = text "";
      retry_after_ms = pos 0;
      path = elim path [ none ↦ null | some p ↦ text p ];
    }))

-- A scene and the heap, as a session shares them, and what it has sent since it runs.
pub record Session : Type 0 where
  pub scene : Scene
  pub heap : Heap
  pub out : List Out

abbrev pub push_out : Out → Session → Session
push_out o t = record t { out = t.out ++ o ∷ [] }

module _ (texts : Texts) where
  -- getattr(identity, "subject", None) or getattr(identity, "role", "operator")
  abbrev pub role_of : Option Role → String
  role_of none = "None"
  role_of (some r) = texts.role r

  unfoldable pub subject_of : Identity → String
  subject_of who = if str_eq who.subject "" then role_of who.role else who.subject

  -- the provenance of an input that carries a `client_msg_id`
  unfoldable pub cause_of : Identity → Json → Option Cause
  unfolding subject_of
  cause_of who null = none
  cause_of who id =
      some (record { source = cat (cat (role_of who.role) ":") (subject_of who); input_id = id })

  abbrev pub code_of : Option ErrorCode → ErrorCode
  code_of none = internal
  code_of (some c) = c

  abbrev pub is_recoverable : ErrorCode → Bool
  is_recoverable auth_denied = false
  is_recoverable c = true

  -- what a rejected input is answered with
  abbrev pub answer : Option Rejection → Session → Session
  answer none t = t
  answer (some r) t =
      let code = code_of (of_value r.code) in
      push_out
        (send_error (current_seq t.scene) code (texts.reason r.reason) (is_recoverable code) r.path)
        t

  abbrev pub after_input : Session → Option Rejection × (Scene × Heap) → Session
  after_input t (r, (s, h)) = answer r (record t { scene = s; heap = h })

  -- the `except` clauses around `decode_client`; the others end the reader without a frame
  unfoldable pub undecoded : Exception → Session → Session
  undecoded version_mismatch t =
      push_out
        (send_error (current_seq t.scene) ErrorCode.version_mismatch
          (texts.exception version_mismatch) false none)
        t
  undecoded decode_error t =
      push_out (send_error (current_seq t.scene) internal (texts.exception decode_error) false none)
        t
  undecoded unknown_type t =
      push_out (send_error (current_seq t.scene) internal (texts.exception unknown_type) false none)
        t
  undecoded e t = t

module _ (py : Builtins) (texts : Texts) where
  -- `_dispatch`
  unfoldable pub dispatch : Identity → ClientFrame → Session → Result Session
  unfolding cause_of
  dispatch who (ClientFrame.input m) t = do
    done ← apply_input py who m.patches (cause_of texts who m.client_msg_id) t.scene t.heap
    ok (after_input texts t done)
  dispatch who (ClientFrame.ping nonce) t = ok (push_out (send (ServerFrame.pong nonce)) t)
  dispatch who (ClientFrame.pong nonce) t = ok t
  dispatch who ClientFrame.unsubscribe t = ok (push_out (close ws_close_normal) t)
  dispatch who (ClientFrame.subscribe m) t =
      ok (push_out (send_error (current_seq t.scene) internal "duplicate subscribe" false none) t)

  -- nothing is received after a clean teardown
  abbrev pub goes_on : ClientFrame → Bool
  goes_on ClientFrame.unsubscribe = false
  goes_on f = true

  abbrev pub dispatched : Result Session → ClientFrame → Session → Session × Bool
  dispatched (ok t') f t = (t', goes_on f)
  dispatched (raise e) f t = (t, false)

  abbrev pub round : Identity → Result ClientFrame → Session → Session × Bool
  round who (raise e) t = (undecoded texts e t, false)
  round who (ok f) t = dispatched (dispatch who f t) f t

  -- the reader's loop over the texts that arrive
  unfoldable pub reader : JsonText → Identity → List String → Session → Session
  reader jt who [] t = t
  reader jt who (raw ∷ raws) t =
      let (t', on) = round who (decode_client py jt raw) t in
      let rest = reader jt who raws t' in if on then rest else t'
