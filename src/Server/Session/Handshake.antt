-- ===== src/Server/Session/Handshake.antt =====
-- server/ws_handler.py: `handle_ws` up to the session.
pub mod Requested
use lumencast_py.Prelude.{
  ℕ, String, Bool, false, Option, none, some, List, [], ◌∷◌, map, str_eq, if◌then◌else◌,
}
use lumencast_py.Json.{Json, text, Result, ok, raise, Exception, version_mismatch, decode_error}
use lumencast_py.Json.Builtins.{Builtins}
use lumencast_py.Protocol.Envelope.{JsonText, subprotocols}
use lumencast_py.Protocol.Codec.Decode.{decode_client}
use lumencast_py.Protocol.Errors.{ErrorCode, auth_denied}
use lumencast_py.Protocol.Frames.{ClientFrame, ServerFrame, Subscribe}
use lumencast_py.Server.Auth.{Identity, is_authenticated}
use lumencast_py.Server.Kit.{Server, Route, to_scene, refused, raised, resolve_scene, store}
use lumencast_py.Server.Scene.{subscribe_with_resume, Subscribed, to_delta}
use lumencast_py.Server.Session.Handshake.Requested.{requested_subprotocols}
use lumencast_py.Server.Session.{
  Out, accept, send, close, Texts, choose, send_error, ws_close_policy_violation,
  ws_close_protocol_error,
}

-- `_send_error` and the close that follows it, before there is a session
abbrev pub turn_away : ErrorCode → String → List Out
turn_away code message = send_error 0 code message false none ∷ close ws_close_policy_violation ∷ []

-- How the handshake ends: turned away, with a session on a scene, or with an exception that
-- `handle_ws` lets through.
pub data Opening : Type 0 where
  crashed : List Out → Exception → Opening
  turned_away : List Out → Opening
  opened : ℕ → ℕ → Identity → List Out → Opening

-- `_read_subscribe`: the first frame must be a subscribe; `none` is the time-out
unfoldable pub read_subscribe : Option (Result ClientFrame) → Result Subscribe
read_subscribe (some (ok (ClientFrame.subscribe m))) = ok m
read_subscribe (some (ok f)) = raise decode_error
read_subscribe (some (raise e)) = raise e
read_subscribe none = raise decode_error

-- the answer to the subscribe: the snapshot, or the replayed records as deltas
unfoldable pub initial_frames : Subscribed → List Out
initial_frames got = elim got.snap [
  | none ↦ map (λ r. send (ServerFrame.delta (to_delta r))) got.records
  | some snap ↦ send (ServerFrame.snapshot snap) ∷ []
]

-- sub_frame.scene == ""
abbrev pub is_live : Json → Bool
is_live (text s) = str_eq s ""
is_live v = false

module _ (py : Builtins) (texts : Texts) where
  abbrev pub attach : String → Subscribe → Identity → ℕ → Server → Opening × Server
  attach chosen m who i w =
      let (got, (s, h)) =
        subscribe_with_resume (is_live m.scene) m.since_sequence (w.at i) w.heap in
      (opened i got.sub who (accept (some chosen) ∷ initial_frames got), store i s h w)

  abbrev pub follow : String → Subscribe → Identity → Server → Route → Opening × Server
  follow chosen m who w (to_scene i) = attach chosen m who i w
  follow chosen m who w (raised e) = (crashed (accept (some chosen) ∷ []) e, w)
  follow chosen m who w (refused code message) =
      (turned_away (accept (some chosen) ∷ turn_away code message), w)

  abbrev pub route : String → Subscribe → Identity → Server → Opening × Server
  route chosen m who w = follow chosen m who w (resolve_scene py m who w)

  -- what the authenticator gives: `ok none` is the AuthError, and another exception is let through
  abbrev pub admit : String → Subscribe → Result (Option Identity) → Server → Opening × Server
  admit chosen m (raise e) w = (crashed (accept (some chosen) ∷ []) e, w)
  admit chosen m (ok none) w =
      (turned_away (accept (some chosen) ∷ turn_away auth_denied texts.auth_error), w)
  admit chosen m (ok (some who)) w =
      if is_authenticated who
      then route chosen m who w
      else (turned_away (accept (some chosen) ∷ turn_away auth_denied "token invalid"), w)

  abbrev pub greet :
      (Json → Result (Option Identity)) → String → Result Subscribe → Server → Opening × Server
  greet auth chosen (ok m) w = admit chosen m (auth m.token) w
  greet auth chosen (raise version_mismatch) w =
      (turned_away (accept (some chosen) ∷ close ws_close_protocol_error ∷ []), w)
  greet auth chosen (raise e) w =
      (turned_away (accept (some chosen) ∷ turn_away auth_denied (texts.exception e)), w)

  abbrev pub negotiate :
      JsonText
      → (Json → Result (Option Identity))
      → Option String
      → Option String
      → Server
      → Opening × Server
  negotiate jt auth none first w =
      (turned_away (accept none ∷ close ws_close_policy_violation ∷ []), w)
  negotiate jt auth (some chosen) first w =
      greet auth chosen
        (read_subscribe (elim first [ none ↦ none | some raw ↦ some (decode_client py jt raw) ])) w

  -- `handle_ws` up to the session: `auth` is the authenticator, `requested` the client's
  -- subprotocols, `first` the first text, if one arrives in time
  unfoldable pub open_session :
      JsonText
      → (Json → Result (Option Identity))
      → List String
      → Option String
      → Server
      → Opening × Server
  open_session jt auth requested first w = negotiate jt auth (choose subprotocols requested) first w

  -- the same from the scope and the header of the upgrade, which tell what the client asked for
  unfoldable pub open_upgrade :
      JsonText
      → (Json → Result (Option Identity))
      → List String
      → Option String
      → Option String
      → Server
      → Opening × Server
  unfolding open_session requested_subprotocols
  open_upgrade jt auth scope header first w =
      open_session jt auth (requested_subprotocols scope header) first w
