-- ===== src/Server/Session/Admitted.antt =====
-- server/ws_handler.py: who gets a session, and how the others are turned away.
use lumencast_py.Prelude.{
  String, true, Option, none, some, List, [], ◌∷◌, ◌≡◌, any_of, str_eq, ◌⊎◌, ℕ, false,
}
use lumencast_py.Json.{pos, Json, null, text, Exception, Result, ok, raise}
use lumencast_py.Json.Builtins.{Builtins}
use lumencast_py.Protocol.Envelope.{JsonText, subprotocols}
use lumencast_py.Protocol.Codec.Decode.{decode_client}
use lumencast_py.Protocol.Errors.{ErrorCode, value}
use lumencast_py.Protocol.Frames.{ClientFrame, ServerFrame, Subscribe}
use lumencast_py.Server.Auth.{Identity, is_authenticated}
use lumencast_py.Server.Kit.{Server, to_scene, resolve_scene}
use lumencast_py.Server.Kit.Routing.{IsContainer}
use lumencast_py.Server.Session.{Out, accept, send, close, Texts}
use lumencast_py.Server.Session.Handshake.{Opening, turned_away, opened, crashed}

-- The frames that a client sees which is turned away.
pub data Refusal : List Out → Type 0 where
  no_protocol : Refusal (accept none ∷ close 1008 ∷ [])
  other_version : (p : String) → Refusal (accept (some p) ∷ close 1002 ∷ [])
  denied :
      (p : String) (code : ErrorCode) (message : String)
      → Refusal (
          accept (some p)
          ∷ send (
              ServerFrame.error (record {
                code = text (value code);
                message = text message;
                recoverable = false;
                seq = pos 0;
                ts = text "";
                retry_after_ms = pos 0;
                path = null;
              }))
          ∷ close 1008
          ∷ [])

module _ (py : Builtins) (texts : Texts) where
  -- What stood behind an opened session.
  pub record Admitted (jt : JsonText) (auth : Json → Result (Option Identity))
      (requested : List String) (first : Option String) (w : Server) (i : ℕ) (who : Identity)
      : Type 0 where
    pub protocol : String
    pub offered : any_of (str_eq protocol) requested ≡ true
    pub supported : any_of (str_eq protocol) subprotocols ≡ true
    pub raw : String
    pub arrived : first ≡ some raw
    pub request : Subscribe
    pub decoded : decode_client py jt raw ≡ ok (ClientFrame.subscribe request)
    pub known : auth request.token ≡ ok (some who)
    pub authenticated : is_authenticated who ≡ true
    pub routed : resolve_scene py request who w ≡ to_scene i

  -- What stood behind an exception: a subscribe whose token the authenticator raises for, or that
  -- names its scene by a list or an object. The client has seen its subprotocol accepted only.
  pub record Crashed (jt : JsonText) (auth : Json → Result (Option Identity))
      (first : Option String) (e : Exception) (out : List Out) : Type 0 where
    pub protocol : String
    pub seen : out ≡ accept (some protocol) ∷ []
    pub raw : String
    pub arrived : first ≡ some raw
    pub request : Subscribe
    pub decoded : decode_client py jt raw ≡ ok (ClientFrame.subscribe request)
    pub because : (auth request.token ≡ raise e) ⊎ IsContainer request.scene

  -- A refusal that changes nothing, an exception with `C` that changes nothing, or a session with
  -- `A` of its scene and its identity.
  abbrev pub Answered :
      (ℕ → Identity → Type 0) → (Exception → List Out → Type 0) → Server → Opening × Server → Type 0
  Answered A C w (turned_away out, v) = Refusal out × (v ≡ w)
  Answered A C w (crashed out e, v) = C e out × (v ≡ w)
  Answered A C w (opened i sub who out, v) = A i who
