-- ===== src/Tests/Session.antt =====
-- A WebSocket session.
use lumencast_py.Prelude.{keep, any_of, false, true, Option, ◌≡◌, refl, some, none, [], ◌∷◌}
use lumencast_py.Json.{Json, null, pos, text, obj, of_dict, Result, ok}
use lumencast_py.Protocol.Codec.Encode.{client_frame_to_dict, encode_client}
use lumencast_py.Protocol.Frames.{ClientFrame, ServerFrame, Input}
use lumencast_py.Server.Auth.{Identity}
use lumencast_py.Server.Kit
use lumencast_py.Server.Kit.{Server}
use lumencast_py.Server.Scene.{current_seq}
use lumencast_py.Server.Scene.ApplyInput.{as_dict}
use lumencast_py.Server.Scene.Resume.{Emission, patches_of, after_emit, heap_after}
use lumencast_py.Server.Session.{Session, Texts, reader, cause_of, push_out, send, choose}
use lumencast_py.Server.Session.Handshake.{open_session, open_upgrade}
use lumencast_py.Server.Session.Handshake.Requested.{
  requested_subprotocols, strip, strip_start, strip_end, split_comma,
}
use lumencast_py.Server.Session.Admitted.{Admitted}
use lumencast_py.Server.Session.Inputs.{
  leaf, Provenance, reader_private, reader_commits, reader_rejects,
}
use lumencast_py.Protocol.Envelope.{JsonText, subprotocols}
use lumencast_py.Tests.Input.{
  py, alice, title, stray, scene, heap, title-Admissible, show-IsPrivate, forbidden, refused,
}
use lumencast_py.Tests.Codec.{library}

abbrev pub texts : Texts
texts = record {
  reason = λ r. "rejected";
  exception = λ e. "bad frame";
  auth_error = "unknown token";
  role = λ r. "operator";
}

abbrev session : Session
session = record { scene = scene; heap = heap; out = [] }

abbrev one : Input
one = record { patches = title ∷ []; client_msg_id = null }

abbrev two : Input
two = record { patches = title ∷ stray ∷ []; client_msg_id = null }

abbrev wire_of : Input → JsonText
wire_of m = library (obj (of_dict (client_frame_to_dict py (ClientFrame.input m))))

-- the newer subprotocol is preferred, and an unknown one is no match
negotiation :
    (choose subprotocols ("lsdp.v1" ∷ "lsdp.v1.1" ∷ []) ≡ some "lsdp.v1.1")
    × (choose subprotocols ("lsdp.v2" ∷ []) ≡ none)
unfolding choose any_of
negotiation = (refl, refl)

abbrev anyone : Json → Result (Option Identity)
anyone token = ok (some alice)

abbrev kit : Server
kit = (Kit.new_scene false "main" "v1" [] (Kit.init heap)).1

abbrev live : JsonText
live = library (
    obj (
      of_dict (
        client_frame_to_dict py (
          ClientFrame.subscribe (record {
            token = text "t";
            scene = text "";
            session = text "";
            since_sequence = none;
          })))))

reader_private_example :
    leaf "show.title" (reader py texts (wire_of two) alice ("{}" ∷ "junk" ∷ []) session)
    ≡ leaf "show.title" session
reader_private_example =
    reader_private py texts (wire_of two) alice ("{}" ∷ "junk" ∷ []) session "show.title"
      show-IsPrivate

reader_commits_example :
    (e : Emission) × (patches_of e ≡ as_dict (title ∷ []) [])
    × Provenance texts alice null e.cause
    × (reader py texts
          (wire_of one)
          alice
          (encode_client py (wire_of one) (ClientFrame.input one) ∷ [])
          session
        ≡ reader py texts
            (wire_of one)
            alice
            []
            (record session { scene = after_emit e scene; heap = heap_after e scene heap }))
reader_commits_example =
    reader_commits py texts (wire_of one) alice title [] null [] session refl (title-Admissible, tt)

reader_rejects_example :
    reader py texts
      (wire_of two)
      alice
      (encode_client py (wire_of two) (ClientFrame.input two) ∷ [])
      session
    ≡ reader py texts (wire_of two) alice [] (
        push_out
          (send (
            ServerFrame.error (record {
              code = text "WRITE_FORBIDDEN";
              message = text (texts.reason forbidden.reason);
              recoverable = true;
              seq = pos (current_seq scene);
              ts = text "";
              retry_after_ms = pos 0;
              path = text "show.title";
            })))
          session)
reader_rejects_example =
    reader_rejects py texts (wire_of two) alice two [] session forbidden scene heap refl
      (unfold cause_of in refused)

-- the header counts where the scope has nothing, and its empty parts do not
header_read :
    (requested_subprotocols [] (some " lsdp.v1.1,, lsdp.v1 ") ≡ "lsdp.v1.1" ∷ "lsdp.v1" ∷ [])
    × (requested_subprotocols ("other" ∷ []) (some "lsdp.v1") ≡ "other" ∷ [])
    × (requested_subprotocols [] none ≡ [])
unfolding requested_subprotocols strip strip_start strip_end split_comma keep
header_read = (refl, refl, refl)

upgraded :
    open_upgrade py texts live anyone [] (some "lsdp.v1") (some "{}") kit
    ≡ open_session py texts live anyone ("lsdp.v1" ∷ []) (some "{}") kit
unfolding open_upgrade requested_subprotocols strip strip_start strip_end split_comma keep
upgraded = refl
