-- ===== src/Tests/Codec.antt =====
-- Frames on the wire.
use lumencast_py.Prelude.{◌≡◌, refl, inr, some, none, [], ◌∷◌, if◌then◌else◌, str_eq}
use lumencast_py.Prelude.Dict
use lumencast_py.Json.{
  pos, Json, null, text, int, arr, obj, Items, Fields, of_dict, to_dict, ok, raise,
  version_mismatch, decode_error,
}
use lumencast_py.Protocol.Envelope.{JsonText, decode_json}
use lumencast_py.Protocol.Frames.{ClientFrame, ServerFrame, Patch, tween, ease_out}
use lumencast_py.Protocol.Codec.Parse.{parse_envelope, check_envelope, is_version}
use lumencast_py.Protocol.Codec.Decode.{decode_client, decode_server, client_frame}
use lumencast_py.Protocol.Codec.Encode.{
  client_frame_to_dict, server_frame_to_dict, encode_client, encode_server,
}
use lumencast_py.Protocol.Codec.RoundTrip.{decode_client-encode_client, decode_server-encode_server}
use lumencast_py.Protocol.Codec.Accepted.{Stamped, decode_client-Stamped}
use lumencast_py.Tests.Input.{py}

abbrev eased : Patch
eased = record {
  path = "show.title";
  value = text "hello";
  transition = some (record {
    kind = tween;
    duration_ms = some (pos 300);
    easing = some ease_out;
    stiffness = none;
    damping = none;
  });
}

abbrev server_delta : ServerFrame
server_delta = ServerFrame.delta (record {
  patches = eased ∷ [];
  seq = pos 7;
  ts = text "";
  cause = some (record { source = "operator:alice"; input_id = text "m1" });
})

abbrev client_input : ClientFrame
client_input = ClientFrame.input (record { patches = eased ∷ []; client_msg_id = text "m1" })

-- a JSON library over one document
abbrev pub library : Json → JsonText
library v = record { dumps = λ w. "{}"; loads = λ s. if str_eq s "{}" then some v else none }

decode_server-encode_server_example :
    decode_server py (library (obj (of_dict (server_frame_to_dict py server_delta)))) (
      encode_server py
        (library (obj (of_dict (server_frame_to_dict py server_delta))))
        server_delta)
    ≡ ok server_delta
decode_server-encode_server_example =
    decode_server-encode_server py (library (obj (of_dict (server_frame_to_dict py server_delta))))
      server_delta (inr refl) refl

decode_client-encode_client_example :
    decode_client py (library (obj (of_dict (client_frame_to_dict py client_input)))) (
      encode_client py
        (library (obj (of_dict (client_frame_to_dict py client_input))))
        client_input)
    ≡ ok client_input
decode_client-encode_client_example =
    decode_client-encode_client py (library (obj (of_dict (client_frame_to_dict py client_input))))
      client_input tt refl

-- {"v": version, "type": "ping"}
abbrev pub ping_of : Json → Json
ping_of v = obj (Fields.field "v" v (Fields.field "type" (text "ping") Fields.end))

ping_run : decode_client py (library (ping_of (int (pos 1)))) "{}" ≡ ok (ClientFrame.ping null)
unfolding decode_client parse_envelope decode_json check_envelope is_version client_frame Dict.get
    to_dict
ping_run = refl

-- another version is told from a text that is no object
versions :
    (decode_client py (library (ping_of (int (pos 2)))) "{}" ≡ raise version_mismatch)
    × (decode_client py (library (arr Items.nil)) "{}" ≡ raise decode_error)
unfolding decode_client parse_envelope decode_json check_envelope is_version Dict.get to_dict
versions = (refl, refl)

decode_client-Stamped_example :
    Stamped (library (ping_of (int (pos 1)))) "{}" (ClientFrame.ping null)
decode_client-Stamped_example =
    decode_client-Stamped py (library (ping_of (int (pos 1)))) "{}" (ClientFrame.ping null) ping_run
