-- ===== src/Protocol/Envelope.antt =====
-- protocol/envelope.py: the envelope constants and the JSON text round trip.
use lumencast_py.Prelude.{ℕ, String, Option, some, List, [], ◌∷◌, ◌≡◌}
use lumencast_py.Prelude.Dict.{Dict}
use lumencast_py.Json.{Json, obj, to_dict, Result, ok, raise, value_error}

abbrev pub version : ℕ
version = 1

abbrev pub subprotocol : String
subprotocol = "lsdp.v1"

abbrev pub subprotocol_v1_1 : String
subprotocol_v1_1 = "lsdp.v1.1"

abbrev pub subprotocols : List String
subprotocols = subprotocol_v1_1 ∷ subprotocol ∷ []

-- `json.dumps` and `json.loads`; `none` is the ValueError.
pub record JsonText : Type 0 where
  pub dumps : Json → String
  pub loads : String → Option Json

unfoldable pub encode_json : JsonText → Json → String
encode_json jt value = jt.dumps value

abbrev pub object_of : Option Json → Result (Dict Json)
object_of (some (obj fs)) = ok (to_dict fs)
object_of _ = raise value_error

unfoldable pub decode_json : JsonText → String → Result (Dict Json)
decode_json jt raw = object_of (jt.loads raw)

-- The JSON library reads back what it has written for a value.
abbrev pub ReadsBack : JsonText → Json → Type 0
ReadsBack jt v = jt.loads (jt.dumps v) ≡ some v
