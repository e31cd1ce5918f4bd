-- ===== src/Server/Session/Handshake/Requested.antt =====
-- server/ws_handler.py: `_requested_subprotocols`, from the scope or the header of the upgrade. A
-- header is Latin-1, where str.strip takes the characters below off.
use Prim.Native.Char.{code}
use lumencast_py.Prelude.{
  ℕ, String, Bool, ◌&&◌, ◌||◌, not, Option, none, some, List, [], ◌∷◌, map, keep, ◌==◌, ltb, str_eq,
  if◌then◌else◌,
}
use lumencast_py.Protocol.LeafPath.{grow}

abbrev pub is_space : ℕ → Bool
is_space n = (ltb 8 n && ltb n 14) || ((ltb 27 n && ltb n 33) || ((n == 133) || (n == 160)))

-- s.lstrip()
unfoldable pub strip_start : String → String
strip_start String.[] = String.[]
strip_start (String.◌∷◌ c s) =
    let rest = strip_start s in if is_space (code c) then rest else String.◌∷◌ c s

-- s.rstrip()
unfoldable pub strip_end : String → String
strip_end String.[] = String.[]
strip_end (String.◌∷◌ c s) =
    let rest = strip_end s in
    if is_space (code c) && str_eq rest "" then String.[] else String.◌∷◌ c rest

unfoldable pub strip : String → String
unfolding strip_start strip_end
strip s = strip_end (strip_start s)

-- s.split(",")
unfoldable pub split_comma : String → List String
split_comma String.[] = "" ∷ []
split_comma (String.◌∷◌ c s) =
    let rest = split_comma s in if code c == b',' then "" ∷ rest else grow c rest

-- `none` where the header is missing or cannot be read
abbrev pub from_header : Option String → List String
from_header none = []
from_header (some header) =
    if str_eq header "" then [] else keep (λ s. not (str_eq s "")) (map strip (split_comma header))

-- `_requested_subprotocols`
unfoldable pub requested_subprotocols : List String → Option String → List String
unfolding strip split_comma keep
requested_subprotocols [] header = from_header header
requested_subprotocols (p ∷ ps) header = p ∷ ps
