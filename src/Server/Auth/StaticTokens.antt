-- ===== src/Server/Auth/StaticTokens.antt =====
-- server/auth.py: `StaticTokens`. Its lock makes each method one step on the map.
use lumencast_py.Prelude.{String, Option, none, []}
use lumencast_py.Prelude.Dict
use lumencast_py.Prelude.Dict.{Dict}
use lumencast_py.Json.{Json, text, arr, obj, Result, ok, raise, type_error}
use lumencast_py.Server.Auth.{Identity}

-- `none` is the AuthError
unfoldable pub authenticate : Dict Identity → String → Option Identity
authenticate tokens token = Dict.get token tokens

-- the token of a frame, which is any JSON value: a list or an object has no hash, and another value
-- is no key
unfoldable pub authenticate_value : Dict Identity → Json → Result (Option Identity)
unfolding authenticate
authenticate_value tokens (text token) = ok (authenticate tokens token)
authenticate_value tokens (arr xs) = raise type_error
authenticate_value tokens (obj fs) = raise type_error
authenticate_value tokens v = ok none

unfoldable pub set : Dict Identity → String → Identity → Dict Identity
set tokens token identity = Dict.put token identity tokens

unfoldable pub delete : Dict Identity → String → Dict Identity
delete tokens token = Dict.remove token tokens

unfoldable pub reset : Dict Identity → Dict Identity
reset tokens = []

unfoldable pub snapshot : Dict Identity → Dict Identity
snapshot tokens = tokens
