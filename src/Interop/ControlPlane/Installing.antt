-- ===== src/Interop/ControlPlane/Installing.antt =====
-- interop/control_plane.py: `_install_tokens`.
use lumencast_py.Prelude.{String, Option, none, some, [], ◌∷◌, str_eq, if◌then◌else◌}
use lumencast_py.Prelude.Dict.{Dict}
use lumencast_py.Json.{Json, text, obj, to_dict}
use lumencast_py.Protocol.Types.{Role, viewer, operator, service, test}
use lumencast_py.Server.Auth.{Identity}
use lumencast_py.Server.Auth.StaticTokens

-- `_PLACEHOLDER_ROLES.get(placeholder)`
unfoldable pub placeholder_role : String → Option Role
placeholder_role p =
    if str_eq p "$TOKEN_OPERATOR"
    then some operator
    else if str_eq p "$TOKEN_VIEWER"
    then some viewer
    else if str_eq p "$TOKEN_SERVICE"
    then some service
    else if str_eq p "$TOKEN_TEST"
    then some test
    else none

-- the identity of a placeholder that is recognised
unfoldable pub set_token : String → Option Role → String → Dict Identity → Dict Identity
set_token p none v auth = auth
set_token p (some r) v auth =
    StaticTokens.set auth v (record { subject = p; role = some r; paths = [] })

-- one round of the loop of `_install_tokens`
unfoldable pub install_one : String → Json → Dict Identity → Dict Identity
unfolding placeholder_role set_token
install_one p (text v) auth =
    if str_eq p "$TOKEN_INVALID"
    then auth
    else if str_eq v ""
    then auth
    else set_token p (placeholder_role p) v auth
install_one p value auth = auth

unfoldable pub install_each : Dict Json → Dict Identity → Dict Identity
install_each [] auth = auth
install_each ((p, value) ∷ raw) auth = install_each raw (install_one p value auth)

-- `_install_tokens`
unfoldable pub install_tokens : Option Json → Dict Identity → Dict Identity
unfolding install_each
install_tokens (some (obj raw)) auth = install_each (to_dict raw) (StaticTokens.reset auth)
install_tokens raw auth = StaticTokens.reset auth
