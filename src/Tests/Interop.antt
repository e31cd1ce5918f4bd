-- ===== src/Tests/Interop.antt =====
-- The control plane.
use lumencast_py.Prelude.{◌≡◌, refl, some, none, [], ◌∷◌, arith, eq_iff}
use lumencast_py.Prelude.Dict
use lumencast_py.Prelude.Dict.{Dict}
use lumencast_py.Json.{text, int, pos, arr, obj, nil, cons, Fields, end, field, to_dict, ok}
use lumencast_py.Json.Builtins.{truthy, to_text}
use lumencast_py.Protocol.Types.{Role}
use lumencast_py.Server.Auth.{Identity}
use lumencast_py.Server.Auth.StaticTokens
use lumencast_py.Server.Kit
use lumencast_py.Interop.ControlPlane
use lumencast_py.Interop.ControlPlane.{
  Plane, setup, cleared, install_tokens, bundle_specs, scene_name, bundle_name, effective_id,
  state_or_defaults, dict_or_empty,
}
use lumencast_py.Interop.ControlPlane.Setup.{Served, setup-Served}
use lumencast_py.Interop.ControlPlane.Tokens.{Installed, install_tokens-Installed}
use lumencast_py.Tests.Input.{py, heap}

abbrev bundle : Fields
bundle =
    field "id" (text "main")
      (field "inline" (obj (field "defaults" (obj (field "score" (int (pos 3)) end)) end)) end)

abbrev given : Fields
given = field "$TOKEN_OPERATOR" (text "secret") (field "$TOKEN_INVALID" (text "bad") end)

abbrev request : Fields
request = field "bundles" (arr (cons (obj bundle) nil)) (field "tokens" (obj given) end)

abbrev pub plane : Plane
plane = record {
  server = Kit.init heap;
  tokens = some (("old", record { subject = "x"; role = none; paths = [] }) ∷ []);
}

abbrev operator : Identity
operator = record { subject = "$TOKEN_OPERATOR"; role = some Role.operator; paths = [] }

-- the operator's token is installed, the invalid one is not, and the old one is gone
installed :
    (StaticTokens.authenticate (install_tokens (some (obj given)) []) "secret" ≡ some operator)
    × (StaticTokens.authenticate (install_tokens (some (obj given)) []) "bad" ≡ none)
unfolding install_tokens StaticTokens.authenticate StaticTokens.reset StaticTokens.set
    ControlPlane.install_each ControlPlane.install_one ControlPlane.set_token
    ControlPlane.placeholder_role Dict.get Dict.put to_dict
installed = (refl, refl)

install_tokens-Installed_example : Installed (to_dict given) "secret" operator
install_tokens-Installed_example = install_tokens-Installed given [] "secret" operator installed.0

bundles_run : Dict.get "bundles" (to_dict request) ≡ some (arr (cons (obj bundle) nil))
unfolding Dict.get to_dict
bundles_run = refl

specs_run : bundle_specs py (dict_or_empty (Dict.get "inline" (to_dict bundle))) ≡ ok []
unfolding bundle_specs Dict.get to_dict truthy
specs_run = refl

named : scene_name py (to_dict bundle) ≡ "main"
unfolding scene_name bundle_name effective_id Dict.get to_dict to_text
named = refl

setup-Served_example :
    Served py "ws://host"
      (to_dict request)
      (to_dict bundle)
      plane
      (setup py "ws://host" (some (obj request)) plane)
setup-Served_example =
    setup-Served py "ws://host" request bundle plane [] bundles_run specs_run
      (λ e. ground (arith, eq_iff "main" "", named, e))
