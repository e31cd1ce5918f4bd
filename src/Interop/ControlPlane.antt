-- ===== src/Interop/ControlPlane.antt =====
-- interop/control_plane.py: the handlers of the `/test/*` endpoints over a server and its tokens.
-- A handler gives back its response, or the exception that it lets through, beside the state.
pub mod Tokens
pub mod Setup
mod Installing
unfoldable pub use Installing.*
use lumencast_py.Prelude.{
  ℕ, String, Bool, true, false, Option, none, some, List, [], ◌∷◌, str_eq, if◌then◌else◌,
}
use lumencast_py.Prelude.Dict
use lumencast_py.Prelude.Dict.{Dict}
use lumencast_py.Json.{
  pos, Json, null, int, text, arr, obj, Items, nil, cons, Fields, end, field, to_dict, of_dict,
  to_list, Result, ok, raise, Exception, ◌>>=◌,
}
use lumencast_py.Json.Builtins.{Builtins, default, or_else, truthy, to_text}
use lumencast_py.Protocol.Types.{Role, viewer, operator, service, test}
use lumencast_py.Server.Auth.{Identity}
use lumencast_py.Server.Auth.StaticTokens
use lumencast_py.Server.Input.{InputSpec}
use lumencast_py.Server.Input.Inline.{parse_inline_specs}
use lumencast_py.Server.Kit
use lumencast_py.Server.Kit.{Server, new_scene, set_active, active_scene, store}
use lumencast_py.Server.Scene
use lumencast_py.Server.Scene.{Scene, default_scene_version}
use lumencast_py.Server.Subscription.{Heap}

-- `tokens` is none where the authenticator is not a StaticTokens.
pub record Plane : Type 0 where
  pub server : Server
  pub tokens : Option (Dict Identity)

pub data Response : Type 0 where
  problem : ℕ → String → Response
  content : Json → Response
  no_content : Response

abbrev pub Handled : Type 0
Handled = Result Response × Plane

-- x if isinstance(x, dict) else {}
abbrev pub dict_or_empty : Option Json → Dict Json
dict_or_empty (some (obj fs)) = to_dict fs
dict_or_empty v = []

-- `inline.scene_id` overrides the id of the bundle
unfoldable pub effective_id : String → Option Json → String
effective_id id (some (text sid)) = if str_eq sid "" then id else sid
effective_id id v = id

abbrev pub version_or_default : String → String
version_or_default h = if str_eq h "" then default_scene_version else h

-- `initial_state` takes precedence over the defaults of the bundle
unfoldable pub state_or_defaults : Dict Json → Dict Json → Dict Json
state_or_defaults [] defaults = defaults
state_or_defaults (x ∷ xs) defaults = x ∷ xs

module _ (py : Builtins) where
  -- str(bundle.get("id", "")), and str(bundle.get("hash") or "")
  unfoldable pub bundle_name : Dict Json → String
  bundle_name b = to_text py (default (Dict.get "id" b) (text ""))

  unfoldable pub bundle_hash : Dict Json → String
  bundle_hash b = to_text py (or_else py (default (Dict.get "hash" b) null) (text ""))

  -- the id that a bundle is registered under
  unfoldable pub scene_name : Dict Json → String
  unfolding bundle_name effective_id
  scene_name b =
      effective_id (bundle_name b) (Dict.get "scene_id" (dict_or_empty (Dict.get "inline" b)))

  -- the specs of the primary bundle, where it has any
  unfoldable pub bundle_specs : Dict Json → Result (List InputSpec)
  bundle_specs inline =
      let inputs = default (Dict.get "operator_inputs" inline) null in
      if truthy py inputs then parse_inline_specs py inputs else ok []

  -- the loop over the secondary bundles
  unfoldable pub register_each : List Json → Server → Server
  unfolding scene_name bundle_hash
  register_each [] w = w
  register_each (obj b ∷ bs) w =
      register_each bs
        (new_scene true (scene_name (to_dict b)) (version_or_default (bundle_hash (to_dict b))) []
          w).1
  register_each (b ∷ bs) w = register_each bs w

  -- `await scene.set(state)` on scene `i`; `none` is the EmptyPatchesError
  unfoldable pub seed : ℕ → Dict Json → Server → Option Server
  seed i [] w = some w
  seed i (x ∷ xs) w = elim (Scene.set (x ∷ xs) (w.at i) w.heap) [
    | none ↦ none
    | some (s, h) ↦ some (store i s h w)
  ]

  abbrev pub answered : String → Dict Json → List Json → Plane → Option Server → Handled
  answered ws_url b rest pl none = (ok (problem 400 "bad-initial-state"), pl)
  answered ws_url b rest pl (some w) = elim (set_active (scene_name b) w) [
    -- the KeyError, which the registration before it rules out
    | none ↦ (raise Exception.key_error, record pl { server = w })
    | some v ↦ (
      ok (
          content (
            obj (
              of_dict (
                ("ws_url", text ws_url)
                ∷ ("scene_id", text (scene_name b))
                ∷ ("scene_version", text (bundle_hash b))
                ∷ [])))),
      record pl { server = register_each rest v },
    )
  ]

  -- `set_primary` once the specs are read
  abbrev pub serve_bundle :
      String → Dict Json → Dict Json → List Json → Plane → Result (List InputSpec) → Handled
  serve_bundle ws_url body b rest pl (raise e) = (raise e, pl)
  serve_bundle ws_url body b rest pl (ok specs) =
      let inline = dict_or_empty (Dict.get "inline" b) in
      let (i, w) =
        new_scene true (scene_name b) (version_or_default (bundle_hash b)) specs pl.server in
      let state =
        state_or_defaults (dict_or_empty (Dict.get "initial_state" body))
          (dict_or_empty (Dict.get "defaults" inline)) in
      answered ws_url b rest (record pl { server = w }) (seed i state w)

  abbrev pub start_bundles : String → Dict Json → Items → Plane → Handled
  start_bundles ws_url body (cons (obj b) rest) pl =
      serve_bundle ws_url body (to_dict b) (to_list rest) pl
        (bundle_specs (dict_or_empty (Dict.get "inline" (to_dict b))))
  start_bundles ws_url body (cons b rest) pl = (ok (problem 400 "bad-bundle"), pl)
  start_bundles ws_url body nil pl = (ok (problem 400 "missing-bundle"), pl)

  -- the server is reset and the tokens installed before the first bundle is looked at
  abbrev pub cleared : Dict Json → Plane → Plane
  cleared body pl = record {
    server = Kit.reset pl.server;
    tokens = elim pl.tokens [
      | none ↦ none
      | some auth ↦ some (install_tokens (Dict.get "tokens" body) auth)
    ];
  }

  abbrev pub start : String → Dict Json → Json → Plane → Handled
  start ws_url body (arr (cons b bs)) pl = start_bundles ws_url body (cons b bs) (cleared body pl)
  start ws_url body v pl = (ok (problem 400 "missing-bundle"), pl)

  -- POST /test/setup; `none` is a body that is no JSON
  unfoldable pub setup : String → Option Json → Plane → Handled
  setup ws_url (some (obj fs)) pl =
      let body = to_dict fs in
      start ws_url body (or_else py (default (Dict.get "bundles" body) null) (arr nil)) pl
  setup ws_url body pl = (ok (problem 400 "bad-body"), pl)

  -- the loop over the patches of an emission; `none` is a patch without a path
  unfoldable pub read_patches : List Json → Dict Json → Option (Dict Json)
  read_patches [] d = some d
  read_patches (obj p ∷ ps) d = elim (Dict.get "path" (to_dict p)) [
    | none ↦ none
    | some path ↦
        read_patches ps (Dict.put (to_text py path) (default (Dict.get "value" (to_dict p)) null) d)
  ]
  read_patches (p ∷ ps) d = none

  abbrev pub emit_on : Dict Json → Plane → Option ℕ → Handled
  emit_on patches pl none = (ok (problem 409 "no-active-scene"), pl)
  emit_on patches pl (some i) = elim (Scene.emit patches none (pl.server.at i) pl.server.heap) [
    | none ↦ (ok (problem 400 "empty-patches"), pl)
    | some (s, h) ↦ (ok no_content, record pl { server = store i s h pl.server })
  ]

  abbrev pub emit_patches : List Json → Plane → Handled
  emit_patches ps pl = elim (read_patches ps []) [
    | none ↦ (ok (problem 400 "bad-patch"), pl)
    | some patches ↦ emit_on patches pl (active_scene pl.server)
  ]

  abbrev pub emit_body : Option Json → Plane → Handled
  emit_body (some (arr (cons p ps))) pl = emit_patches (p ∷ to_list ps) pl
  emit_body v pl = (ok (problem 400 "empty-patches"), pl)

  -- POST /test/emit
  unfoldable pub emit : Option Json → Plane → Handled
  emit (some (obj fs)) pl = emit_body (Dict.get "patches" (to_dict fs)) pl
  emit body pl = (ok (problem 400 "bad-body"), pl)

-- POST /test/reset
unfoldable pub reset : Plane → Handled
reset pl = (
  ok no_content,
  record {
    server = Kit.reset pl.server;
    tokens = elim pl.tokens [ none ↦ none | some auth ↦ some (StaticTokens.reset auth) ];
  },
)

-- GET /test/state
unfoldable pub state : Plane → Response
state pl = elim (active_scene pl.server) [
  | none ↦ problem 409 "no-active-scene"
  | some i ↦
      let s = pl.server.at i in
      content (
        obj (
          of_dict (
            ("scene_id", text s.id)
            ∷ ("scene_version", text s.version)
            ∷ ("state", obj (of_dict (Scene.state s)))
            ∷ [])))
]

-- GET /test/health
abbrev pub health : Response
health = content (
    obj (
      field "status" (text "ok")
        (field "control_plane_version" (int (pos 1)) (field "server" (text "lumencast-py") end))))
