-- ===== src/Interop/HttpDriver.antt =====
-- interop/http_driver.py: the driver that reaches a server through its control plane. The HTTP
-- client is a parameter over the state of what it reaches.
pub mod Bundles
pub mod Extracted
pub mod Expected
pub mod Reaching
pub mod Serves
pub mod Health
pub mod Healthy
use Prim.Native.Char.{code}
use Prim.Native.String.{◌++◌ as cat}
use lumencast_py.Prelude.{
  ℕ, String, Bool, true, false, not, ◌&&◌, ◌||◌, Option, none, some, List, [], ◌∷◌, map, ◌==◌,
  str_eq, if◌then◌else◌,
}
use lumencast_py.Prelude.Dict
use lumencast_py.Prelude.Dict.{Dict}
use lumencast_py.Json.{
  ℤ, pos, Float, Json, null, bool, int, real, text, arr, obj, Items, nil, cons, Fields, end, field,
  to_dict, of_dict, of_list, Result, ok, raise, Exception, value_error, attribute_error,
  runtime_error, ◌>>=◌,
}
use lumencast_py.Json.Builtins.{Builtins}
use lumencast_py.Conformance.Match.{float_eq, sentinel_any, sentinel_any_hash}
use lumencast_py.Conformance.Placeholders.{strip_prefix, is_some}
use lumencast_py.Conformance.Scenario.{Scenario, Step, StepKind, server_sends, BundleDecl}
use lumencast_py.Server.Scene.{default_scene_version}
use lumencast_py.Interop.HttpDriver.Bundles.{
  candidate, or_candidate, is_server_sends, first_in, both_found, first_from,
  first_scene_id_and_hash, is_sentinel, without_sentinels, is_snapshot, state_in, extract_in,
  extract_from, extract_initial_state, id_of, declared, input_paths, inline_with, or_no_state,
  or_text, synthetic, bundles_of, bundles_for,
}

unfoldable pub canonical_interop_tokens : Dict String
canonical_interop_tokens =
    ("$TOKEN_OPERATOR", "interop-tok-operator-7f3a")
    ∷ ("$TOKEN_VIEWER", "interop-tok-viewer-7f3a")
    ∷ ("$TOKEN_SERVICE", "interop-tok-service-7f3a")
    ∷ ("$TOKEN_TEST", "interop-tok-test-7f3a")
    ∷ ("$TOKEN_INVALID", "interop-tok-invalid-7f3a")
    ∷ []

-- A response: its status, and its body where that is JSON.
pub record Answer : Type 0 where
  pub status : ℕ
  pub body : Option Json

-- The client. A request may raise.
pub record Http (S : Type 0) : Type 0 where
  pub get : String → S → Result Answer
  pub post : String → Option Json → S → Result Answer × S

pub record HttpDriver : Type 0 where
  pub control_url : String
  pub tokens : Dict String

-- url.rstrip("/")
unfoldable pub strip_slashes : String → String
strip_slashes String.[] = String.[]
strip_slashes (String.◌∷◌ c s) =
    let rest = strip_slashes s in
    if (code c == b'/') && str_eq rest "" then String.[] else String.◌∷◌ c rest

abbrev pub tokens_or_canonical : Dict String → Dict String
unfolding canonical_interop_tokens
tokens_or_canonical [] = canonical_interop_tokens
tokens_or_canonical (t ∷ ts) = t ∷ ts

unfoldable pub init : String → Dict String → HttpDriver
unfolding strip_slashes tokens_or_canonical
init control_url tokens = record {
  control_url = strip_slashes control_url;
  tokens = tokens_or_canonical tokens;
}

abbrev pub tokens_json : Dict String → Dict Json
tokens_json [] = []
tokens_json ((k, v) ∷ d) = (k, text v) ∷ tokens_json d

abbrev pub state_entry : Option (Dict Json) → Dict Json
state_entry none = []
state_entry (some d) = ("initial_state", obj (of_dict d)) ∷ []

-- the body of the set-up, without an initial state that is None
unfoldable pub setup_body : HttpDriver → String → Scenario → Result (Dict Json)
unfolding bundles_for extract_initial_state
setup_body drv scenario_name sc = do
  bundles ← bundles_for sc
  state ← extract_initial_state sc
  ok (
      ("scenario", text scenario_name)
      ∷ ("tokens", obj (of_dict (tokens_json drv.tokens)))
      ∷ ("bundles", arr (of_list bundles))
      ∷ state_entry state)

-- resp.json()
abbrev pub json_of : Option Json → Result Json
json_of none = raise value_error
json_of (some v) = ok v

-- body.get(key)
abbrev pub get_in : String → Json → Result (Option Json)
get_in key (obj fs) = ok (Dict.get key (to_dict fs))
get_in key v = raise attribute_error

abbrev pub url_in : Option Json → Result String
url_in (some (text url)) = if str_eq url "" then raise runtime_error else ok url
url_in v = raise runtime_error

abbrev pub url_of : Answer → Result String
url_of a = elim (a.status == 200) [
  | true ↦ (do v ← json_of a.body; url ← get_in "ws_url" v; url_in url)
  | false ↦ raise runtime_error
]

-- `_problem_error` where the status is another
abbrev pub expect_status : ℕ → Answer → Result (Unit {0})
expect_status status a = if a.status == status then ok tt else raise runtime_error

abbrev pub is_ok : Option Json → Bool
is_ok (some (text s)) = str_eq s "ok"
is_ok v = false

module _ {S : Type 0} (http : Http S) where
  -- `setup` once the body is made
  abbrev pub post_setup : HttpDriver → Result (Dict Json) → S → Result (String × Dict String) × S
  post_setup drv (raise e) s = (raise e, s)
  post_setup drv (ok body) s =
      let (r, s') = http.post (cat drv.control_url "/test/setup") (some (obj (of_dict body))) s in
      ((do a ← r; url ← url_of a; ok (url, drv.tokens)), s')

  unfoldable pub setup : HttpDriver → String → Scenario → S → Result (String × Dict String) × S
  unfolding setup_body
  setup drv scenario_name sc s = post_setup drv (setup_body drv scenario_name sc) s

  abbrev pub state_of : Result Answer → Result (Option (Dict Json))
  state_of (raise e) = ok none
  state_of (ok a) = elim (a.status == 200) [
    | false ↦ ok none
    | true ↦ elim a.body [
      | none ↦ ok none
      | some v ↦ (do
        state ← get_in "state" v
        ok (elim state [ none ↦ none | some w ↦ elim w [ obj fs ↦ some (to_dict fs) | _ ↦ none ] ]))
    ]
  ]

  unfoldable pub snapshot_state : HttpDriver → S → Result (Option (Dict Json))
  snapshot_state drv s = state_of (http.get (cat drv.control_url "/test/state") s)

  unfoldable pub emit : HttpDriver → List Json → S → Result (Unit {0}) × S
  emit drv patches s =
      let (r, s') =
        http.post (cat drv.control_url "/test/emit")
          (some (obj (field "patches" (arr (of_list patches)) end))) s in
      (r >>= expect_status 204, s')

  unfoldable pub reset : HttpDriver → S → Result (Unit {0}) × S
  reset drv s =
      let (r, s') = http.post (cat drv.control_url "/test/reset") none s in
      (r >>= expect_status 204, s')

  module _ (py : Builtins) where
    -- version == 1
    abbrev pub equals_one : Option Json → Bool
    equals_one (some (int (pos n))) = n == 1
    equals_one (some (bool b)) = b
    equals_one (some (real x)) = elim (py.float_of_int (pos 1)) [
      | none ↦ false
      | some one ↦ float_eq py x one
    ]
    equals_one v = false

    abbrev pub check_status : Bool → Bool → Result (Unit {0})
    check_status false version = raise runtime_error
    check_status true false = raise runtime_error
    check_status true true = ok tt

    abbrev pub check_health : Json → Result (Unit {0})
    check_health v = do
      status ← get_in "status" v
      version ← get_in "control_plane_version" v
      check_status (is_ok status) (equals_one version)

    unfoldable pub health_check : HttpDriver → S → Result (Unit {0})
    health_check drv s = http.get (cat drv.control_url "/test/health") s >>= λ a.
        elim (a.status == 200) [
          | false ↦ raise runtime_error
          | true ↦ json_of a.body >>= check_health
        ]
