-- ===== src/Interop/HttpDriver/Bundles.antt =====
-- interop/http_driver.py: what a set-up sends of a scenario: its bundles and its initial state.
use lumencast_py.Prelude.{
  String, Bool, true, false, not, ◌&&◌, ◌||◌, Option, none, some, List, [], ◌∷◌, map, str_eq,
  if◌then◌else◌,
}
use lumencast_py.Prelude.Dict
use lumencast_py.Prelude.Dict.{Dict}
use lumencast_py.Json.{
  Json, text, arr, obj, end, field, to_dict, of_dict, of_list, Result, ok, raise, attribute_error,
  ◌>>=◌,
}
use lumencast_py.Conformance.Match.{sentinel_any, sentinel_any_hash}
use lumencast_py.Conformance.Placeholders.{strip_prefix, is_some}
use lumencast_py.Conformance.Scenario.{Scenario, Step, StepKind, server_sends, BundleDecl}
use lumencast_py.Server.Scene.{default_scene_version}

-- a text that is neither empty nor the sentinel
abbrev pub candidate : String → Option Json → Option String
candidate sentinel (some (text s)) = if str_eq s "" || str_eq s sentinel then none else some s
candidate sentinel v = none

-- the first one that was found
abbrev pub or_candidate : String → Option String → String
or_candidate found o = if str_eq found "" then elim o [ none ↦ "" | some s ↦ s ] else found

abbrev pub is_server_sends : StepKind → Bool
is_server_sends server_sends = true
is_server_sends kind = false

-- step.frame.get(key), for a frame that is an object
abbrev pub first_in : Json → String × String → Result (String × String)
first_in (obj fs) (sid, h) = ok (
  or_candidate sid (candidate sentinel_any (Dict.get "scene_id" (to_dict fs))),
  or_candidate h (candidate sentinel_any_hash (Dict.get "scene_version" (to_dict fs))),
)
first_in frame found = raise attribute_error

abbrev pub both_found : String × String → Bool
both_found (sid, h) = not (str_eq sid "") && not (str_eq h "")

-- the loop of `_first_scene_id_and_hash`
unfoldable pub first_from : List Step → String × String → Result (String × String)
first_from [] found = ok found
first_from (st ∷ sts) found =
    let skip = first_from sts found in
    if is_server_sends st.kind
    then (first_in st.frame found >>= λ next. elim (both_found next) [
      | true ↦ ok next
      | false ↦ first_from sts next
    ])
    else skip

unfoldable pub first_scene_id_and_hash : Scenario → Result (String × String)
unfolding first_from
first_scene_id_and_hash sc = first_from sc.steps ("", "")

abbrev pub is_sentinel : Json → Bool
is_sentinel (text s) = str_eq s sentinel_any || str_eq s sentinel_any_hash
is_sentinel v = false

-- the keys of a dict are distinct, so each is written once
unfoldable pub without_sentinels : Dict Json → Dict Json
without_sentinels [] = []
without_sentinels ((k, v) ∷ d) =
    let rest = without_sentinels d in if is_sentinel v then rest else (k, v) ∷ rest

abbrev pub is_snapshot : Option Json → Bool
is_snapshot (some (text t)) = str_eq t "snapshot"
is_snapshot v = false

abbrev pub state_in : Option Json → Option (Dict Json)
state_in (some (obj fs)) = some (without_sentinels (to_dict fs))
state_in v = none

abbrev pub extract_in : Json → Result (Option (Dict Json)) → Result (Option (Dict Json))
extract_in (obj fs) rest =
    if is_snapshot (Dict.get "type" (to_dict fs))
    then ok (state_in (Dict.get "state" (to_dict fs)))
    else rest
extract_in frame rest = raise attribute_error

unfoldable pub extract_from : List Step → Result (Option (Dict Json))
unfolding without_sentinels
extract_from [] = ok none
extract_from (st ∷ sts) =
    let rest = extract_from sts in
    if is_server_sends st.kind then extract_in st.frame rest else rest

-- `_extract_initial_state`
unfoldable pub extract_initial_state : Scenario → Result (Option (Dict Json))
unfolding extract_from
extract_initial_state sc = extract_from sc.steps

-- the id of a declared bundle, which its body overrides
abbrev pub id_of : BundleDecl → Option Json → String
id_of b (some (text sid)) = if str_eq sid "" then b.id else sid
id_of b v = b.id

abbrev pub declared : BundleDecl → Json
declared b = obj (
    of_dict (
      ("id", text (id_of b (Dict.get "scene_id" b.inline)))
      ∷ ("hash", text b.hash)
      ∷ ("inline", obj (of_dict b.inline))
      ∷ []))

-- {"path": path} for the paths under `__inputs`
unfoldable pub input_paths : Dict Json → List Json
input_paths [] = []
input_paths ((path, v) ∷ d) =
    let rest = input_paths d in
    if is_some (strip_prefix "__inputs." path)
    then obj (field "path" (text path) end) ∷ rest
    else rest

abbrev pub inline_with : List Json → Dict Json
inline_with [] = []
inline_with (p ∷ ps) = ("operator_inputs", arr (of_list (p ∷ ps))) ∷ []

abbrev pub or_no_state : Option (Dict Json) → Dict Json
or_no_state none = []
or_no_state (some d) = d

abbrev pub or_text : String → String → String
or_text s t = if str_eq s "" then t else s

-- the bundle of a scenario that declares none
unfoldable pub synthetic : Scenario → String × String → Option (Dict Json) → Dict Json
unfolding input_paths
synthetic sc (sid, h) state =
    ("id", text (or_text sid sc.name))
    ∷ ("hash", text (or_text h default_scene_version))
    ∷ ("inline", obj (of_dict (inline_with (input_paths (or_no_state state)))))
    ∷ []

abbrev pub bundles_of : Scenario → List BundleDecl → Result (List Json)
bundles_of sc [] = do
  found ← first_scene_id_and_hash sc
  state ← extract_initial_state sc
  ok (obj (of_dict (synthetic sc found state)) ∷ [])
bundles_of sc (b ∷ bs) = ok (map declared (b ∷ bs))

-- `_bundles_for`
unfoldable pub bundles_for : Scenario → Result (List Json)
unfolding first_scene_id_and_hash extract_initial_state synthetic
bundles_for sc = bundles_of sc sc.bundles
