-- ===== src/Interop/HttpDriver/Serves.antt =====
-- The driver against the control plane: what a set-up of a scenario without bundles leaves.
use Prim.Native.String.{◌++◌ as cat}
use lumencast_py.Prelude.{
  ℕ, String, ◌≡◌, ◌≢◌, refl, ap, ◌∙◌, false, Option, none, some, List, [], ◌∷◌, All, str_eq, arith,
  eq_iff, inl, inr, Bool-cases,
}
use lumencast_py.Prelude.Dict.{Dict, get, update}
use lumencast_py.Json.{
  Json, text, arr, obj, nil, cons, to_dict, of_dict, of_list, to_list, to_dict-of_dict,
  to_list-of_list, Result, ok,
}
use lumencast_py.Json.Builtins.{Builtins, truthy, to_text}
use lumencast_py.Conformance.Scenario.{Scenario}
use lumencast_py.Server.Input.{InputSpec}
use lumencast_py.Server.Input.Inline.{parse_inline_specs, read_specs}
use lumencast_py.Server.Kit.{active_scene}
use lumencast_py.Interop.ControlPlane
use lumencast_py.Interop.ControlPlane.{
  Plane, Response, problem, content, no_content, Handled, bundle_specs, scene_name, bundle_name,
  effective_id, dict_or_empty, state_or_defaults, cleared,
}
use lumencast_py.Interop.ControlPlane.Setup.{Ready, setup-Ready}
use lumencast_py.Interop.HttpDriver.{
  HttpDriver, tokens_json, state_entry, setup_body, post_setup, setup, url_of,
}
use lumencast_py.Interop.HttpDriver.Bundles.{
  first_scene_id_and_hash, extract_initial_state, input_paths, inline_with, or_no_state, or_text,
  synthetic, bundles_of, bundles_for,
}
use lumencast_py.Interop.HttpDriver.Reaching.{reaching, url_same}
use lumencast_py.Interop.HttpDriver.Expected.{Expects, extract-Expects}
use lumencast_py.Interop.HttpDriver.Extracted.{HasObject, first_ok, extract_ok, specs_ok}

state_kept : (d : Dict Json) → state_or_defaults d [] ≡ d
unfolding state_or_defaults
state_kept [] = refl
state_kept (x ∷ d) = refl

module _ (py : Builtins) where
  specs_of :
      (ps : List Json) (specs : List InputSpec)
      → read_specs py ps ≡ ok specs
      → (more : List InputSpec) × (bundle_specs py (inline_with ps) ≡ ok more)
  unfolding bundle_specs get truthy of_list parse_inline_specs to_list
  specs_of [] specs e = ([], refl)
  specs_of (p ∷ ps) specs e = (specs, ap (read_specs py) (ap (◌∷◌ p) (to_list-of_list ps)) ∙ e)

  no_key :
      (ps : List Json)
      → (get "scene_id" (inline_with ps) ≡ none) × (get "defaults" (inline_with ps) ≡ none)
  unfolding get
  no_key [] = (refl, refl)
  no_key (p ∷ ps) = (refl, refl)

  inline_lem :
      (sc : Scenario) (found : String × String) (st : Option (Dict Json))
      → dict_or_empty (get "inline" (synthetic sc found st))
        ≡ inline_with (input_paths (or_no_state st))
  unfolding synthetic get
  inline_lem sc found st = to_dict-of_dict _

  or_text_ne : (s t : String) → t ≢ "" → or_text s t ≢ ""
  or_text_ne s t ne e = elim (Bool-cases (str_eq s "")) [
    | inl empty ↦ ne (rw empty at e)
    | inr filled ↦ absurd (ground (arith, eq_iff s "", filled, (rw filled at e)))
  ]

  name_lem :
      (sc : Scenario) (found : String × String) (st : Option (Dict Json))
      → scene_name py (synthetic sc found st) ≡ or_text found.0 sc.name
  unfolding scene_name bundle_name effective_id
  name_lem sc found st =
      rw (inline_lem sc found st, (no_key (input_paths (or_no_state st))).0)
        (unfold synthetic get to_text in refl)

  state_lem :
      (sc : Scenario) (found : String × String) (st : Option (Dict Json)) (body : Dict Json)
      → dict_or_empty (get "initial_state" body) ≡ or_no_state st
      → state_or_defaults
          (dict_or_empty (get "initial_state" body))
          (dict_or_empty (get "defaults" (dict_or_empty (get "inline" (synthetic sc found st)))))
        ≡ or_no_state st
  state_lem sc found st body e =
      rw (e, inline_lem sc found st, (no_key (input_paths (or_no_state st))).1)
        (state_kept (or_no_state st))

-- the body that the driver posts
abbrev body_of : HttpDriver → String → Scenario → String × String → Option (Dict Json) → Dict Json
body_of drv scenario_name sc found st =
    ("scenario", text scenario_name)
    ∷ ("tokens", obj (of_dict (tokens_json drv.tokens)))
    ∷ ("bundles", arr (of_list (obj (of_dict (synthetic sc found st)) ∷ [])))
    ∷ state_entry st

body_lem :
    (drv : HttpDriver) (scenario_name : String) (sc : Scenario) (found : String × String)
    (st : Option (Dict Json))
    → sc.bundles ≡ []
    → first_scene_id_and_hash sc ≡ ok found
    → extract_initial_state sc ≡ ok st
    → setup_body drv scenario_name sc ≡ ok (body_of drv scenario_name sc found st)
unfolding setup_body bundles_for
body_lem drv scenario_name sc found st none_declared f e =
    rw (none_declared, bundles_of) (rw (f, e) refl)

initial_lem :
    (drv : HttpDriver) (scenario_name : String) (sc : Scenario) (found : String × String)
    (st : Option (Dict Json))
    → dict_or_empty (get "initial_state" (body_of drv scenario_name sc found st)) ≡ or_no_state st
unfolding get
initial_lem drv scenario_name sc found none = refl
initial_lem drv scenario_name sc found (some d) = to_dict-of_dict d

bundles_lem :
    (drv : HttpDriver) (scenario_name : String) (sc : Scenario) (found : String × String)
    (st : Option (Dict Json))
    → get "bundles" (body_of drv scenario_name sc found st)
      ≡ some (arr (cons (obj (of_dict (synthetic sc found st))) nil))
unfolding get of_list
bundles_lem drv scenario_name sc found st = refl

-- What the driver's set-up leaves of the server.
pub record Prepared (drv : HttpDriver) (ws_url : String) (st : Option (Dict Json))
    (h : Result (String × Dict String) × Plane) : Type 0 where
  pub after : Plane
  pub active : ℕ
  pub answered : h ≡ (ok (ws_url, drv.tokens), after)
  pub serving : active_scene after.server ≡ some active
  pub state : (after.server.at active).store.state ≡ update [] (or_no_state st)

url_lem :
    (ws_url : String) (more : Dict Json)
    → ws_url ≢ ""
    → url_of (record { status = 200; body = some (obj (of_dict (("ws_url", text ws_url) ∷ more))) })
      ≡ ok ws_url
unfolding of_dict to_dict get
url_lem ws_url more ne = rw (filled ws_url ne) refl
  where
    filled : (s : String) → s ≢ "" → str_eq s "" ≡ false
    filled s ne = ground (arith, eq_iff s "")

module _ (py : Builtins) where
  posted :
      (drv : HttpDriver) (ws_url : String) (body b st : Dict Json) (pl cleared_to : Plane)
      → ws_url ≢ ""
      → (r : Ready py ws_url b st cleared_to
          (ControlPlane.setup py ws_url (some (obj (of_dict body))) pl))
      → post_setup (reaching py drv.control_url ws_url) drv (ok body) pl
        ≡ (ok (ws_url, drv.tokens), r.after)
  posted drv ws_url body b st pl cleared_to ne r =
      rw (url_same (cat drv.control_url "/test/setup"), r.answered_ok)
        (rw (url_lem ws_url _ ne) refl)

  prepared :
      (drv : HttpDriver) (ws_url scenario_name : String) (sc : Scenario) (pl : Plane)
      (found : String × String) (st : Option (Dict Json)) (specs : List InputSpec)
      → ws_url ≢ ""
      → sc.name ≢ ""
      → sc.bundles ≡ []
      → first_scene_id_and_hash sc ≡ ok found
      → extract_initial_state sc ≡ ok st
      → bundle_specs py (inline_with (input_paths (or_no_state st))) ≡ ok specs
      → Prepared drv ws_url st (setup (reaching py drv.control_url ws_url) drv scenario_name sc pl)
  unfolding setup
  prepared drv ws_url scenario_name sc pl found st specs url_ne name_ne none_declared f e parsed =
      let body = body_of drv scenario_name sc found st in
      let b = synthetic sc found st in
      let ready =
        setup-Ready py ws_url (of_dict body) (of_dict b) pl specs
          (rw (to_dict-of_dict body) (bundles_lem drv scenario_name sc found st))
          (rw (to_dict-of_dict b) (rw (inline_lem py sc found st) parsed))
          (rw (to_dict-of_dict b)
            (rw (name_lem py sc found st) (or_text_ne py found.0 sc.name name_ne))) in
      record {
        after = ready.after;
        active = ready.active;
        answered =
            rw (body_lem drv scenario_name sc found st none_declared f e)
              (posted drv ws_url body _ _ pl _ url_ne ready);
        serving = ready.serving;
        state =
            ready.state
            ∙ ap (update []) (
                rw (to_dict-of_dict body, to_dict-of_dict b)
                  (state_lem py sc found st body (initial_lem drv scenario_name sc found st)));
      }

  -- Against the control plane of a server that knows its URL, the driver's set-up of a scenario
  -- that has a name, declares no bundle and expects objects from the server succeeds: it gives the
  -- URL of the server and the driver's tokens, and the server serves a scene whose state is the one
  -- that the scenario's first snapshot expects, without its sentinels, or empty.
  pub setup-Prepared :
      (drv : HttpDriver) (ws_url scenario_name : String) (sc : Scenario) (pl : Plane)
      → ws_url ≢ ""
      → sc.name ≢ ""
      → sc.bundles ≡ []
      → All HasObject sc.steps
      → (st : Option (Dict Json)) × (extract_initial_state sc ≡ ok st)
        × Expects sc.steps st
        × Prepared drv ws_url st
            (setup (reaching py drv.control_url ws_url) drv scenario_name sc pl)
  unfolding setup first_scene_id_and_hash extract_initial_state
  setup-Prepared drv ws_url scenario_name sc pl url_ne name_ne none_declared objects =
      let (found, f) = first_ok sc.steps ("", "") objects in
      let (st, e) = extract_ok sc.steps objects in
      let (read, parsed) = specs_ok py (or_no_state st) in
      let (specs, s) = specs_of py (input_paths (or_no_state st)) read parsed in
      (
        st,
        e,
        extract-Expects sc.steps st e,
        prepared drv ws_url scenario_name sc pl found st specs url_ne name_ne none_declared f e s,
      )
