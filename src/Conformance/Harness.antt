-- ===== src/Conformance/Harness.antt =====
-- conformance/harness.py: the report of a run, and the shadow state that the runner keeps of what
-- the server has sent. The traffic of one scenario is the parameter `run_one`, over the world that
-- the scenarios share: the server and what reaches it.
pub mod Chosen
pub mod Counts
pub mod Failures
pub mod Mirrored
pub mod Shadow
pub mod Skips
use lumencast_py.Prelude.{
  ℕ, ◌+◌, String, Bool, true, false, not, ◌&&◌, Option, none, some, List, [], ◌∷◌, ◌++◌, any_of,
  str_eq, if◌then◌else◌,
}
use lumencast_py.Prelude.Dict
use lumencast_py.Prelude.Dict.{Dict}
use lumencast_py.Json.{
  Json, null, text, arr, obj, Items, nil, Fields, end, to_dict, to_list, Result, ok, raise,
  type_error,
}
use lumencast_py.Json.Builtins.{Builtins, default, or_else, to_text}
use lumencast_py.Conformance.Scenario.{
  Tag, required, recommended, extended, Target, runtime, StepKind, client_action, set_clock,
  unsupported, Step, Scenario,
}

pub data Outcome : Type 0 where
  pass fail skip : Outcome

pub record Entry : Type 0 where
  pub name : String
  pub tag : Tag
  pub target : Target
  pub outcome : Outcome

pub record Report : Type 0 where
  pub total : ℕ
  pub passed : ℕ
  pub failed : ℕ
  pub skipped : ℕ
  pub results : List Entry

pub record Config : Type 0 where
  pub tag_filter : Option Tag
  pub skip_scenarios : List String

abbrev pub empty_report : Report
empty_report = record { total = 0; passed = 0; failed = 0; skipped = 0; results = [] }

abbrev pub is_runnable : StepKind → Bool
is_runnable client_action = false
is_runnable set_clock = false
is_runnable unsupported = false
is_runnable k = true

unfoldable pub has_unsupported_step : Scenario → Bool
has_unsupported_step sc = any_of (λ (st : Step). not (is_runnable st.kind)) sc.steps

abbrev pub same_tag : Tag → Tag → Bool
same_tag required required = true
same_tag recommended recommended = true
same_tag extended extended = true
same_tag s t = false

abbrev pub filtered_out : Option Tag → Tag → Bool
filtered_out none t = false
filtered_out (some f) t = not (same_tag t f)

abbrev pub is_runtime : Target → Bool
is_runtime runtime = true
is_runtime t = false

-- how a scenario ends, and what it leaves of the world
unfoldable pub outcome_of :
    {W : Type 0} → (Scenario → W → Outcome × W) → Config → Scenario → W → Outcome × W
unfolding has_unsupported_step
outcome_of run_one cfg sc w =
    if any_of (str_eq sc.name) cfg.skip_scenarios
    then (skip, w)
    else if filtered_out cfg.tag_filter sc.tag
    then (skip, w)
    else if is_runtime sc.target
    then (skip, w)
    else if has_unsupported_step sc
    then (skip, w)
    else run_one sc w

-- one round of the loop, from the counting of the total to the result
unfoldable pub count : Outcome → Scenario → Report → Report
count o sc rep =
    let entry : Entry = record { name = sc.name; tag = sc.tag; target = sc.target; outcome = o } in
    let counted = record rep { total = rep.total + 1; results = rep.results ++ entry ∷ [] } in
    elim o [
      | pass ↦ record counted { passed = rep.passed + 1 }
      | fail ↦ record counted { failed = rep.failed + 1 }
      | skip ↦ record counted { skipped = rep.skipped + 1 }
    ]

unfoldable pub run_each :
    {W : Type 0} → (Scenario → W → Outcome × W) → Config → List Scenario → Report → W → Report
unfolding outcome_of count
run_each run_one cfg [] rep w = rep
run_each run_one cfg (sc ∷ scs) rep w =
    let (o, after) = outcome_of run_one cfg sc w in run_each run_one cfg scs (count o sc rep) after

unfoldable pub run_scenarios :
    {W : Type 0} → (Scenario → W → Outcome × W) → Config → List Scenario → W → Report
unfolding run_each
run_scenarios run_one cfg scs w = run_each run_one cfg scs empty_report w

module _ (py : Builtins) where
  unfoldable pub absorb_patches : List Json → Dict Json → Dict Json
  absorb_patches [] st = st
  absorb_patches (obj p ∷ ps) st = elim (Dict.get "path" (to_dict p)) [
    | none ↦ absorb_patches ps st
    | some path ↦
        absorb_patches ps
          (Dict.put (to_text py path) (default (Dict.get "value" (to_dict p)) null) st)
  ]
  absorb_patches (p ∷ ps) st = absorb_patches ps st

  abbrev pub absorb_state : Json → Dict Json → Dict Json
  absorb_state (obj fs) st = Dict.update [] (to_dict fs)
  absorb_state v st = st

  -- the loop over the patches: the keys of an object and the characters of a text are skipped, and
  -- another value cannot be iterated
  abbrev pub absorb_list : Json → Dict Json → Result (Dict Json)
  absorb_list (arr xs) st = ok (absorb_patches (to_list xs) st)
  absorb_list (obj fs) st = ok st
  absorb_list (text s) st = ok st
  absorb_list v st = raise type_error

  abbrev pub absorb_typed : Option Json → Dict Json → Dict Json → Result (Dict Json)
  absorb_typed (some (text t)) frame st =
      if str_eq t "snapshot"
      then ok (absorb_state (or_else py (default (Dict.get "state" frame) null) (obj end)) st)
      else if str_eq t "delta"
      then absorb_list (or_else py (default (Dict.get "patches" frame) (arr nil)) (arr nil)) st
      else ok st
  absorb_typed v frame st = ok st

  -- `_absorb_server_frame`
  unfoldable pub absorb_server_frame : Dict Json → Dict Json → Result (Dict Json)
  absorb_server_frame frame st = absorb_typed (Dict.get "type" frame) frame st
