-- ===== src/Tests/Player.antt =====
-- Scenarios: a document that is parsed, and a run that passes.
use lumencast_py.Prelude.{String, ◌≡◌, refl, false, some, none, [], ◌∷◌, any_of, keep}
use lumencast_py.Prelude.Dict
use lumencast_py.Prelude.Dict.{Dict}
use lumencast_py.Json.{
  Json, int, pos, text, arr, obj, nil, cons, Fields, end, field, to_dict, to_list, ok,
}
use lumencast_py.Json.Builtins.{truthy, to_text, to_int}
use lumencast_py.Protocol.Envelope.{JsonText}
use lumencast_py.Conformance.Match.{HashPattern, match_frame, match_value, equal_scalar, number_of}
use lumencast_py.Conformance.Placeholders.{substitute_placeholders, substitute_text, strip_prefix}
use lumencast_py.Conformance.Scenario.{
  Tag, Target, Scenario, Step, kind_of, parse_scenario, bundle_hashes,
}
use lumencast_py.Conformance.Harness.{Outcome, Config, skip, pass, outcome_of, absorb_server_frame}
use lumencast_py.Conformance.Harness.Skips.{outcome_of-unknown}
use lumencast_py.Conformance.Player.{Driver, received, Play, went, run_one, run_steps}
use lumencast_py.Conformance.Player.Played.{Passed, run_one-Passed}
use lumencast_py.Conformance.Player.Recorded.{Recorded, Followed, run_steps-Recorded}
use lumencast_py.Tests.Input.{py}
use lumencast_py.Tests.Codec.{library}
use lumencast_py.Tests.Lsml.{num, dig}

-- a document with a snapshot to expect, and one with a step that nobody knows
abbrev hello : Fields
hello = field "type" (text "snapshot") end

abbrev pub document : String → Json
document kind = obj (
    field "name" (text "hello") (
      field "steps"
        (arr (cons (obj (field "kind" (text kind) (field "frame" (obj hello) end))) nil)) end))

abbrev pub step_of : String → Step
step_of kind = record {
  kind = kind_of kind;
  raw_kind = kind;
  frame = obj hello;
  state = obj end;
  duration_ms = pos 0;
  action = "";
  reason = "";
  extra = [];
}

abbrev pub scenario_of : String → Scenario
scenario_of kind = record {
  name = "hello";
  description = "";
  tag = Tag.required;
  target = Target.any;
  spec_refs = [];
  bundles = [];
  steps = step_of kind ∷ [];
  raw =
      ("name", text "hello")
      ∷ ("steps", arr (cons (obj (field "kind" (text kind) (field "frame" (obj hello) end))) nil))
      ∷ [];
}

program : Unit {0}
unfolding parse_scenario kind_of to_dict to_list Dict.get truthy to_text to_int any_of keep run_one
    substitute_placeholders substitute_text strip_prefix match_frame equal_scalar number_of
    absorb_server_frame bundle_hashes match_value
program = tt

pub parsed : parse_scenario py num dig (document "server-sends") ≡ ok (scenario_of "server-sends")
unfolding program
parsed = refl

parsed_dance : parse_scenario py num dig (document "dance") ≡ ok (scenario_of "dance")
unfolding program
parsed_dance = refl

abbrev config : Config
config = record { tag_filter = none; skip_scenarios = [] }

outcome_of-unknown_example :
    ◌≡◌ {A = Outcome × Unit {0}}
      (outcome_of (λ sc w. (pass, w)) config (scenario_of "dance") tt)
      (skip, tt)
unfolding program
outcome_of-unknown_example =
    outcome_of-unknown py num dig (λ sc w. (pass, w)) config tt (document "dance")
      (scenario_of "dance") [] [] (step_of "dance") parsed_dance refl refl

abbrev re : HashPattern
re = record { matches = λ s. false }

-- the server answers with the frame and one more field
abbrev jt : JsonText
jt = library (obj (field "type" (text "snapshot") (field "seq" (int (pos 1)) end)))

abbrev driver : Driver (Unit {0})
driver = record {
  setup = λ sc d. ok (("ws://localhost/ws", []), d);
  snapshot_state = λ d. ok none;
  emit = λ ps d. ok d;
}

passes :
    run_one py re jt driver (λ url. some (received "{}" ∷ [])) tt (scenario_of "server-sends")
    ≡ pass
unfolding program
passes = refl

run_one-Passed_example :
    Passed py re jt driver (λ url. some (received "{}" ∷ [])) tt (scenario_of "server-sends")
run_one-Passed_example =
    run_one-Passed py re jt driver (λ url. some (received "{}" ∷ [])) tt
      (scenario_of "server-sends") passes

abbrev start : Play (Unit {0})
start = record { driver = tt; inbox = received "{}" ∷ []; sent = []; shadow = [] }

run_steps-Recorded_example :
    (q : Play Unit) × (run_steps py re jt driver [] [] (step_of "server-sends" ∷ []) start ≡ went q)
    × (q.inbox ≡ [])
    × Followed py jt start.inbox start.shadow q.shadow
unfolding program
run_steps-Recorded_example =
    run_steps-Recorded py re jt [] [] driver (step_of "server-sends" ∷ []) (received "{}" ∷ [])
      start
      (Recorded.heard (step_of "server-sends") [] "{}" [] hello
        (field "type" (text "snapshot") (field "seq" (int (pos 1)) end)) refl refl refl refl tt
        Recorded.done)
      refl
