-- ===== src/Tests/Command.antt =====
-- The conformance command against the control plane.
use lumencast_py.Prelude.{
  ◌≡◌, ◌↔◌, refl, true, some, none, [], ◌∷◌, ◌≢◌, String, inl, eq_iff, arith, keep, any_of,
}
use lumencast_py.Prelude.Dict
use lumencast_py.Json.{ok}
use lumencast_py.Conformance.Scenario.{Tag, kind_of, load_each}
use lumencast_py.Conformance.Harness.{
  Report, pass, fail, run_scenarios, outcome_of, has_unsupported_step,
}
use lumencast_py.Interop.HttpDriver.{Http, health_check, strip_slashes}
use lumencast_py.Conformance.Harness.Failures.{Unfailed}
use lumencast_py.Interop.HttpDriver
use lumencast_py.Interop.ControlPlane.{Plane}
use lumencast_py.Interop.HttpDriver.Health.{health_check-reaching}
use lumencast_py.Interop.HttpDriver.Reaching.{reaching}
use lumencast_py.Cli.Conformance.{
  Args, Files, Exit, driver, finished, filter_of, run, resolve_scenarios_dir, tag_named, select,
  load_scenarios,
}
use lumencast_py.Conformance.Harness.Chosen.{Unfailed-NoneFails}
use lumencast_py.Interop.HttpDriver.Healthy.{health_check-Healthy}
use lumencast_py.Cli.Conformance.Located.{Located}
use lumencast_py.Cli.Conformance.Passes.{Passes, run-Passes}
use lumencast_py.Tests.Input.{py}
use lumencast_py.Tests.Lsml.{num, dig}
use lumencast_py.Tests.Interop.{plane}
use lumencast_py.Tests.Player.{document, parsed, scenario_of}

abbrev args : Args
args = record {
  control_url = "http://localhost:8080";
  scenarios = some "scenarios";
  tag = "required";
  scenario = "";
}

abbrev files : Files
files = record {
  protocol_repo = none;
  scenarios_in = λ d. d;
  sibling = "sibling";
  is_dir = λ d. true;
  documents = λ d. document "server-sends" ∷ [];
}

abbrev http : Http Plane
http = reaching py "http://localhost:8080" "ws://localhost/ws"

program : Unit {0}
unfolding kind_of Dict.get outcome_of has_unsupported_step any_of run load_scenarios load_each
    resolve_scenarios_dir tag_named select HttpDriver.init strip_slashes keep
program = tt

named_set : ◌≢◌ {A = String} "scenarios" ""
named_set = ground (arith, eq_iff "scenarios" "")

passes : Passes py num dig files http (λ sc w. (pass, w)) args plane
unfolding program Unfailed
passes = record {
  dir = "scenarios";
  all = scenario_of "server-sends" ∷ [];
  scs = scenario_of "server-sends" ∷ [];
  tag = Tag.required;
  located = Located.explicit (refl, named_set);
  there = refl;
  loaded = rw parsed refl;
  selected = inl (refl, refl);
  tagged = refl;
  healthy =
      health_check-Healthy http py (driver args) plane
        (health_check-reaching py (driver args) "ws://localhost/ws" plane);
  unfailed =
      Unfailed-NoneFails (λ sc w. (pass, w)) Tag.required (scenario_of "server-sends" ∷ []) plane
        (λ e. cc e, tt);
}

abbrev failing : Report
failing =
    run_scenarios (λ sc w. (fail, w)) (filter_of Tag.required) (scenario_of "server-sends" ∷ [])
      plane

-- with a scenario that fails the code is another
fails :
    (run py num dig files http (λ sc w. (fail, w)) args plane ≡ ok (finished failing))
    × ((finished failing).code ≡ 1)
unfolding program run_scenarios
fails = (rw (parsed, health_check-reaching py (driver args) "ws://localhost/ws" plane) refl, refl)

run-Passes_example :
    ((o : Exit) × (run py num dig files http (λ sc w. (pass, w)) args plane ≡ ok o) × (o.code ≡ 0))
    ↔ Passes py num dig files http (λ sc w. (pass, w)) args plane
run-Passes_example = run-Passes py num dig files http (λ sc w. (pass, w)) args plane
