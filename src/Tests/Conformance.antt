-- ===== src/Tests/Conformance.antt =====
-- The matcher and the placeholders.
use lumencast_py.Prelude.{
  any_of, String, ◌≡◌, refl, true, false, some, none, [], ◌∷◌, arith, eq_iff,
}
use lumencast_py.Prelude.Dict
use lumencast_py.Prelude.Dict.{Dict}
use lumencast_py.Json.{Json, bool, int, pos, real, text, obj, Fields, end, field, to_dict, ok}
use lumencast_py.Conformance.Match.{
  HashPattern, match_frame, match_value, mismatch, other_scalar, key, equal_scalar, number_of,
  float_eq,
}
use lumencast_py.Conformance.Match.Extends.{Plain, PlainFields, Has, match_frame-Has}
use lumencast_py.Conformance.Placeholders.{substitute_placeholders, substitute_text, strip_prefix}
use lumencast_py.Conformance.Scenario.{Scenario, Step, Tag, Target, kind_of}
use lumencast_py.Conformance.Harness.{
  Config, Outcome, run_scenarios, run_each, outcome_of, count, has_unsupported_step,
  absorb_server_frame,
}
use lumencast_py.Conformance.Harness.Counts.{Accounts, scenario_names, run_scenarios-Accounts}
use lumencast_py.Conformance.Harness.Shadow.{absorb_server_frame-server_frame_to_dict}
use lumencast_py.Protocol.Codec.Encode.{server_frame_to_dict}
use lumencast_py.Protocol.Frames.{Delta, ServerFrame}
use lumencast_py.Server.Scene.Resume.{write_patches}
use lumencast_py.Tests.Input.{py}

abbrev re : HashPattern
re = record { matches = λ s. false }

abbrev wanted : Fields
wanted = field "type" (text "snapshot") (field "seq" (int (pos 1)) end)

-- the frame has one more field, and the two in the other order
abbrev received : Fields
received = field "seq" (int (pos 1)) (field "ts" (text "now") (field "type" (text "snapshot") end))

wanted-Plain : PlainFields py wanted
unfolding Plain Dict.has to_dict
wanted-Plain = (refl, ((λ e. ground (arith, eq_iff "snapshot" "$ANY_HASH", e)), (refl, (refl, tt))))

received-Has : Has py (to_dict received) wanted
unfolding Has to_dict Dict.get
received-Has = (refl, (refl, tt))

match_frame-Has_example : match_frame py re wanted received ≡ ok none
match_frame-Has_example = match_frame-Has py re wanted received wanted-Plain received-Has

-- a boolean is no number, and an integer is the float of its value
scalars :
    (equal_scalar py (bool true) (int (pos 1)) ≡ ok false)
    × (equal_scalar py (int (pos 2)) (real (record { bits = 2 })) ≡ ok true)
unfolding equal_scalar number_of float_eq
scalars = (refl, refl)

-- another value is told with its path
other :
    match_frame py re (field "seq" (int (pos 1)) end) (field "seq" (int (pos 2)) end)
    ≡ mismatch other_scalar (key "seq" ∷ [])
unfolding match_frame match_value to_dict Dict.get equal_scalar number_of float_eq
other = refl

abbrev tokens : Dict String
tokens = ("$TOKEN_OPERATOR", "secret") ∷ []

abbrev subscribe : Json
subscribe = obj (field "token" (text "$TOKEN_OPERATOR") (field "other" (text "$TOKEN_INVALID") end))

substituted :
    substitute_placeholders tokens [] subscribe
    ≡ obj (field "token" (text "secret") (field "other" (text "$TOKEN_INVALID") end))
unfolding substitute_placeholders substitute_text strip_prefix Dict.get
substituted = refl

secret_kept : substitute_text tokens [] "secret" ≡ "secret"
unfolding substitute_text strip_prefix
secret_kept = refl

abbrev step_of : String → Step
unfolding kind_of
step_of kind = record {
  kind = kind_of kind;
  raw_kind = kind;
  frame = obj end;
  state = obj end;
  duration_ms = pos 0;
  action = "";
  reason = "";
  extra = [];
}

abbrev scenario_of : String → String → Scenario
unfolding step_of
scenario_of name kind = record {
  name = name;
  description = "";
  tag = Tag.required;
  target = Target.any;
  spec_refs = [];
  bundles = [];
  steps = step_of kind ∷ [];
  raw = [];
}

abbrev smoke : Scenario
smoke = scenario_of "smoke" "wait"

abbrev clocked : Scenario
clocked = scenario_of "clocked" "set-clock"

abbrev config : Config
config = record { tag_filter = some Tag.required; skip_scenarios = [] }

passing : Scenario → Unit {0} → Outcome × Unit {0}
passing sc w = (Outcome.pass, w)

-- the step that is not driven skips its scenario
run : (run_scenarios passing config (smoke ∷ clocked ∷ []) tt).skipped ≡ 1
unfolding run_scenarios run_each outcome_of count has_unsupported_step any_of passing scenario_of
    Dict.get
run = refl

run_scenarios-Accounts_example :
    Accounts
      (scenario_names (smoke ∷ clocked ∷ []))
      (run_scenarios passing config (smoke ∷ clocked ∷ []) tt)
run_scenarios-Accounts_example = run_scenarios-Accounts passing config (smoke ∷ clocked ∷ []) tt

abbrev delta : Delta
delta = record {
  patches = record { path = "a"; value = int (pos 1); transition = none } ∷ [];
  seq = pos 2;
  ts = text "now";
  cause = none;
}

absorb_server_frame-server_frame_to_dict_example :
    absorb_server_frame py (server_frame_to_dict py (ServerFrame.delta delta)) []
    ≡ ok (write_patches [] delta.patches)
absorb_server_frame-server_frame_to_dict_example =
    absorb_server_frame-server_frame_to_dict py delta []
