-- ===== src/Tests/Cli.antt =====
-- The bundle check.
use lumencast_py.Prelude.{any_of, Bool, true, some, ◌≡◌, refl, [], ◌∷◌}
use lumencast_py.Prelude.Dict
use lumencast_py.Json.{Json, text, obj, end, field, to_dict}
use lumencast_py.Cli.Validate.{
  validate, Valid, missing_field, missing, check_lsml, check_layout, check_operator_inputs,
  check_inputs,
}
use lumencast_py.Cli.Validate.Run.{run, run-Valid}

program : Unit {0}
unfolding validate missing check_lsml check_layout check_operator_inputs check_inputs Dict.get
    Dict.has to_dict any_of
program = tt

abbrev bundle : Json
bundle = obj (
    field "lsml" (text "1.0") (
      field "scene_id" (text "main") (
        field "scene_version" (text "v")
          (field "layout" (obj (field "kind" (text "stack") end)) end))))

clean : validate bundle ≡ []
unfolding program
clean = refl

-- a bundle without its scene's name
nameless :
    validate (
      obj
        (field "lsml" (text "1") (field "scene_version" (text "v") (field "layout" Json.null end))))
    ≡ missing_field "scene_id" ∷ []
unfolding program
nameless = refl

passed : (run true (some bundle)).code ≡ 0
unfolding program run
passed = refl

run-Valid_example : (◌≡◌ {A = Bool} true true) × (b : Json) × (some bundle ≡ some b) × Valid b
run-Valid_example = run-Valid true (some bundle) passed
