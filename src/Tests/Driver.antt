-- ===== src/Tests/Driver.antt =====
-- The HTTP driver against the control plane.
use lumencast_py.Prelude.{String, ◌≡◌, refl, some, Option, [], ◌∷◌, arith, eq_iff}
use lumencast_py.Prelude.Dict
use lumencast_py.Prelude.Dict.{Dict}
use lumencast_py.Json.{Json, text, obj, Fields, end, field, to_dict, ok}
use lumencast_py.Conformance.Scenario.{Scenario, server_sends}
use lumencast_py.Interop.HttpDriver
use lumencast_py.Interop.HttpDriver.{HttpDriver, strip_slashes, setup}
use lumencast_py.Interop.HttpDriver.Bundles.{
  extract_initial_state, extract_from, without_sentinels, first_scene_id_and_hash, first_from,
}
use lumencast_py.Interop.HttpDriver.Expected.{Expects}
use lumencast_py.Interop.HttpDriver.Reaching.{reaching}
use lumencast_py.Interop.HttpDriver.Serves.{Prepared, setup-Prepared}
use lumencast_py.Tests.Input.{py}
use lumencast_py.Tests.Interop.{plane}
use lumencast_py.Tests.Player.{scenario_of, step_of}

-- a snapshot with an input and a leaf of any value
abbrev snapshot : Fields
snapshot = field "type" (text "snapshot") (
    field "scene_id" (text "main") (
      field "state" (obj (field "__inputs.title" (text "hello") (field "score" (text "$ANY") end)))
        end))

abbrev expecting : Scenario
expecting = record (scenario_of "server-sends") {
  steps = record (step_of "server-sends") { kind = server_sends; frame = obj snapshot } ∷ [];
}

abbrev drv : HttpDriver
drv = HttpDriver.init "http://localhost:8080//" []

program : Unit {0}
unfolding extract_initial_state extract_from without_sentinels to_dict Dict.get HttpDriver.init
    strip_slashes first_scene_id_and_hash first_from
program = tt

-- the slashes are stripped, the sentinel is left out, and the id is the snapshot's
extracted :
    (◌≡◌ {A = String} drv.control_url "http://localhost:8080")
    × (extract_initial_state expecting ≡ ok (some (("__inputs.title", text "hello") ∷ [])))
    × (first_scene_id_and_hash expecting ≡ ok ("main", ""))
unfolding program
extracted = (refl, refl, refl)

setup-Prepared_example :
    (st : Option (Dict Json)) × (extract_initial_state expecting ≡ ok st)
    × Expects expecting.steps st
    × Prepared drv "ws://localhost/ws" st
        (setup (reaching py drv.control_url "ws://localhost/ws") drv "hello" expecting plane)
setup-Prepared_example =
    setup-Prepared py drv "ws://localhost/ws" "hello" expecting plane
      (λ e. ground (arith, eq_iff "ws://localhost/ws" "", e))
      (λ e. ground (arith, eq_iff "hello" "", e)) refl ((λ e. (snapshot, refl)), tt)
