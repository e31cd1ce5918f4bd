-- ===== src/Conformance/Player.antt =====
-- conformance/harness.py: the steps of a scenario against a server. What each receive of the socket
-- brings is a list, and the driver is an interface. Every exception fails the scenario, and so does
-- the time limit of a whole scenario, which is left out.
pub mod Trace
pub mod Receives
pub mod Played
pub mod Recorded
mod Arrivals
unfoldable pub use Arrivals.*
use lumencast_py.Prelude.{
  ℕ, String, Bool, true, false, not, ◌||◌, Option, none, some, List, [], ◌∷◌, ◌++◌, ◌==◌, str_eq,
  if◌then◌else◌,
}
use lumencast_py.Prelude.Dict
use lumencast_py.Prelude.Dict.{Dict}
use lumencast_py.Json.{
  ℤ, Json, null, bool, int, real, text, arr, obj, Items, Fields, to_dict, to_list, of_list, Result,
  ok, raise,
}
use lumencast_py.Json.Builtins.{Builtins, default}
use lumencast_py.Protocol.Envelope.{JsonText}
use lumencast_py.Conformance.Match.{HashPattern, Matched, match_frame, match_value, key}
use lumencast_py.Conformance.Placeholders.{substitute_placeholders}
use lumencast_py.Conformance.Scenario.{
  Scenario, Step, StepKind, client_sends, server_sends, server_emits, expect_runtime_state,
  expect_server_state, expect_no_frame_for, expect_client_action, client_action, wait, set_clock,
  unsupported, bundle_hashes,
}
use lumencast_py.Conformance.Harness.{Outcome, pass, fail, skip, absorb_server_frame}

module _ (py : Builtins) (re : HashPattern) (jt : JsonText) where
  -- the shadow after an arrival
  abbrev pub absorb_value : Option Json → Dict Json → Result (Dict Json)
  absorb_value (some (obj fs)) st = absorb_server_frame py (to_dict fs) st
  absorb_value v st = ok st

  abbrev pub absorb_arrival : Arrival → Dict Json → Result (Dict Json)
  absorb_arrival (received raw) st = absorb_value (jt.loads raw) st
  absorb_arrival a st = ok st

  -- the loop over an expected state: every key is there with a value that matches
  unfoldable pub has_state : Fields → Dict Json → Bool
  has_state Fields.end state = true
  has_state (Fields.field k v fs) state =
      let rest = has_state fs state in
      elim (Dict.get k state) [
        | none ↦ false
        | some a ↦ if matched (match_value py re v a (key k ∷ [])) then rest else false
      ]

  module _ {D : Type 0} where
    abbrev pub with_shadow : Result (Dict Json) → Play D → Ended (Play D)
    with_shadow (ok st) p = went (record p { inbox = later p.inbox; shadow = st })
    with_shadow (raise e) p = failed

    -- the arrival is taken, and absorbed
    abbrev pub absorbed : Play D → Ended (Play D)
    absorbed p = with_shadow (absorb_arrival (first p.inbox) p.shadow) p

    abbrev pub expect_when : Bool → Play D → Ended (Play D)
    expect_when true p = absorbed p
    expect_when false p = failed

    abbrev pub expect_value : Json → Option Json → Play D → Ended (Play D)
    expect_value (obj es) (some (obj fs)) p = expect_when (matched (match_frame py re es fs)) p
    expect_value expected actual p = failed

    abbrev pub expect_arrival : Json → Arrival → Play D → Ended (Play D)
    expect_arrival expected (received raw) p = expect_value expected (jt.loads raw) p
    expect_arrival expected a p = failed

    -- `_expect_server_frame`, at the resolved frame
    unfoldable pub expect_server_frame : Json → Play D → Ended (Play D)
    expect_server_frame expected p = expect_arrival expected (first p.inbox) p

    abbrev pub drain : Arrival → Play D → Ended (Play D)
    drain (received raw) p = absorbed p
    drain timed_out p = absorbed p
    drain a p = failed

    -- `_drain_one_frame_with_timeout`
    unfoldable pub drain_one_frame : Play D → Ended (Play D)
    drain_one_frame p = drain (first p.inbox) p

    abbrev pub expect_state : Json → Dict Json → Play D → Ended (Play D)
    expect_state (obj fs) state p = if has_state fs state then went p else failed
    expect_state v state p = failed

    abbrev pub expect_server : Json → Result (Option (Dict Json)) → Play D → Ended (Play D)
    expect_server expected (ok state) p = expect_state expected (or_shadow state p.shadow) p
    expect_server expected (raise e) p = failed

    -- the arrival is taken and has to be of a kind
    abbrev pub take_when : Bool → Play D → Ended (Play D)
    take_when true p = absorbed p
    take_when false p = failed

    unfoldable pub expect_close : String → Play D → Ended (Play D)
    expect_close action p =
        if str_eq action "close-with-reason" || str_eq action "reconnect"
        then take_when (no_text (first p.inbox)) p
        else skipped

    module _ (driver : Driver D) (tokens hashes : Dict String) where
      abbrev pub resolve : Json → Json
      resolve v = substitute_placeholders tokens hashes v

      unfoldable pub resolve_patches : List Json → Option (List Json)
      resolve_patches [] = some []
      resolve_patches (obj fs ∷ ps) = elim (resolve_patches ps) [
        | none ↦ none
        | some rest ↦ some (resolve (obj fs) ∷ rest)
      ]
      resolve_patches (v ∷ ps) = none

      abbrev pub emit_answer : Json → Result D → Play D → Ended (Play D)
      emit_answer frame (ok d) p = expect_server_frame (resolve frame) (record p { driver = d })
      emit_answer frame (raise e) p = failed

      abbrev pub emit_patches : Json → Option (List Json) → Play D → Ended (Play D)
      emit_patches frame none p = failed
      emit_patches frame (some patches) p = emit_answer frame (driver.emit patches p.driver) p

      abbrev pub patches_in : Json → Option (List Json)
      patches_in (arr xs) = resolve_patches (to_list xs)
      patches_in v = none

      abbrev pub emit_typed : Json → Dict Json → Play D → Ended (Play D)
      emit_typed frame d p =
          if is_text "delta" (Dict.get "type" d)
          then emit_patches frame (patches_in (default (Dict.get "patches" d) (arr Items.nil))) p
          else failed

      abbrev pub emit_frame : Json → Play D → Ended (Play D)
      emit_frame (obj fs) p = emit_typed (obj fs) (to_dict fs) p
      emit_frame v p = failed

      abbrev pub send_frame : Json → Play D → Play D
      send_frame frame p = record p { sent = p.sent ++ jt.dumps (resolve frame) ∷ [] }

      abbrev pub run_kind : StepKind → Step → Play D → Ended (Play D)
      run_kind client_sends step p = went (send_frame step.frame p)
      run_kind server_sends step p = expect_server_frame (resolve step.frame) p
      run_kind server_emits step p = and_go (drain_one_frame p) (emit_frame step.frame)
      run_kind expect_runtime_state step p = expect_state step.state p.shadow p
      run_kind expect_server_state step p =
          expect_server step.state (driver.snapshot_state p.driver) p
      run_kind expect_no_frame_for step p = take_when (silence (first p.inbox)) p
      run_kind expect_client_action step p = expect_close step.action p
      run_kind wait step p = went p
      run_kind kind step p = skipped

      -- `_run_step`
      unfoldable pub run_step : Step → Play D → Ended (Play D)
      unfolding expect_server_frame drain_one_frame has_state expect_close resolve_patches
      run_step step p = run_kind step.kind step p

      -- the loop of `_run_one`
      unfoldable pub run_steps : List Step → Play D → Ended (Play D)
      unfolding run_step
      run_steps [] p = went p
      run_steps (step ∷ steps) p = and_go (run_step step p) (run_steps steps)

    abbrev pub outcome : Ended (Play D) → Outcome
    outcome (went p) = pass
    outcome failed = fail
    outcome skipped = skip

    abbrev pub connect : Driver D → Scenario → Dict String → D → Option (List Arrival) → Outcome
    connect driver sc tokens d none = fail
    connect driver sc tokens d (some inbox) = outcome (
        run_steps driver tokens (bundle_hashes sc) sc.steps
          (record { driver = d; inbox = inbox; sent = []; shadow = [] }))

    abbrev pub run_ready :
        Driver D
        → (String → Option (List Arrival))
        → Scenario
        → Result ((String × Dict String) × D)
        → Outcome
    run_ready driver dial sc (raise e) = fail
    run_ready driver dial sc (ok ((ws_url, tokens), d)) = connect driver sc tokens d (dial ws_url)

    -- `_run_one`, where `dial` tells what the socket at a URL will bring
    unfoldable pub run_one : Driver D → (String → Option (List Arrival)) → D → Scenario → Outcome
    unfolding run_steps
    run_one driver dial d sc = run_ready driver dial sc (driver.setup sc d)
