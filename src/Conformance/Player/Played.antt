-- ===== src/Conformance/Player/Played.antt =====
-- What a scenario that passes has seen and sent.
use lumencast_py.Prelude.{
  ◌||◌, str_eq, String, ◌≡◌, refl, sym, ap, Option, none, some, List, [], ◌∷◌, inl, inr, Bool-cases,
}
use lumencast_py.Prelude.Dict
use lumencast_py.Prelude.Dict.{Dict}
use mathlib.Core.Path.{subst}
use lumencast_py.Json.{Json, null, bool, int, real, text, arr, obj, to_dict, Result, ok, raise}
use lumencast_py.Json.Builtins.{Builtins}
use lumencast_py.Protocol.Envelope.{JsonText}
use lumencast_py.Conformance.Match.{HashPattern}
use lumencast_py.Conformance.Scenario.{
  wait, expect_runtime_state, expect_server_state, client_action, set_clock, unsupported, Step,
  StepKind, client_sends, server_sends, server_emits, expect_no_frame_for, expect_client_action,
}
use lumencast_py.Conformance.Harness.{pass, fail}
use lumencast_py.Conformance.Scenario.{bundle_hashes, Scenario}
use lumencast_py.Conformance.Player.{
  outcome, connect, run_ready, run_one, drain_one_frame, run_kind, run_step, run_steps,
  expect_close, silence, no_text, Driver, Arrival, Ended, went, failed, skipped, Play, first,
  no_text, silence, drain, emit_answer, emit_patches, emit_frame, is_text,
}
use lumencast_py.Conformance.Player.Trace.{
  failed_ne, skipped_ne, went_inj, and_go-went, All-taken, Stepped, Ran,
}
use lumencast_py.Conformance.Player.Receives.{
  expect-Found, received-Stepped, idle-Stepped, state-idle, server-idle, take-absorbed,
  drain-absorbed, emits-Stepped, Found,
}

module _ (py : Builtins) (re : HashPattern) (jt : JsonText) where
  module _ (tokens hashes : Dict String) where
    module _ {D : Type 0} where
      module _ (driver : Driver D) where
        abbrev EmitFound : Json → Play D → Play D → Type 0
        EmitFound frame p q =
            (d : D) × Found py re jt tokens hashes frame (record p { driver = d }) q

        answer-Found :
            (frame : Json) (r : Result D) (p q : Play D)
            → emit_answer py re jt driver tokens hashes frame r p ≡ went q
            → EmitFound frame p q
        answer-Found frame (ok d) p q h =
            (d, expect-Found py re jt tokens hashes frame (record p { driver = d }) q h)
        answer-Found frame (raise e) p q h = failed_ne h

        patches-Found :
            (frame : Json) (o : Option (List Json)) (p q : Play D)
            → emit_patches py re jt driver tokens hashes frame o p ≡ went q
            → EmitFound frame p q
        patches-Found frame none p q h = failed_ne h
        patches-Found frame (some ps) p q h = answer-Found frame (driver.emit ps p.driver) p q h

        frame-Found :
            (frame : Json) (p q : Play D)
            → emit_frame py re jt driver tokens hashes frame p ≡ went q
            → EmitFound frame p q
        frame-Found (obj fs) p q h =
            elim (Bool-cases (is_text "delta" (Dict.get "type" (to_dict fs)))) [
              | inl is_delta ↦ patches-Found (obj fs) _ p q (rw is_delta at h)
              | inr other ↦ failed_ne (rw other at h)
            ]
        frame-Found null p q h = failed_ne h
        frame-Found (bool x) p q h = failed_ne h
        frame-Found (int x) p q h = failed_ne h
        frame-Found (real x) p q h = failed_ne h
        frame-Found (text x) p q h = failed_ne h
        frame-Found (arr x) p q h = failed_ne h

        kind-Stepped :
            (kind : StepKind) (st : Step) (p q : Play D)
            → run_kind py re jt driver tokens hashes kind st p ≡ went q
            → Stepped py re jt tokens hashes kind st p q
        unfolding drain_one_frame expect_close
        kind-Stepped client_sends st p q h =
            let e = went_inj h in
            record {
              took = [];
              takes = refl;
              inbox = ap (λ (r : Play D). r.inbox) e;
              shadow = ap (λ (r : Play D). ok r.shadow) e;
              sent = ap (λ (r : Play D). r.sent) (sym e);
            }
        kind-Stepped server_sends st p q h =
            let f = expect-Found py re jt tokens hashes st.frame p q h in
            received-Stepped py re jt tokens hashes server_sends st p q f.is_absorbed f.found refl
        kind-Stepped server_emits st p q h =
            let (m, (drained, emitted)) = and_go-went (drain py re jt (first p.inbox) p) _ q h in
            let before = drain-absorbed py re jt tokens hashes (first p.inbox) p m drained in
            let (d, f) = frame-Found st.frame m q emitted in
            emits-Stepped py re jt tokens hashes st p m q d before f
        kind-Stepped expect_runtime_state st p q h =
            idle-Stepped py re jt tokens hashes expect_runtime_state st p q
              (state-idle py re jt tokens hashes st.state p.shadow p q h) refl refl
        kind-Stepped expect_server_state st p q h =
            idle-Stepped py re jt tokens hashes expect_server_state st p q
              (server-idle py re jt tokens hashes st.state (driver.snapshot_state p.driver) p q h)
              refl refl
        kind-Stepped expect_no_frame_for st p q h =
            let (quiet, e) = take-absorbed py re jt tokens hashes (silence (first p.inbox)) p q h in
            received-Stepped py re jt tokens hashes expect_no_frame_for st p q e
              (All-taken silence p.inbox quiet) refl
        kind-Stepped expect_client_action st p q h =
            elim (Bool-cases
              (str_eq st.action "close-with-reason" || str_eq st.action "reconnect")) [
                | inl driven ↦
                    let (quiet, e) =
                      take-absorbed py re jt tokens hashes (no_text (first p.inbox)) p q
                        (rw driven at h) in
                    received-Stepped py re jt tokens hashes expect_client_action st p q e
                      (All-taken no_text p.inbox quiet) refl
                | inr other ↦ skipped_ne (rw other at h)
              ]
        kind-Stepped wait st p q h =
            idle-Stepped py re jt tokens hashes wait st p q (sym (went_inj h)) refl refl
        kind-Stepped client_action st p q h = skipped_ne h
        kind-Stepped set_clock st p q h = skipped_ne h
        kind-Stepped unsupported st p q h = skipped_ne h

        pub run_steps-Ran :
            (sts : List Step) (p r : Play D)
            → run_steps py re jt driver tokens hashes sts p ≡ went r
            → Ran py re jt tokens hashes sts p r
        unfolding run_steps
        run_steps-Ran [] p r h = subst (Ran py re jt tokens hashes [] p) (went_inj h) (Ran.done p)
        run_steps-Ran (st ∷ sts) p r h =
            let (q, (one, rest)) =
              and_go-went (run_step py re jt driver tokens hashes st p) _ r h in
            Ran.next st sts p q r (kind-Stepped st.kind st p q (unfold run_step in one))
              (run_steps-Ran sts q r rest)

fail_ne {ℓ} : {A : Type ℓ} → fail ≡ pass → A
fail_ne h = absurd cc

outcome-pass :
    {D : Type 0} (py : Builtins) (re : HashPattern) (jt : JsonText) (e : Ended (Play D))
    → outcome py re jt e ≡ pass
    → (r : Play D) × (e ≡ went r)
outcome-pass py re jt (went r) h = (r, refl)
outcome-pass py re jt failed h = fail_ne h
outcome-pass py re jt skipped h = absurd cc

-- How a scenario came to pass.
pub record Passed (py : Builtins) (re : HashPattern) (jt : JsonText) {D : Type 0}
    (driver : Driver D) (dial : String → Option (List Arrival)) (d : D) (sc : Scenario)
    : Type 0 where
  pub ws_url : String
  pub tokens : Dict String
  pub ready : D
  pub inbox : List Arrival
  pub last : Play D
  pub prepared : driver.setup sc d ≡ ok ((ws_url, tokens), ready)
  pub dialled : dial ws_url ≡ some inbox
  pub ran :
      Ran py re jt tokens
        (bundle_hashes sc)
        sc.steps
        (record { driver = ready; inbox = inbox; sent = []; shadow = [] })
        last

module _ (py : Builtins) (re : HashPattern) (jt : JsonText) {D : Type 0} (driver : Driver D) where
  dialled-Passed :
      (dial : String → Option (List Arrival)) (d ready : D) (sc : Scenario) (ws_url : String)
      (tokens : Dict String) (o : Option (List Arrival))
      → driver.setup sc d ≡ ok ((ws_url, tokens), ready)
      → dial ws_url ≡ o
      → connect py re jt driver sc tokens ready o ≡ pass
      → Passed py re jt driver dial d sc
  dialled-Passed dial d ready sc ws_url tokens none s e h = fail_ne h
  dialled-Passed dial d ready sc ws_url tokens (some inbox) s e h =
      let (r, went_on) = outcome-pass py re jt _ h in
      record {
        ws_url = ws_url;
        tokens = tokens;
        ready = ready;
        inbox = inbox;
        last = r;
        prepared = s;
        dialled = e;
        ran = run_steps-Ran py re jt tokens (bundle_hashes sc) driver sc.steps _ r went_on;
      }

  ready-Passed :
      (dial : String → Option (List Arrival)) (d : D) (sc : Scenario)
      (o : Result ((String × Dict String) × D))
      → driver.setup sc d ≡ o
      → run_ready py re jt driver dial sc o ≡ pass
      → Passed py re jt driver dial d sc
  ready-Passed dial d sc (ok ((ws_url, tokens), ready)) s h =
      dialled-Passed dial d ready sc ws_url tokens (dial ws_url) s refl h
  ready-Passed dial d sc (raise e) s h = fail_ne h

  -- A scenario passes only if the set-up gave a URL that could be dialled and what arrived there
  -- splits into what its steps take, in their order: an object that matches the resolved frame for
  -- a server-sends and, after at most one arrival before it, for a
  -- server-emits; only timeouts and clean
  -- closes in a silence, and no text where the client was to be closed; nothing for the others. The
  -- shadow is then what these arrivals make of the empty state, and each client-sends has sent its
  -- frame with the placeholders replaced, in order, and nothing else was sent.
  pub run_one-Passed :
      (dial : String → Option (List Arrival)) (d : D) (sc : Scenario)
      → run_one py re jt driver dial d sc ≡ pass
      → Passed py re jt driver dial d sc
  unfolding run_one
  run_one-Passed dial d sc h = ready-Passed dial d sc (driver.setup sc d) refl h
