-- ===== src/Conformance/Player/Recorded.antt =====
-- A run that is recorded frame by frame passes when it is played back.
use lumencast_py.Prelude.{String, ◌≡◌, refl, ap, ◌∙◌, none, some, List, [], ◌∷◌}
use lumencast_py.Prelude.Dict.{Dict, get}
use lumencast_py.Json.{Json, obj, Fields, to_dict, ok}
use lumencast_py.Json.Builtins.{Builtins}
use lumencast_py.Conformance.Harness.Mirrored.{Listed, Mirrored, absorb_server_frame-Mirrored}
use lumencast_py.Protocol.Envelope.{JsonText}
use lumencast_py.Conformance.Match.{HashPattern, match_frame}
use lumencast_py.Conformance.Placeholders.{substitute_placeholders}
use lumencast_py.Conformance.Scenario.{Step, server_sends}
use lumencast_py.Conformance.Player.{
  Driver, Arrival, received, went, Play, absorbed, absorb_arrival, expect_value,
  expect_server_frame, run_kind, run_step, run_steps, later,
}

module _ (py : Builtins) (jt : JsonText) where
  -- The shadow mirrors the frames that arrive, one after the other.
  pub data Followed : List Arrival → Dict Json → Dict Json → Type 0 where
    still : (st : Dict Json) → Followed [] st st
    frame :
        (raw : String) (l : List Arrival) (fs : Fields) (st mid after : Dict Json)
        → jt.loads raw ≡ some (obj fs)
        → Mirrored py (to_dict fs) st mid
        → Followed l mid after
        → Followed (received raw ∷ l) st after

module _ (py : Builtins) (re : HashPattern) (jt : JsonText) (tokens hashes : Dict String) where
  -- Each step expects a frame that the arrival at its place has.
  pub data Recorded : List Step → List Arrival → Type 0 where
    done : Recorded [] []
    heard :
        (st : Step) (sts : List Step) (raw : String) (l : List Arrival) (es fs : Fields)
        → st.kind ≡ server_sends
        → substitute_placeholders tokens hashes st.frame ≡ obj es
        → jt.loads raw ≡ some (obj fs)
        → match_frame py re es fs ≡ ok none
        → Listed (get "patches" (to_dict fs))
        → Recorded sts l
        → Recorded (st ∷ sts) (received raw ∷ l)

  module _ {D : Type 0} (driver : Driver D) where
    step_absorbs :
        (st : Step) (raw : String) (l : List Arrival) (es fs : Fields) (p : Play D)
        → st.kind ≡ server_sends
        → substitute_placeholders tokens hashes st.frame ≡ obj es
        → jt.loads raw ≡ some (obj fs)
        → match_frame py re es fs ≡ ok none
        → p.inbox ≡ received raw ∷ l
        → run_step py re jt driver tokens hashes st p ≡ absorbed py re jt p
    unfolding run_step expect_server_frame
    step_absorbs st raw l es fs p k r e m i =
        let frame : expect_server_frame py re jt (substitute_placeholders tokens hashes st.frame) p
            ≡ expect_value py re jt (obj es) (some (obj fs)) p =
          rw (i, r, e) refl in
        rw (k, run_kind) (frame ∙ rw m refl)

    steps_cons :
        (st : Step) (sts : List Step) (p q : Play D)
        → run_step py re jt driver tokens hashes st p ≡ went q
        → run_steps py re jt driver tokens hashes (st ∷ sts) p
          ≡ run_steps py re jt driver tokens hashes sts q
    unfolding run_steps
    steps_cons st sts p q h = rw h refl

    steps_nil : (p : Play D) → run_steps py re jt driver tokens hashes [] p ≡ went p
    unfolding run_steps
    steps_nil p = refl

    -- Steps that each expect a frame which the arrival at its place has, with patches that are
    -- missing, null or a list, go through, in any state of the driver; all that arrived is taken,
    -- and the shadow follows it in order: a snapshot replaces the shadow by its state, where that is
    -- an object or counts as false, a delta writes its patches, and another frame changes nothing.
    pub run_steps-Recorded :
        (sts : List Step) (l : List Arrival) (p : Play D)
        → Recorded sts l
        → p.inbox ≡ l
        → (q : Play D) × (run_steps py re jt driver tokens hashes sts p ≡ went q)
          × (q.inbox ≡ [])
          × Followed py jt l p.shadow q.shadow
    run_steps-Recorded _ _ p done i = (p, steps_nil p, i, Followed.still p.shadow)
    run_steps-Recorded _ _ p (heard st sts raw l es fs k r e m listed rest) i =
        let (after, absorbs, mirrors) =
          absorb_server_frame-Mirrored py (to_dict fs) p.shadow listed in
        let next = record p { inbox = later p.inbox; shadow = after } in
        let came : absorb_arrival py re jt (received raw) p.shadow ≡ ok after = rw e absorbs in
        let (q, ran, empty, shadow) = run_steps-Recorded sts l next rest (ap later i) in
        (
          q,
          steps_cons st sts p next (step_absorbs st raw l es fs p k r e m i ∙ rw i (rw came refl))
              ∙ ran,
          empty,
          Followed.frame raw l fs p.shadow after q.shadow e mirrors shadow,
        )
