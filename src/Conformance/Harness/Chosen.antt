-- ===== src/Conformance/Harness/Chosen.antt =====
-- conformance/harness.py: the scenarios that a run with a tag drives.
use lumencast_py.Prelude.{
  true, false, ◌≡◌, ◌≢◌, ◌↔◌, ◌⊎◌, inl, inr, refl, not, some, List, [], ◌∷◌, any_of, All, arith,
  Bool-cases,
}
use lumencast_py.Conformance.Scenario.{
  Tag, required, recommended, extended, Target, any, server, runtime, StepKind, client_sends,
  server_sends, server_emits, expect_runtime_state, expect_server_state, expect_no_frame_for,
  expect_client_action, client_action, wait, set_clock, unsupported, Step, Scenario,
}
use lumencast_py.Conformance.Harness.{
  Outcome, fail, skip, Config, outcome_of, has_unsupported_step, is_runnable, same_tag, is_runtime,
}
use lumencast_py.Conformance.Harness.Failures.{Unfailed}

-- a kind of step that the harness drives
abbrev pub IsDriven : StepKind → Type 0
IsDriven k = (k ≢ client_action) × (k ≢ set_clock) × (k ≢ unsupported)

-- a scenario of the tag, for a server, all of whose steps are driven
abbrev pub IsChosen : Tag → Scenario → Type 0
IsChosen tag sc =
    (sc.tag ≡ tag) × (sc.target ≢ runtime) × All (λ (st : Step). IsDriven st.kind) sc.steps

-- no scenario fails that is chosen, each run in the world that the one before left
unfoldable pub NoneFails :
    {W : Type 0} → (Scenario → W → Outcome × W) → Tag → List Scenario → W → Type 0
NoneFails run_one tag [] w = Unit
NoneFails run_one tag (sc ∷ scs) w =
    let (o, after) = run_one sc w in
    (IsChosen tag sc × (o ≢ fail) × NoneFails run_one tag scs after)
    ⊎ ((¬ IsChosen tag sc) × NoneFails run_one tag scs w)

same_tag_lem : (s t : Tag) → (same_tag s t ≡ true) ↔ (s ≡ t)
same_tag_lem required required = (λ e. refl, λ e. refl)
same_tag_lem required recommended = (λ e. cc e, λ e. cc e)
same_tag_lem required extended = (λ e. cc e, λ e. cc e)
same_tag_lem recommended required = (λ e. cc e, λ e. cc e)
same_tag_lem recommended recommended = (λ e. refl, λ e. refl)
same_tag_lem recommended extended = (λ e. cc e, λ e. cc e)
same_tag_lem extended required = (λ e. cc e, λ e. cc e)
same_tag_lem extended recommended = (λ e. cc e, λ e. cc e)
same_tag_lem extended extended = (λ e. refl, λ e. refl)

is_runtime_lem : (t : Target) → (is_runtime t ≡ false) ↔ (t ≢ runtime)
is_runtime_lem any = (λ e h. cc h, λ h. refl)
is_runtime_lem server = (λ e h. cc h, λ h. refl)
is_runtime_lem runtime = (λ e h. cc e, λ h. absurd (h refl))

is_runnable_lem : (k : StepKind) → (is_runnable k ≡ true) ↔ IsDriven k
is_runnable_lem client_sends = (λ e. (λ h. cc h, λ h. cc h, λ h. cc h), λ d. refl)
is_runnable_lem server_sends = (λ e. (λ h. cc h, λ h. cc h, λ h. cc h), λ d. refl)
is_runnable_lem server_emits = (λ e. (λ h. cc h, λ h. cc h, λ h. cc h), λ d. refl)
is_runnable_lem expect_runtime_state = (λ e. (λ h. cc h, λ h. cc h, λ h. cc h), λ d. refl)
is_runnable_lem expect_server_state = (λ e. (λ h. cc h, λ h. cc h, λ h. cc h), λ d. refl)
is_runnable_lem expect_no_frame_for = (λ e. (λ h. cc h, λ h. cc h, λ h. cc h), λ d. refl)
is_runnable_lem expect_client_action = (λ e. (λ h. cc h, λ h. cc h, λ h. cc h), λ d. refl)
is_runnable_lem wait = (λ e. (λ h. cc h, λ h. cc h, λ h. cc h), λ d. refl)
is_runnable_lem client_action = (λ e. cc e, λ d. absurd (d.0 refl))
is_runnable_lem set_clock = (λ e. cc e, λ (a, b, c). absurd (b refl))
is_runnable_lem unsupported = (λ e. cc e, λ (a, b, c). absurd (c refl))

All-IsDriven :
    (sts : List Step)
    → (any_of (λ (st : Step). not (is_runnable st.kind)) sts ≡ false)
      ↔ All (λ (st : Step). IsDriven st.kind) sts
unfolding any_of
All-IsDriven [] = (λ e. tt, λ a. refl)
All-IsDriven (st ∷ sts) = (
  λ e. ((is_runnable_lem st.kind).0 (ground (arith, e)), (All-IsDriven sts).0 (ground (arith, e))),
  λ a.
      let here : is_runnable st.kind ≡ true = (is_runnable_lem st.kind).1 a.0 in
      rw (here) ((All-IsDriven sts).1 a.1),
)

module _ {W : Type 0} (run_one : Scenario → W → Outcome × W) (tag : Tag) where
  abbrev tagged : Config
  tagged = record { tag_filter = some tag; skip_scenarios = [] }

  chosen-runs :
      (sc : Scenario) (w : W) → IsChosen tag sc → outcome_of run_one tagged sc w ≡ run_one sc w
  unfolding outcome_of any_of has_unsupported_step
  chosen-runs sc w (same, target, driven) =
      rw
        (
          (same_tag_lem sc.tag tag).1 same,
          (is_runtime_lem sc.target).1 target,
          (All-IsDriven sc.steps).1 driven,
        )
        refl

  -- a scenario is chosen, or skipped
  IsChosen-cases :
      (sc : Scenario) (w : W)
      → IsChosen tag sc ⊎ ((¬ IsChosen tag sc) × (outcome_of run_one tagged sc w ≡ (skip, w)))
  unfolding outcome_of any_of has_unsupported_step
  IsChosen-cases sc w = elim (Bool-cases (same_tag sc.tag tag)) [
    | inr other ↦
        inr ((λ c. let s = (same_tag_lem sc.tag tag).1 c.0 in cc (s, other)), rw other refl)
    | inl same ↦ elim (Bool-cases (is_runtime sc.target)) [
      | inl there ↦ inr (
        (λ (s, t, d). let u = (is_runtime_lem sc.target).1 t in cc (u, there)),
        rw (same, there) refl,
      )
      | inr target ↦
          elim (Bool-cases (any_of (λ (st : Step). not (is_runnable st.kind)) sc.steps)) [
            | inl undriven ↦ inr (
              (λ (s, t, d). let u = (All-IsDriven sc.steps).1 d in cc (u, undriven)),
              rw (same, target, undriven) refl,
            )
            | inr driven ↦ inl (
              (same_tag_lem sc.tag tag).0 same,
              (is_runtime_lem sc.target).0 target,
              (All-IsDriven sc.steps).0 driven,
            )
          ]
    ]
  ]

  pub Unfailed-NoneFails :
      (scs : List Scenario) (w : W) → Unfailed run_one tagged scs w → NoneFails run_one tag scs w
  unfolding Unfailed NoneFails
  Unfailed-NoneFails [] w u = tt
  Unfailed-NoneFails (sc ∷ scs) w u = elim (IsChosen-cases sc w) [
    | inl c ↦
        let v = rw (chosen-runs sc w c) at u in
        inl (c, v.0, Unfailed-NoneFails scs (run_one sc w).1 v.1)
    | inr (n, skipped) ↦ let v = rw skipped at u in inr (n, Unfailed-NoneFails scs w v.1)
  ]

  pub NoneFails-Unfailed :
      (scs : List Scenario) (w : W) → NoneFails run_one tag scs w → Unfailed run_one tagged scs w
  unfolding Unfailed NoneFails
  NoneFails-Unfailed [] w u = tt
  NoneFails-Unfailed (sc ∷ scs) w (inl (c, ne, later)) =
      rw (chosen-runs sc w c) (ne, NoneFails-Unfailed scs (run_one sc w).1 later)
  NoneFails-Unfailed (sc ∷ scs) w (inr (n, later)) = elim (IsChosen-cases sc w) [
    | inl c ↦ absurd (n c)
    | inr (m, skipped) ↦ rw skipped ((λ e. cc e), NoneFails-Unfailed scs w later)
  ]
