-- ===== src/Conformance/Harness/Skips.antt =====
-- conformance/harness.py: a kind of step that the harness does not know skips its scenario.
use lumencast_py.Prelude.{◌≡◌, refl, ◌∙◌, true, not, none, List, [], ◌∷◌, ◌++◌, any_of, All, arith}
use lumencast_py.Prelude.Dict
use lumencast_py.Json.{Json, ok}
use lumencast_py.Json.Builtins.{Builtins}
use lumencast_py.Lsml.Number.{Numerals}
use lumencast_py.Lsml.Canonical.{Digest}
use lumencast_py.Conformance.Scenario.{
  Step, unsupported, Scenario, kind_of, step_kinds, parse_scenario,
}
use lumencast_py.Conformance.Scenario.Parsed.{parse_scenario-IsParsed}
use lumencast_py.Conformance.Harness.{
  Outcome, skip, Config, outcome_of, has_unsupported_step, is_runnable,
}

any_of-append :
    (pre post : List Step) (st : Step)
    → not (is_runnable st.kind) ≡ true
    → any_of (λ (s : Step). not (is_runnable s.kind)) (pre ++ st ∷ post) ≡ true
unfolding any_of
any_of-append [] post st h = ground (arith, h)
any_of-append (s ∷ pre) post st h = ground (arith, any_of-append pre post st h)

kinded_at :
    (pre post : List Step) (st : Step)
    → All (λ (s : Step). s.kind ≡ kind_of s.raw_kind) (pre ++ st ∷ post)
    → st.kind ≡ kind_of st.raw_kind
kinded_at [] post st a = a.0
kinded_at (s ∷ pre) post st a = kinded_at pre post st a.1

undriven-skips :
    {W : Type 0} (run_one : Scenario → W → Outcome × W) (cfg : Config) (sc : Scenario) (w : W)
    → has_unsupported_step sc ≡ true
    → outcome_of run_one cfg sc w ≡ (skip, w)
unfolding outcome_of
undriven-skips run_one cfg sc w h = ground (arith, h)

-- A parsed scenario with a step whose kind is spelled in no known way is skipped, whatever its
-- other steps are and wherever the step stands, and the world is left as it was.
pub outcome_of-unknown :
    {W : Type 0} (py : Builtins) (num : Numerals) (dig : Digest)
    (run_one : Scenario → W → Outcome × W) (cfg : Config) (w : W) (v : Json) (sc : Scenario)
    (pre post : List Step) (st : Step)
    → parse_scenario py num dig v ≡ ok sc
    → sc.steps ≡ pre ++ st ∷ post
    → Dict.get st.raw_kind step_kinds ≡ none
    → outcome_of run_one cfg sc w ≡ (skip, w)
unfolding kind_of has_unsupported_step
outcome_of-unknown py num dig run_one cfg w v sc pre post st parsed at_step unknown =
    let kinds = rw at_step at ((parse_scenario-IsParsed py num dig v sc parsed).steps) in
    let kind : st.kind ≡ unsupported = kinded_at pre post st kinds ∙ rw unknown refl in
    undriven-skips run_one cfg sc w (rw at_step (any_of-append pre post st (rw kind refl)))
