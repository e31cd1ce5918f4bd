-- ===== src/Conformance/Harness/Failures.antt =====
-- conformance/harness.py: the counter of the failures.
use lumencast_py.Prelude.{◌≡◌, ◌≢◌, ◌↔◌, refl, ◌∙◌, List, [], ◌∷◌, arith}
use lumencast_py.Conformance.Scenario.{Scenario}
use lumencast_py.Conformance.Harness.{
  Outcome, pass, fail, skip, Report, Config, empty_report, count, outcome_of, run_each,
  run_scenarios,
}

-- No scenario of the list fails, where each meets the world that the ones before it left.
unfoldable pub Unfailed :
    {W : Type 0} → (Scenario → W → Outcome × W) → Config → List Scenario → W → Type 0
Unfailed run_one cfg [] w = Unit
Unfailed run_one cfg (sc ∷ scs) w =
    let (o, after) = outcome_of run_one cfg sc w in (o ≢ fail) × Unfailed run_one cfg scs after

count-failed :
    (o : Outcome) (sc : Scenario) (rep : Report)
    → (count o sc rep).failed ≡ 0
    → (rep.failed ≡ 0) × (o ≢ fail)
unfolding count
count-failed pass sc rep h = (h, λ e. cc e)
count-failed fail sc rep h = omega (arith, h)
count-failed skip sc rep h = (h, λ e. cc e)

count-unfailed :
    (o : Outcome) (sc : Scenario) (rep : Report) → o ≢ fail → (count o sc rep).failed ≡ rep.failed
unfolding count
count-unfailed pass sc rep ne = refl
count-unfailed fail sc rep ne = absurd (ne refl)
count-unfailed skip sc rep ne = refl

module _ {W : Type 0} (run_one : Scenario → W → Outcome × W) (cfg : Config) where
  none_before :
      (scs : List Scenario) (rep : Report) (w : W)
      → (run_each run_one cfg scs rep w).failed ≡ 0
      → (rep.failed ≡ 0) × Unfailed run_one cfg scs w
  unfolding run_each Unfailed
  none_before [] rep w h = (h, tt)
  none_before (sc ∷ scs) rep w h =
      let (o, after) = outcome_of run_one cfg sc w in
      let (counted, later) = none_before scs (count o sc rep) after h in
      let (before, ne) = count-failed o sc rep counted in (before, (ne, later))

  none_after :
      (scs : List Scenario) (rep : Report) (w : W)
      → Unfailed run_one cfg scs w
      → (run_each run_one cfg scs rep w).failed ≡ rep.failed
  unfolding run_each Unfailed
  none_after [] rep w u = refl
  none_after (sc ∷ scs) rep w (ne, u) =
      let (o, after) = outcome_of run_one cfg sc w in
      none_after scs (count o sc rep) after u ∙ count-unfailed o sc rep ne

  -- A run counts no failure exactly when none of its scenarios fails.
  pub run_scenarios-failed :
      (scs : List Scenario) (w : W)
      → ((run_scenarios run_one cfg scs w).failed ≡ 0) ↔ Unfailed run_one cfg scs w
  unfolding run_scenarios
  run_scenarios-failed scs w =
      (λ h. (none_before scs empty_report w h).1, none_after scs empty_report w)
