-- ===== src/Conformance/Harness/Counts.antt =====
-- conformance/harness.py: the counters of a report.
use lumencast_py.Prelude.{◌+◌, String, List, [], ◌∷◌, ◌++◌, map, length, ◌≡◌, refl, ap, ◌∙◌, arith}
use lumencast_py.Conformance.Scenario.{Scenario}
use lumencast_py.Conformance.Harness.{
  Outcome, pass, fail, skip, Entry, Report, Config, empty_report, count, outcome_of, run_each,
  run_scenarios,
}

-- the names of the results
abbrev pub names : List Entry → List String
names es = map (λ (e : Entry). e.name) es

abbrev pub scenario_names : List Scenario → List String
scenario_names scs = map (λ (sc : Scenario). sc.name) scs

-- A report of the scenarios `scs`: one result for each in their order, and every one counted once.
pub record Accounts (scs : List String) (rep : Report) : Type 0 where
  pub order : names rep.results ≡ scs
  pub whole : rep.total ≡ length scs
  pub split : rep.passed + rep.failed + rep.skipped ≡ rep.total

names-append : (es : List Entry) (e : Entry) → names (es ++ e ∷ []) ≡ names es ++ e.name ∷ []
names-append [] e = refl
names-append (x ∷ es) e = ap (◌∷◌ x.name) (names-append es e)

length_more : (xs : List String) (x : String) → length (xs ++ x ∷ []) ≡ length xs + 1
length_more [] x = omega arith
length_more (y ∷ xs) x = omega (arith, length_more xs x)

count-Accounts :
    (o : Outcome) (sc : Scenario) (done : List String) (rep : Report)
    → Accounts done rep
    → Accounts (done ++ sc.name ∷ []) (count o sc rep)
unfolding count
count-Accounts pass sc done rep a = record {
  order = names-append rep.results _ ∙ ap (λ xs. xs ++ sc.name ∷ []) a.order;
  whole = omega (arith, a.whole, length_more done sc.name);
  split = omega (arith, a.split);
}
count-Accounts fail sc done rep a = record {
  order = names-append rep.results _ ∙ ap (λ xs. xs ++ sc.name ∷ []) a.order;
  whole = omega (arith, a.whole, length_more done sc.name);
  split = omega (arith, a.split);
}
count-Accounts skip sc done rep a = record {
  order = names-append rep.results _ ∙ ap (λ xs. xs ++ sc.name ∷ []) a.order;
  whole = omega (arith, a.whole, length_more done sc.name);
  split = omega (arith, a.split);
}

append_assoc :
    (xs : List String) (y : String) (zs : List String) → (xs ++ y ∷ []) ++ zs ≡ xs ++ y ∷ zs
append_assoc [] y zs = refl
append_assoc (x ∷ xs) y zs = ap (◌∷◌ x) (append_assoc xs y zs)

append_nil : (xs : List String) → xs ++ [] ≡ xs
append_nil [] = refl
append_nil (x ∷ xs) = ap (◌∷◌ x) (append_nil xs)

run_each-Accounts :
    {W : Type 0} (run_one : Scenario → W → Outcome × W) (cfg : Config) (scs : List Scenario)
    (done : List String) (rep : Report) (w : W)
    → Accounts done rep
    → Accounts (done ++ scenario_names scs) (run_each run_one cfg scs rep w)
unfolding run_each
run_each-Accounts run_one cfg [] done rep w a = rw (append_nil done) a
run_each-Accounts run_one cfg (sc ∷ scs) done rep w a =
    let (o, after) = outcome_of run_one cfg sc w in
    rw (append_assoc done sc.name (scenario_names scs)) at (
      run_each-Accounts run_one cfg scs (done ++ sc.name ∷ []) (count o sc rep) after
        (count-Accounts o sc done rep a))

-- However the scenarios end and whatever they do to the world: the report has one result for each, in their order, its total is
-- their number, and the passed, the failed and the skipped add up to it.
pub run_scenarios-Accounts :
    {W : Type 0} (run_one : Scenario → W → Outcome × W) (cfg : Config) (scs : List Scenario) (w : W)
    → Accounts (scenario_names scs) (run_scenarios run_one cfg scs w)
unfolding run_scenarios
run_scenarios-Accounts run_one cfg scs w =
    run_each-Accounts run_one cfg scs [] empty_report w
      (record { order = refl; whole = refl; split = omega arith })
