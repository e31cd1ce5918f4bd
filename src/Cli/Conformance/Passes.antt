-- ===== src/Cli/Conformance/Passes.antt =====
-- cli/conformance.py: when the command exits with 0.
use Prim.Native.String.{◌++◌ as cat}
use lumencast_py.Prelude.{
  String, ◌≡◌, ◌↔◌, refl, true, Option, none, some, List, arith, inl, inr, Bool-cases,
}
use lumencast_py.Json.{Result, ok, raise, ◌>>=◌}
use lumencast_py.Json.Builtins.{Builtins}
use lumencast_py.Lsml.Number.{Numerals}
use lumencast_py.Lsml.Canonical.{Digest}
use lumencast_py.Conformance.Scenario.{Tag, Scenario, load_each}
use lumencast_py.Conformance.Harness.{Outcome, Report, run_scenarios}
use lumencast_py.Conformance.Harness.Failures.{Unfailed, run_scenarios-failed}
use lumencast_py.Interop.HttpDriver
use lumencast_py.Conformance.Harness.Chosen.{NoneFails, Unfailed-NoneFails, NoneFails-Unfailed}
use lumencast_py.Interop.HttpDriver.Healthy.{Healthy, health_check-Healthy, Healthy-health_check}
use lumencast_py.Interop.HttpDriver.{
  strip_slashes, Http, HttpDriver, canonical_interop_tokens, health_check,
}
use lumencast_py.Cli.Conformance.Selected.{
  Selected, IsTag, select-Selected, Selected-select, tag_named-IsTag, IsTag-tag_named,
}
use lumencast_py.Cli.Conformance.Located.{Located, resolve-Located, Located-resolve}
use lumencast_py.Cli.Conformance.{
  Args, Files, Exit, driver, exited, finished, resolve_scenarios_dir, tag_named, select, filter_of,
  load_scenarios, run_healthy, run_tagged, run_selected, run_loaded, run_in, run,
}

finished_zero : (rep : Report) → (finished rep).code ≡ 0 → rep.failed ≡ 0
finished_zero rep h = ground (arith, h)

zero_finished : (rep : Report) → rep.failed ≡ 0 → (finished rep).code ≡ 0
zero_finished rep h = ground (arith, h)

two_zero : (o : Exit) → ok (exited 2) ≡ ok o → o.code ≡ 0 → ⊥
two_zero o eq h = let same : (exited 2).code ≡ o.code = cc eq in omega (arith, same, h)

module _ (py : Builtins) (num : Numerals) (dig : Digest) (files : Files) {S : Type 0}
    (http : Http S) (run_one : Scenario → S → Outcome × S) (args : Args) (s : S) where
  -- A run in which nothing fails: `--scenarios` or else the environment or else the sibling checkout
  -- gives a directory, its documents parse to `all`, `scs` are all of them, or those of the name that
  -- is asked for and at least one, the tag is one of the three, the control plane answers that it is
  -- healthy, and no scenario of the tag fails, those for runtimes and those with a step that the harness
  -- does not drive left out.
  pub record Passes : Type 0 where
    pub dir : String
    pub all : List Scenario
    pub scs : List Scenario
    pub tag : Tag
    pub located : Located files args.scenarios dir
    pub there : files.is_dir dir ≡ true
    pub loaded : load_each py num dig (files.documents dir) ≡ ok all
    pub selected : Selected args.scenario all scs
    pub tagged : IsTag args.tag tag
    pub healthy : Healthy py (http.get (cat (strip_slashes args.control_url) "/test/health") s)
    pub unfailed : NoneFails run_one tag scs s

  passes_healthy :
      (scs : List Scenario) (tag : Tag) (r : Result (Unit {0}))
      → (run_healthy py num dig files http run_one s scs tag r).code ≡ 0
      → (r ≡ ok tt) × Unfailed run_one (filter_of tag) scs s
  passes_healthy scs tag (raise e) h = absurd (omega (arith, h))
  passes_healthy scs tag (ok u) h = (
    refl,
    (run_scenarios-failed run_one (filter_of tag) scs s).0
        (finished_zero (run_scenarios run_one (filter_of tag) scs s) h),
  )

  passes_tagged :
      (scs : List Scenario) (t : Option Tag)
      → (run_tagged py num dig files http run_one args s scs t).code ≡ 0
      → (tag : Tag) × (t ≡ some tag)
        × (health_check http py (driver args) s ≡ ok tt)
        × Unfailed run_one (filter_of tag) scs s
  passes_tagged scs none h = absurd (omega (arith, h))
  passes_tagged scs (some tag) h =
      let (healthy, unfailed) = passes_healthy scs tag _ h in (tag, refl, healthy, unfailed)

  passes_selected :
      (o : Option (List Scenario))
      → (run_selected py num dig files http run_one args s o).code ≡ 0
      → (scs : List Scenario) × (o ≡ some scs)
        × ((run_tagged py num dig files http run_one args s scs (tag_named args.tag)).code ≡ 0)
  passes_selected none h = absurd (omega (arith, h))
  passes_selected (some scs) h = (scs, refl, h)

  passes_loaded :
      (o : Option (List Scenario))
      → (run_loaded py num dig files http run_one args s o).code ≡ 0
      → (all : List Scenario) × (o ≡ some all)
        × ((run_selected py num dig files http run_one args s (select args.scenario all)).code ≡ 0)
  passes_loaded none h = absurd (omega (arith, h))
  passes_loaded (some all) h = (all, refl, h)

  -- the step of the loading, whose result is what the exit is made of
  passes_load :
      (r : Result (Option (List Scenario))) (o : Exit)
      → (do all ← r; ok (run_loaded py num dig files http run_one args s all)) ≡ ok o
      → o.code ≡ 0
      → (l : Option (List Scenario)) × (r ≡ ok l)
        × ((run_loaded py num dig files http run_one args s l).code ≡ 0)
  passes_load (raise e) o eq h = cc eq
  passes_load (ok l) o eq h = (l, refl, cc (eq, h))

  passes_in :
      (d : Option String) (o : Exit)
      → run_in py num dig files http run_one args s d ≡ ok o
      → o.code ≡ 0
      → (dir : String) × (d ≡ some dir)
        × (l : Option (List Scenario)) × (load_scenarios py num dig files dir ≡ ok l)
        × ((run_loaded py num dig files http run_one args s l).code ≡ 0)
  passes_in none o eq h = absurd (two_zero o eq h)
  passes_in (some dir) o eq h =
      let (l, loaded, rest) = passes_load _ o eq h in (dir, refl, l, loaded, rest)

  passes_load_each :
      (dir : String) (all : List Scenario)
      → load_scenarios py num dig files dir ≡ ok (some all)
      → (files.is_dir dir ≡ true) × (load_each py num dig (files.documents dir) ≡ ok all)
  unfolding load_scenarios
  passes_load_each dir all h = elim (Bool-cases (files.is_dir dir)) [
    | inl there ↦ (there, listed _ all (rw (load_scenarios, there) at h))
    | inr gone ↦ absurd (not_found (rw (load_scenarios, gone) at h))
  ]
    where
      not_found : ◌≡◌ {A = Result (Option (List Scenario))} (ok none) (ok (some all)) → ⊥
      not_found k = cc

      listed :
          (r : Result (List Scenario)) (all : List Scenario)
          → (do l ← r; ok (some l)) ≡ ok (some all)
          → r ≡ ok all
      listed (ok l) all k = cc
      listed (raise e) all k = cc

  load_passes :
      (dir : String) (all : List Scenario)
      → files.is_dir dir ≡ true
      → load_each py num dig (files.documents dir) ≡ ok all
      → load_scenarios py num dig files dir ≡ ok (some all)
  unfolding load_scenarios
  load_passes dir all there loaded = rw (load_scenarios, there) (rw loaded refl)

  passes_run : (o : Exit) → run py num dig files http run_one args s ≡ ok o → o.code ≡ 0 → Passes
  unfolding run strip_slashes HttpDriver.init
  passes_run o eq h =
      let (dir, located, l, loaded, after) =
        passes_in (resolve_scenarios_dir files args.scenarios) o eq h in
      let (all, found, chosen) = passes_loaded l after in
      let (scs, selected, driven) = passes_selected (select args.scenario all) chosen in
      let (tag, tagged, healthy, unfailed) = passes_tagged scs (tag_named args.tag) driven in
      record {
        dir = dir;
        all = all;
        scs = scs;
        tag = tag;
        located = resolve-Located files args.scenarios dir located;
        there = (passes_load_each dir all (rw found at loaded)).0;
        loaded = (passes_load_each dir all (rw found at loaded)).1;
        selected = select-Selected args.scenario all scs selected;
        tagged = tag_named-IsTag args.tag tag tagged;
        healthy = health_check-Healthy http py (driver args) s healthy;
        unfailed = Unfailed-NoneFails run_one tag scs s unfailed;
      }

  passes_health_check : (p : Passes) → health_check http py (driver args) s ≡ ok tt
  unfolding strip_slashes HttpDriver.init
  passes_health_check p = Healthy-health_check http py (driver args) s p.healthy

  run_passes :
      (p : Passes)
      → run py num dig files http run_one args s
        ≡ ok (finished (run_scenarios run_one (filter_of p.tag) p.scs s))
  unfolding run
  run_passes p =
      rw
        (
          Located-resolve files args.scenarios p.dir p.located,
          load_passes p.dir p.all p.there p.loaded,
          Selected-select args.scenario p.all p.scs p.selected,
          IsTag-tag_named args.tag p.tag p.tagged,
          passes_health_check p,
        )
        refl

  -- The command exits with 0 exactly when the directory of the scenarios is found and is there, its
  -- documents parse, the scenarios are all of them, or those of the name that is asked for and at
  -- least one, the tag is one of the three, the control plane answers that it is healthy, and no
  -- scenario fails that is selected, of the tag, not for runtimes and without a step that the harness
  -- does not drive.
  pub run-Passes :
      ((o : Exit) × (run py num dig files http run_one args s ≡ ok o) × (o.code ≡ 0)) ↔ Passes
  run-Passes = (
    λ (o, eq, h). passes_run o eq h,
    λ p. (
      finished (run_scenarios run_one (filter_of p.tag) p.scs s),
      run_passes p,
      zero_finished (run_scenarios run_one (filter_of p.tag) p.scs s) (
          (run_scenarios-failed run_one (filter_of p.tag) p.scs s).1
            (NoneFails-Unfailed run_one p.tag p.scs s p.unfailed)),
    ),
  )
