-- ===== src/Cli/Conformance.antt =====
-- cli/conformance.py: `run`, which drives a server through the scenarios of a directory. The file
-- system is a parameter, and so are the HTTP client and the run of one scenario.
pub mod Located
pub mod Passes
pub mod Selected
use lumencast_py.Prelude.{
  ℕ, String, Bool, true, false, Option, none, some, List, [], ◌∷◌, keep, ◌==◌, str_eq,
  if◌then◌else◌,
}
use lumencast_py.Json.{Json, Result, ok, raise, ◌>>=◌}
use lumencast_py.Json.Builtins.{Builtins}
use lumencast_py.Lsml.Number.{Numerals}
use lumencast_py.Lsml.Canonical.{Digest}
use lumencast_py.Conformance.Scenario.{Tag, required, recommended, extended, Scenario, load_each}
use lumencast_py.Conformance.Harness.{Outcome, Report, Config, run_scenarios}
use lumencast_py.Interop.HttpDriver
use lumencast_py.Interop.HttpDriver.{Http, HttpDriver, canonical_interop_tokens, health_check}

-- What the arguments say; `scenarios` is none where the option is not given.
pub record Args : Type 0 where
  pub control_url : String
  pub scenarios : Option String
  pub tag : String
  pub scenario : String

-- What the command sees of the file system: the variable LUMENCAST_PROTOCOL_REPO, the directory of
-- the scenarios in a checkout, the one in the sibling checkout, and the documents of a directory.
pub record Files : Type 0 where
  pub protocol_repo : Option String
  pub scenarios_in : String → String
  pub sibling : String
  pub is_dir : String → Bool
  pub documents : String → List Json

-- The exit code, and the report that is printed where there is one.
pub record Exit : Type 0 where
  pub code : ℕ
  pub report : Option Report

abbrev pub exited : ℕ → Exit
exited code = record { code = code; report = none }

-- 0 if report.failed == 0 else 1
abbrev pub finished : Report → Exit
finished rep = record { code = if rep.failed == 0 then 0 else 1; report = some rep }

abbrev pub sibling_dir : Files → Option String
sibling_dir files = if files.is_dir files.sibling then some files.sibling else none

abbrev pub env_dir : Files → Option String → Option String
env_dir files none = sibling_dir files
env_dir files (some env) =
    if str_eq env ""
    then sibling_dir files
    else if files.is_dir (files.scenarios_in env)
    then some (files.scenarios_in env)
    else sibling_dir files

-- `_resolve_scenarios_dir`
unfoldable pub resolve_scenarios_dir : Files → Option String → Option String
resolve_scenarios_dir files none = env_dir files files.protocol_repo
resolve_scenarios_dir files (some explicit) =
    if str_eq explicit "" then env_dir files files.protocol_repo else some explicit

-- Tag(s); `none` is the ValueError
unfoldable pub tag_named : String → Option Tag
tag_named s =
    if str_eq s "required"
    then some required
    else if str_eq s "recommended"
    then some recommended
    else if str_eq s "extended"
    then some extended
    else none

abbrev pub or_not_found : List Scenario → Option (List Scenario)
or_not_found [] = none
or_not_found (sc ∷ scs) = some (sc ∷ scs)

-- all the scenarios, or those of the name that is asked for; `none` where there are none of it
unfoldable pub select : String → List Scenario → Option (List Scenario)
unfolding keep
select name all =
    if str_eq name ""
    then some all
    else or_not_found (keep (λ (sc : Scenario). str_eq sc.name name) all)

abbrev pub filter_of : Tag → Config
filter_of tag = record { tag_filter = some tag; skip_scenarios = [] }

-- the driver with the tokens of the interop suite
abbrev pub driver : Args → HttpDriver
driver args = HttpDriver.init args.control_url canonical_interop_tokens

module _ (py : Builtins) (num : Numerals) (dig : Digest) (files : Files) where
  -- `load_scenarios`; `none` is the FileNotFoundError
  unfoldable pub load_scenarios : String → Result (Option (List Scenario))
  unfolding load_each
  load_scenarios dir = elim (files.is_dir dir) [
    | false ↦ ok none
    | true ↦ (do all ← load_each py num dig (files.documents dir); ok (some all))
  ]

  module _ {S : Type 0} (http : Http S) (run_one : Scenario → S → Outcome × S) where
    abbrev pub run_healthy : S → List Scenario → Tag → Result (Unit {0}) → Exit
    run_healthy s scs tag (raise e) = exited 1
    run_healthy s scs tag (ok u) = finished (run_scenarios run_one (filter_of tag) scs s)

    abbrev pub run_tagged : Args → S → List Scenario → Option Tag → Exit
    run_tagged args s scs none = exited 2
    run_tagged args s scs (some tag) = run_healthy s scs tag (health_check http py (driver args) s)

    abbrev pub run_selected : Args → S → Option (List Scenario) → Exit
    run_selected args s none = exited 2
    run_selected args s (some scs) = run_tagged args s scs (tag_named args.tag)

    abbrev pub run_loaded : Args → S → Option (List Scenario) → Exit
    run_loaded args s none = exited 2
    run_loaded args s (some all) = run_selected args s (select args.scenario all)

    abbrev pub run_in : Args → S → Option String → Result Exit
    run_in args s none = ok (exited 2)
    run_in args s (some dir) = do all ← load_scenarios dir; ok (run_loaded args s all)

    -- an exception of the loading that is no FileNotFoundError is let through
    unfoldable pub run : Args → S → Result Exit
    run args s = run_in args s (resolve_scenarios_dir files args.scenarios)
