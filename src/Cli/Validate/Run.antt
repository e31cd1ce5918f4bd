-- ===== src/Cli/Validate/Run.antt =====
-- cli/validate.py: `run`, over what the file system answers.
use lumencast_py.Prelude.{ℕ, Bool, true, false, Option, none, some, List, [], ◌∷◌, ◌≡◌, refl, arith}
use lumencast_py.Json.{Json}
use lumencast_py.Cli.Validate.{Complaint, validate, Valid, validate-Valid}

-- The exit code of the command, and what it complains of.
pub record Verdict : Type 0 where
  pub code : ℕ
  pub complaints : List Complaint

abbrev pub verdict_of : List Complaint → Verdict
verdict_of [] = record { code = 0; complaints = [] }
verdict_of (c ∷ cs) = record { code = 1; complaints = c ∷ cs }

-- `none` for a text that could not be read or is no JSON
abbrev pub check_read : Option Json → Verdict
check_read none = record { code = 2; complaints = [] }
check_read (some bundle) = verdict_of (validate bundle)

-- `run` after its arguments are parsed: whether the path is a file, and what was read of it
unfoldable pub run : Bool → Option Json → Verdict
unfolding validate
run true read = check_read read
run false read = record { code = 2; complaints = [] }

verdict_of-empty : (cs : List Complaint) → (verdict_of cs).code ≡ 0 → cs ≡ []
verdict_of-empty [] h = refl
verdict_of-empty (c ∷ cs) h = absurd (omega (arith, h))

-- The command exits with 0 only for a file that holds JSON: an object with a supported version, the
-- three required fields, a layout that is null or of one of the eight primitives, and operator
-- inputs that are unset or a list of objects with their four fields.
pub run-Valid :
    (is_file : Bool) (read : Option Json)
    → (run is_file read).code ≡ 0
    → (is_file ≡ true) × (bundle : Json) × (read ≡ some bundle) × Valid bundle
unfolding run
run-Valid true (some bundle) h =
    (refl, bundle, refl, validate-Valid bundle (verdict_of-empty (validate bundle) h))
run-Valid true none h = absurd (omega (arith, h))
run-Valid false read h = absurd (omega (arith, h))
