-- ===== src/Cli/Conformance/Located.antt =====
-- cli/conformance.py: where `_resolve_scenarios_dir` finds its directory.
use lumencast_py.Prelude.{
  String, ◌≡◌, ◌≢◌, refl, sym, ap, ◌∙◌, true, false, Option, none, some, str_eq, eq_iff, arith, inl,
  inr, Bool-cases,
}
use lumencast_py.Cli.Conformance.{Files, sibling_dir, env_dir, resolve_scenarios_dir}

pub some_inj {ℓ} : {A : Type ℓ} (a b : A) → some a ≡ some b → a ≡ b
some_inj a b h = cc

pub none-some {ℓ} : {A : Type ℓ} {a : A} → none ≡ some a → ⊥
none-some h = cc

-- a text that is set
abbrev pub IsGiven : Option String → String → Type 0
IsGiven o d = (o ≡ some d) × (d ≢ "")

-- Where the directory comes from: the option, the environment where there is none, and the sibling
-- checkout where the environment has no directory.
pub data Located (files : Files) (o : Option String) (dir : String) : Type 0 where
  explicit : IsGiven o dir → Located files o dir
  environment :
      (repo : String)
      → ((d : String) → ¬ IsGiven o d)
      → IsGiven files.protocol_repo repo
      → dir ≡ files.scenarios_in repo
      → files.is_dir dir ≡ true
      → Located files o dir
  in_sibling :
      ((d : String) → ¬ IsGiven o d)
      → ((repo : String)
          → IsGiven files.protocol_repo repo
          → files.is_dir (files.scenarios_in repo) ≡ false)
      → dir ≡ files.sibling
      → files.is_dir dir ≡ true
      → Located files o dir

unset_none : (d : String) → ¬ IsGiven none d
unset_none d h = let e = h.0 in absurd cc

unset_empty : (o d : String) → str_eq o "" ≡ true → ¬ IsGiven (some o) d
unset_empty o d e h = let same : o ≡ d = some_inj o d h.0 in h.1 (sym same ∙ (eq_iff o "").0 e)

set_filled : (o : String) → str_eq o "" ≡ false → IsGiven (some o) o
set_filled o e = (refl, λ h. absurd (ground (arith, eq_iff o "", e, h)))

sibling_Located :
    (files : Files) (o : Option String) (dir : String)
    → ((d : String) → ¬ IsGiven o d)
    → ((repo : String)
        → IsGiven files.protocol_repo repo
        → files.is_dir (files.scenarios_in repo) ≡ false)
    → sibling_dir files ≡ some dir
    → Located files o dir
sibling_Located files o dir unset missing h = elim (Bool-cases (files.is_dir files.sibling)) [
  | inl there ↦
      let same : files.sibling ≡ dir = some_inj _ _ (rw there at h) in
      Located.in_sibling unset missing (sym same) (rw same at there)
  | inr gone ↦ absurd (none-some (rw gone at h))
]

repo_missing :
    (files : Files) (env repo : String)
    → files.is_dir (files.scenarios_in env) ≡ false
    → IsGiven (some env) repo
    → files.is_dir (files.scenarios_in repo) ≡ false
repo_missing files env repo gone i = rw (some_inj env repo i.0) at gone

env_Located :
    (files : Files) (o : Option String) (dir : String) (env : Option String)
    → ((d : String) → ¬ IsGiven o d)
    → files.protocol_repo ≡ env
    → env_dir files env ≡ some dir
    → Located files o dir
env_Located files o dir none unset e h =
    sibling_Located files o dir unset (λ repo i. absurd (unset_none repo (rw e at i))) h
env_Located files o dir (some env) unset e h = elim (Bool-cases (str_eq env "")) [
  | inl empty ↦
      sibling_Located files o dir unset (λ repo i. absurd (unset_empty env repo empty (rw e at i)))
        (rw empty at h)
  | inr filled ↦ elim (Bool-cases (files.is_dir (files.scenarios_in env))) [
    | inl there ↦
        let same : files.scenarios_in env ≡ dir = some_inj _ _ (rw there at (rw filled at h)) in
        Located.environment env unset (rw e (set_filled env filled)) (sym same) (rw same at there)
    | inr gone ↦
        sibling_Located files o dir unset (λ repo i. repo_missing files env repo gone (rw e at i))
          (rw gone at (rw filled at h))
  ]
]

pub resolve-Located :
    (files : Files) (o : Option String) (dir : String)
    → resolve_scenarios_dir files o ≡ some dir
    → Located files o dir
unfolding resolve_scenarios_dir
resolve-Located files none dir h = env_Located files none dir files.protocol_repo unset_none refl h
resolve-Located files (some d) dir h = elim (Bool-cases (str_eq d "")) [
  | inl empty ↦
      env_Located files (some d) dir files.protocol_repo (λ x. unset_empty d x empty) refl
        (rw empty at h)
  | inr filled ↦
      let same : d ≡ dir = some_inj d dir (rw filled at h) in
      Located.explicit (ap some same, λ e. (set_filled d filled).1 (same ∙ e))
]

env_unset :
    (files : Files) (o : Option String)
    → ((d : String) → ¬ IsGiven o d)
    → resolve_scenarios_dir files o ≡ env_dir files files.protocol_repo
unfolding resolve_scenarios_dir
env_unset files none unset = refl
env_unset files (some d) unset = elim (Bool-cases (str_eq d "")) [
  | inl empty ↦ rw empty refl
  | inr filled ↦ absurd (unset d (set_filled d filled))
]

pub filled_test : (s : String) → s ≢ "" → str_eq s "" ≡ false
filled_test s ne = ground (arith, eq_iff s "")

env_set :
    (files : Files) (repo : String)
    → repo ≢ ""
    → files.is_dir (files.scenarios_in repo) ≡ true
    → env_dir files (some repo) ≡ some (files.scenarios_in repo)
env_set files repo ne there = rw (filled_test repo ne, there) refl

env_missing :
    (files : Files) (env : Option String)
    → ((repo : String) → IsGiven env repo → files.is_dir (files.scenarios_in repo) ≡ false)
    → env_dir files env ≡ sibling_dir files
env_missing files none missing = refl
env_missing files (some env) missing = elim (Bool-cases (str_eq env "")) [
  | inl empty ↦ rw empty refl
  | inr filled ↦ rw (filled, missing env (set_filled env filled)) refl
]

pub Located-resolve :
    (files : Files) (o : Option String) (dir : String)
    → Located files o dir
    → resolve_scenarios_dir files o ≡ some dir
unfolding resolve_scenarios_dir
Located-resolve files o dir (explicit i) =
    rw (i.0, resolve_scenarios_dir) (rw (filled_test dir i.1) refl)
Located-resolve files o dir (environment repo unset i same there) =
    env_unset files o unset
    ∙ ap (env_dir files) i.0
    ∙ env_set files repo i.1 (rw same at there)
    ∙ ap some (sym same)
Located-resolve files o dir (in_sibling unset missing same there) =
    env_unset files o unset
    ∙ env_missing files files.protocol_repo missing
    ∙ rw (rw same at there) (ap some (sym same))
