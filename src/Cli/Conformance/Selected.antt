-- ===== src/Cli/Conformance/Selected.antt =====
-- cli/conformance.py: the scenarios of a run, and its tag.
use mathlib.Core.Path.{subst}
use lumencast_py.Prelude.{
  String, ◌≡◌, ◌≢◌, ◌⊎◌, refl, sym, ap, ◌∙◌, false, some, List, [], ◌∷◌, keep, str_eq, eq_iff,
  arith, inl, inr, Bool-cases,
}
use lumencast_py.Conformance.Scenario.{Tag, Scenario}
use lumencast_py.Cli.Conformance.Located.{some_inj, none-some, filled_test}
use lumencast_py.Cli.Conformance.{tag_named, or_not_found, select}

-- all the scenarios where no name is asked for, else those of the name, which are not none
abbrev pub Selected : String → List Scenario → List Scenario → Type 0
Selected name all scs =
    ((name ≡ "") × (scs ≡ all))
    ⊎ ((name ≢ "") × (scs ≢ []) × (scs ≡ keep (λ (sc : Scenario). str_eq sc.name name) all))

abbrev pub IsTag : String → Tag → Type 0
IsTag s Tag.required = s ≡ "required"
IsTag s Tag.recommended = s ≡ "recommended"
IsTag s Tag.extended = s ≡ "extended"

pub select-Selected :
    (name : String) (all scs : List Scenario) → select name all ≡ some scs → Selected name all scs
unfolding select
select-Selected name all scs h = elim (Bool-cases (str_eq name "")) [
  | inl empty ↦ inl ((eq_iff name "").0 empty, sym (some_inj all scs (rw empty at h)))
  | inr filled ↦
      let (some_left, same) = named _ scs (rw filled at h) in
      inr ((λ e. absurd (ground (arith, eq_iff name "", filled, e))), some_left, same)
]
  where
    named : (found scs : List Scenario) → or_not_found found ≡ some scs → (scs ≢ []) × (scs ≡ found)
    named [] scs e = absurd (none-some e)
    named (sc ∷ found) scs e =
        let same : sc ∷ found ≡ scs = some_inj _ _ e in
        ((λ k. let bad : sc ∷ found ≡ [] = same ∙ k in absurd cc), sym same)

some_found : (found : List Scenario) → found ≢ [] → or_not_found found ≡ some found
some_found [] ne = absurd (ne refl)
some_found (sc ∷ found) ne = refl

pub Selected-select :
    (name : String) (all scs : List Scenario) → Selected name all scs → select name all ≡ some scs
unfolding select
Selected-select name all scs (inl (empty, same)) =
    rw ((eq_iff name "").1 empty) (ap some (sym same))
Selected-select name all scs (inr (ne, found, same)) =
    let other : str_eq name "" ≡ false = filled_test name ne in
    rw other (rw same (some_found _ (rw same at found)))

pub tag_named-IsTag : (s : String) (tag : Tag) → tag_named s ≡ some tag → IsTag s tag
unfolding tag_named
tag_named-IsTag s tag h = elim (Bool-cases (str_eq s "required")) [
  | inl e ↦ subst (IsTag s) (some_inj _ _ (rw e at h)) ((eq_iff s "required").0 e)
  | inr n ↦ elim (Bool-cases (str_eq s "recommended")) [
    | inl e ↦ subst (IsTag s) (some_inj _ _ (rw e at (rw n at h))) ((eq_iff s "recommended").0 e)
    | inr m ↦ elim (Bool-cases (str_eq s "extended")) [
      | inl e ↦
          subst (IsTag s) (some_inj _ _ (rw e at (rw m at (rw n at h)))) ((eq_iff s "extended").0 e)
      | inr k ↦ absurd (none-some (rw k at (rw m at (rw n at h))))
    ]
  ]
]

pub IsTag-tag_named : (s : String) (tag : Tag) → IsTag s tag → tag_named s ≡ some tag
unfolding tag_named
IsTag-tag_named s Tag.required h = rw h refl
IsTag-tag_named s Tag.recommended h = rw h refl
IsTag-tag_named s Tag.extended h = rw h refl
