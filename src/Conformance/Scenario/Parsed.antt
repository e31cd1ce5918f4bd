-- ===== src/Conformance/Scenario/Parsed.antt =====
-- What holds of a scenario that was parsed, and what the harness does with a kind of step that it
-- does not know.
use mathlib.Core.Path.{subst}
use lumencast_py.Prelude.{
  String, ◌≡◌, ◌≢◌, refl, sym, ◌∙◌, true, false, Option, none, some, List, [], ◌∷◌, All, str_eq,
  eq_iff, arith, inl, inr, Bool-cases,
}
use lumencast_py.Prelude.Dict
use lumencast_py.Prelude.Dict.{Dict}
use lumencast_py.Json.{
  Json, null, bool, int, real, text, arr, obj, Fields, to_dict, to_list, ok, raise, bind-ok, ◌>>=◌,
  value_error,
}
use lumencast_py.Json.Builtins.{Builtins, to_int}
use lumencast_py.Lsml.Number.{Numerals}
use lumencast_py.Lsml.Canonical.{Digest, hash_inline_bundle}
use lumencast_py.Conformance.Scenario.{
  BundleDecl, Step, Scenario, kind_of, hash_of, inline_of, text_at, parse_bundle_items,
  parse_bundles, parse_step, parse_steps, parse_named, parse_mapping, parse_scenario, items_at,
}

filled_ne : (s : String) → str_eq s "" ≡ false → s ≢ ""
filled_ne s h k = absurd (ground (arith, eq_iff s "", h, k))

ok_inj {ℓ} : {A : Type ℓ} {a b : A} → ok a ≡ ok b → a ≡ b
ok_inj h = cc

module _ (py : Builtins) (num : Numerals) (dig : Digest) where
  -- A bundle has an id, and the address of its body, or an empty one where the body is empty.
  pub record IsSealed (b : BundleDecl) : Type 0 where
    pub named : b.id ≢ ""
    pub bare : b.inline ≡ [] → b.hash ≡ ""
    pub hashed : b.inline ≢ [] → hash_inline_bundle py num dig b.inline ≡ ok b.hash

  bare_lem : (d : Dict Json) (h : String) → hash_of py num dig d ≡ ok h → d ≡ [] → h ≡ ""
  bare_lem [] h e empty = sym (ok_inj e)
  bare_lem (x ∷ d) h e empty = absurd cc

  hashed_lem :
      (d : Dict Json) (h : String)
      → hash_of py num dig d ≡ ok h
      → d ≢ []
      → hash_inline_bundle py num dig d ≡ ok h
  hashed_lem [] h e filled = absurd (filled refl)
  hashed_lem (x ∷ d) h e filled = e

  -- A step's kind is what its spelling says.
  abbrev pub IsKinded : Step → Type 0
  IsKinded st = st.kind ≡ kind_of st.raw_kind

  -- What holds of a parsed scenario.
  pub record IsParsed (sc : Scenario) : Type 0 where
    pub named : (sc.name ≢ "") × (Dict.get "name" sc.raw ≡ some (text sc.name))
    pub bundles : All IsSealed sc.bundles
    pub steps : All IsKinded sc.steps

  nameless_bundle :
      (fs : Fields) (items : List Json)
      → str_eq (text_at py num dig "id" (to_dict fs)) "" ≡ true
      → parse_bundle_items py num dig (obj fs ∷ items) ≡ parse_bundle_items py num dig items
  unfolding parse_bundle_items
  nameless_bundle fs items h = rw h refl

  named_bundle :
      (fs : Fields) (items : List Json)
      → (let bid = text_at py num dig "id" (to_dict fs) in
          let inline = inline_of py num dig (Dict.get "inline" (to_dict fs)) in
          str_eq bid "" ≡ false
          → parse_bundle_items py num dig (obj fs ∷ items) ≡ (do
            hash ← hash_of py num dig inline
            bundles ← parse_bundle_items py num dig items
            ok (record { id = bid; inline = inline; hash = hash } ∷ bundles)))
  unfolding parse_bundle_items
  named_bundle fs items h = rw h refl

  bundle_items-IsSealed :
      (items : List Json) (bs : List BundleDecl)
      → parse_bundle_items py num dig items ≡ ok bs
      → All IsSealed bs
  unfolding parse_bundle_items
  bundle_items-IsSealed [] bs h = subst (All IsSealed) (ok_inj h) tt
  bundle_items-IsSealed (obj fs ∷ items) bs h =
      elim (Bool-cases (str_eq (text_at py num dig "id" (to_dict fs)) "")) [
        | inl empty ↦ bundle_items-IsSealed items bs (sym (nameless_bundle fs items empty) ∙ h)
        | inr named ↦
            let (hash, (hashed, rest)) = bind-ok _ _ bs (sym (named_bundle fs items named) ∙ h) in
            let (bundles, (parsed, e)) = bind-ok _ _ bs rest in
            let first : IsSealed (record {
              id = text_at py num dig "id" (to_dict fs);
              inline = inline_of py num dig (Dict.get "inline" (to_dict fs));
              hash = hash;
            }) =
              record {
                named = filled_ne _ named;
                bare = bare_lem _ hash hashed;
                hashed = hashed_lem _ hash hashed;
              } in
            subst (All IsSealed)
              {x = record {
                id = text_at py num dig "id" (to_dict fs);
                inline = inline_of py num dig (Dict.get "inline" (to_dict fs));
                hash = hash;
              }
                ∷ bundles}
              (ok_inj e) (first, bundle_items-IsSealed items bundles parsed)
      ]
  bundle_items-IsSealed (null ∷ items) bs h = bundle_items-IsSealed items bs h
  bundle_items-IsSealed (bool v ∷ items) bs h = bundle_items-IsSealed items bs h
  bundle_items-IsSealed (int v ∷ items) bs h = bundle_items-IsSealed items bs h
  bundle_items-IsSealed (real v ∷ items) bs h = bundle_items-IsSealed items bs h
  bundle_items-IsSealed (text v ∷ items) bs h = bundle_items-IsSealed items bs h
  bundle_items-IsSealed (arr v ∷ items) bs h = bundle_items-IsSealed items bs h

  bundles-IsSealed :
      (raw : Option Json) (bs : List BundleDecl)
      → parse_bundles py num dig raw ≡ ok bs
      → All IsSealed bs
  unfolding parse_bundles
  bundles-IsSealed (some (arr xs)) bs h = bundle_items-IsSealed (to_list xs) bs h
  bundles-IsSealed none bs h = subst (All IsSealed) (ok_inj h) tt
  bundles-IsSealed (some null) bs h = subst (All IsSealed) (ok_inj h) tt
  bundles-IsSealed (some (bool v)) bs h = subst (All IsSealed) (ok_inj h) tt
  bundles-IsSealed (some (int v)) bs h = subst (All IsSealed) (ok_inj h) tt
  bundles-IsSealed (some (real v)) bs h = subst (All IsSealed) (ok_inj h) tt
  bundles-IsSealed (some (text v)) bs h = subst (All IsSealed) (ok_inj h) tt
  bundles-IsSealed (some (obj v)) bs h = subst (All IsSealed) (ok_inj h) tt

  step-IsKinded : (item : Dict Json) (st : Step) → parse_step py num dig item ≡ ok st → IsKinded st
  unfolding parse_step
  step-IsKinded item st h =
      let (ms, (timed, e)) = bind-ok (to_int py _) _ st h in subst IsKinded (ok_inj e) refl

  steps-IsKinded :
      (items : List Json) (sts : List Step)
      → parse_steps py num dig items ≡ ok sts
      → All IsKinded sts
  unfolding parse_steps
  steps-IsKinded [] sts h = subst (All IsKinded) (ok_inj h) tt
  steps-IsKinded (obj fs ∷ items) sts h =
      let (st, (one, rest)) = bind-ok (parse_step py num dig (to_dict fs)) _ sts h in
      let (more, (parsed, e)) = bind-ok (parse_steps py num dig items) _ sts rest in
      subst (All IsKinded) {x = st ∷ more} (ok_inj e)
        (step-IsKinded (to_dict fs) st one, steps-IsKinded items more parsed)
  steps-IsKinded (null ∷ items) sts h = steps-IsKinded items sts h
  steps-IsKinded (bool v ∷ items) sts h = steps-IsKinded items sts h
  steps-IsKinded (int v ∷ items) sts h = steps-IsKinded items sts h
  steps-IsKinded (real v ∷ items) sts h = steps-IsKinded items sts h
  steps-IsKinded (text v ∷ items) sts h = steps-IsKinded items sts h
  steps-IsKinded (arr v ∷ items) sts h = steps-IsKinded items sts h

  named-IsParsed :
      (name : String) (d : Dict Json) (sc : Scenario)
      → str_eq name "" ≡ false
      → Dict.get "name" d ≡ some (text name)
      → parse_named py num dig name d ≡ ok sc
      → IsParsed sc
  unfolding parse_named
  named-IsParsed name d sc filled there h =
      let (refs, (_, h1)) = bind-ok (items_at py num dig "spec_refs" d) _ sc h in
      let (bundles, (hb, h2)) = bind-ok (parse_bundles py num dig (Dict.get "bundles" d)) _ sc h1 in
      let (items, (_, h3)) = bind-ok (items_at py num dig "steps" d) _ sc h2 in
      let (steps, (hs, h4)) = bind-ok (parse_steps py num dig items) _ sc h3 in
      subst IsParsed (ok_inj h4) (record {
        named = (filled_ne name filled, there);
        bundles = bundles-IsSealed (Dict.get "bundles" d) bundles hb;
        steps = steps-IsKinded items steps hs;
      })

  value_error_ne : {sc : Scenario} → raise value_error ≢ ok sc
  value_error_ne h = cc

  mapping-IsParsed :
      (o : Option Json) (d : Dict Json) (sc : Scenario)
      → Dict.get "name" d ≡ o
      → parse_mapping py num dig o d ≡ ok sc
      → IsParsed sc
  mapping-IsParsed (some (text name)) d sc there h = elim (Bool-cases (str_eq name "")) [
    | inl empty ↦ absurd (value_error_ne (rw empty at h))
    | inr filled ↦ named-IsParsed name d sc filled there (rw filled at h)
  ]
  mapping-IsParsed none d sc there h = absurd (value_error_ne h)
  mapping-IsParsed (some null) d sc there h = absurd (value_error_ne h)
  mapping-IsParsed (some (bool v)) d sc there h = absurd (value_error_ne h)
  mapping-IsParsed (some (int v)) d sc there h = absurd (value_error_ne h)
  mapping-IsParsed (some (real v)) d sc there h = absurd (value_error_ne h)
  mapping-IsParsed (some (arr v)) d sc there h = absurd (value_error_ne h)
  mapping-IsParsed (some (obj v)) d sc there h = absurd (value_error_ne h)

  pub parse_scenario-IsParsed :
      (v : Json) (sc : Scenario) → parse_scenario py num dig v ≡ ok sc → IsParsed sc
  unfolding parse_scenario
  parse_scenario-IsParsed (obj fs) sc h =
      mapping-IsParsed (Dict.get "name" (to_dict fs)) (to_dict fs) sc refl h
  parse_scenario-IsParsed null sc h = absurd (value_error_ne h)
  parse_scenario-IsParsed (bool v) sc h = absurd (value_error_ne h)
  parse_scenario-IsParsed (int v) sc h = absurd (value_error_ne h)
  parse_scenario-IsParsed (real v) sc h = absurd (value_error_ne h)
  parse_scenario-IsParsed (text v) sc h = absurd (value_error_ne h)
  parse_scenario-IsParsed (arr v) sc h = absurd (value_error_ne h)
