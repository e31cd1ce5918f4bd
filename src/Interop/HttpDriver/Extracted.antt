-- ===== src/Interop/HttpDriver/Extracted.antt =====
-- What is read off a scenario whose frames are objects.
use lumencast_py.Prelude.{
  String, ◌≡◌, refl, Bool, true, false, Option, none, List, [], ◌∷◌, All, inl, inr, Bool-cases,
  if◌then◌else◌,
}
use lumencast_py.Prelude.Dict.{Dict, get}
use lumencast_py.Json.{Json, obj, Fields, to_dict, Result, ok, ◌>>=◌}
use lumencast_py.Json.Builtins.{Builtins}
use lumencast_py.Conformance.Match.{sentinel_any, sentinel_any_hash}
use lumencast_py.Conformance.Placeholders.{strip_prefix, is_some}
use lumencast_py.Conformance.Scenario.{Step}
use lumencast_py.Server.Input.{InputSpec}
use lumencast_py.Server.Input.Inline.{read_specs, read_spec, constrained}
use lumencast_py.Interop.HttpDriver.Bundles.{
  is_server_sends, or_candidate, candidate, first_from, both_found, extract_from, is_snapshot,
  input_paths,
}

-- The frame of a server-sends is an object.
abbrev pub HasObject : Step → Type 0
HasObject st = is_server_sends st.kind ≡ true → (fs : Fields) × (st.frame ≡ obj fs)

-- what a frame adds to what was found
abbrev next_of : Fields → String × String → String × String
next_of fs (sid, h) = (
  or_candidate sid (candidate sentinel_any (get "scene_id" (to_dict fs))),
  or_candidate h (candidate sentinel_any_hash (get "scene_version" (to_dict fs))),
)

go_on :
    (b : Bool) (r : Result (String × String)) (next : String × String)
    → ((n : String × String) × (r ≡ ok n))
    → (n : String × String) × ((elim b [ true ↦ ok next | false ↦ r ]) ≡ ok n)
go_on true r next h = (next, refl)
go_on false r next h = h

pub first_ok :
    (sts : List Step) (found : String × String)
    → All HasObject sts
    → (next : String × String) × (first_from sts found ≡ ok next)
unfolding first_from
first_ok [] found a = (found, refl)
first_ok (st ∷ sts) found (h, a) = elim (Bool-cases (is_server_sends st.kind)) [
  | inr other ↦ rw other (first_ok sts found a)
  | inl sends ↦
      let (fs, e) = h sends in
      let next = next_of fs found in
      rw (sends, e) (go_on (both_found next) (first_from sts next) next (first_ok sts next a))
]

chosen :
    (b : Bool) (found : Option (Dict Json)) (r : Result (Option (Dict Json)))
    → ((st : Option (Dict Json)) × (r ≡ ok st))
    → (st : Option (Dict Json)) × ((if b then ok found else r) ≡ ok st)
chosen true found r h = (found, refl)
chosen false found r h = h

pub extract_ok :
    (sts : List Step) → All HasObject sts → (st : Option (Dict Json)) × (extract_from sts ≡ ok st)
unfolding extract_from
extract_ok [] a = (none, refl)
extract_ok (st ∷ sts) (h, a) = elim (Bool-cases (is_server_sends st.kind)) [
  | inr other ↦ rw other (extract_ok sts a)
  | inl sends ↦
      let (fs, e) = h sends in
      rw (sends, e) (chosen (is_snapshot (get "type" (to_dict fs))) _ _ (extract_ok sts a))
]

with_spec :
    (b : Bool) (spec : InputSpec) (r : Result (List InputSpec))
    → ((specs : List InputSpec) × (r ≡ ok specs))
    → (specs : List InputSpec) × ((if b then r else (do more ← r; ok (spec ∷ more))) ≡ ok specs)
with_spec true spec r h = h
with_spec false spec r (specs, e) = (spec ∷ specs, rw e refl)

pub specs_ok :
    (py : Builtins) (d : Dict Json)
    → (specs : List InputSpec) × (read_specs py (input_paths d) ≡ ok specs)
unfolding read_specs input_paths read_spec constrained to_dict get
specs_ok py [] = ([], refl)
specs_ok py ((path, v) ∷ d) = elim (Bool-cases (is_some (strip_prefix "__inputs." path))) [
  | inr other ↦ rw other (specs_ok py d)
  | inl under ↦ rw under (with_spec _ _ (read_specs py (input_paths d)) (specs_ok py d))
]
