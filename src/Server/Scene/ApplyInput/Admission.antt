-- ===== src/Server/Scene/ApplyInput/Admission.antt =====
-- What `apply_input` lets through.
use lumencast_py.Prelude.{
  String, ◌≡◌, ◌≢◌, refl, true, Option, none, some, List, [], ◌∷◌, arith, All,
}
use lumencast_py.Prelude.Dict
use lumencast_py.Prelude.Dict.{Dict}
use lumencast_py.Json.{Exception, Json, Result, ok, raise, ◌>>=◌}
use lumencast_py.Json.Builtins.{Builtins}
use lumencast_py.Protocol.Frames.{Patch, Cause}
use lumencast_py.Server.Auth.{Identity, can_write}
use lumencast_py.Server.Input.{InputSpec, Violation, check_constraint}
use lumencast_py.Server.Scene.{Scene, emit}
use lumencast_py.Server.Scene.Resume.{after_emit, heap_after, Emission, patches_of, emit-after_emit}
use lumencast_py.Server.Scene.ApplyInput.{
  Rejection, accepts_input_path, check_spec, check_patch, check_patches, as_dict, apply_input,
  commit_checked, committed, first_rejection, violation_of,
}
use lumencast_py.Server.Subscription.{Heap}

conform_none :
    (r : Result (Option Violation)) (path : String)
    → (r >>= λ e. ok (violation_of path e)) ≡ ok none
    → r ≡ ok none
conform_none (ok none) path h = refl
conform_none (ok (some v)) path h = cc
conform_none (raise e) path h = cc

both_none :
    (r rest : Result (Option Rejection))
    → (r >>= λ x. first_rejection x rest) ≡ ok none
    → (r ≡ ok none) × (rest ≡ ok none)
both_none (ok none) rest h = (refl, h)
both_none (ok (some x)) rest h = cc
both_none (raise e) rest h = cc

raise_ne {ℓ} : {A : Type ℓ} {x : Exception} {a : A} → ◌≢◌ {A = Result A} (raise x) (ok a)
raise_ne e = cc

none_ne :
    {t : Scene × Heap} {r : Rejection} {u : Scene × Heap}
    → ◌≢◌ {A = Result (Option Rejection × (Scene × Heap))} (ok (none, t)) (ok (some r, u))
none_ne e = cc

some_ne :
    {r : Rejection} {t u : Scene × Heap}
    → ◌≢◌ {A = Result (Option Rejection × (Scene × Heap))} (ok (some r, t)) (ok (none, u))
some_ne e = cc

put_ne : (k : String) (v : Json) (d : Dict Json) → Dict.put k v d ≢ []
unfolding Dict.put
put_ne k v [] h = cc
put_ne k v ((j, w) ∷ d) h = ground arith

as_dict_from : (ps : List Patch) (d : Dict Json) → d ≢ [] → as_dict ps d ≢ []
unfolding as_dict
as_dict_from [] d h = h
as_dict_from (p ∷ ps) d h = as_dict_from ps (Dict.put p.path p.value d) (put_ne p.path p.value d)

as_dict_ne : (p : Patch) (ps : List Patch) → as_dict (p ∷ ps) [] ≢ []
unfolding as_dict
as_dict_ne p ps = as_dict_from ps (Dict.put p.path p.value []) (put_ne p.path p.value [])

emission_of_dict :
    (d : Dict Json) (cause : Option Cause)
    → d ≢ []
    → (e : Emission) × (patches_of e ≡ d) × (e.cause ≡ cause)
emission_of_dict [] cause h = absurd (h refl)
emission_of_dict ((k, v) ∷ d) cause h =
    (record { path = k; value = v; more = d; cause = cause }, refl, refl)

emission_of :
    (ps : List Patch) (cause : Option Cause)
    → as_dict ps [] ≢ []
    → (e : Emission) × (patches_of e ≡ as_dict ps []) × (e.cause ≡ cause)
emission_of ps cause = emission_of_dict (as_dict ps []) cause

committed_emission :
    (d : Dict Json) (cause : Option Cause) (e : Emission) (s : Scene) (h : Heap)
    → patches_of e ≡ d
    → e.cause ≡ cause
    → committed (emit d cause s h) ≡ ok (none, (after_emit e s, heap_after e s h))
committed_emission d cause e s h shape same = cc (emit-after_emit e s h)

module _ (py : Builtins) where
  -- what the loop asks of a patch
  pub record Admissible (identity : Identity) (s : Scene) (p : Patch) : Type 0 where
    pub writable : can_write identity p.path ≡ true
    pub accepted : accepts_input_path identity.role p.path s ≡ true
    pub conforms :
        (spec : InputSpec)
        → Dict.get p.path s.declared_inputs ≡ some spec
        → check_constraint py spec p.value ≡ ok none

  check_spec-none :
      (o : Option InputSpec) (p : Patch) (spec : InputSpec)
      → check_spec py o p ≡ ok none
      → o ≡ some spec
      → check_constraint py spec p.value ≡ ok none
  check_spec-none none p spec h e = cc
  check_spec-none (some sp) p spec h e = cc (conform_none (check_constraint py sp p.value) p.path h)

  check_patch-Admissible :
      (identity : Identity) (s : Scene) (p : Patch)
      → check_patch py identity s p ≡ ok none
      → Admissible identity s p
  unfolding check_patch
  check_patch-Admissible identity s p h = record {
    writable = ground arith;
    accepted = ground arith;
    conforms =
        λ spec e. check_spec-none (Dict.get p.path s.declared_inputs) p spec (ground arith) e;
  }

  check_patches-Admissible :
      (identity : Identity) (s : Scene) (ps : List Patch)
      → check_patches py identity s ps ≡ ok none
      → All (Admissible identity s) ps
  unfolding check_patches
  check_patches-Admissible identity s [] h = tt
  check_patches-Admissible identity s (p ∷ ps) h =
      let (e, k) = both_none (check_patch py identity s p) (check_patches py identity s ps) h in
      (check_patch-Admissible identity s p e, check_patches-Admissible identity s ps k)

  check_spec_ok :
      (o : Option InputSpec) (p : Patch)
      → ((spec : InputSpec) → o ≡ some spec → check_constraint py spec p.value ≡ ok none)
      → check_spec py o p ≡ ok none
  check_spec_ok none p h = refl
  check_spec_ok (some spec) p h = rw (h spec refl)

  Admissible-check_patches :
      (identity : Identity) (s : Scene) (ps : List Patch)
      → All (Admissible identity s) ps
      → check_patches py identity s ps ≡ ok none
  unfolding check_patches check_patch
  Admissible-check_patches identity s [] a = refl
  Admissible-check_patches identity s (p ∷ ps) (a, more) =
      rw (a.writable, a.accepted, check_spec_ok (Dict.get p.path s.declared_inputs) p a.conforms)
        (Admissible-check_patches identity s ps more)

  -- A rejected frame leaves the scene and every queue as they were: no patch of it is applied.
  pub apply_input_atomic :
      (identity : Identity) (ps : List Patch) (cause : Option Cause) (s s' : Scene) (h h' : Heap)
      (r : Rejection)
      → apply_input py identity ps cause s h ≡ ok (some r, (s', h'))
      → (s' ≡ s) × (h' ≡ h)
  unfolding apply_input
  apply_input_atomic identity [] cause s s' h h' r e = (cc, cc)
  apply_input_atomic identity (p ∷ ps) cause s s' h h' r e =
      unchanged (check_patches py identity s (p ∷ ps)) e
    where
      after :
          (o : Option (Scene × Heap)) → committed o ≡ ok (some r, (s', h')) → (s' ≡ s) × (h' ≡ h)
      after none k = absurd (raise_ne k)
      after (some t) k = absurd (none_ne k)

      unchanged :
          (c : Result (Option Rejection))
          → (c >>= commit_checked (p ∷ ps) cause s h) ≡ ok (some r, (s', h'))
          → (s' ≡ s) × (h' ≡ h)
      unchanged (ok (some x)) k = (cc, cc)
      unchanged (ok none) k = after _ k
      unchanged (raise x) k = absurd (raise_ne k)

  -- A frame that is accepted is not empty and has admissible patches only.
  pub apply_input_admits :
      (identity : Identity) (ps : List Patch) (cause : Option Cause) (s : Scene) (h : Heap)
      (t : Scene × Heap)
      → apply_input py identity ps cause s h ≡ ok (none, t)
      → (ps ≢ []) × All (Admissible identity s) ps × (emit (as_dict ps []) cause s h ≡ some t)
  unfolding apply_input
  apply_input_admits identity [] cause s h t e = absurd (some_ne e)
  apply_input_admits identity (p ∷ ps) cause s h t e = (
    (λ k. cc),
    check_patches-Admissible identity s (p ∷ ps)
        (passed (check_patches py identity s (p ∷ ps)) e).0,
    (passed (check_patches py identity s (p ∷ ps)) e).1,
  )
    where
      sent : (o : Option (Scene × Heap)) → committed o ≡ ok (none, t) → o ≡ some t
      sent none k = absurd (raise_ne k)
      sent (some u) k = cc

      passed :
          (c : Result (Option Rejection))
          → (c >>= commit_checked (p ∷ ps) cause s h) ≡ ok (none, t)
          → (c ≡ ok none) × (emit (as_dict (p ∷ ps) []) cause s h ≡ some t)
      passed (ok (some x)) k = absurd (some_ne k)
      passed (ok none) k = (refl, sent _ k)
      passed (raise x) k = absurd (raise_ne k)

  -- A frame that is not empty and has admissible patches only is accepted and emitted whole, under
  -- the next number, with its cause.
  pub apply_input_commits :
      (identity : Identity) (p : Patch) (ps : List Patch) (cause : Option Cause) (s : Scene)
      (h : Heap)
      → All (Admissible identity s) (p ∷ ps)
      → (e : Emission) × (patches_of e ≡ as_dict (p ∷ ps) [])
        × (e.cause ≡ cause)
        × (apply_input py identity (p ∷ ps) cause s h
            ≡ ok (none, (after_emit e s, heap_after e s h)))
  unfolding apply_input
  apply_input_commits identity p ps cause s h a =
      let (e, shape, same) = emission_of (p ∷ ps) cause (as_dict_ne p ps) in
      (
        e,
        shape,
        same,
        rw (Admissible-check_patches identity s (p ∷ ps) a)
            (committed_emission _ cause e s h shape same),
      )
