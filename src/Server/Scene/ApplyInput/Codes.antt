-- ===== src/Server/Scene/ApplyInput/Codes.antt =====
-- server/scene.py: the codes that `apply_input` rejects with.
use lumencast_py.Prelude.{String, ◌≡◌, Option, none, some, List, [], ◌∷◌, ◌⊎◌, inl, inr, Bool-cases}
use lumencast_py.Prelude.Dict
use lumencast_py.Json.{Result, ok, raise, Exception, ◌>>=◌}
use lumencast_py.Json.Builtins.{Builtins}
use lumencast_py.Protocol.Frames.{Patch, Cause}
use lumencast_py.Server.Auth.{Identity, can_write}
use lumencast_py.Server.Input.{InputSpec, Violation, check_constraint}
use lumencast_py.Server.Scene.{Scene}
use lumencast_py.Server.Scene.ApplyInput.{
  Rejection, check_spec, check_patch, check_patches, apply_input, accepts_input_path, committed,
  commit_checked, first_rejection, violation_of,
}
use lumencast_py.Server.Subscription.{Heap}

-- one of the three codes
abbrev pub IsListed : String → Type 0
IsListed c = (c ≡ "WRITE_FORBIDDEN") ⊎ ((c ≡ "UNKNOWN_PATH") ⊎ (c ≡ "INVALID_VALUE"))

raised {ℓ κ} : {A : Type ℓ} {B : Type κ} {e : Exception} {a : A} → raise e ≡ ok a → B
raised h = absurd cc

passed {ℓ} :
    {A : Type ℓ} {r : Rejection} → ◌≡◌ {A = Result (Option Rejection)} (ok none) (ok (some r)) → A
passed h = absurd cc

same_code : (q r : Rejection) → ok (some q) ≡ ok (some r) → q.code ≡ r.code
same_code q r h = cc

violated_code :
    (path : String) (c : Result (Option Violation)) (r : Rejection)
    → (do e ← c; ok (violation_of path e)) ≡ ok (some r)
    → IsListed r.code
violated_code path (raise e) r h = raised h
violated_code path (ok none) r h = passed h
violated_code path (ok (some v)) r h = inr (inr cc)

module _ (py : Builtins) where
  check_spec-IsListed :
      (o : Option InputSpec) (p : Patch) (r : Rejection)
      → check_spec py o p ≡ ok (some r)
      → IsListed r.code
  check_spec-IsListed none p r h = passed h
  check_spec-IsListed (some spec) p r h =
      violated_code p.path (check_constraint py spec p.value) r h

  check_patch-IsListed :
      (who : Identity) (s : Scene) (p : Patch) (r : Rejection)
      → check_patch py who s p ≡ ok (some r)
      → IsListed r.code
  unfolding check_patch
  check_patch-IsListed who s p r h = elim (Bool-cases (can_write who p.path)) [
    | inr other ↦ let e = rw other at h in inl cc
    | inl writable ↦ elim (Bool-cases (accepts_input_path who.role p.path s)) [
      | inr other ↦ let e = rw other at (rw writable at h) in inr (inl cc)
      | inl accepted ↦
          check_spec-IsListed (Dict.get p.path s.declared_inputs) p r
            (rw accepted at (rw writable at h))
    ]
  ]

  first_lem :
      (c rest : Result (Option Rejection)) (r : Rejection)
      → (c >>= λ x. first_rejection x rest) ≡ ok (some r)
      → (c ≡ ok (some r)) ⊎ (rest ≡ ok (some r))
  first_lem (raise e) rest r h = raised h
  first_lem (ok none) rest r h = inr h
  first_lem (ok (some x)) rest r h = inl h

  check_patches-IsListed :
      (who : Identity) (s : Scene) (ps : List Patch) (r : Rejection)
      → check_patches py who s ps ≡ ok (some r)
      → IsListed r.code
  unfolding check_patches
  check_patches-IsListed who s [] r h = passed h
  check_patches-IsListed who s (p ∷ ps) r h =
      elim (first_lem (check_patch py who s p) (check_patches py who s ps) r h) [
        | inl here ↦ check_patch-IsListed who s p r here
        | inr later ↦ check_patches-IsListed who s ps r later
      ]

  kept_code :
      (ps : List Patch) (cause : Option Cause) (s s' : Scene) (h h' : Heap) (r : Rejection)
      (c : Result (Option Rejection))
      → (c >>= commit_checked ps cause s h) ≡ ok (some r, (s', h'))
      → c ≡ ok (some r)
  kept_code ps cause s s' h h' r (raise e) k = raised k
  kept_code ps cause s s' h h' r (ok (some x)) k = cc
  kept_code ps cause s s' h h' r (ok none) k = after _ k
    where
      after :
          (o : Option (Scene × Heap))
          → committed o ≡ ok (some r, (s', h'))
          → ◌≡◌ {A = Result (Option Rejection)} (ok none) (ok (some r))
      after none k = raised k
      after (some t) k = absurd cc

  -- A rejection has one of the three codes.
  pub apply_input-IsListed :
      (who : Identity) (ps : List Patch) (cause : Option Cause) (s s' : Scene) (h h' : Heap)
      (r : Rejection)
      → apply_input py who ps cause s h ≡ ok (some r, (s', h'))
      → IsListed r.code
  unfolding apply_input
  apply_input-IsListed who [] cause s s' h h' r e = inr (inr cc)
  apply_input-IsListed who (p ∷ ps) cause s s' h h' r e =
      check_patches-IsListed who s (p ∷ ps) r (kept_code (p ∷ ps) cause s s' h h' r _ e)
