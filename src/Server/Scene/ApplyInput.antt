-- ===== src/Server/Scene/ApplyInput.antt =====
-- server/scene.py: `apply_input` and its per-namespace policy.
pub mod Admission
pub mod Namespaces
pub mod Codes
use Prim.Native.String.{◌++◌ as cat}
use lumencast_py.Prelude.{
  ℕ, String, Bool, true, false, Option, none, some, List, [], ◌∷◌, if◌then◌else◌, not,
}
use lumencast_py.Prelude.Dict
use lumencast_py.Prelude.Dict.{Dict}
use lumencast_py.Json.{Json, Result, ok, raise, value_error, ◌>>=◌}
use lumencast_py.Json.Builtins.{Builtins}
use lumencast_py.Protocol.Frames.{Patch, Cause}
use lumencast_py.Protocol.LeafPath.{has_prefix}
use lumencast_py.Protocol.Types.{Role, viewer, operator, service, test}
use lumencast_py.Server.Auth.{Identity, can_write}
use lumencast_py.Server.Input.{InputSpec, Violation, check_constraint}
use lumencast_py.Server.Scene.{Scene, emit}
use lumencast_py.Server.Subscription.{Heap}

-- the text of the message, by its kind
pub data Reason : Type 0 where
  empty_patches write_forbidden unknown_path : Reason
  violated : Violation → Reason

pub record Rejection : Type 0 where
  pub code : String
  pub reason : Reason
  pub path : Option String

abbrev pub is_test : Option Role → Bool
is_test (some test) = true
is_test _ = false

unfoldable pub accepts_input_path : Option Role → String → Scene → Bool
accepts_input_path role path s =
    if has_prefix path "__inputs"
    then elim s.declared_inputs [ [] ↦ true | d ∷ ds ↦ Dict.has path (d ∷ ds) ]
    else if has_prefix path "__test"
    then is_test role
    else false

abbrev pub violation_of : String → Option Violation → Option Rejection
violation_of path none = none
violation_of path (some v) =
    some (record { code = "INVALID_VALUE"; reason = violated v; path = some path })

-- {p.path: p.value for p in patches}
unfoldable pub as_dict : List Patch → Dict Json → Dict Json
as_dict [] d = d
as_dict (p ∷ ps) d = as_dict ps (Dict.put p.path p.value d)

abbrev pub committed : Option (Scene × Heap) → Result (Option Rejection × (Scene × Heap))
committed none = raise value_error
committed (some after) = ok (none, after)

abbrev pub commit_checked :
    List Patch
    → Option Cause
    → Scene
    → Heap
    → Option Rejection
    → Result (Option Rejection × (Scene × Heap))
commit_checked patches cause s h (some r) = ok (some r, (s, h))
commit_checked patches cause s h none = committed (emit (as_dict patches []) cause s h)

abbrev pub first_rejection :
    Option Rejection → Result (Option Rejection) → Result (Option Rejection)
first_rejection none rest = rest
first_rejection (some r) rest = ok (some r)

module _ (py : Builtins) where
  abbrev pub check_spec : Option InputSpec → Patch → Result (Option Rejection)
  check_spec none p = ok none
  check_spec (some spec) p = do e ← check_constraint py spec p.value; ok (violation_of p.path e)

  -- one round of the loop; `none` goes on
  unfoldable pub check_patch : Identity → Scene → Patch → Result (Option Rejection)
  check_patch identity s p =
      if not (can_write identity p.path)
      then ok
          (some (record { code = "WRITE_FORBIDDEN"; reason = write_forbidden; path = some p.path }))
      else if not (accepts_input_path identity.role p.path s)
      then ok (some (record { code = "UNKNOWN_PATH"; reason = unknown_path; path = some p.path }))
      else check_spec (Dict.get p.path s.declared_inputs) p

  unfoldable pub check_patches : Identity → Scene → List Patch → Result (Option Rejection)
  check_patches identity s [] = ok none
  check_patches identity s (p ∷ ps) =
      let rest = check_patches identity s ps in
      check_patch identity s p >>= λ r. first_rejection r rest

  -- `none` for None beside the scene and the heap; an exception leaves both as they were
  unfoldable pub apply_input :
      Identity
      → List Patch
      → Option Cause
      → Scene
      → Heap
      → Result (Option Rejection × (Scene × Heap))
  apply_input identity [] cause s h =
      ok (some (record { code = "INVALID_VALUE"; reason = empty_patches; path = none }), (s, h))
  apply_input identity (p ∷ ps) cause s h =
      check_patches identity s (p ∷ ps) >>= commit_checked (p ∷ ps) cause s h
