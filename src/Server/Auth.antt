-- ===== src/Server/Auth.antt =====
-- server/auth.py: identities, and the static token map in the child.
pub mod StaticTokens
use lumencast_py.Prelude.{String, Bool, true, false, Option, none, some, List, [], ◌≡◌, refl}
use lumencast_py.Protocol.Types.{Role}
use lumencast_py.Server.Role.{role_can_write}

pub record Identity : Type 0 where
  pub subject : String
  pub role : Option Role
  pub paths : List String

abbrev pub anonymous : Identity
anonymous = record { subject = ""; role = none; paths = [] }

unfoldable pub is_authenticated : Identity → Bool
is_authenticated i = elim i.role [ none ↦ false | some _ ↦ true ]

role_gate : Option Role → String → List String → Bool
role_gate none path paths = false
role_gate (some r) path paths = role_can_write r path paths

unfoldable pub can_write : Identity → String → Bool
unfolding role_gate
can_write i path = role_gate i.role path i.paths

role_gate_role :
    (o : Option Role) (path : String) (paths : List String)
    → role_gate o path paths ≡ true
    → (r : Role) × (o ≡ some r) × (role_can_write r path paths ≡ true)
unfolding role_gate
role_gate_role none path paths h = cc
role_gate_role (some r) path paths h = (r, refl, h)

-- Who may write has a role, and the role may write.
pub can_write_role :
    (i : Identity) (path : String)
    → can_write i path ≡ true
    → (r : Role) × (i.role ≡ some r) × (role_can_write r path i.paths ≡ true)
unfolding can_write
can_write_role i path h = role_gate_role i.role path i.paths h
