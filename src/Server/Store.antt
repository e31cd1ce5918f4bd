-- ===== src/Server/Store.antt =====
-- server/store.py: the leaf-grain state map. Its lock is only held where nothing is awaited, so
-- each method is one step.
use lumencast_py.Prelude.{String, Option, none, some, List, [], ◌∷◌, ◌≡◌, refl, ap}
use lumencast_py.Prelude.Dict.{Dict, put, update}
use lumencast_py.Json.{Json}

pub record Store : Type 0 where
  pub state : Dict Json

abbrev pub init : Store
init = record { state = [] }

unfoldable pub snapshot : Store → Dict Json
snapshot s = s.state

-- The loop: the state with the patches written, and the `(path, value)` records.
unfoldable pub write_all : Dict Json → Dict Json → Dict Json × List (String × Json)
write_all state [] = (state, [])
write_all state ((path, value) ∷ patches) =
    let (state', out) = write_all (put path value state) patches in (state', (path, value) ∷ out)

-- `none` is the ValueError on an empty map.
unfoldable pub apply : Dict Json → Store → Option (List (String × Json) × Store)
unfolding write_all
apply [] s = none
apply (p ∷ ps) s =
    let (state', out) = write_all s.state (p ∷ ps) in some (out, record { state = state' })

unfoldable pub reset : Store → Store
reset s = record { state = [] }

write_all-update :
    (state patches : Dict Json) → write_all state patches ≡ (update state patches, patches)
unfolding write_all update
write_all-update state [] = refl
write_all-update state ((path, value) ∷ patches) =
    rw (write_all-update (put path value state) patches)

-- A map that is not empty is written whole, and comes back in its order.
pub apply-cons :
    (p : String × Json) (ps : Dict Json) (s : Store)
    → apply (p ∷ ps) s ≡ some (p ∷ ps, record { state = update s.state (p ∷ ps) })
unfolding apply
apply-cons (path, value) ps s = ap wrap (write_all-update s.state ((path, value) ∷ ps))
  where
    wrap : Dict Json × List (String × Json) → Option (List (String × Json) × Store)
    wrap (state, out) = some (out, record { state = state })
