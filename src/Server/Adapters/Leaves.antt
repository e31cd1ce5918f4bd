-- ===== src/Server/Adapters/Leaves.antt =====
-- server/adapters/http_poll.py: what `_flatten` makes of a body, by its leaves.
use Prim.Native.String.{◌++◌ as cat}
use lumencast_py.Prelude.{String, ◌≡◌, refl, sym, ap, ◌∙◌, [], ◌∷◌, ◌++◌, str_eq, if◌then◌else◌}
use lumencast_py.Prelude.Dict.{Dict, update}
use lumencast_py.Prelude.Dict.Writes.{update-append, update-update}
use lumencast_py.Json.{Json, null, bool, int, real, text, arr, obj, Fields, end, field}
use lumencast_py.Server.Adapters.{flatten, flatten_each, flatten_value}

-- the path of a member below another one
abbrev pub below : String → String → String
below prefix k = if str_eq prefix "" then k else cat prefix (cat "." k)

-- The leaves of an object by their paths, in the order in which they are written: a member that is
-- an object has the leaves of its own, and none of them where it is empty.
unfoldable mutual
  pub leaves : Fields → String → Dict Json
  leaves end prefix = []
  leaves (field k v fs) prefix = leaves_at (below prefix k) v ++ leaves fs prefix

  pub leaves_at : String → Json → Dict Json
  leaves_at path (obj fs) = leaves fs path
  leaves_at path v = (path, v) ∷ []

-- What a body says: its leaves written on an empty dict, or itself under `value`.
abbrev pub said_by : Json → Dict Json
said_by (obj fs) = update [] (leaves fs "")
said_by v = ("value", v) ∷ []

update_back : (o d e : Dict Json) → update (update o d) e ≡ update o (d ++ e)
update_back o d e = sym (update-append o d e)

mutual
  unfolding leaves leaves_at flatten_each flatten_value update

  flatten-leaves :
      (fs : Fields) (prefix : String) (out : Dict Json)
      → flatten_each fs prefix out ≡ update out (leaves fs prefix)
  flatten-leaves end prefix out = refl
  flatten-leaves (field k v fs) prefix out =
      flatten-leaves fs prefix (flatten_value v (below prefix k) out)
      ∙ ap (λ r. update r (leaves fs prefix)) (value-leaves v (below prefix k) out)
      ∙ update_back out (leaves_at (below prefix k) v) (leaves fs prefix)

  value-leaves :
      (v : Json) (path : String) (out : Dict Json)
      → flatten_value v path out ≡ update out (leaves_at path v)
  value-leaves (obj fs) path out =
      ap (update out) (flatten-leaves fs path []) ∙ update-update out (leaves fs path)
  value-leaves null path out = refl
  value-leaves (bool b) path out = refl
  value-leaves (int n) path out = refl
  value-leaves (real x) path out = refl
  value-leaves (text s) path out = refl
  value-leaves (arr xs) path out = refl

pub flatten-said_by : (body : Json) → flatten body "" ≡ said_by body
unfolding flatten
flatten-said_by (obj fs) = flatten-leaves fs "" []
flatten-said_by null = refl
flatten-said_by (bool b) = refl
flatten-said_by (int n) = refl
flatten-said_by (real x) = refl
flatten-said_by (text s) = refl
flatten-said_by (arr xs) = refl
