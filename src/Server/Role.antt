-- ===== src/Server/Role.antt =====
-- server/role.py: who may write which paths.
pub mod Authority
use lumencast_py.Prelude.{
  String, Bool, true, false, List, [], ◌∷◌, str_eq, if◌then◌else◌, any_of, Option, none, some,
}
use lumencast_py.Prelude.Text.{strip_suffix}
use lumencast_py.Protocol.Types.{Role, viewer, operator, service, test}
use lumencast_py.Protocol.LeafPath.{has_prefix}

-- the test on `root` that follows `pattern.endswith("*")`
abbrev pub dotted : String → String → Option String → Bool
dotted path pattern none = has_prefix path pattern
dotted path pattern (some trunk) = has_prefix path trunk

abbrev pub starred : String → String → Option String → Bool
starred path pattern none = has_prefix path pattern
starred path pattern (some root) = dotted path pattern (strip_suffix "." root)

abbrev pub dot_starred : String → String → Option String → Bool
dot_starred path pattern none = starred path pattern (strip_suffix "*" pattern)
dot_starred path pattern (some root) = has_prefix path root

unfoldable pub pattern_matches : String → String → Bool
pattern_matches pattern path =
    if str_eq pattern ""
    then false
    else if str_eq pattern path
    then true
    else dot_starred path pattern (strip_suffix ".*" pattern)

-- `paths` is None or an empty list alike
unfoldable pub role_can_write : Role → String → List String → Bool
role_can_write operator path paths = has_prefix path "__inputs"
role_can_write service path [] = has_prefix path "__inputs"
role_can_write service path (p ∷ ps) =
    if has_prefix path "__inputs" then any_of (λ q. pattern_matches q path) (p ∷ ps) else false
role_can_write test path paths = has_prefix path "__test"
role_can_write viewer path paths = false
