-- ===== src/Server/Role/Authority.antt =====
-- The write authority of roles, over the segments of paths.
use Prim.Native.String.{◌++◌ as cat}
use text.Mathlib.TextLemmas.{append_assoc}
use lumencast_py.Prelude.{
  String, ◌≡◌, ◌≢◌, refl, sym, ◌∙◌, ◌||◌, ap, true, List, [], ◌∷◌, str_eq, Option, none, some,
  arith, Bool-cases, inl, inr, eq_iff, ◌⊎◌,
}
use lumencast_py.Prelude.Text.{strip_suffix, strip_suffix-some, strip_suffix-append}
use lumencast_py.Protocol.Types.{Role, viewer, operator, service, test}
use lumencast_py.Protocol.LeafPath.{has_prefix, split}
use lumencast_py.Protocol.LeafPath.Segments.{has_prefix-segments}
use lumencast_py.Server.Role.{dotted, starred, pattern_matches, role_can_write}

-- Under `__inputs` (or `__test`): the first segment of the path is that name.
abbrev pub Under : String → String → Type 0
Under name path = (rest : List String) × (split path ≡ name ∷ rest)

inputs-Under : (path : String) → has_prefix path "__inputs" ≡ true → Under "__inputs" path
inputs-Under path h = unfold split in (has_prefix-segments path "__inputs").0 h

test-Under : (path : String) → has_prefix path "__test" ≡ true → Under "__test" path
test-Under path h = unfold split in (has_prefix-segments path "__test").0 h

-- Whatever the token's patterns, a role writes only inside its namespace: operators and services
-- paths whose first segment is `__inputs`, test connections paths whose first segment is `__test`,
-- viewers none.
pub role_can_write-Under :
    (role : Role) (path : String) (paths : List String)
    → role_can_write role path paths ≡ true
    → (((role ≡ operator) ⊎ (role ≡ service)) × Under "__inputs" path)
      ⊎ ((role ≡ test) × Under "__test" path)
unfolding role_can_write
role_can_write-Under viewer path paths h = cc
role_can_write-Under operator path paths h = inl (inl refl, inputs-Under path h)
role_can_write-Under test path paths h = inr (refl, test-Under path h)
role_can_write-Under service path [] h = inl (inr refl, inputs-Under path h)
role_can_write-Under service path (p ∷ ps) h = inl (inr refl, inputs-Under path (ground arith))

-- A root before a bare `*` that ends in a dot is the pattern `trunk.*`.
star_after_dot :
    (p root trunk : String)
    → strip_suffix "*" p ≡ some root
    → strip_suffix "." root ≡ some trunk
    → strip_suffix ".*" p ≡ some trunk
star_after_dot p root trunk h k =
    let e : p ≡ cat trunk ".*" =
      sym (strip_suffix-some "*" p root h)
      ∙ ap (λ t. cat t "*") (sym (strip_suffix-some "." root trunk k))
      ∙ append_assoc trunk "." "*" in
    rw e (strip_suffix-append _ _ trunk)

empty_suffix : (root : String) → strip_suffix ".*" "" ≢ some root
unfolding strip_suffix
empty_suffix root h = cc

has_prefix_self :
    (path pattern : String) → str_eq pattern path ≡ true → has_prefix path pattern ≡ true
unfolding has_prefix
has_prefix_self path pattern h = ground (arith, eq_iff pattern path, eq_iff path pattern)

dotted_literal :
    (path pattern root : String) (o : Option String)
    → strip_suffix ".*" pattern ≡ none
    → strip_suffix "*" pattern ≡ some root
    → strip_suffix "." root ≡ o
    → dotted path pattern o ≡ has_prefix path pattern
dotted_literal path pattern root none k h e = refl
dotted_literal path pattern root (some trunk) k h e = cc (star_after_dot pattern root trunk h e)

starred_literal :
    (path pattern : String)
    → strip_suffix ".*" pattern ≡ none
    → (o : Option String) → strip_suffix "*" pattern ≡ o
    → starred path pattern o ≡ has_prefix path pattern
starred_literal path pattern k none e = refl
starred_literal path pattern k (some root) e =
    dotted_literal path pattern root (strip_suffix "." root) k e refl

-- A pattern `root.*` matches the paths under `root`, and the pattern itself.
pattern_matches-dot_star :
    (pattern path root : String)
    → strip_suffix ".*" pattern ≡ some root
    → pattern_matches pattern path ≡ (str_eq pattern path || has_prefix path root)
unfolding pattern_matches
pattern_matches-dot_star pattern path root h = elim (Bool-cases (str_eq pattern "")) [
  | inl bare ↦ absurd (empty_suffix root (rw ((eq_iff pattern "").0 bare) at h))
  | inr other ↦ rw (other, h) (ground arith)
]

-- Every other pattern is literal, a trailing `*` included: it matches the path of that very
-- spelling, and what lies under it.
pattern_matches-literal :
    (pattern path : String)
    → pattern ≢ ""
    → strip_suffix ".*" pattern ≡ none
    → pattern_matches pattern path ≡ has_prefix path pattern
unfolding pattern_matches
pattern_matches-literal pattern path h k = elim (Bool-cases (str_eq pattern "")) [
  | inl bare ↦ absurd (h ((eq_iff pattern "").0 bare))
  | inr other ↦ elim (Bool-cases (str_eq pattern path)) [
    | inl same ↦ rw (other, same, has_prefix_self path pattern same)
    | inr apart ↦
        rw (other, apart, k) (starred_literal path pattern k (strip_suffix "*" pattern) refl)
  ]
]
