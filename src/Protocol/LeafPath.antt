-- ===== src/Protocol/LeafPath.antt =====
-- protocol/leaf_path.py: leaf paths are dotted texts.
pub mod Segments
use Prim.Native.Char.{Char, code}
use Prim.Native.String
use text.Mathlib.Text.{starts_with}
use lumencast_py.Prelude.{
  ℕ, zero, suc, ◌+◌, String, Bool, true, false, not, ◌&&◌, ◌||◌, Option, none, some, List, [], ◌∷◌,
  ◌==◌, ltb, str_eq, if◌then◌else◌,
}
use lumencast_py.Prelude.Dict.{Dict, get}
use lumencast_py.Prelude.Text.{strip_suffix}

-- `str.isalpha` and `str.isdigit` on one code point
pub record CharClass : Type 0 where
  pub is_alpha : ℕ → Bool
  pub is_digit : ℕ → Bool

abbrev pub grow : Char → List String → List String
grow c [] = String.◌∷◌ c String.[] ∷ []
grow c (p ∷ ps) = String.◌∷◌ c p ∷ ps

-- path.split(".")
unfoldable pub split : String → List String
split String.[] = String.[] ∷ []
split (String.◌∷◌ c s) =
    let rest = split s in if code c == b'.' then String.[] ∷ rest else grow c rest

unfoldable pub has_prefix : String → String → Bool
has_prefix path prefix =
    if str_eq path prefix then true else starts_with path (String.◌++◌ prefix ".")

abbrev pub reserved_namespaces : List String
reserved_namespaces = "__inputs" ∷ "__system" ∷ "__test" ∷ "__schema" ∷ []

any_reserved : List String → String → Bool
any_reserved [] path = false
any_reserved (ns ∷ rest) path =
    if str_eq path ns || starts_with path (String.◌++◌ ns ".") then true else any_reserved rest path

unfoldable pub is_reserved : String → Bool
unfolding any_reserved
is_reserved path = any_reserved reserved_namespaces path

-- `path.find(".")` and the slice up to it
unfoldable pub namespace : String → String
namespace String.[] = String.[]
namespace (String.◌∷◌ c s) =
    let rest = namespace s in if code c == b'.' then String.[] else String.◌∷◌ c rest

-- The ways to raise ValueError.
pub data PathError : Type 0 where
  empty : PathError
  empty_segment empty_scope invalid_scope invalid_segment : ℕ → PathError
  unterminated unknown_scope : PathError

-- seg[1:-1] where seg.startswith("{") and seg.endswith("}")
scope_of : String → Option String
scope_of String.[] = none
scope_of (String.◌∷◌ c s) = if code c == b'{' then strip_suffix "}" s else none

module _ (cls : CharClass) where
  unfoldable pub valid_segment : String → Bool
  valid_segment String.[] = true
  valid_segment (String.◌∷◌ c s) =
      (cls.is_alpha (code c) || code c == b'_' || cls.is_digit (code c)) && valid_segment s

  identifier_rest : String → Bool
  identifier_rest String.[] = true
  identifier_rest (String.◌∷◌ c s) =
      (cls.is_alpha (code c) || code c == b'_' || cls.is_digit (code c)) && identifier_rest s

  unfoldable pub is_identifier : String → Bool
  unfolding identifier_rest
  is_identifier String.[] = false
  is_identifier (String.◌∷◌ c s) = (cls.is_alpha (code c) || code c == b'_') && identifier_rest s

  check_scope : ℕ → String → Option PathError
  unfolding is_identifier
  check_scope i inner =
      if str_eq inner ""
      then some (empty_scope i)
      else if is_identifier inner
      then none
      else some (invalid_scope i)

  check_plain : ℕ → String → Option PathError
  unfolding valid_segment
  check_plain i seg = if valid_segment seg then none else some (invalid_segment i)

  -- one round of the loop of `validate_path`
  check_segment : Bool → ℕ → String → Option PathError
  unfolding check_scope check_plain scope_of
  check_segment allow_template i seg =
      if str_eq seg ""
      then some (empty_segment i)
      else if allow_template
      then elim (scope_of seg) [ some inner ↦ check_scope i inner | none ↦ check_plain i seg ]
      else check_plain i seg

  check_segments : Bool → ℕ → List String → Option PathError
  check_segments allow_template i [] = none
  check_segments allow_template i (seg ∷ segs) =
      let rest = check_segments allow_template (i + 1) segs in
      elim (check_segment allow_template i seg) [ some e ↦ some e | none ↦ rest ]

  -- `none` is a return; `some e` is the ValueError
  unfoldable pub validate_path : Bool → String → Option PathError
  unfolding check_segments check_segment
  validate_path allow_template path =
      if str_eq path "" then some empty else check_segments allow_template 0 (split path)

-- "{" in path
unfoldable pub has_brace : String → Bool
has_brace String.[] = false
has_brace (String.◌∷◌ c s) = code c == b'{' || has_brace s

pub data Substituted : Type 0 where
  filled : String → Substituted
  failed : PathError → Substituted

abbrev put_char : Char → Substituted → Substituted
put_char c (filled r) = filled (String.◌∷◌ c r)
put_char c (failed e) = failed e

abbrev put_text : Option String → Substituted → Substituted
put_text none rest = failed unknown_scope
put_text (some v) (filled r) = filled (String.◌++◌ v r)
put_text (some v) (failed e) = failed e

-- The loop of `substitute`: outside a placeholder, and inside one whose name so far is given.
expand : Dict String → Option String → String → Substituted
expand scope none String.[] = filled String.[]
expand scope none (String.◌∷◌ c s) =
    let inside = expand scope (some String.[]) s in
    let outside = put_char c (expand scope none s) in if code c == b'{' then inside else outside
expand scope (some name) String.[] = failed unterminated
expand scope (some name) (String.◌∷◌ c s) =
    let closed = put_text (get name scope) (expand scope none s) in
    let longer = expand scope (some (String.◌++◌ name (String.◌∷◌ c String.[]))) s in
    if code c == b'}' then closed else longer

-- the check of the result, which goes on the wire
checked : CharClass → Substituted → Substituted
unfolding validate_path
checked cls (failed e) = failed e
checked cls (filled r) = elim (validate_path cls false r) [ none ↦ filled r | some e ↦ failed e ]

unfoldable pub substitute : CharClass → String → Dict String → Substituted
unfolding expand checked has_brace
substitute cls path scope =
    if has_brace path then checked cls (expand scope none path) else checked cls (filled path)
