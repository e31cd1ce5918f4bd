-- ===== src/Protocol/LeafPath/Segments.antt =====
-- Prefixes of paths are prefixes of their lists of segments.
use Prim.Native.Char.{Char, code}
use Prim.Native.String.{◌++◌ as cat}
use text.Mathlib.TextLemmas.{nil-append, cons-append, append_assoc}
use mathlib.Core.List.{append-nil as list_append-nil}
use text.Mathlib.TextEquality.{starts_with_iff, Char-path}
use lumencast_py.Prelude.{
  String, ◌≡◌, refl, sym, ap, ◌∙◌, true, List, [], ◌∷◌, ◌++◌, ◌==◌, if◌then◌else◌, ◌↔◌, Bool-cases,
  eq_iff, str_eq, inl, inr, ==_iff, ◌≢◌,
}
use lumencast_py.Protocol.LeafPath.{split, grow, has_prefix}

-- ".".join(segments)
abbrev join : List String → String
join [] = ""
join (p ∷ []) = p
join (p ∷ q ∷ ps) = cat p (cat "." (join (q ∷ ps)))

grow_ne : (c : Char) (xs : List String) → grow c xs ≢ []
grow_ne c [] = λ e. cc
grow_ne c (x ∷ xs) = λ e. cc

split_ne : (s : String) → split s ≢ []
unfolding split
split_ne String.[] = λ e. cc
split_ne (String.◌∷◌ c s) = λ e. elim (Bool-cases (code c == b'.')) [
  | inl dot ↦ cc (rw dot at e)
  | inr other ↦ grow_ne c (split s) (rw other at e)
]

grow-append : (c : Char) (xs ys : List String) → xs ≢ [] → grow c (xs ++ ys) ≡ grow c xs ++ ys
grow-append c [] ys h = absurd (h refl)
grow-append c (x ∷ xs) ys h = refl

split_dot : (t : String) → split (cat "." t) ≡ "" ∷ split t
unfolding split
split_dot t = rw cons-append (rw nil-append refl)

split-cons :
    (c : Char) (s : String)
    → split (String.◌∷◌ c s) ≡ (if code c == b'.' then "" ∷ split s else grow c (split s))
unfolding split
split-cons c s = refl

dot_eq : (c : Char) → (code c == b'.') ≡ true → c ≡ "."
dot_eq c h = Char-path c "." ((==_iff (code c) 46).0 h)

split-append_dot : (s t : String) → split (cat s (cat "." t)) ≡ split s ++ split t
split-append_dot String.[] t = rw nil-append (split_dot t ∙ unfold split in refl)
split-append_dot (String.◌∷◌ c s) t = elim (Bool-cases (code c == b'.')) [
  | inl dot ↦ rw (cons-append, split-cons, split-cons, dot) (ap (◌∷◌ "") (split-append_dot s t))
  | inr other ↦
      rw (cons-append, split-cons, split-cons, other)
        (ap (grow c) (split-append_dot s t) ∙ grow-append c (split s) (split t) (split_ne s))
]

join-grow : (c : Char) (xs : List String) → xs ≢ [] → join (grow c xs) ≡ String.◌∷◌ c (join xs)
join-grow c [] h = absurd (h refl)
join-grow c (x ∷ []) h = refl
join-grow c (x ∷ y ∷ xs) h = cons-append _ _ _

join_empty : (xs : List String) → xs ≢ [] → join ("" ∷ xs) ≡ cat "." (join xs)
join_empty [] h = absurd (h refl)
join_empty (x ∷ xs) h = nil-append _

-- Joining the segments of a path by dots gives the path.
pub join-split : (s : String) → join (split s) ≡ s
join-split String.[] = unfold split in refl
join-split (String.◌∷◌ c s) = elim (Bool-cases (code c == b'.')) [
  | inl dot ↦
      rw (split-cons, dot, dot_eq c dot)
        (join_empty (split s) (split_ne s)
          ∙ ap (cat ".") (join-split s)
          ∙ cons-append _ _ _
          ∙ ap (String.◌∷◌ ".") (nil-append s))
  | inr other ↦
      rw (split-cons, other) (join-grow c (split s) (split_ne s) ∙ ap (String.◌∷◌ c) (join-split s))
]

join-append :
    (xs ys : List String) → xs ≢ [] → ys ≢ [] → join (xs ++ ys) ≡ cat (join xs) (cat "." (join ys))
join-append [] ys h k = absurd (h refl)
join-append (x ∷ []) [] h k = absurd (k refl)
join-append (x ∷ []) (y ∷ ys) h k = refl
join-append (x ∷ z ∷ xs) ys h k =
    rw (append_assoc, append_assoc)
      (ap (λ t. cat x (cat "." t)) (join-append (z ∷ xs) ys (λ e. cc) k))

split-injective : (s t : String) → split s ≡ split t → s ≡ t
split-injective s t e = sym (join-split s) ∙ ap join e ∙ join-split t

-- the text that the segments `split prefix ++ r ∷ rest` were split from
join-prefix :
    (path prefix r : String) (rest : List String)
    → split path ≡ split prefix ++ r ∷ rest
    → cat (cat prefix ".") (join (r ∷ rest)) ≡ path
join-prefix path prefix r rest e =
    append_assoc prefix "." _
    ∙ ap (λ t. cat t (cat "." (join (r ∷ rest)))) (sym (join-split prefix))
    ∙ sym (join-append (split prefix) (r ∷ rest) (split_ne prefix) (λ h. cc))
    ∙ ap join (sym e)
    ∙ join-split path

-- A path has a prefix exactly when the segments of the prefix begin the segments of the path.
pub has_prefix-segments :
    (path prefix : String)
    → (has_prefix path prefix ≡ true) ↔ ((rest : List String) × (split path ≡ split prefix ++ rest))
unfolding has_prefix
has_prefix-segments path prefix = (to, from)
  where
    to : has_prefix path prefix ≡ true → (rest : List String) × (split path ≡ split prefix ++ rest)
    to h = elim (Bool-cases (str_eq path prefix)) [
      | inl same ↦ ([], rw ((eq_iff path prefix).0 same) (sym (list_append-nil _)))
      | inr other ↦
          let (u, e) = (starts_with_iff path (cat prefix ".")).0 (rw other at h) in
          (
            split u,
            ap split (sym e) ∙ ap split (append_assoc prefix "." u) ∙ split-append_dot prefix u,
          )
    ]

    from :
        (rest : List String) × (split path ≡ split prefix ++ rest) → has_prefix path prefix ≡ true
    from ([], e) = rw ((eq_iff path prefix).1 (split-injective path prefix (e ∙ list_append-nil _)))
    from (r ∷ rest, e) = elim (Bool-cases (str_eq path prefix)) [
      | inl same ↦ rw same
      | inr other ↦ rw other (
          (starts_with_iff path (cat prefix ".")).1
            (join (r ∷ rest), join-prefix path prefix r rest e))
    ]
