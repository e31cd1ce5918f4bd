-- ===== src/Prelude/Text.antt =====
-- Python's `str` methods on native texts.
use Prim.Native.Char.{Char}
use Prim.Native.String.{String, ◌++◌, count}
use Prim.Native.String.count as count_of
use mathlib.Core.Path.{◌≡◌, refl, ap}
use mathlib.Core.Bool.{false}
use mathlib.Core.Logic.{inl, inr}
use mathlib.Core.Option.{Option, none, some}
use native.Mathlib.Omega.{arith}
use text.Mathlib.Text.{◌==◌}
use text.Mathlib.TextEquality.{eq_iff}
use text.Mathlib.TextLemmas.{nil-append, cons-append, length-append}
use lumencast_py.Prelude.Tests.{if◌then◌else◌, Bool-cases}

abbrev push_front : Char → Option String → Option String
push_front c none = none
push_front c (some r) = some (String.◌∷◌ c r)

-- s[:-len(suffix)] where s.endswith(suffix), for a suffix that is not empty
unfoldable pub strip_suffix : String → String → Option String
strip_suffix suffix String.[] = none
strip_suffix suffix (String.◌∷◌ c s) =
    let rest = strip_suffix suffix s in
    if String.◌∷◌ c s == suffix then some "" else push_front c rest

strip_suffix-cons :
    (suffix : String) (c : Char) (s : String)
    → strip_suffix suffix (String.◌∷◌ c s)
      ≡ (if String.◌∷◌ c s == suffix then some "" else push_front c (strip_suffix suffix s))
unfolding strip_suffix
strip_suffix-cons suffix c s = refl

push_front-some :
    (c : Char) (o : Option String) (r : String)
    → push_front c o ≡ some r
    → (q : String) × (o ≡ some q) × (r ≡ String.◌∷◌ c q)
push_front-some c none r h = cc
push_front-some c (some q) r h = (q, refl, cc)

no_suffix : (suffix r : String) → strip_suffix suffix String.[] ≡ some r → r ++ suffix ≡ String.[]
unfolding strip_suffix
no_suffix suffix r h = cc

-- What is left and the suffix make the text.
pub strip_suffix-some : (suffix s r : String) → strip_suffix suffix s ≡ some r → r ++ suffix ≡ s
strip_suffix-some suffix String.[] r h = no_suffix suffix r h
strip_suffix-some suffix (String.◌∷◌ c s) r h = elim (Bool-cases (String.◌∷◌ c s == suffix)) [
  | inl same ↦
      ground
        (arith, eq_iff (String.◌∷◌ c s) suffix, strip_suffix-cons suffix c s, nil-append suffix)
  | inr other ↦
      let (q, found, e) =
        push_front-some c (strip_suffix suffix s) r (rw (strip_suffix-cons, other) at h) in
      rw (e, cons-append) (ap (String.◌∷◌ c) (strip_suffix-some suffix s q found))
]

longer_ne : (c : Char) (r suffix : String) → (String.◌∷◌ c (r ++ suffix) == suffix) ≡ false
longer_ne c r suffix = elim (Bool-cases (String.◌∷◌ c (r ++ suffix) == suffix)) [
  | inl same ↦
      let e = ap count ((eq_iff (String.◌∷◌ c (r ++ suffix)) suffix).0 same) in
      absurd (omega (arith, e, count_of.cons c (r ++ suffix), length-append r suffix))
  | inr other ↦ other
]

-- A text that ends in the suffix is taken apart.
pub strip_suffix-append :
    (d : Char) (u r : String) → strip_suffix (String.◌∷◌ d u) (r ++ String.◌∷◌ d u) ≡ some r
strip_suffix-append d u String.[] =
    rw (nil-append, strip_suffix-cons, (eq_iff (String.◌∷◌ d u) (String.◌∷◌ d u)).1 refl)
strip_suffix-append d u (String.◌∷◌ c r) =
    rw (cons-append, strip_suffix-cons, longer_ne c r (String.◌∷◌ d u), strip_suffix-append d u r)
