-- ===== src/Prelude/TextOrder.antt =====
-- The order of Python's `str`, which compares texts by their code points.
use Prim.Native.Nat.{Ordering}
use Prim.Native.String.{String, compare}
use Prim.Native.String.compare as order
use mathlib.Core.Path.{◌≡◌, refl}
use mathlib.Core.Logic.{◌⊎◌, inl, inr}
use mathlib.Core.Bool.{Bool, true, false}
use native.Mathlib.Omega.{arith}
use text.Mathlib.TextEquality.{path_by_compare}

-- s < t
abbrev pub text_lt : String → String → Bool
text_lt s t = elim (compare s t) [ Ordering.lt ↦ true | _ ↦ false ]

compare_swap : (s t : String) → compare s t ≡ Ordering.gt → compare t s ≡ Ordering.lt
compare_swap String.[] String.[] h = absurd (cc (h, order.nil-nil))
compare_swap String.[] (String.◌∷◌ d t) h = absurd (cc (h, order.nil-cons d t))
compare_swap (String.◌∷◌ c s) String.[] h = order.nil-cons c s
compare_swap (String.◌∷◌ c s) (String.◌∷◌ d t) h =
    ground (arith, order.cons-cons c d s t, order.cons-cons d c t s, compare_swap s t)

compare_swap_lt : (s t : String) → compare s t ≡ Ordering.lt → compare t s ≡ Ordering.gt
compare_swap_lt String.[] String.[] h = absurd (cc (h, order.nil-nil))
compare_swap_lt String.[] (String.◌∷◌ d t) h = order.cons-nil d t
compare_swap_lt (String.◌∷◌ c s) String.[] h = absurd (cc (h, order.cons-nil c s))
compare_swap_lt (String.◌∷◌ c s) (String.◌∷◌ d t) h =
    ground (arith, order.cons-cons c d s t, order.cons-cons d c t s, compare_swap_lt s t)

compare_trans :
    (s t u : String)
    → compare s t ≡ Ordering.lt
    → compare t u ≡ Ordering.lt
    → compare s u ≡ Ordering.lt
compare_trans String.[] t String.[] h k = absurd (cc (compare_swap_lt String.[] t h, k))
compare_trans String.[] t (String.◌∷◌ e u) h k = order.nil-cons e u
compare_trans (String.◌∷◌ c s) String.[] u h k = absurd (cc (h, order.cons-nil c s))
compare_trans (String.◌∷◌ c s) (String.◌∷◌ d t) String.[] h k = absurd (cc (k, order.cons-nil d t))
compare_trans (String.◌∷◌ c s) (String.◌∷◌ d t) (String.◌∷◌ e u) h k = ground (
  arith,
  order.cons-cons c d s t,
  order.cons-cons d e t u,
  order.cons-cons c e s u,
  compare_trans s t u,
  path_by_compare s t,
)

pub text_lt_asym : (s t : String) → text_lt s t ≡ true → text_lt t s ≡ false
text_lt_asym s t h = ground (arith, compare_swap_lt s t)

pub text_lt_trans : (s t u : String) → text_lt s t ≡ true → text_lt t u ≡ true → text_lt s u ≡ true
text_lt_trans s t u h k = ground (arith, compare_trans s t u)

pub text_lt_cases : (s t : String) → (text_lt s t ≡ true) ⊎ ((s ≡ t) ⊎ (text_lt t s ≡ true))
text_lt_cases s t = by_answer (compare s t) refl
  where
    by_answer :
        (o : Ordering) → compare s t ≡ o → (text_lt s t ≡ true) ⊎ ((s ≡ t) ⊎ (text_lt t s ≡ true))
    by_answer Ordering.lt h = inl (ground (arith, h))
    by_answer Ordering.eq h = inr (inl (path_by_compare s t h))
    by_answer Ordering.gt h = inr (inr (ground (arith, compare_swap s t h)))
