-- ===== src/Prelude/Dict.antt =====
-- Python's `dict` with string keys: an association list in insertion order. Writing a key that is
-- there keeps its place; a new key goes to the end.
pub mod Writes
use Prim.Native.String.{String}
use mathlib.Core.Path.{◌≡◌, refl}
use mathlib.Core.Bool.{Bool, true, false}
use mathlib.Core.Logic.{inl, inr}
use mathlib.Core.List.{List, [], ◌∷◌}
use mathlib.Core.Option.{Option, none, some}
use native.Mathlib.Omega.{arith}
use text.Mathlib.Text.{◌==◌}
use text.Mathlib.TextEquality.{eq_iff}
use lumencast_py.Prelude.Tests.{if◌then◌else◌, Bool-cases}

abbrev pub Dict {ℓ} : Type ℓ → Type ℓ
Dict V = List (String × V)

module _ {ℓ} {V : Type ℓ} where
  -- d.get(k)
  unfoldable pub get : String → Dict V → Option V
  get k [] = none
  get k ((j, v) ∷ d) = if j == k then some v else get k d

  -- k in d
  unfoldable pub has : String → Dict V → Bool
  has k [] = false
  has k ((j, v) ∷ d) = if j == k then true else has k d

  -- d[k] = v
  unfoldable pub put : String → V → Dict V → Dict V
  put k v [] = (k, v) ∷ []
  put k v ((j, w) ∷ d) = if j == k then (j, v) ∷ d else (j, w) ∷ put k v d

  -- d.pop(k, None)
  unfoldable pub remove : String → Dict V → Dict V
  remove k [] = []
  remove k ((j, w) ∷ d) = if j == k then d else (j, w) ∷ remove k d

  -- d.update(e): the writes of `e` in order
  unfoldable pub update : Dict V → Dict V → Dict V
  update d [] = d
  update d ((k, v) ∷ e) = update (put k v d) e

  pub get-put :
      (k j : String) (v : V) (d : Dict V) → get j (put k v d) ≡ (if k == j then some v else get j d)
  unfolding get put
  get-put k j v [] = refl
  get-put k j v ((i, w) ∷ d) = ground (arith, eq_iff k j, eq_iff i k, eq_iff i j, get-put k j v d)

  pub has-get-some : (k : String) (d : Dict V) (v : V) → get k d ≡ some v → has k d ≡ true
  unfolding get has
  has-get-some k [] v h = ground arith
  has-get-some k ((j, w) ∷ d) v h = ground (arith, has-get-some k d v)

  pub get-some-has : (k : String) (d : Dict V) → has k d ≡ true → (v : V) × (get k d ≡ some v)
  unfolding get has
  get-some-has k [] h = ground arith
  get-some-has k ((j, w) ∷ d) h = elim (Bool-cases (j == k)) [
    | inl same ↦ (w, rw same)
    | inr other ↦ rw other (get-some-has k d (rw other at h))
  ]

  pub get-none-has : (k : String) (d : Dict V) → has k d ≡ false → get k d ≡ none
  unfolding get has
  get-none-has k [] h = refl
  get-none-has k ((j, w) ∷ d) h = ground (arith, get-none-has k d)

  -- Two dicts that answer every `get` alike still do after the same writes.
  pub get-update_cong :
      (d e w : Dict V)
      → ((k : String) → get k d ≡ get k e)
      → (k : String) → get k (update d w) ≡ get k (update e w)
  unfolding update
  get-update_cong d e [] h k = h k
  get-update_cong d e ((j, v) ∷ w) h k =
      get-update_cong (put j v d) (put j v e) w
        (λ i. ground (arith, get-put j i v d, get-put j i v e, h i)) k
