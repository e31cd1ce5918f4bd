-- ===== src/Prelude/Dict/Writes.antt =====
-- A dict that is written with another one is written with what the other one was made of.
use Prim.Native.String.{String}
use mathlib.Core.Path.{◌≡◌, refl, sym, ap, ◌∙◌}
use mathlib.Core.Bool.{true, false}
use mathlib.Core.Logic.{inl, inr}
use mathlib.Core.List.{[], ◌∷◌, ◌++◌}
use native.Mathlib.Omega.{arith}
use text.Mathlib.Text.{◌==◌}
use text.Mathlib.TextEquality.{eq_iff}
use lumencast_py.Prelude.Tests.{if◌then◌else◌, Bool-cases}
use lumencast_py.Prelude.Dict.{Dict, has, put, update}

module _ {ℓ} {V : Type ℓ} where
  -- no key twice
  abbrev pub Once : Dict V → Type 0
  Once [] = Unit
  Once ((k, v) ∷ d) = (has k d ≡ false) × Once d

  has-put :
      (k j : String) (v : V) (d : Dict V) → has j (put k v d) ≡ (if k == j then true else has j d)
  unfolding has put
  has-put k j v [] = refl
  has-put k j v ((i, w) ∷ d) = ground (arith, eq_iff k j, eq_iff i k, eq_iff i j, has-put k j v d)

  put-Once : (k : String) (v : V) (d : Dict V) → Once d → Once (put k v d)
  unfolding put has
  put-Once k v [] o = (refl, tt)
  put-Once k v ((j, w) ∷ d) (h, o) = elim (Bool-cases (j == k)) [
    | inl same ↦ rw (put, same) (h, o)
    | inr other ↦
        rw (put, other)
          (ground (arith, has-put k j v d, h, eq_iff j k, eq_iff k j, other), put-Once k v d o)
  ]

  update-Once : (d e : Dict V) → Once d → Once (update d e)
  unfolding update
  update-Once d [] o = o
  update-Once d ((k, v) ∷ e) o = update-Once (put k v d) e (put-Once k v d o)

  put-put : (k : String) (v w : V) (d : Dict V) → put k v (put k w d) ≡ put k v d
  unfolding put
  put-put k v w [] = let same : (k == k) ≡ true = ground (arith, eq_iff k k) in rw same refl
  put-put k v w ((j, u) ∷ d) = elim (Bool-cases (j == k)) [
    | inl same ↦ rw (put, same) (rw (put, same) refl)
    | inr other ↦ rw (put, other) (rw (put, other) (ap (λ r. (j, u) ∷ r) (put-put k v w d)))
  ]

  put_comm :
      (k i : String) (v u : V) (d : Dict V)
      → (i == k) ≡ false
      → has k d ≡ true
      → put k v (put i u d) ≡ put i u (put k v d)
  unfolding put has
  put_comm k i v u [] ne h = absurd (ground (arith, h))
  put_comm k i v u ((j, w) ∷ d) ne h = elim (Bool-cases (j == k)) [
    | inl same ↦
        let apart : (j == i) ≡ false =
          ground (arith, eq_iff j k, eq_iff j i, eq_iff i k, same, ne) in
        rw (put, apart) (rw (put, same) (rw (put, apart) refl))
    | inr other ↦ elim (Bool-cases (j == i)) [
      | inl at_i ↦ rw (put, at_i) (rw (put, other) (rw (put, at_i) refl))
      | inr not_i ↦
          rw (put, not_i)
            (rw (put, other)
              (rw (put, not_i) (ap (λ r. (j, w) ∷ r) (put_comm k i v u d ne (rw other at h)))))
    ]
  ]

  put-update :
      (k : String) (v : V) (o d : Dict V)
      → has k o ≡ true
      → has k d ≡ false
      → put k v (update o d) ≡ update (put k v o) d
  unfolding update has
  put-update k v o [] h n = refl
  put-update k v o ((i, u) ∷ d) h n =
      let ne : (i == k) ≡ false = ground (arith, n) in
      let later : has k d ≡ false = ground (arith, n) in
      let there : has k (put i u o) ≡ true = ground (arith, has-put i k u o, h) in
      put-update k v (put i u o) d there later ∙ ap (λ r. update r d) (put_comm k i v u o ne h)

  update-put :
      (k : String) (v : V) (o d : Dict V) → Once d → update o (put k v d) ≡ put k v (update o d)
  unfolding update put
  update-put k v o [] once = refl
  update-put k v o ((j, w) ∷ d) (n, once) = elim (Bool-cases (j == k)) [
    | inl same ↦
        let e : j ≡ k = (eq_iff j k).0 same in
        let there : has k (put j w o) ≡ true = ground (arith, has-put j k w o, same) in
        rw (put, same)
          (sym (
            put-update k v (put j w o) d there (rw e at n)
            ∙ ap (λ r. update r d) (rw e (put-put k v w o))))
    | inr other ↦ rw (put, other) (update-put k v (put j w o) d once)
  ]

  pub update-append : (o d e : Dict V) → update o (d ++ e) ≡ update (update o d) e
  unfolding update
  update-append o [] e = refl
  update-append o ((k, v) ∷ d) e = update-append (put k v o) d e

  nested : (o d e : Dict V) → Once d → update o (update d e) ≡ update (update o d) e
  unfolding update
  nested o d [] once = refl
  nested o d ((k, v) ∷ e) once =
      nested o (put k v d) e (put-Once k v d once) ∙ ap (λ r. update r e) (update-put k v o d once)

  pub update-update : (o e : Dict V) → update o (update [] e) ≡ update o e
  unfolding update
  update-update o e = nested o [] e tt
