-- ===== src/Lsml/Canonical/Order.antt =====
-- The order in which the members of an object are written does not reach its canonical form.
use lumencast_py.Prelude.{
  String, ◌≡◌, ◌≢◌, refl, sym, ap, ◌∙◌, true, false, [], ◌∷◌, inl, inr, Bool-cases,
}
use lumencast_py.Prelude.Dict.{Dict}
use lumencast_py.Prelude.TextOrder.{text_lt, text_lt_asym, text_lt_trans, text_lt_cases}
use lumencast_py.Json.{Json, Items, Fields, arr, obj}
use lumencast_py.Json.Builtins.{Builtins}
use lumencast_py.Lsml.Number.{Numerals}
use lumencast_py.Lsml.Canonical.{
  insert, sorted, Digest, canonicalise, canonicalise_items, canonicalise_fields,
}

module _ {ℓ} {V : Type ℓ} where
  insert_nil : (k : String) (v : V) → insert (k, v) [] ≡ (k, v) ∷ []
  unfolding insert
  insert_nil k v = refl

  insert_first :
      (k j : String) (v w : V) (d : Dict V)
      → text_lt k j ≡ true
      → insert (k, v) ((j, w) ∷ d) ≡ (k, v) ∷ (j, w) ∷ d
  unfolding insert
  insert_first k j v w d h = rw h refl

  insert_later :
      (k j : String) (v w : V) (d : Dict V)
      → text_lt k j ≡ false
      → insert (k, v) ((j, w) ∷ d) ≡ (j, w) ∷ insert (k, v) d
  unfolding insert
  insert_later k j v w d h = rw h refl

  swap_lt :
      (j k : String) (v w : V) (d : Dict V)
      → text_lt j k ≡ true
      → insert (j, v) (insert (k, w) d) ≡ insert (k, w) (insert (j, v) d)
  swap_lt j k v w [] h =
      rw
        (
          insert_nil k w,
          insert_nil j v,
          insert_first j k v w [] h,
          insert_later k j w v [] (text_lt_asym j k h),
          insert_nil k w,
        )
        refl
  swap_lt j k v w ((i, u) ∷ d) h = elim (Bool-cases (text_lt k i)) [
    | inl k_i ↦
        rw
          (
            insert_first k i w u d k_i,
            insert_first j k v w ((i, u) ∷ d) h,
            insert_first j i v u d (text_lt_trans j k i h k_i),
            insert_later k j w v ((i, u) ∷ d) (text_lt_asym j k h),
            insert_first k i w u d k_i,
          )
          refl
    | inr k_after ↦ elim (Bool-cases (text_lt j i)) [
      | inl j_i ↦
          rw
            (
              insert_later k i w u d k_after,
              insert_first j i v u (insert (k, w) d) j_i,
              insert_first j i v u d j_i,
              insert_later k j w v ((i, u) ∷ d) (text_lt_asym j k h),
              insert_later k i w u d k_after,
            )
            refl
      | inr j_after ↦
          rw
            (
              insert_later k i w u d k_after,
              insert_later j i v u (insert (k, w) d) j_after,
              insert_later j i v u d j_after,
              insert_later k i w u (insert (j, v) d) k_after,
            )
            (ap (◌∷◌ (i, u)) (swap_lt j k v w d h))
    ]
  ]

  -- Members with different keys may be inserted in either order.
  pub insert_swap :
      (j k : String) (v w : V) (d : Dict V)
      → j ≢ k
      → insert (j, v) (insert (k, w) d) ≡ insert (k, w) (insert (j, v) d)
  insert_swap j k v w d ne = elim (text_lt_cases j k) [
    | inl lt ↦ swap_lt j k v w d lt
    | inr (inl same) ↦ absurd (ne same)
    | inr (inr gt) ↦ sym (swap_lt k j w v d gt)
  ]

-- Two values that differ only in the order in which members are written, at any depth.
mutual
  pub data Same : Json → Json → Type 0 where
    kept : (a : Json) → Same a a
    items : {xs ys : Items} → SameItems xs ys → Same (arr xs) (arr ys)
    fields : {fs gs : Fields} → SameFields fs gs → Same (obj fs) (obj gs)

  pub data SameItems : Items → Items → Type 0 where
    nil : SameItems Items.nil Items.nil
    cons :
        {x y : Json} {xs ys : Items}
        → Same x y
        → SameItems xs ys
        → SameItems (Items.cons x xs) (Items.cons y ys)

  pub data SameFields : Fields → Fields → Type 0 where
    end : SameFields Fields.end Fields.end
    field :
        (k : String) {x y : Json} {fs gs : Fields}
        → Same x y
        → SameFields fs gs
        → SameFields (Fields.field k x fs) (Fields.field k y gs)
    swapped :
        (j k : String) (x y : Json) (fs : Fields)
        → j ≢ k
        → SameFields
            (Fields.field j x (Fields.field k y fs))
            (Fields.field k y (Fields.field j x fs))
    trans : {fs gs hs : Fields} → SameFields fs gs → SameFields gs hs → SameFields fs hs

module _ (py : Builtins) (num : Numerals) (dig : Digest) where
  mutual
    unfolding canonicalise sorted

    -- They have one canonical form, or raise alike.
    pub canonicalise-Same :
        {a b : Json} → Same a b → canonicalise py num dig a ≡ canonicalise py num dig b
    canonicalise-Same (kept a) = refl
    canonicalise-Same (items xs) = rw (canonicalise-SameItems xs) refl
    canonicalise-Same (fields fs) = rw (canonicalise-SameFields fs) refl

    canonicalise-SameItems :
        {xs ys : Items}
        → SameItems xs ys
        → canonicalise_items py num dig xs ≡ canonicalise_items py num dig ys
    canonicalise-SameItems nil = refl
    canonicalise-SameItems (cons x xs) = rw (canonicalise-Same x, canonicalise-SameItems xs) refl

    canonicalise-SameFields :
        {fs gs : Fields}
        → SameFields fs gs
        → sorted (canonicalise_fields py num dig fs) ≡ sorted (canonicalise_fields py num dig gs)
    canonicalise-SameFields end = refl
    canonicalise-SameFields (field k x fs) =
        rw (canonicalise-Same x, canonicalise-SameFields fs) refl
    canonicalise-SameFields (swapped j k x y fs ne) = insert_swap j k _ _ _ ne
    canonicalise-SameFields (trans fs gs) = canonicalise-SameFields fs ∙ canonicalise-SameFields gs
