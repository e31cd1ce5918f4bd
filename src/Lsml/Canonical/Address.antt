-- ===== src/Lsml/Canonical/Address.antt =====
-- The content address of a bundle: what it does and does not depend on.
use lumencast_py.Prelude.{
  String, ◌≡◌, ◌≢◌, refl, ap, ◌∙◌, true, false, some, [], ◌∷◌, str_eq, inl, inr, arith, Bool-cases,
  eq_iff,
}
use lumencast_py.Prelude.Dict.{Dict, get, put, has, get-put}
use lumencast_py.Json.{Json, Fields, text, ok, of_dict, to_dict, to_dict-of_dict}
use lumencast_py.Json.Builtins.{Builtins}
use lumencast_py.Lsml.Number.{Numerals}
use lumencast_py.Lsml.Canonical.{Digest, zero_hash, replace_scene_version, hash_inline_bundle}
use lumencast_py.Lsml.Canonical.Order.{
  Same, SameFields, end, field, swapped, trans, kept, canonicalise-Same,
}

-- The second write of a key is the one that stays.
put-put : (k : String) (v w : Json) (d : Dict Json) → put k w (put k v d) ≡ put k w d
unfolding put
put-put k v w [] = ground (arith, eq_iff k k)
put-put k v w ((j, u) ∷ d) = elim (Bool-cases (str_eq j k)) [
  | inl same ↦ rw (same, same) refl
  | inr other ↦ rw (other, other) (ap (◌∷◌ (j, u)) (put-put k v w d))
]

has-put : (k : String) (v : Json) (d : Dict Json) → has k (put k v d) ≡ true
unfolding put has
has-put k v [] = ground (arith, eq_iff k k)
has-put k v ((j, u) ∷ d) = elim (Bool-cases (str_eq j k)) [
  | inl same ↦ rw (same, same) refl
  | inr other ↦ rw (other, other) (has-put k v d)
]

same_or_ne : (j k : String) → str_eq j k ≡ false → j ≢ k
same_or_ne j k h e = absurd (ground (arith, eq_iff j k, h, e))

of_dict-to_dict : (fs : Fields) → of_dict (to_dict fs) ≡ fs
unfolding of_dict to_dict
of_dict-to_dict Fields.end = refl
of_dict-to_dict (Fields.field k x fs) = ap (Fields.field k x) (of_dict-to_dict fs)

Same-has :
    (s : String) {fs gs : Fields} → SameFields fs gs → has s (to_dict fs) ≡ has s (to_dict gs)
unfolding has to_dict
Same-has s end = refl
Same-has s (field k a r) = rw (Same-has s r) refl
Same-has s (swapped j k x y fs ne) = ground (arith, eq_iff j k)
Same-has s (trans r t) = Same-has s r ∙ Same-has s t

-- a write of one key on both sides of a reordering
Same-put :
    (s : String) (z : Json) {fs gs : Fields}
    → SameFields fs gs
    → SameFields (of_dict (put s z (to_dict fs))) (of_dict (put s z (to_dict gs)))
unfolding put of_dict to_dict
Same-put s z end = field s (kept z) end
Same-put s z (field k {x} {y} {fs} {gs} a r) = elim (Bool-cases (str_eq k s)) [
  | inl same ↦ rw (same, of_dict-to_dict fs, of_dict-to_dict gs) (field k (kept z) r)
  | inr other ↦ rw other (field k a (Same-put s z r))
]
Same-put s z (swapped j k x y fs ne) = elim (Bool-cases (str_eq j s)) [
  | inl j_s ↦
      let k_s : str_eq k s ≡ false = ground (arith, eq_iff j s, eq_iff k s, ne) in
      rw (j_s, k_s, of_dict-to_dict fs) (swapped j k z y fs ne)
  | inr j_other ↦ elim (Bool-cases (str_eq k s)) [
    | inl k_s ↦ rw (j_other, k_s, of_dict-to_dict fs) (swapped j k x z fs ne)
    | inr k_other ↦ rw (j_other, k_other) (swapped j k x y _ ne)
  ]
]
Same-put s z (trans r t) = trans (Same-put s z r) (Same-put s z t)

Same-replace :
    (py : Builtins) (num : Numerals) (dig : Digest) (a b : Dict Json)
    → SameFields (of_dict a) (of_dict b)
    → SameFields
        (of_dict (replace_scene_version py num dig a))
        (of_dict (replace_scene_version py num dig b))
unfolding replace_scene_version
Same-replace py num dig a b r =
    let same : has "scene_version" a ≡ has "scene_version" b =
      rw (to_dict-of_dict a, to_dict-of_dict b) at (Same-has "scene_version" r) in
    elim (Bool-cases (has "scene_version" b)) [
      | inl there ↦
          rw (same, there)
            (rw (to_dict-of_dict a, to_dict-of_dict b) at
              (Same-put "scene_version" (text zero_hash) r))
      | inr missing ↦ rw (same, missing) r
    ]

module _ (py : Builtins) (num : Numerals) (dig : Digest) where
  -- The address of a bundle does not depend on the order in which members are written, at any
  -- depth: two spellings of it have one address, or both have none.
  pub hash_inline_bundle-Same :
      (a b : Dict Json)
      → SameFields (of_dict a) (of_dict b)
      → hash_inline_bundle py num dig a ≡ hash_inline_bundle py num dig b
  unfolding hash_inline_bundle
  hash_inline_bundle-Same a b r =
      rw (canonicalise-Same py num dig (Same.fields (Same-replace py num dig a b r))) refl

  replace-put :
      (v : Json) (b : Dict Json)
      → has "scene_version" b ≡ true
      → replace_scene_version py num dig (put "scene_version" v b)
        ≡ replace_scene_version py num dig b
  unfolding replace_scene_version
  replace-put v b h =
      rw (has-put "scene_version" v b, h) (put-put "scene_version" v (text zero_hash) b)

  -- The address of a bundle that has a `scene_version` does not depend on it; so a bundle that
  -- carries its own address as its `scene_version` verifies: the address computed from it is the
  -- one it carries.
  pub hash_inline_bundle-sealed :
      (v : Json) (b : Dict Json)
      → has "scene_version" b ≡ true
      → (hash_inline_bundle py num dig (put "scene_version" v b) ≡ hash_inline_bundle py num dig b)
        × ((h : String)
            → hash_inline_bundle py num dig b ≡ ok h
            → (let s = put "scene_version" (text h) b in
                (get "scene_version" s ≡ some (text h)) × (hash_inline_bundle py num dig s ≡ ok h)))
  unfolding hash_inline_bundle
  hash_inline_bundle-sealed v b there = (
    rw (replace-put v b there) refl,
    λ h e. (
      ground (
        arith,
        get-put "scene_version" "scene_version" (text h) b,
        eq_iff "scene_version" "scene_version",
      ),
      rw (replace-put (text h) b there) e,
    ),
  )
