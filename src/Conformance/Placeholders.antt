-- ===== src/Conformance/Placeholders.antt =====
-- conformance/placeholders.py: substitution of placeholders in the frames of a scenario.
use Prim.Native.Char.{code}
use mathlib.Core.Path.{subst}
use lumencast_py.Prelude.{
  String, Bool, true, false, Option, none, some, ◌==◌, ◌≡◌, refl, ap, sym, ◌⊎◌, if◌then◌else◌,
  Option-cases, inl, inr,
}
use lumencast_py.Prelude.Dict.{Dict, get}
use lumencast_py.Prelude.Text.{strip_suffix}
use lumencast_py.Json.{
  Json, null, bool, int, real, text, arr, obj, Items, nil, cons, Fields, end, field,
}

-- s[len(prefix):] where s.startswith(prefix)
unfoldable pub strip_prefix : String → String → Option String
strip_prefix String.[] s = some s
strip_prefix (String.◌∷◌ c p) String.[] = none
strip_prefix (String.◌∷◌ c p) (String.◌∷◌ d s) =
    let rest = strip_prefix p s in if code c == code d then rest else none

abbrev pub is_some {ℓ} : {A : Type ℓ} → Option A → Bool
is_some none = false
is_some (some a) = true

abbrev pub or_text : Option String → String → String
or_text none s = s
or_text (some t) s = t

-- value[len("$BUNDLE."):-len(".hash")], which is empty where the two overlap
unfoldable pub bundle_id : String → String
bundle_id trunk = or_text (strip_prefix "$BUNDLE." trunk) ""

module _ (tokens hashes : Dict String) where
  abbrev pub hash_for : String → Option String → String
  hash_for s none = s
  hash_for s (some trunk) = or_text (get (bundle_id trunk) hashes) s

  unfoldable pub substitute_text : String → String
  substitute_text s =
      if is_some (strip_prefix "$TOKEN_" s)
      then or_text (get s tokens) s
      else if is_some (strip_prefix "$BUNDLE." s)
      then hash_for s (strip_suffix ".hash" s)
      else s

  unfoldable mutual
    pub substitute_placeholders : Json → Json
    substitute_placeholders (text s) = text (substitute_text s)
    substitute_placeholders (obj fs) = obj (substitute_fields fs)
    substitute_placeholders (arr xs) = arr (substitute_items xs)
    substitute_placeholders v = v

    pub substitute_fields : Fields → Fields
    substitute_fields end = end
    substitute_fields (field k v fs) = field k (substitute_placeholders v) (substitute_fields fs)

    pub substitute_items : Items → Items
    substitute_items nil = nil
    substitute_items (cons x xs) = cons (substitute_placeholders x) (substitute_items xs)

  -- The values of a map are no placeholders themselves.
  abbrev pub Resolved : Dict String → Type 0
  Resolved d = (k t : String) → get k d ≡ some t → substitute_text t ≡ t

  Settled : String → String → Type 0
  Settled s r = (r ≡ s) ⊎ (substitute_text r ≡ r)

  looked_up : (k s : String) (d : Dict String) → Resolved d → Settled s (or_text (get k d) s)
  unfolding Settled
  looked_up k s d r = elim (Option-cases (get k d)) [
    | inl missing ↦ inl (rw missing refl)
    | inr (t, there) ↦ inr (rw there (r k t there))
  ]

  hash_for-Settled : (s : String) (o : Option String) → Resolved hashes → Settled s (hash_for s o)
  unfolding Settled
  hash_for-Settled s none r = inl refl
  hash_for-Settled s (some trunk) r = looked_up (bundle_id trunk) s hashes r

  unchanged : (s : String) → Settled s s
  unfolding Settled
  unchanged s = inl refl

  chosen : (s x y : String) (b : Bool) → Settled s x → Settled s y → Settled s (if b then x else y)
  chosen s x y true hx hy = hx
  chosen s x y false hx hy = hy

  by_kind :
      (s : String)
      → substitute_text s ≡ (
          if is_some (strip_prefix "$TOKEN_" s)
          then or_text (get s tokens) s
          else if is_some (strip_prefix "$BUNDLE." s)
          then hash_for s (strip_suffix ".hash" s)
          else s)
  unfolding substitute_text
  by_kind s = refl

  substitute_text-Settled :
      (s : String) → Resolved tokens → Resolved hashes → Settled s (substitute_text s)
  substitute_text-Settled s rt rh = subst (Settled s) (sym (by_kind s)) (
      chosen s _ _ _ (looked_up s s tokens rt)
        (chosen s _ _ _ (hash_for-Settled s (strip_suffix ".hash" s) rh) (unchanged s)))

  substitute_text_twice :
      (s : String)
      → Resolved tokens
      → Resolved hashes
      → substitute_text (substitute_text s) ≡ substitute_text s
  unfolding Settled
  substitute_text_twice s rt rh = elim (substitute_text-Settled s rt rh) [
    | inl same ↦ ap substitute_text same
    | inr fixed ↦ fixed
  ]

  mutual
    unfolding substitute_placeholders

    substitute_placeholders_twice :
        (v : Json)
        → Resolved tokens
        → Resolved hashes
        → substitute_placeholders (substitute_placeholders v) ≡ substitute_placeholders v
    substitute_placeholders_twice null rt rh = refl
    substitute_placeholders_twice (bool b) rt rh = refl
    substitute_placeholders_twice (int n) rt rh = refl
    substitute_placeholders_twice (real x) rt rh = refl
    substitute_placeholders_twice (text s) rt rh = ap text (substitute_text_twice s rt rh)
    substitute_placeholders_twice (arr xs) rt rh = ap arr (substitute_items_twice xs rt rh)
    substitute_placeholders_twice (obj fs) rt rh = ap obj (substitute_fields_twice fs rt rh)

    substitute_items_twice :
        (xs : Items)
        → Resolved tokens
        → Resolved hashes
        → substitute_items (substitute_items xs) ≡ substitute_items xs
    substitute_items_twice nil rt rh = refl
    substitute_items_twice (cons x xs) rt rh =
        rw (substitute_placeholders_twice x rt rh) (rw (substitute_items_twice xs rt rh) refl)

    substitute_fields_twice :
        (fs : Fields)
        → Resolved tokens
        → Resolved hashes
        → substitute_fields (substitute_fields fs) ≡ substitute_fields fs
    substitute_fields_twice end rt rh = refl
    substitute_fields_twice (field k v fs) rt rh =
        rw (substitute_placeholders_twice v rt rh) (rw (substitute_fields_twice fs rt rh) refl)

  -- Substituting twice is substituting once, where no value of the two maps is itself something
  -- that they would replace.
  pub substitute_placeholders_idempotent :
      (v : Json)
      → Resolved tokens
      → Resolved hashes
      → substitute_placeholders (substitute_placeholders v) ≡ substitute_placeholders v
  substitute_placeholders_idempotent v rt rh = substitute_placeholders_twice v rt rh
