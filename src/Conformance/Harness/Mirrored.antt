-- ===== src/Conformance/Harness/Mirrored.antt =====
-- conformance/harness.py: what a frame of the server leaves of the shadow state.
use lumencast_py.Prelude.{
  String, ◌≡◌, ◌≢◌, ◌⊎◌, refl, ap, true, false, Option, none, some, List, [], ◌∷◌, str_eq, eq_iff,
  arith, Bool-cases, inl, inr,
}
use lumencast_py.Prelude.Dict.{Dict, get, put, update}
use lumencast_py.Json.{
  Json, null, bool, int, real, text, arr, obj, Fields, Items, end, nil, cons, to_dict, to_list, ok,
}
use lumencast_py.Json.Builtins.{Builtins, default, or_else, truthy, to_text}
use lumencast_py.Conformance.Harness.{
  absorb_patches, absorb_state, absorb_list, absorb_typed, absorb_server_frame,
}

-- patches that are missing, null or a list
abbrev pub Listed : Option Json → Type 0
Listed none = Unit
Listed (some null) = Unit
Listed (some (arr xs)) = Unit
Listed (some v) = ⊥

-- an object with a path
abbrev pub IsPatch : Json → Type 0
IsPatch v = (fs : Fields) × (path : Json) × (v ≡ obj fs) × (get "path" (to_dict fs) ≡ some path)

abbrev pub IsObject : Json → Type 0
IsObject v = (fs : Fields) × (v ≡ obj fs)

module _ (py : Builtins) where
  -- The objects with a path are written in their order, each with its value, or null where it has
  -- none, and all else is passed over.
  pub data Written : List Json → Dict Json → Dict Json → Type 0 where
    nothing : (st : Dict Json) → Written [] st st
    patch :
        (fs : Fields) (path v : Json) (ps : List Json) (st after : Dict Json)
        → get "path" (to_dict fs) ≡ some path
        → ((get "value" (to_dict fs) ≡ some v) ⊎ ((get "value" (to_dict fs) ≡ none) × (v ≡ null)))
        → Written ps (put (to_text py path) v st) after
        → Written (obj fs ∷ ps) st after
    passed_over :
        (p : Json) (ps : List Json) (st after : Dict Json)
        → ¬ IsPatch p
        → Written ps st after
        → Written (p ∷ ps) st after

  -- A snapshot replaces the shadow by its state, where that is an object or counts as false; a delta
  -- writes its patches; another frame leaves the shadow.
  pub data Mirrored (frame st : Dict Json) : Dict Json → Type 0 where
    replaced :
        (fs : Fields)
        → get "type" frame ≡ some (text "snapshot")
        → get "state" frame ≡ some (obj fs)
        → Mirrored frame st (update [] (to_dict fs))
    emptied :
        get "type" frame ≡ some (text "snapshot")
        → truthy py (default (get "state" frame) null) ≡ false
        → Mirrored frame st []
    ignored :
        (v : Json)
        → get "type" frame ≡ some (text "snapshot")
        → get "state" frame ≡ some v
        → truthy py v ≡ true
        → ¬ IsObject v
        → Mirrored frame st st
    patched :
        (xs : Items) (after : Dict Json)
        → get "type" frame ≡ some (text "delta")
        → get "patches" frame ≡ some (arr xs)
        → Written (to_list xs) st after
        → Mirrored frame st after
    unpatched :
        get "type" frame ≡ some (text "delta")
        → ((get "patches" frame ≡ none) ⊎ (get "patches" frame ≡ some null))
        → Mirrored frame st st
    other :
        get "type" frame ≢ some (text "snapshot")
        → get "type" frame ≢ some (text "delta")
        → Mirrored frame st st

  value_of :
      (o : Option Json) → (o ≡ some (default o null)) ⊎ ((o ≡ none) × (default o null ≡ null))
  value_of none = inr (refl, refl)
  value_of (some v) = inl refl

  patch-Written :
      (p : Fields) (ps : List Json) (st : Dict Json) (o : Option Json)
      → ((d : Dict Json) → Written ps d (absorb_patches py ps d))
      → get "path" (to_dict p) ≡ o
      → Written (obj p ∷ ps) st (elim o [
        | none ↦ absorb_patches py ps st
        | some path ↦
            absorb_patches py ps (put (to_text py path) (default (get "value" (to_dict p)) null) st)
      ])
  patch-Written p ps st none rest e =
      Written.passed_over (obj p) ps st _ (λ (fs, path, same, there). unsaid p fs path e same there)
        (rest st)
    where
      unsaid :
          (p fs : Fields) (path : Json)
          → get "path" (to_dict p) ≡ none
          → obj p ≡ obj fs
          → get "path" (to_dict fs) ≡ some path
          → ⊥
      unsaid p fs path e same there = cc (e, same, there)
  patch-Written p ps st (some path) rest e =
      Written.patch p path _ ps st _ e (value_of (get "value" (to_dict p))) (rest _)

  absorb_patches-Written :
      (ps : List Json) (st : Dict Json) → Written ps st (absorb_patches py ps st)
  unfolding absorb_patches
  absorb_patches-Written [] st = Written.nothing st
  absorb_patches-Written (obj p ∷ ps) st =
      patch-Written p ps st (get "path" (to_dict p)) (absorb_patches-Written ps) refl
  absorb_patches-Written (null ∷ ps) st =
      Written.passed_over null ps st _ (λ (fs, q, e, h). cc e) (absorb_patches-Written ps st)
  absorb_patches-Written (bool b ∷ ps) st =
      Written.passed_over (bool b) ps st _ (λ (fs, q, e, h). cc e) (absorb_patches-Written ps st)
  absorb_patches-Written (int n ∷ ps) st =
      Written.passed_over (int n) ps st _ (λ (fs, q, e, h). cc e) (absorb_patches-Written ps st)
  absorb_patches-Written (real x ∷ ps) st =
      Written.passed_over (real x) ps st _ (λ (fs, q, e, h). cc e) (absorb_patches-Written ps st)
  absorb_patches-Written (text s ∷ ps) st =
      Written.passed_over (text s) ps st _ (λ (fs, q, e, h). cc e) (absorb_patches-Written ps st)
  absorb_patches-Written (arr xs ∷ ps) st =
      Written.passed_over (arr xs) ps st _ (λ (fs, q, e, h). cc e) (absorb_patches-Written ps st)

  nil_lem : (st : Dict Json) → absorb_list py (or_else py (arr nil) (arr nil)) st ≡ ok st
  unfolding truthy absorb_patches to_list
  nil_lem st = refl

  list_lem :
      (frame st : Dict Json) (o : Option Json)
      → get "type" frame ≡ some (text "delta")
      → get "patches" frame ≡ o
      → Listed o
      → (after : Dict Json) × (absorb_list py (or_else py (default o (arr nil)) (arr nil)) st
          ≡ ok after)
        × Mirrored frame st after
  unfolding truthy
  list_lem frame st none t e l = (st, nil_lem st, Mirrored.unpatched t (inl e))
  list_lem frame st (some null) t e l = (st, nil_lem st, Mirrored.unpatched t (inr e))
  list_lem frame st (some (arr nil)) t e l =
      (_, refl, Mirrored.patched nil _ t e (absorb_patches-Written _ st))
  list_lem frame st (some (arr (cons x xs))) t e l =
      (_, refl, Mirrored.patched (cons x xs) _ t e (absorb_patches-Written _ st))
  list_lem frame st (some (bool b)) t e l = absurd l
  list_lem frame st (some (int n)) t e l = absurd l
  list_lem frame st (some (real x)) t e l = absurd l
  list_lem frame st (some (text s)) t e l = absurd l
  list_lem frame st (some (obj fs)) t e l = absurd l

  -- the state is an object, another value, or missing
  state_lem :
      (frame st : Dict Json) (o : Option Json)
      → get "type" frame ≡ some (text "snapshot")
      → get "state" frame ≡ o
      → Mirrored frame st (absorb_state py (or_else py (default o null) (obj end)) st)
  unfolding truthy update to_dict
  state_lem frame st o t e = elim (Bool-cases (truthy py (default o null))) [
    | inr is_false ↦ rw is_false (emptied_lem (Mirrored.emptied t (rw e is_false)))
    | inl is_true ↦ rw is_true (given o e is_true)
  ]
    where
      emptied_lem : Mirrored frame st [] → Mirrored frame st (update [] (to_dict end))
      emptied_lem m = m

      given :
          (o : Option Json)
          → get "state" frame ≡ o
          → truthy py (default o null) ≡ true
          → Mirrored frame st (absorb_state py (default o null) st)
      given none e is_true = cc is_true
      given (some (obj fs)) e is_true = Mirrored.replaced fs t e
      given (some null) e is_true = cc is_true
      given (some (bool b)) e is_true = Mirrored.ignored (bool b) t e is_true (λ (fs, k). cc k)
      given (some (int n)) e is_true = Mirrored.ignored (int n) t e is_true (λ (fs, k). cc k)
      given (some (real x)) e is_true = Mirrored.ignored (real x) t e is_true (λ (fs, k). cc k)
      given (some (text s)) e is_true = Mirrored.ignored (text s) t e is_true (λ (fs, k). cc k)
      given (some (arr xs)) e is_true = Mirrored.ignored (arr xs) t e is_true (λ (fs, k). cc k)

  typed_lem :
      (frame st : Dict Json) (o : Option Json)
      → get "type" frame ≡ o
      → Listed (get "patches" frame)
      → (after : Dict Json) × (absorb_typed py o frame st ≡ ok after) × Mirrored frame st after
  typed_lem frame st (some (text t)) e l = elim (Bool-cases (str_eq t "snapshot")) [
    | inl snapshot ↦
        let named : get "type" frame ≡ some (text "snapshot") =
          rw e (ap (λ s. some (text s)) ((eq_iff t "snapshot").0 snapshot)) in
        (_, rw snapshot refl, state_lem frame st (get "state" frame) named refl)
    | inr unlike ↦ elim (Bool-cases (str_eq t "delta")) [
      | inl delta ↦
          let named : get "type" frame ≡ some (text "delta") =
            rw e (ap (λ s. some (text s)) ((eq_iff t "delta").0 delta)) in
          let (after, ran, m) = list_lem frame st (get "patches" frame) named refl l in
          (after, rw (unlike, delta) ran, m)
      | inr unknown ↦ (
        st,
        rw (unlike, unknown) refl,
        Mirrored.other (λ k. apart t "snapshot" unlike e k) (λ k. apart t "delta" unknown e k),
      )
    ]
  ]
    where
      apart :
          (t s : String)
          → str_eq t s ≡ false
          → get "type" frame ≡ some (text t)
          → get "type" frame ≡ some (text s)
          → ⊥
      apart t s ne a b =
          let same : t ≡ s = cc (a, b) in absurd (ground (arith, eq_iff t s, ne, same))
  typed_lem frame st none e l = (st, refl, Mirrored.other (λ k. cc (e, k)) (λ k. cc (e, k)))
  typed_lem frame st (some null) e l = (st, refl, Mirrored.other (λ k. cc (e, k)) (λ k. cc (e, k)))
  typed_lem frame st (some (bool b)) e l =
      (st, refl, Mirrored.other (λ k. cc (e, k)) (λ k. cc (e, k)))
  typed_lem frame st (some (int n)) e l =
      (st, refl, Mirrored.other (λ k. cc (e, k)) (λ k. cc (e, k)))
  typed_lem frame st (some (real x)) e l =
      (st, refl, Mirrored.other (λ k. cc (e, k)) (λ k. cc (e, k)))
  typed_lem frame st (some (arr xs)) e l =
      (st, refl, Mirrored.other (λ k. cc (e, k)) (λ k. cc (e, k)))
  typed_lem frame st (some (obj fs)) e l =
      (st, refl, Mirrored.other (λ k. cc (e, k)) (λ k. cc (e, k)))

  -- A frame whose patches are missing, null or a list is absorbed, and the shadow mirrors it.
  pub absorb_server_frame-Mirrored :
      (frame st : Dict Json)
      → Listed (get "patches" frame)
      → (after : Dict Json) × (absorb_server_frame py frame st ≡ ok after) × Mirrored frame st after
  unfolding absorb_server_frame
  absorb_server_frame-Mirrored frame st l = typed_lem frame st (get "type" frame) refl l
