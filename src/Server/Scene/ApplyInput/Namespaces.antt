-- ===== src/Server/Scene/ApplyInput/Namespaces.antt =====
-- What a client can change: the operator inputs and the test namespace, nothing else.
use mathlib.Core.Path.{subst}
use lumencast_py.Prelude.{
  String, ◌≡◌, ◌≢◌, refl, ap, ◌∙◌, true, Option, none, some, List, [], ◌∷◌, arith, inl, inr, All,
  eq_iff, Bool-cases, str_eq,
}
use lumencast_py.Prelude.Dict
use lumencast_py.Prelude.Dict.{Dict}
use lumencast_py.Json.{Json, ok}
use lumencast_py.Json.Builtins.{Builtins}
use lumencast_py.Protocol.Frames.{Patch, Cause}
use lumencast_py.Server.Auth.{Identity, can_write, can_write_role}
use lumencast_py.Server.Role.Authority.{Under, role_can_write-Under}
use lumencast_py.Server.Scene.{Scene, emit}
use lumencast_py.Server.Scene.Resume.{after_emit, emit_inv}
use lumencast_py.Server.Scene.ApplyInput.{Rejection, as_dict, apply_input}
use lumencast_py.Server.Scene.ApplyInput.Admission.{
  Admissible, apply_input_atomic, apply_input_admits,
}
use lumencast_py.Server.Subscription.{Heap}

get-put_other :
    (k j : String) (v : Json) (d : Dict Json) → k ≢ j → Dict.get j (Dict.put k v d) ≡ Dict.get j d
get-put_other k j v d h = ground (arith, Dict.get-put k j v d, eq_iff k j)

-- Writes to other keys leave a key alone.
get-update_other :
    (j : String) (w d : Dict Json)
    → All (λ e. e.0 ≢ j) w
    → Dict.get j (Dict.update d w) ≡ Dict.get j d
unfolding Dict.update
get-update_other j [] d h = refl
get-update_other j ((k, v) ∷ w) d h =
    get-update_other j w (Dict.put k v d) h.1 ∙ get-put_other k j v d h.0

put-All_other :
    (j k : String) (v : Json) (d : Dict Json)
    → k ≢ j
    → All (λ e. e.0 ≢ j) d
    → All (λ e. e.0 ≢ j) (Dict.put k v d)
unfolding Dict.put
put-All_other j k v [] h a = (h, tt)
put-All_other j k v ((i, w) ∷ d) h a = elim (Bool-cases (str_eq i k)) [
  | inl same ↦ rw same a
  | inr other ↦ rw other (a.0, put-All_other j k v d h a.1)
]

as_dict-All_other :
    (j : String) (ps : List Patch) (d : Dict Json)
    → All (λ p. p.path ≢ j) ps
    → All (λ e. e.0 ≢ j) d
    → All (λ e. e.0 ≢ j) (as_dict ps d)
unfolding as_dict
as_dict-All_other j [] d h a = a
as_dict-All_other j (p ∷ ps) d h a =
    as_dict-All_other j ps (Dict.put p.path p.value d) h.1 (put-All_other j p.path p.value d h.0 a)

emitted_other :
    (j : String) (w : Dict Json) (cause : Option Cause) (s s' : Scene) (h h' : Heap)
    → emit w cause s h ≡ some (s', h')
    → All (λ e. e.0 ≢ j) w
    → Dict.get j s'.store.state ≡ Dict.get j s.store.state
unfolding after_emit
emitted_other j w cause s s' h h' e a =
    let (em, shape, after, _) = emit_inv w cause s s' h h' e in
    ap (λ (t : Scene). Dict.get j t.store.state) after
    ∙ ap (λ (d : Dict Json). Dict.get j (Dict.update s.store.state d)) shape
    ∙ get-update_other j w s.store.state a

-- Outside both namespaces that a client may write.
pub record IsPrivate (path : String) : Type 0 where
  pub not_input : ¬ Under "__inputs" path
  pub not_test : ¬ Under "__test" path

writable_ne :
    (identity : Identity) (path j : String)
    → can_write identity path ≡ true
    → IsPrivate j
    → path ≢ j
writable_ne identity path j w o e =
    let (r, _, may) = can_write_role identity path w in
    elim (role_can_write-Under r path identity.paths may) [
      | inl (_, u) ↦ o.not_input (subst (Under "__inputs") e u)
      | inr (_, u) ↦ o.not_test (subst (Under "__test") e u)
    ]

writable_All :
    (py : Builtins) (identity : Identity) (s : Scene) (ps : List Patch) (j : String)
    → All (Admissible py identity s) ps
    → IsPrivate j
    → All (λ p. p.path ≢ j) ps
writable_All py identity s [] j a o = tt
writable_All py identity s (p ∷ ps) j a o =
    (writable_ne identity p.path j a.0.writable o, writable_All py identity s ps j a.1 o)

-- Whatever frame a client sends, and whether it is accepted or rejected: a leaf outside `__inputs`
-- and `__test` keeps its value, or its absence.
pub apply_input_private :
    (py : Builtins) (identity : Identity) (ps : List Patch) (cause : Option Cause) (s s' : Scene)
    (h h' : Heap) (r : Option Rejection) (j : String)
    → apply_input py identity ps cause s h ≡ ok (r, (s', h'))
    → IsPrivate j
    → Dict.get j s'.store.state ≡ Dict.get j s.store.state
apply_input_private py identity ps cause s s' h h' (some x) j e o =
    ap (λ (t : Scene). Dict.get j t.store.state)
      (apply_input_atomic py identity ps cause s s' h h' x e).0
apply_input_private py identity ps cause s s' h h' none j e o =
    let (_, a, sent) = apply_input_admits py identity ps cause s h (s', h') e in
    emitted_other j (as_dict ps []) cause s s' h h' sent
      (as_dict-All_other j ps [] (writable_All py identity s ps j a o) tt)
