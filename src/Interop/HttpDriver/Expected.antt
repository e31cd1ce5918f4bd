-- ===== src/Interop/HttpDriver/Expected.antt =====
-- interop/http_driver.py: the initial state that the steps of a scenario expect.
use lumencast_py.Prelude.{
  String, ◌≡◌, ◌≢◌, ◌⊎◌, refl, true, false, Option, none, some, List, [], ◌∷◌, str_eq, eq_iff,
  arith, inl, inr, Bool-cases,
}
use lumencast_py.Prelude.Dict.{Dict, get}
use lumencast_py.Json.{Json, null, bool, int, real, text, arr, obj, Fields, to_dict, ok}
use mathlib.Core.Path.{subst}
use lumencast_py.Conformance.Scenario.{
  Step, StepKind, client_sends, server_sends, server_emits, expect_runtime_state,
  expect_server_state, expect_no_frame_for, expect_client_action, client_action, wait, set_clock,
  unsupported,
}
use lumencast_py.Interop.HttpDriver.Bundles.{
  is_server_sends, is_snapshot, is_sentinel, without_sentinels, state_in, extract_in, extract_from,
}

-- The entries whose value is no sentinel, in their order.
pub data Kept : Dict Json → Dict Json → Type 0 where
  done : Kept [] []
  dropped :
      (k : String) (v : Json) (d r : Dict Json)
      → (v ≡ text "$ANY") ⊎ (v ≡ text "$ANY_HASH")
      → Kept d r
      → Kept ((k, v) ∷ d) r
  kept :
      (k : String) (v : Json) (d r : Dict Json)
      → v ≢ text "$ANY"
      → v ≢ text "$ANY_HASH"
      → Kept d r
      → Kept ((k, v) ∷ d) ((k, v) ∷ r)

-- A snapshot that the server is to send.
abbrev pub IsSnapshot : Step → Fields → Type 0
IsSnapshot st fs =
    (st.kind ≡ server_sends)
    × (st.frame ≡ obj fs)
    × (get "type" (to_dict fs) ≡ some (text "snapshot"))

-- What the first snapshot says of the state.
pub data Expects : List Step → Option (Dict Json) → Type 0 where
  nothing : Expects [] none
  other :
      (st : Step) (sts : List Step) (o : Option (Dict Json))
      → ((fs : Fields) → ¬ IsSnapshot st fs)
      → Expects sts o
      → Expects (st ∷ sts) o
  stated :
      (st : Step) (sts : List Step) (fs d : Fields) (r : Dict Json)
      → IsSnapshot st fs
      → get "state" (to_dict fs) ≡ some (obj d)
      → Kept (to_dict d) r
      → Expects (st ∷ sts) (some r)
  stateless :
      (st : Step) (sts : List Step) (fs : Fields)
      → IsSnapshot st fs
      → ((d : Fields) → get "state" (to_dict fs) ≢ some (obj d))
      → Expects (st ∷ sts) none

sentinel_lem : (v : Json) → is_sentinel v ≡ true → (v ≡ text "$ANY") ⊎ (v ≡ text "$ANY_HASH")
sentinel_lem (text s) h = elim (Bool-cases (str_eq s "$ANY")) [
  | inl e ↦ inl (ground (arith, eq_iff s "$ANY", e))
  | inr n ↦ inr (ground (arith, eq_iff s "$ANY_HASH", n, h))
]
sentinel_lem null h = cc
sentinel_lem (bool b) h = cc
sentinel_lem (int n) h = cc
sentinel_lem (real x) h = cc
sentinel_lem (arr xs) h = cc
sentinel_lem (obj fs) h = cc

sentinel_ne : (v w : Json) → is_sentinel v ≡ false → is_sentinel w ≡ true → v ≢ w
sentinel_ne v w n s e = let bad : is_sentinel w ≡ false = rw e at n in cc (bad, s)

any_sentinel : (is_sentinel (text "$ANY") ≡ true) × (is_sentinel (text "$ANY_HASH") ≡ true)
any_sentinel = (refl, refl)

without_sentinels-Kept : (d : Dict Json) → Kept d (without_sentinels d)
unfolding without_sentinels
without_sentinels-Kept [] = Kept.done
without_sentinels-Kept ((k, v) ∷ d) = elim (Bool-cases (is_sentinel v)) [
  | inl s ↦
      rw (without_sentinels, s) (Kept.dropped k v d _ (sentinel_lem v s) (without_sentinels-Kept d))
  | inr n ↦
      rw (without_sentinels, n)
        (Kept.kept k v d _ (sentinel_ne v _ n any_sentinel.0) (sentinel_ne v _ n any_sentinel.1)
          (without_sentinels-Kept d))
]

sends_lem : (k : StepKind) → is_server_sends k ≡ true → k ≡ server_sends
sends_lem server_sends h = refl
sends_lem client_sends h = cc
sends_lem server_emits h = cc
sends_lem expect_runtime_state h = cc
sends_lem expect_server_state h = cc
sends_lem expect_no_frame_for h = cc
sends_lem expect_client_action h = cc
sends_lem client_action h = cc
sends_lem wait h = cc
sends_lem set_clock h = cc
sends_lem unsupported h = cc

snapshot_lem : (o : Option Json) → is_snapshot o ≡ true → o ≡ some (text "snapshot")
snapshot_lem (some (text t)) h = ground (arith, eq_iff t "snapshot", h)
snapshot_lem none h = cc
snapshot_lem (some null) h = cc
snapshot_lem (some (bool b)) h = cc
snapshot_lem (some (int n)) h = cc
snapshot_lem (some (real x)) h = cc
snapshot_lem (some (arr xs)) h = cc
snapshot_lem (some (obj fs)) h = cc

ok_inj {ℓ} : {A : Type ℓ} {a b : A} → ok a ≡ ok b → a ≡ b
ok_inj h = cc

no_object :
    (o : Option Json) (v : Option Json) (d : Fields) → o ≡ v → state_in v ≡ none → o ≢ some (obj d)
no_object o v d e n k = let bad : state_in (some (obj d)) ≡ none = rw (rw e at k) at n in absurd cc

state_Expects :
    (st : Step) (sts : List Step) (fs : Fields) (o : Option Json) (r : Option (Dict Json))
    → IsSnapshot st fs
    → get "state" (to_dict fs) ≡ o
    → ok (state_in o) ≡ ok r
    → Expects (st ∷ sts) r
state_Expects st sts fs (some (obj d)) r snap e h =
    subst (Expects (st ∷ sts)) (ok_inj h)
      (Expects.stated st sts fs d _ snap e (without_sentinels-Kept (to_dict d)))
state_Expects st sts fs none r snap e h =
    subst (Expects (st ∷ sts)) (ok_inj h)
      (Expects.stateless st sts fs snap (λ d. no_object _ none d e refl))
state_Expects st sts fs (some null) r snap e h =
    subst (Expects (st ∷ sts)) (ok_inj h)
      (Expects.stateless st sts fs snap (λ d. no_object _ (some null) d e refl))
state_Expects st sts fs (some (bool b)) r snap e h =
    subst (Expects (st ∷ sts)) (ok_inj h)
      (Expects.stateless st sts fs snap (λ d. no_object _ (some (bool b)) d e refl))
state_Expects st sts fs (some (int n)) r snap e h =
    subst (Expects (st ∷ sts)) (ok_inj h)
      (Expects.stateless st sts fs snap (λ d. no_object _ (some (int n)) d e refl))
state_Expects st sts fs (some (real x)) r snap e h =
    subst (Expects (st ∷ sts)) (ok_inj h)
      (Expects.stateless st sts fs snap (λ d. no_object _ (some (real x)) d e refl))
state_Expects st sts fs (some (text s)) r snap e h =
    subst (Expects (st ∷ sts)) (ok_inj h)
      (Expects.stateless st sts fs snap (λ d. no_object _ (some (text s)) d e refl))
state_Expects st sts fs (some (arr xs)) r snap e h =
    subst (Expects (st ∷ sts)) (ok_inj h)
      (Expects.stateless st sts fs snap (λ d. no_object _ (some (arr xs)) d e refl))

frame_other :
    (st : Step) (fs gs : Fields)
    → st.frame ≡ obj fs
    → is_snapshot (get "type" (to_dict fs)) ≡ false
    → ¬ IsSnapshot st gs
frame_other st fs gs e n s =
    let same : fs ≡ gs = cc (e, s.1) in
    let typed : is_snapshot (get "type" (to_dict gs)) ≡ false = rw same at n in
    let bad : is_snapshot (some (text "snapshot")) ≡ false = rw s.2 at typed in absurd cc

pub extract-Expects :
    (sts : List Step) (r : Option (Dict Json)) → extract_from sts ≡ ok r → Expects sts r
unfolding extract_from
extract-Expects [] r h = subst (Expects []) (ok_inj h) Expects.nothing
extract-Expects (st ∷ sts) r h = elim (Bool-cases (is_server_sends st.kind)) [
  | inr silent ↦
      Expects.other st sts r
        (λ fs s. let bad : is_server_sends server_sends ≡ false = rw s.0 at silent in absurd cc)
        (extract-Expects sts r (rw silent at h))
  | inl sends ↦
      framed (extract-Expects sts r) st.frame refl (sends_lem st.kind sends) (rw sends at h)
]
  where
    framed :
        (extract_from sts ≡ ok r → Expects sts r)
        → (v : Json) → st.frame ≡ v
        → st.kind ≡ server_sends
        → extract_in v (extract_from sts) ≡ ok r
        → Expects (st ∷ sts) r
    framed later (obj fs) e kind k = elim (Bool-cases (is_snapshot (get "type" (to_dict fs)))) [
      | inl snap ↦ state_Expects st sts fs _ r (kind, e, snapshot_lem _ snap) refl (rw snap at k)
      | inr n ↦ Expects.other st sts r (λ gs. frame_other st fs gs e n) (later (rw n at k))
    ]
    framed later null e kind k = cc
    framed later (bool b) e kind k = cc
    framed later (int n) e kind k = cc
    framed later (real x) e kind k = cc
    framed later (text s) e kind k = cc
    framed later (arr xs) e kind k = cc
