-- ===== src/Server/Kit/Registered.antt =====
-- server/server.py: what holds of the registry after every call.
use lumencast_py.Prelude.{
  ℕ, ◌<◌, String, Bool, false, Option, none, some, List, [], ◌∷◌, ◌≡◌, ◌≢◌, refl, ◌⊎◌, inl, inr,
  ◌==◌, str_eq, arith, eq_iff, Bool-cases, Option-cases,
}
use lumencast_py.Prelude.Dict.{Dict, get, put, get-put}
use lumencast_py.Server.Input.{InputSpec}
use lumencast_py.Server.Scene.{Scene}
use lumencast_py.Server.Subscription.{Heap}
use lumencast_py.Server.Kit.{
  Server, init, new_scene, reset_scene, run_task, run_next, activate, active_scene, migrate_from,
  set_active, reset, reset_each, detach, detach_each, store,
}

-- References are given out once, no two names share a scene, and the active name is registered.
pub record Registered (scenes : Dict ℕ) (active : String) (next : ℕ) : Type 0 where
  pub allocated : (a : String) (i : ℕ) → get a scenes ≡ some i → i < next
  pub apart : (a b : String) (i : ℕ) → get a scenes ≡ some i → get b scenes ≡ some i → a ≡ b
  pub served : active ≢ "" → (i : ℕ) × (get active scenes ≡ some i)

abbrev pub IsRegistered : Server → Type 0
IsRegistered w = Registered w.scenes w.active w.next

init-IsRegistered : (h : Heap) → IsRegistered (init h)
unfolding init get
init-IsRegistered h = record {
  allocated = λ a i e. cc;
  apart = λ a b i e f. cc;
  served = λ ne. absurd (ne refl);
}

not_eq {ℓ} : {A : Type ℓ} (a : String) → str_eq a "" ≡ false → a ≡ "" → A
not_eq a h e = absurd (ground (arith, eq_iff a "", h, e))

some_inj : (v w : Server) → some v ≡ some w → v ≡ w
some_inj v w h = cc

none-some {ℓ} : {A : Type ℓ} {w : Server} → none ≡ some w → A
none-some h = cc

stays_registered :
    (k a : String) (i : ℕ) (d : Dict ℕ)
    → (a ≡ k) ⊎ ((j : ℕ) × (get a d ≡ some j))
    → (j : ℕ) × (get a (put k i d) ≡ some j)
stays_registered k a i d (inl same) = (i, ground (arith, get-put k a i d, eq_iff k a))
stays_registered k a i d (inr (j, there)) = elim (Bool-cases (str_eq k a)) [
  | inl same ↦ (i, ground (arith, get-put k a i d))
  | inr other ↦ (j, ground (arith, get-put k a i d))
]

new_scene-IsRegistered :
    (running : Bool) (id version : String) (inputs : List InputSpec) (w : Server)
    → IsRegistered w
    → IsRegistered (new_scene running id version inputs w).1
unfolding new_scene
new_scene-IsRegistered running id version inputs w r = record {
  allocated = λ a i e. ground (arith, get-put id a w.next w.scenes, r.allocated a i);
  apart = λ a b i e f. ground (
    arith,
    get-put id a w.next w.scenes,
    get-put id b w.next w.scenes,
    r.allocated a i,
    r.allocated b i,
    r.apart a b i,
    eq_iff id a,
    eq_iff id b,
  );
  served = λ ne. elim (Bool-cases (str_eq w.active "")) [
    | inl fresh ↦ rw fresh (stays_registered id id w.next w.scenes (inl refl))
    | inr old ↦
        rw old (
          stays_registered id w.active w.next w.scenes
            (inr (r.served (λ e. not_eq w.active old e))))
  ];
}

-- The registry of `w` is that of `v`: only the objects differ.
abbrev pub SameRegistry : Server → Server → Type 0
SameRegistry v w = (w.scenes ≡ v.scenes) × ((w.active ≡ v.active) × (w.next ≡ v.next))

SameRegistry-IsRegistered : (v w : Server) → SameRegistry v w → IsRegistered v → IsRegistered w
SameRegistry-IsRegistered v w (s, (a, n)) r = rw (s, a, n) r

run_task_lem : (w : Server) → SameRegistry w (run_task w)
unfolding run_task
run_task_lem w = by_tasks w.tasks
  where
    by_tasks : (ts : List ℕ) → SameRegistry w (run_next ts w)
    by_tasks [] = (refl, (refl, refl))
    by_tasks (i ∷ is) = unfold reset_scene in (refl, (refl, refl))

detach_each_lem : (sub : ℕ) (d : Dict ℕ) (w : Server) → SameRegistry w (detach_each sub d w)
unfolding detach_each
detach_each_lem sub [] w = (refl, (refl, refl))
detach_each_lem sub ((a, i) ∷ d) w = detach_each_lem sub d _

pub reset_each_lem : (d : Dict ℕ) (w : Server) → SameRegistry w (reset_each d w)
unfolding reset_each reset_scene
reset_each_lem [] w = (refl, (refl, refl))
reset_each_lem ((a, i) ∷ d) w = reset_each_lem d _

reset-IsRegistered : (w : Server) → IsRegistered (reset w)
unfolding reset get
reset-IsRegistered w =
    SameRegistry-IsRegistered (record w { scenes = []; active = "" }) (reset w)
      (reset_each_lem w.scenes _)
      (record { allocated = λ a i e. cc; apart = λ a b i e f. cc; served = λ ne. absurd (ne refl) })

migrate_from_lem : (o : Option ℕ) (next : ℕ) (w : Server) → SameRegistry w (migrate_from o next w)
migrate_from_lem none next w = (refl, (refl, refl))
migrate_from_lem (some prev) next w = elim (Bool-cases (prev == next)) [
  | inl same ↦ rw same (refl, (refl, refl))
  | inr other ↦ rw other (refl, (refl, refl))
]

activate-IsRegistered :
    (id : String) (i : ℕ) (w v : Server)
    → get id w.scenes ≡ some i
    → activate id (some i) w ≡ some v
    → IsRegistered w
    → IsRegistered v
activate-IsRegistered id i w v there h r = elim (Bool-cases (str_eq w.active id)) [
  | inl same ↦ rw (some_inj w v (rw same at h)) at r
  | inr other ↦
      let w' = record w { active = id } in
      rw (some_inj _ v (rw other at h)) at (
        SameRegistry-IsRegistered w' (migrate_from (active_scene w) i w')
          (migrate_from_lem (active_scene w) i w')
          (record { allocated = r.allocated; apart = r.apart; served = λ ne. (i, there) }))
]

set_active-IsRegistered :
    (id : String) (w v : Server) → set_active id w ≡ some v → IsRegistered w → IsRegistered v
unfolding set_active
set_active-IsRegistered id w v h r = elim (Option-cases (get id w.scenes)) [
  | inl missing ↦ none-some (rw missing at h)
  | inr (i, there) ↦ activate-IsRegistered id i w v there (rw there at h) r
]

-- The calls on a server. `touched` is what a session or an adapter does to a scene it holds.
pub data Call : Type 0 where
  created : Bool → String → String → List InputSpec → Call
  activated : String → Call
  emptied : Call
  detached : ℕ → Call
  ran_task : Call
  touched : ℕ → Scene → Heap → Call

abbrev or_same : Option Server → Server → Server
or_same none w = w
or_same (some v) w = v

abbrev pub call : Call → Server → Server
call (created running id version inputs) w = (new_scene running id version inputs w).1
call (activated id) w = or_same (set_active id w) w
call emptied w = reset w
call (detached sub) w = detach sub w
call ran_task w = run_task w
call (touched i s h) w = store i s h w

unfoldable pub calls : List Call → Server → Server
calls [] w = w
calls (c ∷ cs) w = calls cs (call c w)

call-IsRegistered : (c : Call) (w : Server) → IsRegistered w → IsRegistered (call c w)
call-IsRegistered (created running id version inputs) w r =
    new_scene-IsRegistered running id version inputs w r
call-IsRegistered (activated id) w r = elim (Option-cases (set_active id w)) [
  | inl missing ↦ rw missing r
  | inr (v, done) ↦ rw done (set_active-IsRegistered id w v done r)
]
call-IsRegistered emptied w r = reset-IsRegistered w
call-IsRegistered (detached sub) w r =
    SameRegistry-IsRegistered w (detach sub w) (unfold detach in detach_each_lem sub w.scenes w) r
call-IsRegistered ran_task w r = SameRegistry-IsRegistered w (run_task w) (run_task_lem w) r
call-IsRegistered (touched i s h) w r = r

calls-IsRegistered_from : (cs : List Call) (w : Server) → IsRegistered w → IsRegistered (calls cs w)
unfolding calls
calls-IsRegistered_from [] w r = r
calls-IsRegistered_from (c ∷ cs) w r =
    calls-IsRegistered_from cs (call c w) (call-IsRegistered c w r)

-- After any sequence of calls on a new server, every registered reference has been given out, no
-- two names share a scene, and an active name that is not empty is registered.
pub calls-IsRegistered : (h : Heap) (cs : List Call) → IsRegistered (calls cs (init h))
calls-IsRegistered h cs = calls-IsRegistered_from cs (init h) (init-IsRegistered h)
