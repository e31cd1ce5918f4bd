-- ===== src/Server/Kit/Bounds.antt =====
-- How far the memory of a whole server can grow.
use lumencast_py.Prelude.{
  ℕ, ◌≤◌, String, str_eq, Bool, Option, none, some, List, [], ◌∷◌, length, ◌==◌, Bool-cases, inl,
  inr, arith,
}
use lumencast_py.Prelude.Dict.{Dict, get}
use lumencast_py.Json.Builtins.{Builtins}
use lumencast_py.Server.Input.{InputSpec}
use lumencast_py.Server.Scene
use lumencast_py.Server.Scene.{Scene}
use lumencast_py.Server.Scene.Bounds.{IsBounded, AllFit, init-IsBounded}
use lumencast_py.Server.Scene.Bounds.Operations.{
  Operation, perform, Both, perform-Both, reset-Both, unsubscribe-Both,
  migrate_subscribers_from-Both,
}
use lumencast_py.Server.Subscription.{Heap}
use lumencast_py.Server.Kit.{
  Server, init, new_scene, reset_scene, run_task, run_next, activate, active_scene, migrate_from,
  set_active, reset, reset_each, detach, detach_each, store,
}

-- Every scene's buffer and every queue is within its bound.
pub record BoundedServer (w : Server) : Type 0 where
  pub scenes : (i : ℕ) → IsBounded (w.at i)
  pub queues : AllFit w.heap

init-BoundedServer : (h : Heap) → AllFit h → BoundedServer (init h)
unfolding init
init-BoundedServer h a = record { scenes = λ i. init-IsBounded "" "" []; queues = a }

store-BoundedServer :
    (i : ℕ) (v : Scene × Heap) (w : Server)
    → Both v
    → BoundedServer w
    → BoundedServer (store i v.0 v.1 w)
store-BoundedServer i (s, h) w (b, a) k = record {
  scenes =
      λ j. elim (Bool-cases (i == j)) [ inl same ↦ rw same b | inr other ↦ rw other (k.scenes j) ];
  queues = a;
}

new_scene-BoundedServer :
    (running : Bool) (id version : String) (inputs : List InputSpec) (w : Server)
    → BoundedServer w
    → BoundedServer (new_scene running id version inputs w).1
unfolding new_scene
new_scene-BoundedServer running id version inputs w k = record {
  scenes = λ j. elim (Bool-cases (w.next == j)) [
    | inl same ↦ rw same (init-IsBounded id version inputs)
    | inr other ↦ rw other (k.scenes j)
  ];
  queues = k.queues;
}

reset_scene-BoundedServer : (i : ℕ) (w : Server) → BoundedServer w → BoundedServer (reset_scene i w)
unfolding reset_scene
reset_scene-BoundedServer i w k =
    store-BoundedServer i (Scene.reset (w.at i) w.heap) w
      (reset-Both (w.at i) w.heap (k.scenes i, k.queues)) k

run_next-BoundedServer :
    (is : List ℕ) (w : Server) → BoundedServer w → BoundedServer (run_next is w)
run_next-BoundedServer [] w k = k
run_next-BoundedServer (i ∷ is) w k =
    reset_scene-BoundedServer i (record w { tasks = is })
      (record { scenes = k.scenes; queues = k.queues })

reset_each-BoundedServer :
    (d : Dict ℕ) (w : Server) → BoundedServer w → BoundedServer (reset_each d w)
unfolding reset_each
reset_each-BoundedServer [] w k = k
reset_each-BoundedServer ((a, i) ∷ d) w k =
    reset_each-BoundedServer d (reset_scene i w) (reset_scene-BoundedServer i w k)

detach_each-BoundedServer :
    (sub : ℕ) (d : Dict ℕ) (w : Server) → BoundedServer w → BoundedServer (detach_each sub d w)
unfolding detach_each
detach_each-BoundedServer sub [] w k = k
detach_each-BoundedServer sub ((a, i) ∷ d) w k = detach_each-BoundedServer sub d _ (
    store-BoundedServer i (Scene.unsubscribe sub (w.at i) w.heap) w
      (unsubscribe-Both sub (w.at i) w.heap (k.scenes i, k.queues)) k)

migrate_from-BoundedServer :
    (o : Option ℕ) (next : ℕ) (w : Server) → BoundedServer w → BoundedServer (migrate_from o next w)
migrate_from-BoundedServer none next w k = k
migrate_from-BoundedServer (some prev) next w k = elim (Bool-cases (prev == next)) [
  | inl same ↦ rw same k
  | inr other ↦
      let (n, p, a) =
        migrate_subscribers_from-Both (w.at next) (w.at prev) w.heap (k.scenes next) (k.scenes prev)
          k.queues in
      rw other (record {
        scenes = λ j. elim (Bool-cases (next == j)) [
          | inl is_next ↦ rw is_next n
          | inr not_next ↦ elim (Bool-cases (prev == j)) [
            | inl is_prev ↦ rw (not_next, is_prev) p
            | inr not_prev ↦ rw (not_next, not_prev) (k.scenes j)
          ]
        ];
        queues = a;
      })
]

-- The calls on a server, and the operations on the scenes it has given out.
pub data Action : Type 0 where
  created : Bool → String → String → List InputSpec → Action
  activated : String → Action
  emptied : Action
  detached : ℕ → Action
  ran_task : Action
  operated : ℕ → Operation → Action

abbrev pub or_same : Option Server → Server → Server
or_same none w = w
or_same (some v) w = v

module _ (py : Builtins) where
  abbrev pub act : Action → Server → Server
  act (created running id version inputs) w = (new_scene running id version inputs w).1
  act (activated id) w = or_same (set_active id w) w
  act emptied w = reset w
  act (detached sub) w = detach sub w
  act ran_task w = run_task w
  act (operated i o) w = let (s, h) = perform py o (w.at i, w.heap) in store i s h w

  unfoldable pub act_all : List Action → Server → Server
  act_all [] w = w
  act_all (c ∷ cs) w = act_all cs (act c w)

activate-BoundedServer :
    (id : String) (o : Option ℕ) (w : Server)
    → BoundedServer w
    → BoundedServer (or_same (activate id o w) w)
activate-BoundedServer id none w k = k
activate-BoundedServer id (some i) w k = elim (Bool-cases (str_eq w.active id)) [
  | inl same ↦ rw same k
  | inr other ↦ rw other (
      migrate_from-BoundedServer (active_scene w) i (record w { active = id })
        (record { scenes = k.scenes; queues = k.queues }))
]

module _ (py : Builtins) where
  act-BoundedServer : (c : Action) (w : Server) → BoundedServer w → BoundedServer (act py c w)
  act-BoundedServer (created running id version inputs) w k =
      new_scene-BoundedServer running id version inputs w k
  act-BoundedServer (activated id) w k =
      unfold set_active in activate-BoundedServer id (get id w.scenes) w k
  act-BoundedServer emptied w k =
      unfold reset in
      reset_each-BoundedServer w.scenes (record w { scenes = []; active = "" })
        (record { scenes = k.scenes; queues = k.queues })
  act-BoundedServer (detached sub) w k = unfold detach in detach_each-BoundedServer sub w.scenes w k
  act-BoundedServer ran_task w k = unfold run_task in run_next-BoundedServer w.tasks w k
  act-BoundedServer (operated i o) w k =
      store-BoundedServer i (perform py o (w.at i, w.heap)) w
        (perform-Both py o (w.at i, w.heap) (k.scenes i, k.queues)) k

  act_all_lem : (cs : List Action) (w : Server) → BoundedServer w → BoundedServer (act_all py cs w)
  unfolding act_all
  act_all_lem [] w k = k
  act_all_lem (c ∷ cs) w k = act_all_lem cs (act py c w) (act-BoundedServer c w k)

  -- After any sequence of the server's calls and of emissions, seedings, inputs, joins, leaves,
  -- reads and resets on its scenes, from a new server over a heap whose queues fit: every queue
  -- holds at most 256 frames, and the replay buffer of every scene at most 256 records.
  pub act_all-Bounded :
      (h : Heap) (cs : List Action)
      → AllFit h
      → (let w = act_all py cs (init h) in
          ((i : ℕ) → length (w.heap.at i).queue ≤ 256)
          × ((i : ℕ) → length (w.at i).replay.records ≤ 256))
  act_all-Bounded h cs a =
      let k = act_all_lem cs (init h) (init-BoundedServer h a) in
      (k.queues, λ i. omega (arith, (k.scenes i).held, (k.scenes i).capacity))
