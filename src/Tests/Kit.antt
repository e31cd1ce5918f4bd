-- ===== src/Tests/Kit.antt =====
-- The registry, the switch of scenes, the routing and the end of a session.
use lumencast_py.Prelude.{
  String, keep, ◌≡◌, refl, ◌⊎◌, true, false, some, none, List, [], ◌∷◌, arith, eq_iff,
}
use lumencast_py.Prelude.Dict
use lumencast_py.Prelude.Dict.{Dict}
use lumencast_py.Json.{Json, text, int, pos}
use lumencast_py.Json.Builtins.{truthy}
use lumencast_py.Protocol.Frames.{Subscribe}
use lumencast_py.Protocol.Sequence
use lumencast_py.Server.Kit
use lumencast_py.Server.Kit.{Server, new_scene, active_scene, resolve_scene, to_scene, detach}
use lumencast_py.Server.Kit.Registered.{Call, calls, IsRegistered, calls-IsRegistered}
use lumencast_py.Server.Kit.Activation.{Switched, set_active-Switched}
use lumencast_py.Server.Kit.Routing.{Addressed, resolve_scene-Addressed}
use lumencast_py.Server.Kit.Detach.{Detached, detach-Detached}
use lumencast_py.Server.Scene.{
  Scene, init, subscribe, add, snapshot_of, migrate_subscribers_from, migrate_live, live_of, move,
  add_all,
}
use lumencast_py.Server.Scene.Delivery.{View, Reach, Step}
use lumencast_py.Server.Scene.Migration.{
  Partition, migrate_subscribers_from-Partition, migrated_converges,
}
use lumencast_py.Server.Subscription.{Heap, Message, fresh, alloc, modify, modify_all, send_or_drop}
use lumencast_py.Tests.Input.{py, alice}

abbrev heap : Heap
heap = record { next = 0; at = λ i. fresh false }

program : Unit {0}
unfolding init subscribe alloc add modify modify_all snapshot_of send_or_drop
    migrate_subscribers_from migrate_live live_of move add_all Sequence.next_server calls new_scene
    active_scene resolve_scene truthy Dict.get Dict.put Kit.init keep
program = tt

abbrev two_scenes : List Call
two_scenes = Call.created false "main" "v1" [] ∷ Call.created false "side" "v2" [] ∷ []

abbrev kit : Server
kit = calls two_scenes (Kit.init heap)

calls-IsRegistered_example : IsRegistered kit
calls-IsRegistered_example = calls-IsRegistered heap two_scenes

-- the first scene is the active one, and the second is registered at 1
serving : (active_scene kit ≡ some 0) × (Dict.get "side" kit.scenes ≡ some 1)
unfolding program
serving = (refl, refl)

active_run : ◌≡◌ {A = String} kit.active "main"
unfolding program
active_run = refl

none_subscribed : (kit.at 0).subscribers ≡ []
unfolding program
none_subscribed = refl

set_active-Switched_example : Switched "side" 0 1 kit
set_active-Switched_example =
    set_active-Switched "side" 0 1 kit calls-IsRegistered_example serving.0 serving.1
      (λ e. ground (arith, eq_iff "side" "main", e, active_run))
      (λ e. ground (arith, eq_iff "side" "", e)) (rw none_subscribed tt)

abbrev ask : Subscribe
ask = record { token = text "t"; scene = text "side"; session = text "s1"; since_sequence = none }

routed : resolve_scene py ask alice kit ≡ to_scene 1
unfolding program
routed = refl

resolve_scene-Addressed_example :
    ((truthy py ask.scene ≡ false) × (active_scene kit ≡ some 1)) ⊎ Addressed py kit ask alice 1
resolve_scene-Addressed_example = resolve_scene-Addressed py ask alice kit 1 routed

detach-Detached_example : Detached 0 kit (detach 0 kit)
detach-Detached_example = detach-Detached 0 kit

-- a live client of one scene is moved to the other and reads the two frames
abbrev prev : Scene
prev = (subscribe true (init "main" "v1" []) heap).1.0

abbrev attached : Heap
attached = (subscribe true (init "main" "v1" []) heap).1.1

abbrev next : Scene
next = record (init "side" "v2" []) { store = record { state = ("a", int (pos 1)) ∷ [] } }

migrate_subscribers_from-Partition_example :
    Partition next prev attached (migrate_subscribers_from next prev attached)
migrate_subscribers_from-Partition_example =
    migrate_subscribers_from-Partition next prev attached (unfold program in (refl, tt))

abbrev switched : View
switched =
    let m = migrate_subscribers_from next prev attached in
    record { scene = m.next; heap = m.heap; client = ("old", int (pos 9)) ∷ [] }

abbrev told : Message
told = Message.scene_changed (record {
  scene_id = text "side";
  scene_version = text "v2";
  seq = pos 2;
  ts = text "";
  from_scene_id = Json.null;
  transition = none;
})

abbrev shown : Message
shown = Message.snapshot (record {
  scene_id = text "side";
  scene_version = text "v2";
  state = ("a", int (pos 1)) ∷ [];
  seq = pos 1;
  ts = text "";
})

abbrev after_first : View
after_first = record {
  scene = switched.scene;
  heap = modify 0 (λ sub. record sub { queue = shown ∷ [] }) switched.heap;
  client = switched.client;
}

abbrev after_both : View
after_both = record {
  scene = switched.scene;
  heap = modify 0 (λ sub. record sub { queue = [] }) after_first.heap;
  client = ("a", int (pos 1)) ∷ [];
}

reading : Reach 0 switched after_both
unfolding program
reading =
    Reach.next (Reach.next Reach.here (Step.received told (shown ∷ []) refl refl))
      (Step.received shown [] refl refl)

migrated_converges_example : after_both.client ≡ after_both.scene.store.state
unfolding program
migrated_converges_example =
    migrated_converges next prev attached 0 switched.client tt tt (refl, tt) (omega arith, tt) refl
      refl reading refl refl
