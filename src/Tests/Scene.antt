-- ===== src/Tests/Scene.antt =====
-- A scene with one client.
use lumencast_py.Prelude.{◌≡◌, refl, false, true, some, none, List, [], ◌∷◌, arith}
use lumencast_py.Prelude.Dict.{update, put}
use lumencast_py.Json.{Json, int, pos, obj, field, end}
use lumencast_py.Server.Adapters.{flatten, flatten_each}
use lumencast_py.Protocol.Sequence
use lumencast_py.Server.ReplayBuffer
use lumencast_py.Server.ReplayBuffer.{ReplayBuffer, ReplaySlice, ReplayRecord, since}
use lumencast_py.Server.Subscription.{Heap, Message, fresh, alloc, modify, modify_all, send_delta}
use lumencast_py.Server.Scene.{
  Scene, set, init, default_scene_version, subscribe, subscribe_with_resume, snapshot_of, add,
}
use lumencast_py.Server.Scene.Resume.Seeding.{resume_misses_set}
use lumencast_py.Server.Scene.Resume.{
  Emission, emit_all, client_after, after_emit, heap_after, emit-after_emit, resume_converges,
  patches_of, record_of, write_patches,
}
use lumencast_py.Server.Scene.Delivery.{View, Step, Reach, subscribed, subscriber_converges}

abbrev pub scene : Scene
scene = init "main" default_scene_version []

abbrev pub heap : Heap
heap = record { next = 0; at = λ i. fresh false }

abbrev score : Emission
score = record { path = "score"; value = int (pos 1); more = []; cause = none }

-- after the client has joined, after the emission, and after the client has read the delta
abbrev joined : View
joined = subscribed false scene heap

abbrev emitted : View
emitted = record {
  scene = after_emit score joined.scene;
  heap = heap_after score joined.scene joined.heap;
  client = [];
}

abbrev read : View
read = record {
  scene = emitted.scene;
  heap = modify 0 (λ sub. record sub { queue = [] }) emitted.heap;
  client = ("score", int (pos 1)) ∷ [];
}

program : Unit {0}
unfolding init subscribe alloc add after_emit heap_after modify modify_all send_delta update put
    ReplayBuffer.push Sequence.next_server snapshot_of write_patches
program = tt

run : Reach 0 joined read
unfolding program
run =
    Reach.next
      (Reach.next Reach.here (
        Step.emitted (patches_of score) none emitted.scene emitted.heap
          (emit-after_emit score joined.scene joined.heap) refl))
      (Step.received
        (Message.delta (record {
          patches = (record_of score joined.scene).patches;
          seq = pos 2;
          ts = Json.text "";
          cause = none;
        }))
        [] refl refl)

subscriber_converges_example : read.client ≡ read.scene.store.state
unfolding program
subscriber_converges_example = subscriber_converges false scene heap tt tt run refl refl

-- the client saw the fresh scene at number 1, and comes back after two emissions
abbrev two : List Emission
two = score ∷ record score { value = int (pos 2) } ∷ []

resume_converges_example :
    (s' : Scene) × (h' : Heap) × (emit_all two scene heap ≡ some (s', h'))
    × (client_after scene.store.state
          (subscribe_with_resume true (some (pos scene.seq.cur)) s' h').0
        ≡ s'.store.state)
unfolding program
resume_converges_example =
    resume_converges scene heap 1 two true (omega arith) (omega arith) (omega arith)

-- the fresh scene is seeded while the client is away
resume_misses_set_example :
    (s' : Scene) × (h' : Heap) × (set (("score", int (pos 1)) ∷ []) scene heap ≡ some (s', h'))
    × (s'.store.state ≡ update scene.store.state (("score", int (pos 1)) ∷ []))
    × (client_after scene.store.state
          (subscribe_with_resume true (some (pos scene.seq.cur)) s' h').0
        ≡ scene.store.state)
unfolding program
resume_misses_set_example =
    resume_misses_set scene heap 1 ("score", int (pos 1)) [] true (omega arith) (omega arith)

-- nested objects become dotted paths
flattened :
    flatten (obj (field "a" (obj (field "b" (int (pos 1)) end)) (field "c" (int (pos 2)) end))) ""
    ≡ ("a.b", int (pos 1)) ∷ ("c", int (pos 2)) ∷ []
unfolding flatten flatten_each update put
flattened = refl
