-- ===== src/Tests/Writer.antt =====
-- The writer of a session, and the bounds of a server.
use lumencast_py.Prelude.{ℕ, ◌≤◌, ◌≡◌, refl, true, false, none, List, [], ◌∷◌, length, arith}
use lumencast_py.Json.{null, int, pos, text}
use lumencast_py.Protocol.Frames.{Snapshot, ServerFrame}
use lumencast_py.Server.Kit
use lumencast_py.Server.Kit.{Server}
use lumencast_py.Server.Kit.Bounds.{Action, act_all, act_all-Bounded}
use lumencast_py.Server.Scene.Bounds.Operations.{Operation}
use lumencast_py.Server.Session.{Session, send}
use lumencast_py.Server.Session.Writer.{connect, turns, has_ended, Event}
use lumencast_py.Server.Session.Writer.Draining.{kept_frames}
use lumencast_py.Server.Session.Writer.Closing.{Closes, close-Closes}
use lumencast_py.Server.Subscription.{Subscription, Heap, Message, fresh, close, modify, has_room}
use lumencast_py.Tests.Input.{py, alice, scene}
use lumencast_py.Tests.Codec.{library}
use lumencast_py.Tests.Session.{texts}

abbrev heap : Heap
heap = record { next = 0; at = λ i. fresh false }

-- a scene with one client is emitted to, read from and reset
abbrev actions : List Action
actions =
    Action.created false "main" "v1" []
    ∷ Action.operated 0 (Operation.joined false none)
    ∷ Action.operated 0 (Operation.emitted (("score", int (pos 1)) ∷ []) none)
    ∷ Action.operated 0 (Operation.received 0)
    ∷ Action.emptied
    ∷ []

abbrev served : Server
served = act_all py actions (Kit.init heap)

act_all-Bounded_example :
    ((i : ℕ) → length (served.heap.at i).queue ≤ 256)
    × ((i : ℕ) → length (served.at i).replay.records ≤ 256)
act_all-Bounded_example = act_all-Bounded py heap actions (λ i. omega arith)

abbrev snap : Snapshot
snap = record {
  scene_id = text "main";
  scene_version = text "v1";
  state = [];
  seq = pos 1;
  ts = text "";
}

-- a subscription with one snapshot to send
abbrev sub : Subscription
sub = record (fresh true) { queue = Message.snapshot snap ∷ [] }

abbrev closed : Session
closed = record { scene = scene; heap = record { next = 1; at = λ i. close sub }; out = [] }

program : Unit {0}
unfolding connect turns close modify has_room
program = tt

close-Closes_example : Closes py texts (library null) alice 0 closed (kept_frames sub) 2
unfolding program
close-Closes_example =
    close-Closes py texts (library null) alice 0 closed sub refl (omega arith) ((λ e. cc), tt) refl

-- the snapshot is sent, and the session ends when the client leaves
ended :
    (let c = turns py texts (library null) alice 0 (Event.got ∷ Event.got ∷ []) (connect closed) in
      (c.session.out ≡ send (ServerFrame.snapshot snap) ∷ [])
      × (has_ended c ≡ false)
      × (has_ended (turns py texts (library null) alice 0 (Event.gone ∷ []) c) ≡ true))
unfolding program
ended = (refl, refl, refl)
