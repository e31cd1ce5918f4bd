-- ===== src/Server/Scene.antt =====
-- server/scene.py: `Scene`. Its lock and the store's are only awaited where they are free, so a
-- method runs as one step of the event loop. A method takes and gives back the scene beside the
-- heap of subscriptions.
pub mod FanOut
pub mod Resume
pub mod Receive
pub mod Delivery
pub mod Migration
pub mod ApplyInput
pub mod Bounds
use lumencast_py.Prelude.{
  ℕ, ◌+◌, String, Bool, true, false, not, ◌&&◌, Option, none, some, List, [], ◌∷◌, ◌++◌, map, keep,
  ltb, leb, ◌==◌, if◌then◌else◌, any_of,
}
use lumencast_py.Prelude.Dict
use lumencast_py.Prelude.Dict.{Dict}
use lumencast_py.Json.{ℤ, pos, negsuc, Json, null, text}
use lumencast_py.Protocol.Frames.{Patch, Cause, Snapshot, Delta, SceneChanged}
use lumencast_py.Protocol.Sequence
use lumencast_py.Protocol.Sequence.{SequenceTracker}
use lumencast_py.Server.Input.{InputSpec}
use lumencast_py.Server.ReplayBuffer
use lumencast_py.Server.ReplayBuffer.{ReplayBuffer, ReplayRecord, ReplaySlice}
use lumencast_py.Server.Store
use lumencast_py.Server.Store.{Store}
use lumencast_py.Server.Subscription.{
  Subscription, Heap, Message, snapshot, scene_changed, send_or_drop, send_delta, close, modify,
  modify_all, alloc,
}

abbrev pub default_scene_version : String
default_scene_version = "sha256:0000000000000000000000000000000000000000000000000000000000000000"

pub record Scene : Type 0 where
  pub id : String
  pub version : String
  pub store : Store
  pub subscribers : List ℕ
  pub declared_inputs : Dict InputSpec
  pub seq : SequenceTracker
  pub replay : ReplayBuffer

-- {s.path: s for s in specs}
unfoldable pub by_path : List InputSpec → Dict InputSpec → Dict InputSpec
by_path [] d = d
by_path (s ∷ specs) d = by_path specs (Dict.put s.path s d)

unfoldable pub init : String → String → List InputSpec → Scene
unfolding Sequence.next_server ReplayBuffer.init by_path
init id version operator_inputs = record {
  id = id;
  version = version;
  store = Store.init;
  subscribers = [];
  declared_inputs = by_path operator_inputs [];
  seq = (Sequence.next_server Sequence.init).1;
  replay = ReplayBuffer.init (pos ReplayBuffer.default_replay_buffer_size);
}

unfoldable pub current_seq : Scene → ℕ
unfolding Sequence.current
current_seq s = Sequence.current s.seq

unfoldable pub replay_since : ℤ → Scene → ReplaySlice
replay_since since_seq s = ReplayBuffer.since since_seq s.replay

unfoldable pub set_version : String → Scene → Scene
set_version version s = record s { version = version }

unfoldable pub declare_inputs : List InputSpec → Scene → Scene
unfolding by_path
declare_inputs specs s = record s { declared_inputs = by_path specs [] }

unfoldable pub state : Scene → Dict Json
unfolding Store.snapshot
state s = Store.snapshot s.store

-- the Snapshot that carries the current state at the current number
unfoldable pub snapshot_of : Scene → Snapshot
unfolding state current_seq
snapshot_of s = record {
  scene_id = text s.id;
  scene_version = text s.version;
  state = state s;
  seq = pos (current_seq s);
  ts = text "";
}

unfoldable pub refresh_all : Scene → Heap → Heap
unfolding snapshot_of
refresh_all s h = modify_all s.subscribers (send_or_drop (snapshot (snapshot_of s))) h

-- `none` is the EmptyPatchesError
unfoldable pub set : Dict Json → Scene → Heap → Option (Scene × Heap)
unfolding refresh_all
set patches s h = elim (Store.apply patches s.store) [
  | none ↦ none
  | some (applied, store) ↦ let s' = record s { store = store } in some (s', refresh_all s' h)
]

abbrev pub to_patch : String × Json → Patch
to_patch (path, value) = record { path = path; value = value; transition = none }

-- the delta frame of one emission
abbrev pub to_delta : ReplayRecord → Delta
to_delta r = record { patches = r.patches; seq = pos r.seq; ts = text ""; cause = r.cause }

-- the part of `emit` under the scene's lock
unfoldable pub publish : List (String × Json) → Option Cause → Scene → Heap → Scene × Heap
unfolding Sequence.next_server snapshot_of
publish applied cause s h =
    let wire = map to_patch applied in
    let (seq, tracker) = Sequence.next_server s.seq in
    let r : ReplayRecord = record { seq = seq; patches = wire; cause = cause } in
    let s' = record s { seq = tracker; replay = ReplayBuffer.push r s.replay } in
    (s', modify_all s.subscribers (send_delta (to_delta r) (snapshot_of s')) h)

unfoldable pub emit : Dict Json → Option Cause → Scene → Heap → Option (Scene × Heap)
unfolding publish
emit patches cause s h = elim (Store.apply patches s.store) [
  | none ↦ none
  | some (applied, store) ↦ some (publish applied cause (record s { store = store }) h)
]

unfoldable pub reset : Scene → Heap → Scene × Heap
unfolding Store.reset
reset s h =
    (record s { subscribers = []; store = Store.reset s.store }, modify_all s.subscribers close h)

abbrev pub contains : ℕ → List ℕ → Bool
contains i [] = false
contains i (j ∷ js) = if i == j then true else contains i js

-- `subscribers.add(i)`
unfoldable pub add : ℕ → List ℕ → List ℕ
add i l = if contains i l then l else l ++ i ∷ []

-- `subscribers.discard(i)`
unfoldable pub discard : ℕ → List ℕ → List ℕ
discard i l = keep (λ j. not (i == j)) l

pub record Subscribed : Type 0 where
  pub sub : ℕ
  pub snap : Option Snapshot
  pub records : List ReplayRecord

unfoldable pub subscribe : Bool → Scene → Heap → Subscribed × (Scene × Heap)
unfolding alloc add snapshot_of
subscribe live s h =
    let (i, h') = alloc live h in
    let s' = record s { subscribers = add i s.subscribers } in
    (record { sub = i; snap = some (snapshot_of s'); records = [] }, (s', h'))

-- 0 < since_sequence <= cur_seq
abbrev pub in_window : ℤ → ℕ → Bool
in_window (pos n) cur = ltb 0 n && leb n cur
in_window (negsuc n) cur = false

-- `snap` or the records, by `since_sequence`
unfoldable pub resume : Scene → ℕ → Option ℤ → Subscribed
unfolding snapshot_of current_seq
resume s i none = record { sub = i; snap = some (snapshot_of s); records = [] }
resume s i (some n) =
    let full : Subscribed = record { sub = i; snap = some (snapshot_of s); records = [] } in
    let slice = ReplayBuffer.since n s.replay in
    if in_window n (current_seq s) && slice.covered
    then record { sub = i; snap = none; records = slice.records }
    else full

unfoldable pub subscribe_with_resume : Bool → Option ℤ → Scene → Heap → Subscribed × (Scene × Heap)
unfolding alloc add resume
subscribe_with_resume live since_sequence s h =
    let (i, h') = alloc live h in
    let s' = record s { subscribers = add i s.subscribers } in
    (resume s' i since_sequence, (s', h'))

unfoldable pub unsubscribe : ℕ → Scene → Heap → Scene × Heap
unfolding discard modify
unsubscribe i s h = (record s { subscribers = discard i s.subscribers }, modify i close h)

-- the marks of `migrate_subscribers_from`: the live subscribers, in the order of the list
unfoldable pub live_of : Heap → List ℕ → List ℕ
live_of h l = keep (λ i. (h.at i).live) l

unfoldable pub add_all : List ℕ → List ℕ → List ℕ
unfolding add
add_all [] l = l
add_all (i ∷ is) l = add_all is (add i l)

-- the two frames that a migrated subscriber is sent
unfoldable pub move : SceneChanged → Snapshot → Subscription → Subscription
unfolding send_or_drop
move changed snap sub = send_or_drop (snapshot snap) (send_or_drop (scene_changed changed) sub)

pub record Migrated : Type 0 where
  pub moved : List ℕ
  pub next : Scene
  pub prev : Scene
  pub heap : Heap

unfoldable pub migrate_live : List ℕ → Scene → Scene → Heap → Migrated
unfolding Sequence.next_server snapshot_of move add_all
migrate_live [] next prev h = record { moved = []; next = next; prev = prev; heap = h }
migrate_live (i ∷ is) next prev h =
    let (prev_seq, tracker) = Sequence.next_server prev.seq in
    let changed : SceneChanged = record {
      scene_id = text next.id;
      scene_version = text next.version;
      seq = pos prev_seq;
      ts = text "";
      from_scene_id = null;
      transition = none;
    } in
    record {
      moved = i ∷ is;
      next = record next { subscribers = add_all (i ∷ is) next.subscribers };
      prev = record prev { seq = tracker };
      heap = modify_all (i ∷ is) (move changed (snapshot_of next)) h;
    }

-- `next.migrate_subscribers_from(prev)`
unfoldable pub migrate_subscribers_from : Scene → Scene → Heap → Migrated
unfolding live_of migrate_live
migrate_subscribers_from next prev h =
    let moved = live_of h prev.subscribers in
    migrate_live moved next
      (record prev { subscribers = keep (λ i. not (h.at i).live) prev.subscribers }) h
