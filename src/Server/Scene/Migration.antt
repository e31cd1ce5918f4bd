-- ===== src/Server/Scene/Migration.antt =====
-- server/scene.py: `migrate_subscribers_from`, who moves and what the moved clients see.
use mathlib.Core.List.{append_assoc}
use lumencast_py.Prelude.{
  none, ℕ, ◌+◌, ◌<◌, ◌++◌, length, length-append, sym, ap, ◌≡◌, refl, ◌∙◌, Bool, true, false, not,
  ◌&&◌, ◌||◌, List, [], ◌∷◌, keep, if◌then◌else◌, arith,
}
use lumencast_py.Prelude.Dict.{Dict}
use lumencast_py.Json.{Json, pos, null, text}
use lumencast_py.Protocol.Frames.{SceneChanged}
use lumencast_py.Protocol.Sequence
use lumencast_py.Server.Subscription.{
  Heap, Subscription, Message, snapshot, scene_changed, send_or_drop, put_nowait, has_room,
  queue_size,
}
use lumencast_py.Server.Scene.{
  Scene, Migrated, migrate_subscribers_from, migrate_live, live_of, add, add_all, contains, move,
  snapshot_of,
}
use lumencast_py.Server.Scene.FanOut.{
  Distinct, Below, Below-add, Below-keep, contains-add, contains-keep, keep-Distinct, add-Distinct,
  next-modify_all, at-modify_all,
}
use lumencast_py.Server.Scene.Delivery.{View, Follows, Reach, Reach-Follows}
use lumencast_py.Server.Scene.Receive.{received_all, send_or_drop-Synced, Synced}

contains-add_all :
    (i : ℕ) (is l : List ℕ) → contains i (add_all is l) ≡ (contains i l || contains i is)
unfolding add_all
contains-add_all i [] l = ground arith
contains-add_all i (j ∷ js) l = ground (arith, contains-add_all i js (add j l), contains-add i j l)

add_all-Distinct : (is l : List ℕ) → Distinct l → Distinct (add_all is l)
unfolding add_all
add_all-Distinct [] l d = d
add_all-Distinct (j ∷ js) l d = add_all-Distinct js (add j l) (add-Distinct j l d)

Below-add_all : (n : ℕ) (is l : List ℕ) → Below n l → Below n is → Below n (add_all is l)
unfolding add_all
Below-add_all n [] l b bs = b
Below-add_all n (j ∷ js) l b bs = Below-add_all n js (add j l) (Below-add n j l b bs.0) bs.1

-- the frame that a moved subscriber is sent before the snapshot
abbrev announced : Scene → Scene → SceneChanged
announced next prev = record {
  scene_id = text next.id;
  scene_version = text next.version;
  seq = pos (Sequence.next_server prev.seq).0;
  ts = text "";
  from_scene_id = null;
  transition = none;
}

-- What a migration leaves: the live subscribers of the previous scene have moved and were sent the
-- two frames, every other subscription is as it was, and both stores are untouched.
pub record Partition (next prev : Scene) (h : Heap) (m : Migrated) : Type 0 where
  pub stays :
      (i : ℕ) → contains i m.prev.subscribers ≡ (contains i prev.subscribers && not (h.at i).live)
  pub joins :
      (i : ℕ)
      → contains i m.next.subscribers
        ≡ (contains i next.subscribers || (contains i prev.subscribers && (h.at i).live))
  pub sent :
      (i : ℕ)
      → m.heap.at i ≡ (
          if contains i prev.subscribers && (h.at i).live
          then send_or_drop
              (snapshot (snapshot_of next))
              (send_or_drop (scene_changed (announced next prev)) (h.at i))
          else h.at i)
  pub queued :
      (i : ℕ)
      → contains i prev.subscribers ≡ true
      → (h.at i).live ≡ true
      → length (h.at i).queue + 1 < queue_size
      → (m.heap.at i).queue
        ≡ (h.at i).queue ++ scene_changed (announced next prev) ∷ snapshot (snapshot_of next) ∷ []
  pub next_state : m.next.store ≡ next.store
  pub prev_state : m.prev.store ≡ prev.store

move_open :
    (next prev : Scene) (sub : Subscription)
    → move (announced next prev) (snapshot_of next) sub
      ≡ send_or_drop
          (snapshot (snapshot_of next))
          (send_or_drop (scene_changed (announced next prev)) sub)
unfolding move
move_open next prev sub = refl

append_two : (ms : List Message) (m n : Message) → (ms ++ m ∷ []) ++ n ∷ [] ≡ ms ++ m ∷ n ∷ []
append_two ms m n = append_assoc ms (m ∷ []) (n ∷ [])

sent_room :
    (m : Message) (sub : Subscription)
    → length sub.queue < queue_size
    → send_or_drop m sub ≡ put_nowait m sub
unfolding send_or_drop has_room
sent_room m sub room = ground (arith, room)

-- two frames that fit are queued in their order
queue-two :
    (m n : Message) (sub : Subscription)
    → length sub.queue + 1 < queue_size
    → (send_or_drop n (send_or_drop m sub)).queue ≡ sub.queue ++ m ∷ n ∷ []
unfolding put_nowait
queue-two m n sub room =
    let first : send_or_drop m sub ≡ put_nowait m sub = sent_room m sub (omega (arith, room)) in
    let second : send_or_drop n (put_nowait m sub) ≡ put_nowait n (put_nowait m sub) =
      sent_room n (put_nowait m sub) (omega (arith, room, length-append sub.queue (m ∷ []))) in
    rw first (rw second (append_two sub.queue m n))

both {ℓ} : {A : Type ℓ} (x y : A) (a b : Bool) → a ≡ true → b ≡ true → (if a && b then x else y) ≡ x
both x y a b ha hb = rw ha (rw hb refl)

live_lem :
    (h : Heap) (l : List ℕ) (i : ℕ) → contains i (live_of h l) ≡ (contains i l && (h.at i).live)
unfolding live_of
live_lem h l i = ground (arith, contains-keep (λ j. (h.at j).live) i l)

migrate_live-Partition :
    (l : List ℕ) (next prev : Scene) (h : Heap)
    → Distinct l
    → (let m = migrate_live l next prev h in
        ((i : ℕ) → contains i m.next.subscribers ≡ (contains i next.subscribers || contains i l))
        × ((i : ℕ)
            → m.heap.at i ≡ (
                if contains i l
                then move (announced next prev) (snapshot_of next) (h.at i)
                else h.at i))
        × (m.next.store ≡ next.store)
        × (m.prev.store ≡ prev.store)
        × (m.prev.subscribers ≡ prev.subscribers))
unfolding migrate_live snapshot_of
migrate_live-Partition [] next prev h d = ((λ i. ground arith), (λ i. refl), refl, refl, refl)
migrate_live-Partition (j ∷ js) next prev h d = (
  (λ i. contains-add_all i (j ∷ js) next.subscribers),
  (λ i. at-modify_all (j ∷ js) (move (announced next prev) (snapshot_of next)) h i d),
  refl,
  refl,
  refl,
)

live_Distinct : (h : Heap) (l : List ℕ) → Distinct l → Distinct (live_of h l)
unfolding live_of
live_Distinct h l d = keep-Distinct (λ i. (h.at i).live) l d

-- Migration splits the subscribers of the previous scene by their mark `live`: the live ones
-- belong to the next scene and were sent the announcement and then its snapshot, which stand at
-- the end of their queue where it has room for both; the others stay with an untouched queue, and
-- no store changes. The subscribers of the previous scene are distinct.
pub migrate_subscribers_from-Partition :
    (next prev : Scene) (h : Heap)
    → Distinct prev.subscribers
    → Partition next prev h (migrate_subscribers_from next prev h)
unfolding migrate_subscribers_from
migrate_subscribers_from-Partition next prev h d =
    let rest = keep (λ i. not (h.at i).live) prev.subscribers in
    let moved = live_of h prev.subscribers in
    let (joins, sent, next_state, prev_state, stays) =
      migrate_live-Partition moved next (record prev { subscribers = rest }) h
        (live_Distinct h prev.subscribers d) in
    record {
      stays =
          λ i. rw stays (ground (arith, contains-keep (λ j. not (h.at j).live) i prev.subscribers));
      joins = λ i. ground (arith, joins i, live_lem h prev.subscribers i);
      sent = λ i.
          rw (sent i) (rw (live_lem h prev.subscribers i, sym (move_open next prev (h.at i))) refl);
      queued = λ i member live room.
          ap (λ (t : Subscription). t.queue)
            (sent i
              ∙ rw (live_lem h prev.subscribers i) (both _ _ _ _ member live)
              ∙ move_open next prev (h.at i))
          ∙ queue-two (scene_changed (announced next prev)) (snapshot (snapshot_of next)) (h.at i)
              room;
      next_state = next_state;
      prev_state = prev_state;
    }

migrate_live-kept :
    (l : List ℕ) (next prev : Scene) (h : Heap)
    → Distinct next.subscribers
    → Below h.next next.subscribers
    → Below h.next l
    → Distinct (migrate_live l next prev h).next.subscribers
      × Below (migrate_live l next prev h).heap.next (migrate_live l next prev h).next.subscribers
unfolding migrate_live
migrate_live-kept [] next prev h d b bl = (d, b)
migrate_live-kept (j ∷ js) next prev h d b bl = (
  add_all-Distinct (j ∷ js) next.subscribers d,
  rw next-modify_all (Below-add_all h.next (j ∷ js) next.subscribers b bl),
)

kept_of :
    (next prev : Scene) (h : Heap)
    → Distinct next.subscribers
    → Below h.next next.subscribers
    → Below h.next prev.subscribers
    → (let m = migrate_subscribers_from next prev h in
        Distinct m.next.subscribers × Below m.heap.next m.next.subscribers)
unfolding migrate_subscribers_from live_of
kept_of next prev h dn bn bp =
    migrate_live-kept (live_of h prev.subscribers) next _ h dn bn
      (Below-keep h.next (λ i. (h.at i).live) prev.subscribers bp)

move_lem :
    (next prev : Scene) (h : Heap) (i : ℕ) (st : Dict Json)
    → Synced next.store.state st (
        send_or_drop
          (snapshot (snapshot_of next))
          (send_or_drop (scene_changed (announced next prev)) (h.at i)))
unfolding snapshot_of
move_lem next prev h i st =
    send_or_drop-Synced st (snapshot_of next)
      (send_or_drop (scene_changed (announced next prev)) (h.at i))

-- A subscription that a migration moves follows the next scene, whatever its client had before.
migrated-Follows :
    (next prev : Scene) (h : Heap) (i : ℕ) (st : Dict Json)
    → Distinct next.subscribers
    → Below h.next next.subscribers
    → Distinct prev.subscribers
    → Below h.next prev.subscribers
    → contains i prev.subscribers ≡ true
    → (h.at i).live ≡ true
    → (let m = migrate_subscribers_from next prev h in
        Follows i (record { scene = m.next; heap = m.heap; client = st }))
migrated-Follows next prev h i st dn bn dp bp member live =
    let p = migrate_subscribers_from-Partition next prev h dp in
    let kept = kept_of next prev h dn bn bp in
    record {
      distinct = kept.0;
      allocated = kept.1;
      member = ground (arith, p.joins i);
      synced =
          rw (p.sent i ∙ both _ _ (contains i prev.subscribers) (h.at i).live member live)
            (rw p.next_state (move_lem next prev h i st));
    }

-- Whatever a client of the previous scene had before and had not read yet, after the switch it
-- follows the next scene: once its queue is read to the end, after any later emissions, seeds,
-- joins, departures and reads, and if its subscription is not marked stale, its state is that
-- of the next scene. Subscribers are distinct and allocated, and the client's one is live.
pub migrated_converges :
    (next prev : Scene) (h : Heap) (i : ℕ) (st : Dict Json) {w : View}
    → Distinct next.subscribers
    → Below h.next next.subscribers
    → Distinct prev.subscribers
    → Below h.next prev.subscribers
    → contains i prev.subscribers ≡ true
    → (h.at i).live ≡ true
    → (let m = migrate_subscribers_from next prev h in
        Reach i (record { scene = m.next; heap = m.heap; client = st }) w)
    → (w.heap.at i).queue ≡ []
    → (w.heap.at i).stale ≡ false
    → w.client ≡ w.scene.store.state
migrated_converges next prev h i st {w} dn bn dp bp member live r empty kept =
    let f = Reach-Follows i (migrated-Follows next prev h i st dn bn dp bp member live) r in
    received_all w.client w.scene.store.state (w.heap.at i) empty kept f.synced
