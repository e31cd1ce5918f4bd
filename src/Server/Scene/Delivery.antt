-- ===== src/Server/Scene/Delivery.antt =====
-- What a subscriber's queue brings to its client, under every interleaving of the scene's
-- operations with the client's reads.
use lumencast_py.Prelude.{
  ℕ, ◌+◌, ◌≡◌, ◌≢◌, sym, Bool, true, false, not, String, Option, some, List, [], ◌∷◌, ◌==◌, arith,
}
use lumencast_py.Prelude.Dict.{Dict}
use lumencast_py.Json.{ℤ, Json}
use lumencast_py.Protocol.Frames.{Cause}
use lumencast_py.Server.Subscription.{Heap, Message, modify, alloc}
use lumencast_py.Server.Scene.{
  Scene, set, emit, add, add, subscribe, unsubscribe, subscribe_with_resume, contains, snapshot_of,
  refresh_all, to_delta,
}
use lumencast_py.Server.Scene.FanOut.{
  Distinct, Below, Below-add, Below-suc, Below-keep, contains-lt, contains-add, contains-keep,
  keep-Distinct, add-Distinct, next-modify_all, at-modify_all_member,
}
use lumencast_py.Server.Scene.Receive.{
  receive, receive_all, Synced, send_or_drop-Synced, send_delta-Synced, received-Synced,
  received_all,
}
use lumencast_py.Server.Scene.Resume.{
  write_patches-map, Emission, patches_of, after_emit, heap_after, emit_inv, after_set,
  set-after_set, no_set, client_after, record_of,
}

-- One client of a scene: the scene, the heap, and the state that the client has built.
pub record View : Type 0 where
  pub scene : Scene
  pub heap : Heap
  pub client : Dict Json

-- What may happen while the client holds subscription `i`: the adapters emit and seed, other
-- clients join and leave, and the client takes the next frame from its queue.
pub data Step (i : ℕ) (v w : View) : Type 0 where
  emitted :
      (patches : Dict Json) (cause : Option Cause) (s : Scene) (h : Heap)
      → emit patches cause v.scene v.heap ≡ some (s, h)
      → w ≡ record { scene = s; heap = h; client = v.client }
      → Step i v w
  seeded :
      (patches : Dict Json) (s : Scene) (h : Heap)
      → set patches v.scene v.heap ≡ some (s, h)
      → w ≡ record { scene = s; heap = h; client = v.client }
      → Step i v w
  joined :
      (live : Bool) (since_sequence : Option ℤ)
      → (let (s, h) = (subscribe_with_resume live since_sequence v.scene v.heap).1 in
          w ≡ record { scene = s; heap = h; client = v.client })
      → Step i v w
  left :
      (j : ℕ)
      → j ≢ i
      → (let (s, h) = unsubscribe j v.scene v.heap in
          w ≡ record { scene = s; heap = h; client = v.client })
      → Step i v w
  received :
      (m : Message) (ms : List Message)
      → (v.heap.at i).queue ≡ m ∷ ms
      → w ≡ record {
        scene = v.scene;
        heap = modify i (λ sub. record sub { queue = ms }) v.heap;
        client = receive v.client m;
      }
      → Step i v w

-- The subscribers are distinct references of the heap, the client is among them, and its queue
-- brings it to the scene's state.
pub record Follows (i : ℕ) (v : View) : Type 0 where
  pub distinct : Distinct v.scene.subscribers
  pub allocated : Below v.heap.next v.scene.subscribers
  pub member : contains i v.scene.subscribers ≡ true
  pub synced : Synced v.scene.store.state v.client (v.heap.at i)

pub emitted-Follows :
    (i : ℕ) (e : Emission) (v : View)
    → Follows i v
    → Follows i (record {
      scene = after_emit e v.scene;
      heap = heap_after e v.scene v.heap;
      client = v.client;
    })
unfolding after_emit heap_after snapshot_of
emitted-Follows i e v f = record {
  distinct = f.distinct;
  allocated = rw next-modify_all f.allocated;
  member = f.member;
  synced = rw (at-modify_all_member v.scene.subscribers _ v.heap i f.distinct f.member) (
      send_delta-Synced v.scene.store.state v.client (to_delta (record_of e v.scene))
        (snapshot_of (after_emit e v.scene)) (v.heap.at i)
        (sym (write_patches-map v.scene.store.state (patches_of e))) f.synced);
}

seeded-Follows :
    (i : ℕ) (p : String × Json) (ps : Dict Json) (v : View)
    → Follows i v
    → Follows i (record {
      scene = after_set (p ∷ ps) v.scene;
      heap = refresh_all (after_set (p ∷ ps) v.scene) v.heap;
      client = v.client;
    })
unfolding after_set refresh_all snapshot_of
seeded-Follows i p ps v f = record {
  distinct = f.distinct;
  allocated = rw next-modify_all f.allocated;
  member = f.member;
  synced =
      rw (at-modify_all_member v.scene.subscribers _ v.heap i f.distinct f.member)
        (send_or_drop-Synced v.client (snapshot_of (after_set (p ∷ ps) v.scene)) (v.heap.at i));
}

joined-Follows :
    (i : ℕ) (live : Bool) (v : View)
    → Follows i v
    → Follows i (record {
      scene = record v.scene { subscribers = add (alloc live v.heap).0 v.scene.subscribers };
      heap = (alloc live v.heap).1;
      client = v.client;
    })
unfolding alloc
joined-Follows i live v f =
    let n = v.heap.next in
    record {
      distinct = add-Distinct n v.scene.subscribers f.distinct;
      allocated =
          Below-add (n + 1) n v.scene.subscribers (Below-suc n v.scene.subscribers f.allocated)
            (omega arith);
      member = ground (arith, contains-add i n v.scene.subscribers, f.member);
      synced = ground (arith, contains-lt i n v.scene.subscribers f.allocated f.member, f.synced);
    }

left-Follows :
    (i j : ℕ) (v : View)
    → j ≢ i
    → Follows i v
    → Follows i (record {
      scene = (unsubscribe j v.scene v.heap).0;
      heap = (unsubscribe j v.scene v.heap).1;
      client = v.client;
    })
unfolding unsubscribe
left-Follows i j v ne f = record {
  distinct = keep-Distinct _ v.scene.subscribers f.distinct;
  allocated = Below-keep v.heap.next _ v.scene.subscribers f.allocated;
  member = ground (arith, contains-keep (λ k. not (j == k)) i v.scene.subscribers, f.member);
  synced = ground (arith, f.synced);
}

received-Follows :
    (i : ℕ) (m : Message) (ms : List Message) (v : View)
    → (v.heap.at i).queue ≡ m ∷ ms
    → Follows i v
    → Follows i (record {
      scene = v.scene;
      heap = modify i (λ sub. record sub { queue = ms }) v.heap;
      client = receive v.client m;
    })
unfolding modify
received-Follows i m ms v q f = record {
  distinct = f.distinct;
  allocated = f.allocated;
  member = f.member;
  synced =
      ground (arith, received-Synced v.scene.store.state v.client m ms (v.heap.at i) q f.synced);
}

Step-Follows : (i : ℕ) {v w : View} → Step i v w → Follows i v → Follows i w
Step-Follows i {v} (emitted p c s h e q) f =
    let (em, _, es, eh) = emit_inv p c v.scene s v.heap h e in
    rw (q, es, eh) (emitted-Follows i em v f)
Step-Follows i {v} (seeded [] s h e q) f = absurd (no_set v.scene v.heap (s, h) e)
Step-Follows i {v} (seeded (p ∷ ps) s h e q) f =
    let t = set-after_set p ps v.scene v.heap in
    let es : s ≡ after_set (p ∷ ps) v.scene = cc (t, e) in
    let eh : h ≡ refresh_all (after_set (p ∷ ps) v.scene) v.heap = cc (t, e) in
    rw (q, es, eh) (seeded-Follows i p ps v f)
Step-Follows i {v} (joined live n q) f =
    rw q (unfold subscribe_with_resume in joined-Follows i live v f)
Step-Follows i {v} (left j ne q) f = rw q (left-Follows i j v ne f)
Step-Follows i {v} (received m ms q e) f = rw e (received-Follows i m ms v q f)

-- any number of steps
pub data Reach (i : ℕ) (v : View) : View → Type 0 where
  here : Reach i v v
  next : {u w : View} → Reach i v u → Step i u w → Reach i v w

pub Reach-Follows : (i : ℕ) {v w : View} → Follows i v → Reach i v w → Follows i w
Reach-Follows i f here = f
Reach-Follows i f (next r st) = Step-Follows i st (Reach-Follows i f r)

-- a client that has just subscribed, with the state that its answer gives it
abbrev pub subscribed : Bool → Scene → Heap → View
subscribed live s h =
    let (got, (s', h')) = subscribe live s h in
    record { scene = s'; heap = h'; client = client_after [] got }

subscribed-Follows :
    (live : Bool) (s : Scene) (h : Heap)
    → Distinct s.subscribers
    → Below h.next s.subscribers
    → Follows h.next (subscribed live s h)
unfolding subscribe receive_all
subscribed-Follows live s h d b = record {
  distinct = add-Distinct h.next s.subscribers d;
  allocated =
      Below-add (h.next + 1) h.next s.subscribers (Below-suc h.next s.subscribers b) (omega arith);
  member = ground (arith, contains-add h.next h.next s.subscribers);
  synced = ground arith;
}

-- After a client has subscribed, and whatever is emitted, seeded, joined, left and read in any
-- order: once it has read its queue to the end, and if its subscription was not marked stale, the
-- client's state is the scene's state.
pub subscriber_converges :
    (live : Bool) (s : Scene) (h : Heap) {w : View}
    → Distinct s.subscribers
    → Below h.next s.subscribers
    → Reach h.next (subscribed live s h) w
    → (w.heap.at h.next).queue ≡ []
    → (w.heap.at h.next).stale ≡ false
    → w.client ≡ w.scene.store.state
subscriber_converges live s h {w} d b r empty kept =
    let f = Reach-Follows h.next (subscribed-Follows live s h d b) r in
    received_all w.client w.scene.store.state (w.heap.at h.next) empty kept f.synced
