-- ===== src/Server/Scene/Resume.antt =====
-- Resuming from a number that the client has seen (`subscribe_with_resume`).
pub mod Seeding
use lumencast_py.Prelude.{
  ℕ, String, ◌+◌, ◌≤◌, ◌≡◌, ◌≢◌, refl, ap, ◌∙◌, Bool, Option, none, some, List, [], ◌∷◌, ◌++◌, map,
  arith, inl, inr,
}
use lumencast_py.Prelude.Dict.{Dict, put, update}
use lumencast_py.Json.{pos, Json}
use lumencast_py.Protocol.Frames.{Patch, Cause}
use lumencast_py.Server.Store
use lumencast_py.Server.Store.{Store, apply-cons}
use lumencast_py.Server.ReplayBuffer
use lumencast_py.Server.ReplayBuffer.{ReplayRecord, ReplayBuffer, popleft}
use lumencast_py.Server.ReplayBuffer.Window.{Ends, after, push-Covers, after_last, since_cases}
use lumencast_py.Server.Subscription.{Heap, alloc, modify_all, send_delta}
use lumencast_py.Server.Scene.{
  Scene, Subscribed, to_patch, add, emit, set, refresh_all, to_delta, resume, subscribe_with_resume,
  snapshot_of,
}

-- What a client does with patches and records: it writes them in order.
unfoldable pub write_patches : Dict Json → List Patch → Dict Json
write_patches st [] = st
write_patches st (p ∷ ps) = write_patches (put p.path p.value st) ps

unfoldable pub replay : Dict Json → List ReplayRecord → Dict Json
replay st [] = st
replay st (r ∷ rs) = replay (write_patches st r.patches) rs

pub write_patches-map : (st d : Dict Json) → write_patches st (map to_patch d) ≡ update st d
unfolding write_patches update
write_patches-map st [] = refl
write_patches-map st ((k, v) ∷ d) = write_patches-map (put k v st) d

replay-append :
    (st : Dict Json) (rs : List ReplayRecord) (r : ReplayRecord)
    → replay st (rs ++ r ∷ []) ≡ write_patches (replay st rs) r.patches
unfolding replay
replay-append st [] r = refl
replay-append st (q ∷ rs) r = replay-append (write_patches st q.patches) rs r

-- The state of a client that gets the answer to its subscription: the snapshot's, or its own with
-- the records written.
abbrev pub client_after : Dict Json → Subscribed → Dict Json
client_after st got = elim got.snap [ some snap ↦ snap.state | none ↦ replay st got.records ]

-- one call of `emit`, its patches not empty
pub record Emission : Type 0 where
  pub path : String
  pub value : Json
  pub more : Dict Json
  pub cause : Option Cause

abbrev pub patches_of : Emission → Dict Json
patches_of e = (e.path, e.value) ∷ e.more

-- the record of an emission in the buffer
abbrev pub record_of : Emission → Scene → ReplayRecord
record_of e s = record {
  seq = s.seq.cur + 1;
  patches = map to_patch (patches_of e);
  cause = e.cause;
}

-- What an emission leaves of the scene, and of the heap.
unfoldable pub after_emit : Emission → Scene → Scene
after_emit e s = record s {
  store = record { state = update s.store.state (patches_of e) };
  seq = record { cur = s.seq.cur + 1 };
  replay = ReplayBuffer.push (record_of e s) s.replay;
}

unfoldable pub heap_after : Emission → Scene → Heap → Heap
heap_after e s h =
    modify_all s.subscribers (send_delta (to_delta (record_of e s)) (snapshot_of (after_emit e s)))
      h

-- An emission whose patches are not empty never fails.
pub emit-after_emit :
    (e : Emission) (s : Scene) (h : Heap)
    → emit (patches_of e) e.cause s h ≡ some (after_emit e s, heap_after e s h)
unfolding emit after_emit heap_after
emit-after_emit e s h = rw (apply-cons (e.path, e.value) e.more s.store, emit) refl

pub no_emit :
    (cause : Option Cause) (s : Scene) (h : Heap) (r : Scene × Heap) → emit [] cause s h ≢ some r
unfolding emit Store.apply
no_emit cause s h r e = cc

-- An emission that succeeds is one of these.
pub emit_inv :
    (patches : Dict Json) (cause : Option Cause) (s s' : Scene) (h h' : Heap)
    → emit patches cause s h ≡ some (s', h')
    → (e : Emission) × (patches_of e ≡ patches) × (s' ≡ after_emit e s) × (h' ≡ heap_after e s h)
emit_inv [] cause s s' h h' e = absurd (no_emit cause s h (s', h') e)
emit_inv ((k, v) ∷ d) cause s s' h h' e =
    let em : Emission = record { path = k; value = v; more = d; cause = cause } in
    (em, refl, cc (emit-after_emit em s h), cc (emit-after_emit em s h))

-- What seeding leaves of the scene.
unfoldable pub after_set : Dict Json → Scene → Scene
after_set patches s = record s { store = record { state = update s.store.state patches } }

pub no_set : (s : Scene) (h : Heap) (r : Scene × Heap) → set [] s h ≢ some r
unfolding set Store.apply
no_set s h r e = cc

pub set-after_set :
    (p : String × Json) (ps : Dict Json) (s : Scene) (h : Heap)
    → set (p ∷ ps) s h ≡ some (after_set (p ∷ ps) s, refresh_all (after_set (p ∷ ps) s) h)
unfolding set after_set
set-after_set p ps s h = rw (apply-cons p ps s.store, set) refl

-- `emit` for each of the emissions in turn
unfoldable pub emit_all : List Emission → Scene → Heap → Option (Scene × Heap)
emit_all [] s h = some (s, h)
emit_all (e ∷ es) s h = elim (emit (patches_of e) e.cause s h) [
  | none ↦ none
  | some (s', h') ↦ emit_all es s' h'
]

-- A scene whose buffer can bring a client that saw the state `st` at number `n` to the current
-- state, unless the window has passed `n`. The buffer is empty only while nothing was emitted.
pub record Resumable (n : ℕ) (st : Dict Json) (s : Scene) : Type 0 where
  pub start : ℕ
  pub room : 1 ≤ s.replay.maxlen
  pub window : Ends start s.replay.records s.seq.cur
  pub seen : n ≤ s.seq.cur
  pub fresh : s.replay.records ≡ [] → n ≡ s.seq.cur
  pub brings : start ≤ n → replay st (after n s.replay.records) ≡ s.store.state

after_emit-Resumable :
    (n : ℕ) (st : Dict Json) (e : Emission) (s : Scene)
    → Resumable n st s
    → Resumable n st (after_emit e s)
unfolding after_emit ReplayBuffer.push
after_emit-Resumable n st e s r =
    let c = push-Covers n r.start s.seq.cur s.replay (record_of e s) r.room r.seen refl r.window in
    record {
      start = c.start;
      room = r.room;
      window = c.window;
      seen = omega arith;
      fresh = λ h. absurd (c.filled h);
      brings = λ h.
          ap (replay st) (c.grown h)
          ∙ replay-append st (after n s.replay.records) (record_of e s)
          ∙ ap (λ t. write_patches t (map to_patch (patches_of e))) (r.brings (c.older h))
          ∙ write_patches-map s.store.state (patches_of e);
    }

emit_all-Resumable :
    (n : ℕ) (st : Dict Json) (es : List Emission) (s : Scene) (h : Heap)
    → Resumable n st s
    → (s' : Scene) × (h' : Heap) × (emit_all es s h ≡ some (s', h')) × Resumable n st s'
unfolding emit_all
emit_all-Resumable n st [] s h r = (s, h, refl, r)
emit_all-Resumable n st (e ∷ es) s h r =
    rw (emit-after_emit e s h, emit_all)
      (emit_all-Resumable n st es (after_emit e s) (heap_after e s h)
        (after_emit-Resumable n st e s r))

-- a scene is resumable at its own number and state
Resumable-now :
    (s : Scene) (b : ℕ)
    → 1 ≤ s.replay.maxlen
    → Ends b s.replay.records s.seq.cur
    → Resumable s.seq.cur s.store.state s
unfolding replay
Resumable-now s b room w = record {
  start = b;
  room = room;
  window = w;
  seen = omega arith;
  fresh = λ h. refl;
  brings = λ h. ap (replay s.store.state) (after_last b s.replay.records s.seq.cur w);
}

-- What a client that saw number `n` gets from a resumable scene.
resume-Resumable :
    (n i : ℕ) (st : Dict Json) (s : Scene)
    → 1 ≤ n
    → Resumable n st s
    → client_after st (resume s i (some (pos n))) ≡ s.store.state
unfolding resume
resume-Resumable n i st s one r = elim (since_cases n r.start s.seq.cur s.replay r.window r.fresh) [
  | inl (fits, e) ↦ ground (arith, r.brings fits, e)
  | inr e ↦ ground (arith, e)
]

-- the set of subscribers plays no part
with_subscribers :
    (n : ℕ) (st : Dict Json) (s : Scene) (l : List ℕ)
    → Resumable n st s
    → Resumable n st (record s { subscribers = l })
with_subscribers n st s l r = record {
  start = r.start;
  room = r.room;
  window = r.window;
  seen = r.seen;
  fresh = r.fresh;
  brings = r.brings;
}

subscribe_with_resume-Resumable :
    (n : ℕ) (live : Bool) (st : Dict Json) (s : Scene) (h : Heap)
    → 1 ≤ n
    → Resumable n st s
    → client_after st (subscribe_with_resume live (some (pos n)) s h).0 ≡ s.store.state
unfolding subscribe_with_resume
subscribe_with_resume-Resumable n live st s h one r =
    let l = add (alloc live h).0 s.subscribers in
    resume-Resumable n (alloc live h).0 st (record s { subscribers = l }) one
      (with_subscribers n st s l r)

-- Whatever is emitted after a client has seen the state of a scene at its number, a client that
-- subscribes again from that number ends with the scene's current state, from the records or, where
-- the buffer no longer reaches back, from the snapshot. None of the emissions fails.
pub resume_converges :
    (s : Scene) (h : Heap) (b : ℕ) (es : List Emission) (live : Bool)
    → 1 ≤ s.seq.cur
    → 1 ≤ s.replay.maxlen
    → Ends b s.replay.records s.seq.cur
    → (s' : Scene) × (h' : Heap) × (emit_all es s h ≡ some (s', h'))
      × (client_after s.store.state (subscribe_with_resume live (some (pos s.seq.cur)) s' h').0
          ≡ s'.store.state)
resume_converges s h b es live one room w =
    let (s', h', run, r) =
      emit_all-Resumable s.seq.cur s.store.state es s h (Resumable-now s b room w) in
    (s', h', run, subscribe_with_resume-Resumable s.seq.cur live s.store.state s' h' one r)
