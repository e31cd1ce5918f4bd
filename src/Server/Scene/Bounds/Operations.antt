-- ===== src/Server/Scene/Bounds/Operations.antt =====
-- The operations on a scene keep its queues and its buffer within their bounds.
use lumencast_py.Prelude.{ℕ, ◌≤◌, ◌≡◌, refl, Bool, Option, none, some, List, [], ◌∷◌, length, arith}
use lumencast_py.Prelude.Dict.{Dict}
use lumencast_py.Json.{ℤ, Json}
use lumencast_py.Protocol.Frames.{Cause}
use lumencast_py.Server.ReplayBuffer
use lumencast_py.Server.ReplayBuffer.{ReplayBuffer, ReplayRecord}
use lumencast_py.Server.Store
use lumencast_py.Server.Subscription.{
  Subscription, Heap, Message, queue_size, close, drop_oldest, modify,
}
use lumencast_py.Json.{Result, ok, raise}
use lumencast_py.Json.Builtins.{Builtins}
use lumencast_py.Protocol.Frames.{Patch}
use lumencast_py.Prelude.{String, sym, ◌∙◌}
use lumencast_py.Server.Store.{Store}
use mathlib.Core.Path.{subst}
use lumencast_py.Server.Scene.ApplyInput.{as_dict}
use lumencast_py.Server.Scene.ApplyInput.Admission.{apply_input_atomic, apply_input_admits}
use lumencast_py.Server.Scene.Resume.{after_set, set-after_set, no_set}
use lumencast_py.Server.Auth.{Identity}
use lumencast_py.Server.Input.{InputSpec}
use lumencast_py.Server.Scene.ApplyInput.{Rejection, apply_input}
use lumencast_py.Server.Scene.{
  set_version, declare_inputs, Scene, set, emit, reset, subscribe_with_resume, unsubscribe,
  migrate_subscribers_from, migrate_live, move, live_of, publish, refresh_all,
}
use lumencast_py.Server.Scene.Bounds.{
  alloc-AllFit, close-Fits, modify-AllFit, modify_all-AllFit, push-Within, send_delta-Fits,
  send_or_drop-Fits, Fits, AllFit, IsBounded,
}

-- What the adapters, the clients and their sessions do to one scene.
pub data Operation : Type 0 where
  emitted : Dict Json → Option Cause → Operation
  seeded : Dict Json → Operation
  given : Identity → List Patch → Option Cause → Operation
  emptied : Operation
  joined : Bool → Option ℤ → Operation
  left : ℕ → Operation
  received : ℕ → Operation
  versioned : String → Operation
  declared : List InputSpec → Operation

abbrev pub or_kept : Option (Scene × Heap) → Scene × Heap → Scene × Heap
or_kept none v = v
or_kept (some v') v = v'

abbrev pub or_left : Result (Option Rejection × (Scene × Heap)) → Scene × Heap → Scene × Heap
or_left (raise e) v = v
or_left (ok (r, v')) v = v'

-- the writer takes the first frame of the queue
abbrev pub take_first : Subscription → Subscription
take_first sub = record sub { queue = drop_oldest sub.queue }

module _ (py : Builtins) where
  abbrev pub perform : Operation → Scene × Heap → Scene × Heap
  perform (emitted patches cause) (s, h) = or_kept (emit patches cause s h) (s, h)
  perform (seeded patches) (s, h) = or_kept (set patches s h) (s, h)
  perform (given who patches cause) (s, h) = or_left (apply_input py who patches cause s h) (s, h)
  perform emptied (s, h) = reset s h
  perform (joined live since_sequence) (s, h) = (subscribe_with_resume live since_sequence s h).1
  perform (left i) (s, h) = unsubscribe i s h
  perform (received i) (s, h) = (s, modify i take_first h)
  perform (versioned v) (s, h) = (set_version v s, h)
  perform (declared specs) (s, h) = (declare_inputs specs s, h)

abbrev pub Both : Scene × Heap → Type 0
Both (s, h) = IsBounded s × AllFit h

some_inj : {v w : Scene × Heap} → some v ≡ some w → v ≡ w
some_inj h = cc

publish-Both :
    (applied : List (String × Json)) (cause : Option Cause) (s : Scene) (h : Heap)
    → Both (s, h)
    → Both (publish applied cause s h)
unfolding publish
publish-Both applied cause s h (b, a) = (
  record {
    capacity = unfold ReplayBuffer.push in b.capacity;
    held = push-Within _ s.replay b.held;
  },
  modify_all-AllFit s.subscribers _ h (λ sub. send_delta-Fits _ _ sub) a,
)

or_kept-Both :
    (o : Option (Scene × Heap)) (v : Scene × Heap)
    → ((v' : Scene × Heap) → o ≡ some v' → Both v')
    → Both v
    → Both (or_kept o v)
or_kept-Both none v keeps b = b
or_kept-Both (some v') v keeps b = keeps v' refl

emit-Both :
    (patches : Dict Json) (cause : Option Cause) (s : Scene) (h : Heap) (v : Scene × Heap)
    → emit patches cause s h ≡ some v
    → Both (s, h)
    → Both v
unfolding emit
emit-Both patches cause s h v e b = by_store (Store.apply patches s.store) e
  where
    by_store :
        (o : Option (List (String × Json) × Store))
        → (elim o [
          | none ↦ none
          | some (applied, store) ↦ some (publish applied cause (record s { store = store }) h)
        ])
          ≡ some v
        → Both v
    by_store none e = absurd cc
    by_store (some (applied, store)) e = subst Both (some_inj e) (
        publish-Both applied cause (record s { store = store }) h
          (record { capacity = b.0.capacity; held = b.0.held }, b.1))

set-Both :
    (patches : Dict Json) (s : Scene) (h : Heap) (v : Scene × Heap)
    → set patches s h ≡ some v
    → Both (s, h)
    → Both v
set-Both [] s h v e b = absurd (no_set s h v e)
set-Both (p ∷ ps) s h v e b = subst Both (some_inj (sym (set-after_set p ps s h) ∙ e)) (
    unfold after_set refresh_all in
    (
      record { capacity = b.0.capacity; held = b.0.held },
      modify_all-AllFit s.subscribers _ h (λ sub. send_or_drop-Fits _ sub) b.1,
    ))

subscribe_with_resume-Both :
    (live : Bool) (since_sequence : Option ℤ) (s : Scene) (h : Heap)
    → Both (s, h)
    → Both (subscribe_with_resume live since_sequence s h).1
unfolding subscribe_with_resume
subscribe_with_resume-Both live since_sequence s h (b, a) =
    (record { capacity = b.capacity; held = b.held }, alloc-AllFit live h a)

take_first-Fits : (sub : Subscription) → Fits sub → Fits (take_first sub)
take_first-Fits sub h = by_queue sub.queue h
  where
    by_queue : (q : List Message) → length q ≤ queue_size → length (drop_oldest q) ≤ queue_size
    by_queue [] h = h
    by_queue (m ∷ ms) h = omega arith

pub reset-Both : (s : Scene) (h : Heap) → Both (s, h) → Both (reset s h)
unfolding reset
reset-Both s h (b, a) = (
  record { capacity = b.capacity; held = b.held },
  modify_all-AllFit s.subscribers close h close-Fits a,
)

pub unsubscribe-Both : (i : ℕ) (s : Scene) (h : Heap) → Both (s, h) → Both (unsubscribe i s h)
unfolding unsubscribe
unsubscribe-Both i s h (b, a) =
    (record { capacity = b.capacity; held = b.held }, modify-AllFit i close h close-Fits a)

module _ (py : Builtins) where
  apply_input-Both :
      (who : Identity) (patches : List Patch) (cause : Option Cause) (s : Scene) (h : Heap)
      (r : Result (Option Rejection × (Scene × Heap)))
      → apply_input py who patches cause s h ≡ r
      → Both (s, h)
      → Both (or_left r (s, h))
  apply_input-Both who patches cause s h (raise x) e b = b
  apply_input-Both who patches cause s h (ok (some r, (s', h'))) e b =
      let (kept, same) = apply_input_atomic py who patches cause s s' h h' r e in rw (kept, same) b
  apply_input-Both who patches cause s h (ok (none, v)) e b =
      let (_, _, sent) = apply_input_admits py who patches cause s h v e in
      emit-Both (as_dict patches []) cause s h v sent b

  pub perform-Both : (o : Operation) (v : Scene × Heap) → Both v → Both (perform py o v)
  perform-Both (emitted patches cause) (s, h) b =
      or_kept-Both (emit patches cause s h) (s, h) (λ v' e. emit-Both patches cause s h v' e b) b
  perform-Both (seeded patches) (s, h) b =
      or_kept-Both (set patches s h) (s, h) (λ v' e. set-Both patches s h v' e b) b
  perform-Both (given who patches cause) (s, h) b = apply_input-Both who patches cause s h _ refl b
  perform-Both emptied (s, h) b = reset-Both s h b
  perform-Both (joined live since_sequence) (s, h) b =
      subscribe_with_resume-Both live since_sequence s h b
  perform-Both (left i) (s, h) b = unsubscribe-Both i s h b
  perform-Both (received i) (s, h) b = (b.0, modify-AllFit i take_first h take_first-Fits b.1)
  perform-Both (versioned v) (s, h) b =
      unfold set_version in (record { capacity = b.0.capacity; held = b.0.held }, b.1)
  perform-Both (declared specs) (s, h) b =
      unfold declare_inputs in (record { capacity = b.0.capacity; held = b.0.held }, b.1)

-- what a migration leaves of both scenes and the heap
migrate_live-Both :
    (l : List ℕ) (next prev : Scene) (h : Heap)
    → IsBounded next
    → IsBounded prev
    → AllFit h
    → (let m = migrate_live l next prev h in IsBounded m.next × IsBounded m.prev × AllFit m.heap)
unfolding migrate_live move
migrate_live-Both [] next prev h n p a = (n, p, a)
migrate_live-Both (i ∷ is) next prev h n p a = (
  record { capacity = n.capacity; held = n.held },
  record { capacity = p.capacity; held = p.held },
  modify_all-AllFit (i ∷ is) _ h (λ sub f. send_or_drop-Fits _ _ (send_or_drop-Fits _ sub f)) a,
)

pub migrate_subscribers_from-Both :
    (next prev : Scene) (h : Heap)
    → IsBounded next
    → IsBounded prev
    → AllFit h
    → (let m = migrate_subscribers_from next prev h in
        IsBounded m.next × IsBounded m.prev × AllFit m.heap)
unfolding migrate_subscribers_from
migrate_subscribers_from-Both next prev h n p a =
    migrate_live-Both (live_of h prev.subscribers) next _ h n
      (record { capacity = p.capacity; held = p.held }) a
