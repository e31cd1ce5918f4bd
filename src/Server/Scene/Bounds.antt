-- ===== src/Server/Scene/Bounds.antt =====
-- How far the memory of a scene can grow: the queues of the subscriptions and the replay buffer.
pub mod Operations
use lumencast_py.Prelude.{
  ℕ, ◌+◌, ◌≤◌, ◌≡◌, refl, Bool, true, false, Option, none, some, List, [], ◌∷◌, ◌++◌, length,
  length-append, ltb, ◌==◌, arith, inl, inr, Bool-cases, if◌then◌else◌,
}
use lumencast_py.Prelude.Dict.{Dict}
use lumencast_py.Json.{ℤ, Json}
use lumencast_py.Protocol.Frames.{Cause}
use lumencast_py.Server.ReplayBuffer
use lumencast_py.Server.ReplayBuffer.{ReplayBuffer, ReplayRecord}
use lumencast_py.Server.Store
use lumencast_py.Server.Subscription.{
  Subscription, Heap, Message, queue_size, send_or_drop, send_delta, close, wake, drop_oldest,
  sentinel, modify, modify_all, alloc, fresh,
}
use lumencast_py.Json.{Result, ok, raise}
use lumencast_py.Json.Builtins.{Builtins}
use lumencast_py.Protocol.Frames.{Patch}
use lumencast_py.Prelude.{String, sym, ◌∙◌}
use lumencast_py.Server.Store.{Store}
use mathlib.Core.Path.{subst}
use lumencast_py.Server.Scene.ApplyInput.{as_dict}
use lumencast_py.Server.Scene.ApplyInput.Admission.{apply_input_atomic, apply_input_admits}
use lumencast_py.Server.Scene.Resume.{after_set, set-after_set, no_set}
use lumencast_py.Server.Auth.{Identity}
use lumencast_py.Server.Input.{InputSpec}
use lumencast_py.Server.Scene.ApplyInput.{Rejection, apply_input}
use lumencast_py.Server.Scene.{
  init, set_version, declare_inputs, Scene, set, emit, reset, subscribe, subscribe_with_resume,
  unsubscribe, migrate_subscribers_from, migrate_live, move, live_of, publish, refresh_all,
}

-- The queue is not longer than its size.
abbrev pub Fits : Subscription → Type 0
Fits sub = length sub.queue ≤ queue_size

length-drop_oldest : (q : List Message) → 1 ≤ length q → length (drop_oldest q) + 1 ≡ length q
length-drop_oldest [] h = omega arith
length-drop_oldest (m ∷ ms) h = omega arith

pub close-Fits : (sub : Subscription) → Fits sub → Fits (close sub)
unfolding close wake
close-Fits sub h = ground (
  arith,
  length-append sub.queue (sentinel ∷ []),
  length-append (drop_oldest sub.queue) (sentinel ∷ []),
  length-drop_oldest sub.queue,
)

pub send_or_drop-Fits : (m : Message) (sub : Subscription) → Fits sub → Fits (send_or_drop m sub)
unfolding send_or_drop
send_or_drop-Fits m sub h = ground (arith, length-append sub.queue (m ∷ []))

pub send_delta-Fits :
    (d : _) (snap : _) (sub : Subscription) → Fits sub → Fits (send_delta d snap sub)
unfolding send_delta
send_delta-Fits d snap sub h = ground (
  arith,
  length-append sub.queue (Message.delta d ∷ []),
  send_or_drop-Fits (Message.snapshot snap) sub h,
)

-- Every queue of the heap fits.
abbrev pub AllFit : Heap → Type 0
AllFit h = (i : ℕ) → Fits (h.at i)

pub modify-AllFit :
    (i : ℕ) (f : Subscription → Subscription) (h : Heap)
    → ((sub : Subscription) → Fits sub → Fits (f sub))
    → AllFit h
    → AllFit (modify i f h)
unfolding modify
modify-AllFit i f h keeps a j = elim (Bool-cases (i == j)) [
  | inl same ↦ rw same (keeps (h.at j) (a j))
  | inr other ↦ rw other (a j)
]

pub modify_all-AllFit :
    (l : List ℕ) (f : Subscription → Subscription) (h : Heap)
    → ((sub : Subscription) → Fits sub → Fits (f sub))
    → AllFit h
    → AllFit (modify_all l f h)
unfolding modify_all
modify_all-AllFit [] f h keeps a = a
modify_all-AllFit (i ∷ l) f h keeps a =
    modify_all-AllFit l f (modify i f h) keeps (modify-AllFit i f h keeps a)

pub alloc-AllFit : (live : Bool) (h : Heap) → AllFit h → AllFit (alloc live h).1
unfolding alloc
alloc-AllFit live h a j = elim (Bool-cases (h.next == j)) [
  | inl new ↦ rw new (omega arith)
  | inr old ↦ rw old (a j)
]

-- The buffer holds at most its capacity.
abbrev pub Within : ReplayBuffer → Type 0
Within b = length b.records ≤ b.maxlen

length-popleft :
    (rs : List ReplayRecord) → 1 ≤ length rs → length (ReplayBuffer.popleft rs) + 1 ≡ length rs
length-popleft [] h = omega arith
length-popleft (r ∷ rs) h = omega arith

pub push-Within : (r : ReplayRecord) (b : ReplayBuffer) → Within b → Within (ReplayBuffer.push r b)
unfolding ReplayBuffer.push
push-Within r b h =
    ground (arith, length-append b.records (r ∷ []), length-popleft (b.records ++ r ∷ []))

-- The buffer of a scene has the default capacity and holds at most that much.
pub record IsBounded (s : Scene) : Type 0 where
  pub capacity : s.replay.maxlen ≡ ReplayBuffer.default_replay_buffer_size
  pub held : Within s.replay

pub init-IsBounded :
    (id version : String) (specs : List InputSpec) → IsBounded (init id version specs)
unfolding init ReplayBuffer.init
init-IsBounded id version specs = record { capacity = refl; held = omega arith }
