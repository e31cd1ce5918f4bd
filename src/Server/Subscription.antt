-- ===== src/Server/Subscription.antt =====
-- server/scene.py: `Subscription`, a bounded queue of outgoing frames with its marks, and the heap
-- of subscriptions, which scenes and sessions share by reference.
use lumencast_py.Prelude.{
  ℕ, ◌+◌, Bool, true, false, List, [], ◌∷◌, ◌++◌, length, ltb, ◌==◌, if◌then◌else◌,
}
use lumencast_py.Protocol.Frames.{Snapshot, Delta, SceneChanged}

-- What the queue carries; `sentinel` is the None that wakes the writer.
pub data Message : Type 0 where
  snapshot : Snapshot → Message
  delta : Delta → Message
  scene_changed : SceneChanged → Message
  sentinel : Message

abbrev pub queue_size : ℕ
queue_size = 256

pub record Subscription : Type 0 where
  pub queue : List Message
  pub live : Bool
  pub closed : Bool
  pub stale : Bool

abbrev pub fresh : Bool → Subscription
fresh live = record { queue = []; live = live; closed = false; stale = false }

-- `queue.full()` is the QueueFull of `put_nowait`
unfoldable pub has_room : Subscription → Bool
has_room sub = ltb (length sub.queue) queue_size

unfoldable pub put_nowait : Message → Subscription → Subscription
put_nowait msg sub = record sub { queue = sub.queue ++ msg ∷ [] }

abbrev pub drop_oldest : List Message → List Message
drop_oldest [] = []
drop_oldest (m ∷ ms) = ms

-- the sentinel, where the oldest frame gives way if the queue is full
unfoldable pub wake : Subscription → List Message
unfolding has_room
wake sub =
    if has_room sub then sub.queue ++ sentinel ∷ [] else drop_oldest sub.queue ++ sentinel ∷ []

unfoldable pub close : Subscription → Subscription
unfolding wake
close sub = if sub.closed then sub else record sub { closed = true; queue = wake sub }

-- `_send_or_drop`
unfoldable pub send_or_drop : Message → Subscription → Subscription
unfolding has_room put_nowait
send_or_drop msg sub = if has_room sub then put_nowait msg sub else record sub { stale = true }

-- `_send_delta`: where the delta does not fit, a snapshot is tried in its place
unfoldable pub send_delta : Delta → Snapshot → Subscription → Subscription
unfolding has_room put_nowait send_or_drop
send_delta d snap sub =
    if has_room sub then put_nowait (delta d) sub else send_or_drop (snapshot snap) sub

-- The heap: subscriptions by reference, and the next reference to give out.
pub record Heap : Type 0 where
  pub next : ℕ
  pub at : ℕ → Subscription

unfoldable pub modify : ℕ → (Subscription → Subscription) → Heap → Heap
modify i f h = record h { at = λ j. if i == j then f (h.at j) else h.at j }

unfoldable pub alloc : Bool → Heap → ℕ × Heap
alloc live h =
    (h.next, record { next = h.next + 1; at = λ j. if h.next == j then fresh live else h.at j })

-- `for sub in subscribers: f(sub)`
unfoldable pub modify_all : List ℕ → (Subscription → Subscription) → Heap → Heap
unfolding modify
modify_all [] f h = h
modify_all (i ∷ is) f h = modify_all is f (modify i f h)
