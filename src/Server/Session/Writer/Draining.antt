-- ===== src/Server/Session/Writer/Draining.antt =====
-- The writer's turns over a queue that holds a sentinel.
use lumencast_py.Prelude.{
  ℕ, zero, suc, ◌≤◌, ◌≡◌, ◌≢◌, refl, true, false, Option, none, some, List, [], ◌∷◌, ◌++◌, length,
  All, if◌then◌else◌, arith, inl, inr, Bool-cases,
}
use lumencast_py.Prelude.{sym, ◌∙◌, Option-cases}
use mathlib.Core.List.{append-nil, append_assoc}
use lumencast_py.Json.Builtins.{Builtins}
use lumencast_py.Protocol.Envelope.{JsonText}
use lumencast_py.Protocol.Frames.{ServerFrame}
use lumencast_py.Server.Auth.{Identity}
use lumencast_py.Server.Subscription.{
  Subscription, Message, sentinel, has_room, drop_oldest, wake, close, modify, queue_size,
}
use lumencast_py.Server.Session.{Texts, Out, send, push_out}
use lumencast_py.Server.Session.Writer.{Connection, Event, got, frame_of, turn, turns, writer_turn}

abbrev pub IsFrame : Message → Type 0
IsFrame m = frame_of m ≢ none

-- what is sent for a list of messages
abbrev pub add_wire : Option ServerFrame → List Out → List Out
add_wire none os = os
add_wire (some f) os = send f ∷ os

unfoldable pub wires : List Message → List Out
wires [] = []
wires (m ∷ ms) = add_wire (frame_of m) (wires ms)

-- the queue that `close` leaves before its sentinel
abbrev pub kept_frames : Subscription → List Message
kept_frames s = if has_room s then s.queue else drop_oldest s.queue

pub kept-All : (s : Subscription) → All IsFrame s.queue → All IsFrame (kept_frames s)
kept-All s a = elim (Bool-cases (has_room s)) [
  | inl room ↦ rw (room, kept_frames) a
  | inr full ↦ rw (full, kept_frames) (dropped-All s.queue a)
]
  where
    dropped-All : (q : List Message) → All IsFrame q → All IsFrame (drop_oldest q)
    dropped-All [] a = a
    dropped-All (m ∷ ms) a = a.1

pub kept-le : (s : Subscription) → length s.queue ≤ queue_size → length (kept_frames s) ≤ queue_size
kept-le s h = elim (Bool-cases (has_room s)) [
  | inl room ↦ rw (room, kept_frames) h
  | inr full ↦ rw (full, kept_frames) (dropped-le s.queue h)
]
  where
    dropped-le : (q : List Message) → length q ≤ queue_size → length (drop_oldest q) ≤ queue_size
    dropped-le [] h = h
    dropped-le (m ∷ ms) h = omega arith

wake_kept : (s : Subscription) → wake s ≡ kept_frames s ++ sentinel ∷ []
unfolding wake
wake_kept s = elim (Bool-cases (has_room s)) [
  | inl room ↦ rw (room, wake, has_room) refl
  | inr full ↦ rw (full, wake, has_room) refl
]

pub close_queue_lem :
    (s : Subscription) → s.closed ≡ false → (close s).queue ≡ kept_frames s ++ sentinel ∷ []
unfolding close
close_queue_lem s h = rw (h, close) (wake_kept s)

unfoldable pub times : ℕ → List Event
times zero = []
times (suc n) = got ∷ times n

-- How the writer leaves a connection whose queue it has read up to a sentinel.
pub record Drained (sub : ℕ) (sent_out : List Out) (left : List Message) (c c' : Connection)
    : Type 0 where
  pub scene : c'.session.scene ≡ c.session.scene
  pub out : c'.session.out ≡ c.session.out ++ sent_out
  pub queue : (c'.session.heap.at sub).queue ≡ left
  pub writing : c'.writing ≡ false
  pub cancelled : c'.cancelled ≡ true
  pub reading : c'.reading ≡ c.reading

-- one frame is taken and sent
abbrev took : ℕ → ServerFrame → List Message → Connection → Connection
took sub f ms c = record c {
  session =
      push_out (send f)
        (record c.session { heap = modify sub (λ s. record s { queue = ms }) c.session.heap });
  writing = true;
}

turn_took :
    (sub : ℕ) (m : Message) (f : ServerFrame) (ms : List Message) (c : Connection)
    → frame_of m ≡ some f
    → (c.session.heap.at sub).queue ≡ m ∷ ms
    → c.writing ≡ true
    → c.cancelled ≡ false
    → writer_turn sub c ≡ took sub f ms c
unfolding writer_turn
turn_took sub m f ms c e q w k = rw (w, q, e, k) refl

turn_sentinel :
    (sub : ℕ) (ms : List Message) (c : Connection)
    → (c.session.heap.at sub).queue ≡ sentinel ∷ ms
    → c.writing ≡ true
    → Drained sub [] ms c (writer_turn sub c)
unfolding writer_turn modify
turn_sentinel sub ms c q w =
    rw (w, q)
      (record {
        scene = refl;
        out = sym (append-nil c.session.out);
        queue = ground arith;
        writing = refl;
        cancelled = refl;
        reading = refl;
      })

frame_some : (m : Message) → IsFrame m → (f : ServerFrame) × (frame_of m ≡ some f)
frame_some m is_frame = elim (Option-cases (frame_of m)) [
  | inl missing ↦ absurd (is_frame missing)
  | inr found ↦ found
]

module _ (py : Builtins) (texts : Texts) (jt : JsonText) (who : Identity) where
  pub turns_cons :
      (sub : ℕ) (e : Event) (es : List Event) (c : Connection)
      → turns py texts jt who sub (e ∷ es) c
        ≡ turns py texts jt who sub es (turn py texts jt who sub e c)
  unfolding turns
  turns_cons sub e es c = refl

  pub turns_nil : (sub : ℕ) (c : Connection) → turns py texts jt who sub [] c ≡ c
  unfolding turns
  turns_nil sub c = refl

  turn_got : (sub : ℕ) (c : Connection) → turn py texts jt who sub got c ≡ writer_turn sub c
  unfolding turn
  turn_got sub c = refl

  pub drain :
      (sub : ℕ) (ms left : List Message) (c : Connection)
      → (c.session.heap.at sub).queue ≡ ms ++ sentinel ∷ left
      → All IsFrame ms
      → c.writing ≡ true
      → c.cancelled ≡ false
      → Drained sub (wires ms) left c (turns py texts jt who sub (times (suc (length ms))) c)
  unfolding wires times modify
  drain sub [] left c q a w k =
      rw (turns_cons sub got [] c, turn_got sub c, turns_nil sub (writer_turn sub c))
        (turn_sentinel sub left c q w)
  drain sub (m ∷ ms) left c q a w k =
      let (f, e) = frame_some m a.0 in
      let c1 = took sub f (ms ++ sentinel ∷ left) c in
      let rest = drain sub ms left c1 (ground arith) a.1 refl k in
      let step = turn_took sub m f (ms ++ sentinel ∷ left) c e q w k in
      rw (turns_cons sub got (times (suc (length ms))) c, turn_got sub c, step)
        (record {
          scene = rest.scene;
          out = rw e (rest.out ∙ append_assoc c.session.out (send f ∷ []) (wires ms));
          queue = rest.queue;
          writing = rest.writing;
          cancelled = rest.cancelled;
          reading = rest.reading;
        })
