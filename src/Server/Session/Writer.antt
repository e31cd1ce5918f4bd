-- ===== src/Server/Session/Writer.antt =====
-- server/ws_handler.py: `_run_session`, the reader and the writer that share a connection. A turn is
-- what one of them does between two awaits, so the turns of both interleave in any order.
pub mod Draining
pub mod Closing
use lumencast_py.Prelude.{
  ℕ, ◌+◌, ◌≤◌, ◌≡◌, refl, String, Bool, true, false, Option, none, some, List, [], ◌∷◌, ◌++◌,
  length, map, ◌||◌, not, if◌then◌else◌, arith,
}
use lumencast_py.Json.{Json, null}
use lumencast_py.Json.Builtins.{Builtins}
use lumencast_py.Protocol.Envelope.{JsonText}
use lumencast_py.Protocol.Codec.Decode.{decode_client}
use lumencast_py.Protocol.Frames.{ServerFrame}
use lumencast_py.Server.Auth.{Identity}
use lumencast_py.Server.Scene.{Scene}
use lumencast_py.Server.Subscription.{
  Subscription, Heap, Message, snapshot, delta, scene_changed, sentinel, modify,
}
use lumencast_py.Server.Session.{Session, Texts, Out, send, push_out, round}

-- The connection: `cancelled` is the event that both loops test, and a loop that has returned is
-- not `reading` or not `writing` any more.
pub record Connection : Type 0 where
  pub session : Session
  pub cancelled : Bool
  pub reading : Bool
  pub writing : Bool

unfoldable pub connect : Session → Connection
connect t = record { session = t; cancelled = false; reading = true; writing = true }

-- the frame that a message of the queue is sent as; None is not sent
abbrev pub frame_of : Message → Option ServerFrame
frame_of (snapshot f) = some (ServerFrame.snapshot f)
frame_of (delta f) = some (ServerFrame.delta f)
frame_of (scene_changed f) = some (ServerFrame.scene_changed f)
frame_of sentinel = none

-- What a loop waits for: a text of the client, a message of the queue, or the ping interval. The
-- receive fails when the client is gone.
pub data Event : Type 0 where
  came : String → Event
  gone : Event
  got : Event
  timed_out : Event

-- the loop's test, after a round that went through
abbrev pub sent : Connection → Connection
sent c = record c { writing = not c.cancelled }

abbrev pub write : Option ServerFrame → Connection → Connection
write none c = record c { cancelled = true; writing = false }
write (some f) c = sent (record c { session = push_out (send f) c.session })

-- the writer with what the queue holds; it waits on an empty queue
abbrev pub take : ℕ → List Message → Connection → Connection
take sub [] c = c
take sub (m ∷ ms) c =
    let t = c.session in
    write (frame_of m)
      (record c { session = record t { heap = modify sub (λ s. record s { queue = ms }) t.heap } })

unfoldable pub writer_turn : ℕ → Connection → Connection
writer_turn sub c = if c.writing then take sub (c.session.heap.at sub).queue c else c

unfoldable pub ping_turn : Connection → Connection
ping_turn c =
    if c.writing
    then sent (record c { session = push_out (send (ServerFrame.ping null)) c.session })
    else c

module _ (py : Builtins) (texts : Texts) (jt : JsonText) (who : Identity) where
  -- the reader goes on where the round did, and tests the event
  abbrev pub after_round : Session × Bool → Connection → Connection
  after_round (t, true) c = record c { session = t; reading = not c.cancelled }
  after_round (t, false) c = record c { session = t; cancelled = true; reading = false }

  unfoldable pub reader_turn : String → Connection → Connection
  reader_turn raw c =
      if c.reading
      then after_round (round py texts who (decode_client py jt raw) c.session) c
      else c

  unfoldable pub gone_turn : Connection → Connection
  gone_turn c = if c.reading then record c { cancelled = true; reading = false } else c

  unfoldable pub turn : ℕ → Event → Connection → Connection
  unfolding writer_turn ping_turn reader_turn gone_turn
  turn sub (came raw) c = reader_turn raw c
  turn sub gone c = gone_turn c
  turn sub got c = writer_turn sub c
  turn sub timed_out c = ping_turn c

  unfoldable pub turns : ℕ → List Event → Connection → Connection
  unfolding turn
  turns sub [] c = c
  turns sub (e ∷ es) c = turns sub es (turn sub e c)

-- `gather` returns when both loops have
abbrev pub has_ended : Connection → Bool
has_ended c = not (c.reading || c.writing)
