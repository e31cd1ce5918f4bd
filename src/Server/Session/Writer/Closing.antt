-- ===== src/Server/Session/Writer/Closing.antt =====
-- How a session ends once its subscription has been closed.
use lumencast_py.Prelude.{
  ℕ, suc, ◌≤◌, ◌≡◌, refl, Bool, true, false, List, [], ◌∷◌, length, All, arith, inl, inr,
  Bool-cases,
}
use lumencast_py.Prelude.{◌∙◌}
use lumencast_py.Json.Builtins.{Builtins}
use lumencast_py.Protocol.Envelope.{JsonText}
use lumencast_py.Server.Auth.{Identity}
use lumencast_py.Server.Subscription.{Subscription, Message, close, queue_size}
use lumencast_py.Server.Session.{Session, Texts}
use lumencast_py.Server.Session.Writer.{
  Connection, connect, Event, came, gone, got, timed_out, turn, turns, writer_turn, after_round,
  reader_turn, gone_turn, ping_turn, has_ended,
}
use lumencast_py.Server.Session.Writer.Draining.{
  IsFrame, wires, kept_frames, kept-All, kept-le, close_queue_lem, times, Drained, turns_cons,
  turns_nil, drain,
}

-- what the reader's receive returns for
abbrev pub is_heard : Event → Bool
is_heard (came raw) = true
is_heard gone = true
is_heard got = false
is_heard timed_out = false

-- How a session ends once the writer has met the sentinel, which takes it `rounds` turns.
pub record Closes (py : Builtins) (texts : Texts) (jt : JsonText) (who : Identity) (sub : ℕ)
    (t : Session) (frames : List Message) (rounds : ℕ) : Type 0 where
  pub bounded : rounds ≤ 257
  pub drained :
      Drained sub
        (wires frames)
        []
        (connect t)
        (turns py texts jt who sub (times rounds) (connect t))
  pub waits :
      (es : List Event)
      → All (λ e. is_heard e ≡ false) es
      → turns py texts jt who sub es (turns py texts jt who sub (times rounds) (connect t))
        ≡ turns py texts jt who sub (times rounds) (connect t)
  pub ends :
      (e : Event) (es : List Event)
      → is_heard e ≡ true
      → (let c = turns py texts jt who sub (times rounds) (connect t) in
          (has_ended (turns py texts jt who sub (e ∷ es) c) ≡ true)
          × (turns py texts jt who sub (e ∷ es) c ≡ turn py texts jt who sub e c))

module _ (py : Builtins) (texts : Texts) (jt : JsonText) (who : Identity) where
  silent_turn :
      (sub : ℕ) (e : Event) (c : Connection)
      → is_heard e ≡ false
      → c.writing ≡ false
      → turn py texts jt who sub e c ≡ c
  unfolding turn writer_turn ping_turn
  silent_turn sub (came raw) c q w = absurd cc
  silent_turn sub gone c q w = absurd cc
  silent_turn sub got c q w = rw w refl
  silent_turn sub timed_out c q w = rw w refl

  silent_turns :
      (sub : ℕ) (es : List Event) (c : Connection)
      → All (λ e. is_heard e ≡ false) es
      → c.writing ≡ false
      → turns py texts jt who sub es c ≡ c
  silent_turns sub [] c q w = turns_nil py texts jt who sub c
  silent_turns sub (e ∷ es) c q w =
      rw (turns_cons py texts jt who sub e es c, silent_turn sub e c q.0 w)
        (silent_turns sub es c q.1 w)

  ended_turn :
      (sub : ℕ) (e : Event) (c : Connection)
      → c.reading ≡ false
      → c.writing ≡ false
      → turn py texts jt who sub e c ≡ c
  unfolding turn writer_turn ping_turn reader_turn gone_turn
  ended_turn sub (came raw) c r w = rw r refl
  ended_turn sub gone c r w = rw r refl
  ended_turn sub got c r w = rw w refl
  ended_turn sub timed_out c r w = rw w refl

  ended_turns :
      (sub : ℕ) (es : List Event) (c : Connection)
      → c.reading ≡ false
      → c.writing ≡ false
      → turns py texts jt who sub es c ≡ c
  ended_turns sub [] c r w = turns_nil py texts jt who sub c
  ended_turns sub (e ∷ es) c r w =
      rw (turns_cons py texts jt who sub e es c, ended_turn sub e c r w) (ended_turns sub es c r w)

  stopped :
      (r : Session × Bool) (c : Connection)
      → c.cancelled ≡ true
      → (after_round py texts jt who r c).reading ≡ false
  stopped (t, true) c k = rw k refl
  stopped (t, false) c k = refl

  still_off :
      (r : Session × Bool) (c : Connection) → (after_round py texts jt who r c).writing ≡ c.writing
  still_off (t, true) c = refl
  still_off (t, false) c = refl

  heard_turn :
      (sub : ℕ) (e : Event) (c : Connection)
      → is_heard e ≡ true
      → c.writing ≡ false
      → c.cancelled ≡ true
      → ((turn py texts jt who sub e c).reading ≡ false)
        × ((turn py texts jt who sub e c).writing ≡ false)
  unfolding turn reader_turn gone_turn
  heard_turn sub (came raw) c q w k = elim (Bool-cases c.reading) [
    | inl on ↦ rw on (let d = record c { reading = true } in (stopped _ d k, still_off _ d ∙ w))
    | inr off ↦ rw off (refl, w)
  ]
  heard_turn sub gone c q w k = elim (Bool-cases c.reading) [
    | inl on ↦ rw on (refl, w)
    | inr off ↦ rw off (refl, w)
  ]
  heard_turn sub got c q w k = absurd cc
  heard_turn sub timed_out c q w k = absurd cc

  heard_turns :
      (sub : ℕ) (e : Event) (es : List Event) (c : Connection)
      → is_heard e ≡ true
      → c.writing ≡ false
      → c.cancelled ≡ true
      → (has_ended (turns py texts jt who sub (e ∷ es) c) ≡ true)
        × (turns py texts jt who sub (e ∷ es) c ≡ turn py texts jt who sub e c)
  heard_turns sub e es c q w k =
      let (r, w') = heard_turn sub e c q w k in
      let same =
        turns_cons py texts jt who sub e es c
        ∙ ended_turns sub es (turn py texts jt who sub e c) r w' in
      (rw same (rw (r, w') refl), same)

  -- For a session whose subscription has been closed with only frames in its queue, at most as
  -- many as the queue takes: the writer needs at most 257 turns to send what `close` kept of them,
  -- in their order, and to return at the sentinel, and the scene stays as it was. Then the session
  -- waits for its client, however often the other events come; the next text of the client, or its
  -- leaving, ends it, and nothing that comes after is handled.
  pub close-Closes :
      (sub : ℕ) (t : Session) (s : Subscription)
      → s.closed ≡ false
      → length s.queue ≤ queue_size
      → All IsFrame s.queue
      → t.heap.at sub ≡ close s
      → Closes py texts jt who sub t (kept_frames s) (suc (length (kept_frames s)))
  unfolding connect
  close-Closes sub t s open_ fits frames here =
      let d =
        drain py texts jt who sub (kept_frames s) [] (connect t) (rw here (close_queue_lem s open_))
          (kept-All s frames) refl refl in
      record {
        bounded = omega (arith, kept-le s fits);
        drained = d;
        waits = λ es q. silent_turns sub es _ q d.writing;
        ends = λ e es q. heard_turns sub e es _ q d.writing d.cancelled;
      }
