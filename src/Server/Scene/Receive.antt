-- ===== src/Server/Scene/Receive.antt =====
-- What a queue of frames brings to the client that reads it.
use lumencast_py.Prelude.{◌≡◌, refl, ap, sym, ◌∙◌, false, List, [], ◌∷◌, ◌++◌, arith}
use lumencast_py.Prelude.Dict.{Dict}
use lumencast_py.Json.{Json}
use lumencast_py.Protocol.Frames.{Snapshot, Delta}
use lumencast_py.Server.Subscription.{
  Subscription, Message, snapshot, delta, scene_changed, sentinel, send_or_drop, send_delta,
}
use lumencast_py.Server.Scene.Resume.{write_patches}

-- A client takes a snapshot as its state and writes the patches of a delta.
abbrev pub receive : Dict Json → Message → Dict Json
receive st (snapshot snap) = snap.state
receive st (delta d) = write_patches st d.patches
receive st (scene_changed c) = st
receive st sentinel = st

unfoldable pub receive_all : Dict Json → List Message → Dict Json
receive_all st [] = st
receive_all st (m ∷ ms) = receive_all (receive st m) ms

pub receive_all-append :
    (st : Dict Json) (ms : List Message) (m : Message)
    → receive_all st (ms ++ m ∷ []) ≡ receive (receive_all st ms) m
unfolding receive_all
receive_all-append st [] m = refl
receive_all-append st (q ∷ ms) m = receive_all-append (receive st q) ms m

-- Unless it is marked stale, a subscription's queue brings its client to the state `target`.
abbrev pub Synced : Dict Json → Dict Json → Subscription → Type 0
Synced target st sub = sub.stale ≡ false → receive_all st sub.queue ≡ target

pub send_or_drop-Synced :
    (st : Dict Json) (snap : Snapshot) (sub : Subscription)
    → Synced snap.state st (send_or_drop (snapshot snap) sub)
unfolding send_or_drop
send_or_drop-Synced st snap sub = ground (arith, receive_all-append st sub.queue (snapshot snap))

pub send_delta-Synced :
    (target st : Dict Json) (d : Delta) (snap : Snapshot) (sub : Subscription)
    → snap.state ≡ write_patches target d.patches
    → Synced target st sub
    → Synced snap.state st (send_delta d snap sub)
unfolding send_delta
send_delta-Synced target st d snap sub e h =
    ground (arith, receive_all-append st sub.queue (delta d))

pub received-Synced :
    (target st : Dict Json) (m : Message) (ms : List Message) (sub : Subscription)
    → sub.queue ≡ m ∷ ms
    → Synced target st sub
    → Synced target (receive st m) (record sub { queue = ms })
unfolding receive_all
received-Synced target st m ms sub q h = λ kept. sym (ap (receive_all st) q) ∙ h kept

pub received_all :
    (st target : Dict Json) (sub : Subscription)
    → sub.queue ≡ []
    → sub.stale ≡ false
    → Synced target st sub
    → st ≡ target
unfolding receive_all
received_all st target sub empty kept h = sym (ap (receive_all st) empty) ∙ h kept
