-- ===== src/Server/Scene/Resume/Seeding.antt =====
-- server/scene.py: a client that comes back after the scene was seeded.
use lumencast_py.Prelude.{ℕ, ◌≤◌, ◌≡◌, refl, ap, String, Bool, some, none, ◌∷◌, [], arith}
use lumencast_py.Prelude.Dict.{Dict, update}
use lumencast_py.Json.{Json, pos}
use lumencast_py.Server.ReplayBuffer.Window.{Ends, since_last}
use lumencast_py.Server.Scene.{Scene, set, resume, subscribe_with_resume, refresh_all, alloc, add}
use lumencast_py.Server.Scene.Resume.{replay, client_after, after_set, set-after_set}
use lumencast_py.Server.Subscription.{Heap}

resume_current :
    (b i : ℕ) (s : Scene)
    → 1 ≤ s.seq.cur
    → Ends b s.replay.records s.seq.cur
    → resume s i (some (pos s.seq.cur)) ≡ record { sub = i; snap = none; records = [] }
unfolding resume
resume_current b i s one w = ground (arith, since_last b s.seq.cur s.replay w)

-- a client that comes back at the current number keeps the state it has
keeps_current :
    (b : ℕ) (live : Bool) (st : Dict Json) (s : Scene) (h : Heap)
    → 1 ≤ s.seq.cur
    → Ends b s.replay.records s.seq.cur
    → client_after st (subscribe_with_resume live (some (pos s.seq.cur)) s h).0 ≡ st
unfolding subscribe_with_resume replay
keeps_current b live st s h one w =
    let s' = record s { subscribers = add (alloc live h).0 s.subscribers } in
    ap (client_after st) (resume_current b (alloc live h).0 s' one w)

-- Seeding takes no number and leaves no record: a client that saw the state of a scene at its
-- number and subscribes again from it after the scene was seeded keeps its old state, while the
-- scene has the seeded one. The buffer holds consecutive numbers up to the current one.
pub resume_misses_set :
    (s : Scene) (h : Heap) (b : ℕ) (p : String × Json) (ps : Dict Json) (live : Bool)
    → 1 ≤ s.seq.cur
    → Ends b s.replay.records s.seq.cur
    → (s' : Scene) × (h' : Heap) × (set (p ∷ ps) s h ≡ some (s', h'))
      × (s'.store.state ≡ update s.store.state (p ∷ ps))
      × (client_after s.store.state (subscribe_with_resume live (some (pos s.seq.cur)) s' h').0
          ≡ s.store.state)
unfolding after_set
resume_misses_set s h b p ps live one w = (
  _,
  _,
  set-after_set p ps s h,
  refl,
  keeps_current b live s.store.state (after_set (p ∷ ps) s) (refresh_all (after_set (p ∷ ps) s) h)
      one w,
)
