-- ===== src/Server/Kit/Activation.antt =====
-- server/server.py: what `set_active` does to the scenes and their subscribers.
use lumencast_py.Prelude.{
  ℕ, String, false, none, some, ◌≡◌, ◌≢◌, refl, sym, inl, inr, ◌==◌, ==_iff, str_eq, arith, eq_iff,
  Bool-cases,
}
use lumencast_py.Prelude.Dict.{get}
use lumencast_py.Server.Scene.{Migrated, migrate_subscribers_from}
use lumencast_py.Server.Scene.FanOut.{Distinct}
use lumencast_py.Server.Scene.Migration.{Partition, migrate_subscribers_from-Partition}
use lumencast_py.Server.Kit.{Server, active_scene, migrated, set_active, activate}
use lumencast_py.Server.Kit.Registered.{IsRegistered}

-- The server after a switch from scene `prev` to scene `next`.
pub record Switched (id : String) (prev next : ℕ) (w : Server) : Type 0 where
  pub after : Server
  pub done : set_active id w ≡ some after
  pub serves : active_scene after ≡ some next
  pub moved : Partition (w.at next) (w.at prev) w.heap (record {
    moved = (migrate_subscribers_from (w.at next) (w.at prev) w.heap).moved;
    next = after.at next;
    prev = after.at prev;
    heap = after.heap;
  })
  pub others : (j : ℕ) → j ≢ next → j ≢ prev → after.at j ≡ w.at j

no_scene {ℓ} : {A : Type ℓ} {i : ℕ} → none ≡ some i → A
no_scene h = cc

active_lem : (w : Server) (i : ℕ) → active_scene w ≡ some i → get w.active w.scenes ≡ some i
unfolding active_scene
active_lem w i h = elim (Bool-cases (str_eq w.active "")) [
  | inl empty ↦ no_scene (rw empty at h)
  | inr named ↦ rw named at h
]

other_name : (a b : String) → b ≢ a → str_eq a b ≡ false
other_name a b h = ground (arith, eq_iff a b)

activate_lem :
    (id : String) (prev next : ℕ) (w : Server)
    → (prev == next) ≡ false
    → id ≢ w.active
    → active_scene w ≡ some prev
    → activate id (some next) w
      ≡ some (
          migrated next prev
            (migrate_subscribers_from (w.at next) (w.at prev) w.heap)
            (record w { active = id }))
activate_lem id prev next w apart ne h = rw (other_name w.active id ne) (rw h (rw apart refl))

at_next : (prev next : ℕ) (m : Migrated) (w : Server) → (migrated next prev m w).at next ≡ m.next
at_next prev next m w = ground arith

at_prev :
    (prev next : ℕ) (m : Migrated) (w : Server)
    → (prev == next) ≡ false
    → (migrated next prev m w).at prev ≡ m.prev
at_prev prev next m w h = ground (arith, h)

apart_lem :
    (id : String) (prev next : ℕ) (w : Server)
    → IsRegistered w
    → get w.active w.scenes ≡ some prev
    → get id w.scenes ≡ some next
    → id ≢ w.active
    → (prev == next) ≡ false
apart_lem id prev next w r serving there ne = elim (Bool-cases (prev == next)) [
  | inr apart ↦ apart
  | inl same ↦
      let e : prev ≡ next = (==_iff prev next).0 same in
      absurd (ne (r.apart id w.active next there (rw e at serving)))
]

-- Activating a registered scene other than the active one, under a name that is not empty,
-- succeeds: the scene is served, the live subscribers of the scene that was active move to it as
-- `Partition` says, and no other scene changes. The registry is well formed and the subscribers of
-- the active scene are distinct.
pub set_active-Switched :
    (id : String) (prev next : ℕ) (w : Server)
    → IsRegistered w
    → active_scene w ≡ some prev
    → get id w.scenes ≡ some next
    → id ≢ w.active
    → id ≢ ""
    → Distinct (w.at prev).subscribers
    → Switched id prev next w
unfolding set_active active_scene
set_active-Switched id prev next w r serving there ne named d =
    let p = migrate_subscribers_from-Partition (w.at next) (w.at prev) w.heap d in
    let m = migrate_subscribers_from (w.at next) (w.at prev) w.heap in
    let apart : (prev == next) ≡ false =
      apart_lem id prev next w r (active_lem w prev serving) there ne in
    record {
      after = migrated next prev m (record w { active = id });
      done = rw there (activate_lem id prev next w apart ne serving);
      serves = rw (other_name id "" (λ e. named (sym e))) there;
      moved =
          rw (at_next prev next m (record w { active = id }))
            (rw (at_prev prev next m (record w { active = id }) apart) p);
      others = λ j jn jp. ground arith;
    }
