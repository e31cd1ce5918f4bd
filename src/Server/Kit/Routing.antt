-- ===== src/Server/Kit/Routing.antt =====
-- server/server.py: `resolve_scene`, who is routed where.
use lumencast_py.Prelude.{
  ℕ, String, true, false, Option, none, some, ◌⊎◌, inl, inr, ◌≡◌, refl, ap, if◌then◌else◌,
  Bool-cases,
}
use lumencast_py.Prelude.Dict.{Dict, get}
use lumencast_py.Json.{
  Json, null, bool, int, real, text, arr, obj, Items, Fields, Result, ok, raise, Exception,
}
use lumencast_py.Json.Builtins.{Builtins, truthy}
use lumencast_py.Protocol.Frames.{Subscribe}
use lumencast_py.Protocol.Errors.{ErrorCode, auth_denied}
use lumencast_py.Server.Auth.{Identity}
use lumencast_py.Server.Kit.{
  Server, to_scene, refused, resolve_scene, active_scene, is_privileged, lookup, found, found_in,
  raised,
}

-- A test-mode subscription that is let in: the role, the session and the name it asks for.
pub record Addressed (py : Builtins) (w : Server) (m : Subscribe) (who : Identity) (i : ℕ)
    : Type 0 where
  pub name : String
  pub asks : m.scene ≡ text name
  pub privileged : is_privileged who.role ≡ true
  pub in_session : truthy py m.session ≡ true
  pub registered : get name w.scenes ≡ some i

found_lem : (o : Option ℕ) (msg : String) (i : ℕ) → found o msg ≡ to_scene i → o ≡ some i
found_lem none msg i h = cc
found_lem (some j) msg i h = cc

lookup_lem :
    (key : Json) (d : Dict ℕ) (i : ℕ)
    → lookup key d ≡ ok (some i)
    → (name : String) × ((key ≡ text name) × (get name d ≡ some i))
lookup_lem (text s) d i h = (s, (refl, cc))
lookup_lem null d i h = cc
lookup_lem (bool b) d i h = cc
lookup_lem (int n) d i h = cc
lookup_lem (real x) d i h = cc
lookup_lem (arr xs) d i h = cc
lookup_lem (obj fs) d i h = cc

found_in_lem :
    (o : Result (Option ℕ)) (msg : String) (i : ℕ) → found_in o msg ≡ to_scene i → o ≡ ok (some i)
found_in_lem (ok o) msg i h = ap ok (found_lem o msg i h)
found_in_lem (raise e) msg i h = cc

-- a key without a hash
abbrev pub IsContainer : Json → Type 0
IsContainer v = ((xs : Items) × (v ≡ arr xs)) ⊎ ((fs : Fields) × (v ≡ obj fs))

raised_lem :
    (key : Json) (d : Dict ℕ) (msg : String) (e : Exception)
    → found_in (lookup key d) msg ≡ raised e
    → IsContainer key
raised_lem (arr xs) d msg e h = inl (xs, refl)
raised_lem (obj fs) d msg e h = inr (fs, refl)
raised_lem (text s) d msg e h = absurd (found_raised (get s d) h)
  where
    found_raised : (o : Option ℕ) → found o msg ≡ raised e → ⊥
    found_raised none k = cc
    found_raised (some i) k = cc
raised_lem null d msg e h = cc
raised_lem (bool b) d msg e h = cc
raised_lem (int n) d msg e h = cc
raised_lem (real x) d msg e h = cc

refused_lem {ℓ} :
    {A : Type ℓ} {c : ErrorCode} {msg : String} {i : ℕ} → refused c msg ≡ to_scene i → A
refused_lem h = cc

module _ (py : Builtins) where
  -- Routing raises only for a name that is a list or an object.
  pub resolve_scene-raised :
      (m : Subscribe) (who : Identity) (w : Server) (e : Exception)
      → resolve_scene py m who w ≡ raised e
      → IsContainer m.scene
  unfolding resolve_scene
  resolve_scene-raised m who w e h = elim (Bool-cases (truthy py m.scene)) [
    | inr live ↦ absurd (unraised (active_scene w) _ (rw live at h))
    | inl named ↦ elim (Bool-cases (is_privileged who.role)) [
      | inr other ↦ let k = rw other at (rw named at h) in absurd cc
      | inl role ↦ elim (Bool-cases (truthy py m.session)) [
        | inr outside ↦ let k = rw outside at (rw role at (rw named at h)) in absurd cc
        | inl session ↦ raised_lem m.scene w.scenes _ e (rw session at (rw role at (rw named at h)))
      ]
    ]
  ]
    where
      unraised : (o : Option ℕ) (msg : String) → found o msg ≡ raised e → ⊥
      unraised none msg k = cc
      unraised (some i) msg k = cc

  -- Whoever is routed to a scene either asked for none and gets the active one, or asked for it
  -- by its registered name, in a session, as operator or test.
  pub resolve_scene-Addressed :
      (m : Subscribe) (who : Identity) (w : Server) (i : ℕ)
      → resolve_scene py m who w ≡ to_scene i
      → ((truthy py m.scene ≡ false) × (active_scene w ≡ some i)) ⊎ Addressed py w m who i
  unfolding resolve_scene
  resolve_scene-Addressed m who w i h = elim (Bool-cases (truthy py m.scene)) [
    | inr live ↦ inl (live, found_lem (active_scene w) _ i (rw live at h))
    | inl named ↦ inr (named_lem m who w i (rw named at h))
  ]
    where
      named_lem :
          (m : Subscribe) (who : Identity) (w : Server) (i : ℕ)
          → (if is_privileged who.role
              then (if truthy py m.session
                  then found_in (lookup m.scene w.scenes) "scene not registered"
                  else refused ErrorCode.scene_not_found "test mode requires session")
              else refused auth_denied "test mode requires test or operator role")
            ≡ to_scene i
          → Addressed py w m who i
      named_lem m who w i h = elim (Bool-cases (is_privileged who.role)) [
        | inr other ↦ refused_lem (rw other at h)
        | inl role ↦ elim (Bool-cases (truthy py m.session)) [
          | inr outside ↦ refused_lem (rw outside at (rw role at h))
          | inl session ↦
              let (name, (asks, there)) =
                lookup_lem m.scene w.scenes i (found_in_lem _ _ i (rw session at (rw role at h))) in
              record {
                name = name;
                asks = asks;
                privileged = role;
                in_session = session;
                registered = there;
              }
        ]
      ]
