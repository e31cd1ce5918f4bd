-- ===== src/Interop/ControlPlane/Setup.antt =====
-- interop/control_plane.py: what stands after a set-up.
use lumencast_py.Prelude.{
  ℕ, String, true, false, Option, none, some, List, [], ◌∷◌, ◌≡◌, ◌≢◌, refl, ap, ◌∙◌, str_eq,
  if◌then◌else◌, arith, eq_iff, ◌==◌,
}
use lumencast_py.Prelude.Dict.{Dict, get, get-put, update}
use lumencast_py.Server.Auth.{Identity}
use lumencast_py.Server.Auth.StaticTokens
use lumencast_py.Json.{
  Json, null, bool, int, real, text, arr, obj, nil, cons, Fields, to_dict, to_list, of_dict, ok,
}
use lumencast_py.Json.Builtins.{Builtins, truthy}
use lumencast_py.Server.Input.{InputSpec}
use lumencast_py.Server.Kit
use lumencast_py.Server.Kit.{Server, new_scene, set_active, active_scene, store, activate}
use lumencast_py.Server.Kit.Registered.{reset_each_lem}
use lumencast_py.Server.Scene
use lumencast_py.Server.Scene.{Scene, refresh_all}
use lumencast_py.Server.Scene.Resume.{set-after_set, after_set}
use lumencast_py.Interop.ControlPlane.{
  Plane, install_tokens, content, Handled, setup, serve_bundle, answered, seed, cleared, scene_name,
  bundle_hash, bundle_specs, version_or_default, state_or_defaults, dict_or_empty, register_each,
}

reset_active : (w : Server) → (Kit.reset w).active ≡ ""
unfolding Kit.reset
reset_active w = (reset_each_lem w.scenes (record w { scenes = []; active = "" })).1.0

at_self : (i : ℕ) (s : Scene) (f : ℕ → Scene) → (if i == i then s else f i) ≡ s
at_self i s f = ground arith

-- A server whose active scene is `i`, under `name`, with a state.
record Serves (name : String) (i : ℕ) (st : Dict Json) (w : Server) : Type 0 where
  named : w.active ≡ name
  registered : get name w.scenes ≡ some i
  shows : (w.at i).store.state ≡ st

new_scene-Serves :
    (name version : String) (specs : List InputSpec) (w : Server)
    → w.active ≡ ""
    → Serves name w.next [] (new_scene true name version specs w).1
unfolding new_scene Scene.init
new_scene-Serves name version specs w h = record {
  named = ground (arith, eq_iff w.active "", h);
  registered = ground (arith, get-put name name w.next w.scenes, eq_iff name name);
  shows = ap (λ (t : Scene). t.store.state) (at_self w.next (Scene.init name version specs) w.at);
}

module _ (py : Builtins) where
  seed_cons :
      (i : ℕ) (x : String × Json) (xs : Dict Json) (w : Server)
      → seed py i (x ∷ xs) w
        ≡ some (
            store i
              (after_set (x ∷ xs) (w.at i))
              (refresh_all (after_set (x ∷ xs) (w.at i)) w.heap)
              w)
  unfolding seed
  seed_cons i x xs w = rw (set-after_set x xs (w.at i) w.heap, seed) refl

  seed-Serves :
      (name : String) (i : ℕ) (st : Dict Json) (w : Server)
      → Serves name i [] w
      → (v : Server) × ((seed py i st w ≡ some v) × Serves name i (update [] st) v)
  unfolding seed after_set update
  seed-Serves name i [] w s = (w, (refl, s))
  seed-Serves name i (x ∷ xs) w s =
      let after = after_set (x ∷ xs) (w.at i) in
      (
        store i after (refresh_all after w.heap) w,
        (
          seed_cons i x xs w,
          record {
            named = s.named;
            registered = s.registered;
            shows =
                ap (λ (t : Scene). t.store.state) (at_self i after w.at)
                ∙ ap (λ d. update d (x ∷ xs)) s.shows;
          },
        ),
      )

same_name : (a b : String) → b ≡ a → str_eq b a ≡ true
same_name a b h = ground (arith, eq_iff b a, h)

other_name : (a : String) → a ≢ "" → str_eq a "" ≡ false
other_name a h = ground (arith, eq_iff a "")

set_active_again :
    (name : String) (i : ℕ) (st : Dict Json) (w : Server)
    → Serves name i st w
    → set_active name w ≡ some w
unfolding set_active
set_active_again name i st w s =
    rw (s.registered, activate) (rw (same_name name w.active s.named) refl)

active_scene-Serves :
    (name : String) (i : ℕ) (st : Dict Json) (w : Server)
    → Serves name i st w
    → name ≢ ""
    → active_scene w ≡ some i
unfolding active_scene
active_scene-Serves name i st w s ne = rw s.named (rw (other_name name ne) s.registered)

-- What stands after a set-up with one bundle.
pub record Ready (py : Builtins) (url : String) (b st : Dict Json) (pl : Plane) (h : Handled)
    : Type 0 where
  pub after : Plane
  pub active : ℕ
  pub answered_ok : h ≡ (
    ok (
        content (
          obj (
            of_dict (
              ("ws_url", text url)
              ∷ ("scene_id", text (scene_name py b))
              ∷ ("scene_version", text (bundle_hash py b))
              ∷ [])))),
    after,
  )
  pub serving : active_scene after.server ≡ some active
  pub state : (after.server.at active).store.state ≡ update [] st
  pub known : after.tokens ≡ pl.tokens

module _ (py : Builtins) where
  serve_bundle-Ready :
      (url : String) (body b : Dict Json) (pl : Plane) (specs : List InputSpec)
      → pl.server.active ≡ ""
      → scene_name py b ≢ ""
      → Ready py url b
          (state_or_defaults
            (dict_or_empty (get "initial_state" body))
            (dict_or_empty (get "defaults" (dict_or_empty (get "inline" b)))))
          pl
          (serve_bundle py url body b [] pl (ok specs))
  unfolding register_each new_scene
  serve_bundle-Ready url body b pl specs fresh ne =
      let name = scene_name py b in
      let st =
        state_or_defaults (dict_or_empty (get "initial_state" body))
          (dict_or_empty (get "defaults" (dict_or_empty (get "inline" b)))) in
      let made = new_scene true name (version_or_default (bundle_hash py b)) specs pl.server in
      let (v, (seeded, served)) =
        seed-Serves py name made.0 st made.1
          (new_scene-Serves name (version_or_default (bundle_hash py b)) specs pl.server fresh) in
      record {
        after = record pl { server = v };
        active = made.0;
        answered_ok =
            rw (seeded, answered) (rw (set_active_again name made.0 (update [] st) v served) refl);
        serving = active_scene-Serves name made.0 (update [] st) v served ne;
        state = served.shows;
        known = refl;
      }

  pub setup-Ready :
      (url : String) (raw b : Fields) (pl : Plane) (specs : List InputSpec)
      → get "bundles" (to_dict raw) ≡ some (arr (cons (obj b) nil))
      → bundle_specs py (dict_or_empty (get "inline" (to_dict b))) ≡ ok specs
      → scene_name py (to_dict b) ≢ ""
      → Ready py url
          (to_dict b)
          (state_or_defaults
            (dict_or_empty (get "initial_state" (to_dict raw)))
            (dict_or_empty (get "defaults" (dict_or_empty (get "inline" (to_dict b))))))
          (cleared py (to_dict raw) pl)
          (setup py url (some (obj raw)) pl)
  unfolding setup truthy to_list
  setup-Ready url raw b pl specs bundles read ne = rw (bundles) (
      rw (read) (
        serve_bundle-Ready url (to_dict raw) (to_dict b) (cleared py (to_dict raw) pl) specs
          (reset_active pl.server) ne))

filled_state : (d e : Dict Json) → d ≢ [] → state_or_defaults d e ≡ d
unfolding state_or_defaults
filled_state [] e ne = absurd (ne refl)
filled_state (x ∷ d) e ne = refl

empty_state : (d e : Dict Json) → d ≡ [] → state_or_defaults d e ≡ e
unfolding state_or_defaults
empty_state [] e h = refl
empty_state (x ∷ d) e h = absurd cc

no_entries :
    (o : Option Json) → ((fs : Fields) → o ≡ some (obj fs) → to_dict fs ≡ []) → dict_or_empty o ≡ []
no_entries none k = refl
no_entries (some (obj fs)) k = k fs refl
no_entries (some null) k = refl
no_entries (some (bool b)) k = refl
no_entries (some (int n)) k = refl
no_entries (some (real x)) k = refl
no_entries (some (text t)) k = refl
no_entries (some (arr xs)) k = refl

install_alone :
    (raw : Option Json) (auth : Dict Identity) → install_tokens raw auth ≡ install_tokens raw []
unfolding install_tokens StaticTokens.reset
install_alone none auth = refl
install_alone (some (obj raw)) auth = refl
install_alone (some null) auth = refl
install_alone (some (bool b)) auth = refl
install_alone (some (int n)) auth = refl
install_alone (some (real x)) auth = refl
install_alone (some (text t)) auth = refl
install_alone (some (arr xs)) auth = refl

-- What a set-up of one bundle leaves: its scene is served, with the state of the request, or the
-- defaults of the bundle where the request states none, and with the tokens of the request alone.
pub record Served (py : Builtins) (url : String) (raw b : Dict Json) (pl : Plane) (h : Handled)
    : Type 0 where
  pub after : Plane
  pub active : ℕ
  pub answered_ok : h ≡ (
    ok (
        content (
          obj (
            of_dict (
              ("ws_url", text url)
              ∷ ("scene_id", text (scene_name py b))
              ∷ ("scene_version", text (bundle_hash py b))
              ∷ [])))),
    after,
  )
  pub serving : active_scene after.server ≡ some active
  pub given :
      (fs : Fields)
      → get "initial_state" raw ≡ some (obj fs)
      → to_dict fs ≢ []
      → (after.server.at active).store.state ≡ update [] (to_dict fs)
  pub defaults :
      (inline ds : Fields)
      → ((fs : Fields) → get "initial_state" raw ≡ some (obj fs) → to_dict fs ≡ [])
      → get "inline" b ≡ some (obj inline)
      → get "defaults" (to_dict inline) ≡ some (obj ds)
      → (after.server.at active).store.state ≡ update [] (to_dict ds)
  pub tokens :
      (auth : Dict Identity)
      → pl.tokens ≡ some auth
      → after.tokens ≡ some (install_tokens (get "tokens" raw) [])

module _ (py : Builtins) where
  -- A set-up with one bundle, under a name that is not empty and with specs that can be read,
  -- succeeds: the bundle's scene is served, its state is that of the request, or the defaults of
  -- the bundle where the request states none, and the tokens of a static authenticator are those of
  -- the request alone.
  pub setup-Served :
      (url : String) (raw b : Fields) (pl : Plane) (specs : List InputSpec)
      → get "bundles" (to_dict raw) ≡ some (arr (cons (obj b) nil))
      → bundle_specs py (dict_or_empty (get "inline" (to_dict b))) ≡ ok specs
      → scene_name py (to_dict b) ≢ ""
      → Served py url (to_dict raw) (to_dict b) pl (setup py url (some (obj raw)) pl)
  setup-Served url raw b pl specs bundles read ne =
      let r = setup-Ready py url raw b pl specs bundles read ne in
      record {
        after = r.after;
        active = r.active;
        answered_ok = r.answered_ok;
        serving = r.serving;
        given = λ fs e filled. r.state ∙ ap (update []) (rw e (filled_state (to_dict fs) _ filled));
        defaults = λ inline ds unstated i d.
            r.state
            ∙ ap (update []) (
                empty_state _ _ (no_entries (get "initial_state" (to_dict raw)) unstated)
                ∙ rw i (rw d refl));
        tokens =
            λ auth e. r.known ∙ rw e (ap some (install_alone (get "tokens" (to_dict raw)) auth));
      }
