-- ===== src/Server/Kit.antt =====
-- server/server.py: `Server`, the registry of scenes and the routing of subscribe frames. Scenes
-- are shared by reference, since a session keeps its scene after the registry has dropped it.
pub mod Registered
pub mod Activation
pub mod Detach
pub mod Routing
pub mod Bounds
use lumencast_py.Prelude.{
  ℕ, ◌+◌, String, Bool, true, false, Option, none, some, List, [], ◌∷◌, ◌++◌, ◌==◌, str_eq,
  if◌then◌else◌,
}
use lumencast_py.Prelude.Dict
use lumencast_py.Prelude.Dict.{Dict}
use lumencast_py.Json.{Json, text, arr, obj, Result, ok, raise, Exception, type_error}
use lumencast_py.Json.Builtins.{Builtins, truthy}
use lumencast_py.Protocol.Errors.{ErrorCode, auth_denied, scene_not_found}
use lumencast_py.Protocol.Frames.{Subscribe}
use lumencast_py.Protocol.Types.{Role, operator, test}
use lumencast_py.Server.Auth.{Identity}
use lumencast_py.Server.Input.{InputSpec}
use lumencast_py.Server.Scene
use lumencast_py.Server.Scene.{Scene, Migrated}
use lumencast_py.Server.Subscription.{Heap}

-- The server with the objects it shares: `next` is the next reference to a scene, `tasks` the
-- scenes whose `reset` the event loop has yet to run.
pub record Server : Type 0 where
  pub scenes : Dict ℕ
  pub active : String
  pub next : ℕ
  pub at : ℕ → Scene
  pub heap : Heap
  pub tasks : List ℕ

unfoldable pub init : Heap → Server
init h = record {
  scenes = [];
  active = "";
  next = 0;
  at = λ i. Scene.init "" "" [];
  heap = h;
  tasks = [];
}

-- the objects after scene `i` has become `s` and the heap `h`
abbrev pub store : ℕ → Scene → Heap → Server → Server
store i s h w = record w { at = λ j. if i == j then s else w.at j; heap = h }

abbrev pub reset_task : Bool → Option ℕ → List ℕ → List ℕ
reset_task running none tasks = tasks
reset_task false (some i) tasks = tasks
reset_task true (some i) tasks = tasks ++ i ∷ []

-- `running` tells if there is a running event loop
unfoldable pub new_scene : Bool → String → String → List InputSpec → Server → ℕ × Server
new_scene running scene_id scene_version operator_inputs w =
    let i = w.next in
    let s = Scene.init scene_id scene_version operator_inputs in
    (
      i,
      record {
        scenes = Dict.put scene_id i w.scenes;
        active = if str_eq w.active "" then scene_id else w.active;
        next = i + 1;
        at = λ j. if i == j then s else w.at j;
        heap = w.heap;
        tasks = reset_task running (Dict.get scene_id w.scenes) w.tasks;
      },
    )

unfoldable pub reset_scene : ℕ → Server → Server
reset_scene i w = let (s, h) = Scene.reset (w.at i) w.heap in store i s h w

abbrev pub run_next : List ℕ → Server → Server
run_next [] w = w
run_next (i ∷ is) w = reset_scene i (record w { tasks = is })

-- the event loop runs the oldest task
unfoldable pub run_task : Server → Server
run_task w = run_next w.tasks w

unfoldable pub scene : String → Server → Option ℕ
scene scene_id w = Dict.get scene_id w.scenes

unfoldable pub active_scene : Server → Option ℕ
active_scene w = if str_eq w.active "" then none else Dict.get w.active w.scenes

-- the scenes `next` and `prev` after the migration, and the heap
abbrev pub migrated : ℕ → ℕ → Migrated → Server → Server
migrated next prev m w = record w {
  at = λ j. if next == j then m.next else if prev == j then m.prev else w.at j;
  heap = m.heap;
}

abbrev pub migrate_from : Option ℕ → ℕ → Server → Server
migrate_from none next w = w
migrate_from (some prev) next w =
    if prev == next
    then w
    else migrated next prev (Scene.migrate_subscribers_from (w.at next) (w.at prev) w.heap) w

abbrev pub activate : String → Option ℕ → Server → Option Server
activate scene_id none w = none
activate scene_id (some next) w =
    if str_eq w.active scene_id
    then some w
    else some (migrate_from (active_scene w) next (record w { active = scene_id }))

-- `none` is the KeyError
unfoldable pub set_active : String → Server → Option Server
set_active scene_id w = activate scene_id (Dict.get scene_id w.scenes) w

pub reset_each : Dict ℕ → Server → Server
unfolding reset_scene
reset_each [] w = w
reset_each ((scene_id, i) ∷ d) w = reset_each d (reset_scene i w)

unfoldable pub reset : Server → Server
unfolding reset_each
reset w = reset_each w.scenes (record w { scenes = []; active = "" })

unfoldable pub detach_each : ℕ → Dict ℕ → Server → Server
detach_each sub [] w = w
detach_each sub ((scene_id, i) ∷ d) w =
    let (s, h) = Scene.unsubscribe sub (w.at i) w.heap in detach_each sub d (store i s h w)

unfoldable pub detach : ℕ → Server → Server
unfolding detach_each
detach sub w = detach_each sub w.scenes w

abbrev pub is_privileged : Option Role → Bool
is_privileged (some test) = true
is_privileged (some operator) = true
is_privileged _ = false

-- What `resolve_scene` answers: a scene, or a code with the kind of its message; or what it raises.
pub data Route : Type 0 where
  to_scene : ℕ → Route
  refused : ErrorCode → String → Route
  raised : Exception → Route

abbrev pub found : Option ℕ → String → Route
found none message = refused scene_not_found message
found (some i) message = to_scene i

-- `scenes.get(key)`, which holds texts only; a list or an object has no hash
abbrev pub lookup : Json → Dict ℕ → Result (Option ℕ)
lookup (text s) d = ok (Dict.get s d)
lookup (arr xs) d = raise type_error
lookup (obj fs) d = raise type_error
lookup key d = ok none

abbrev pub found_in : Result (Option ℕ) → String → Route
found_in (ok o) message = found o message
found_in (raise e) message = raised e

module _ (py : Builtins) where
  unfoldable pub resolve_scene : Subscribe → Identity → Server → Route
  unfolding active_scene
  resolve_scene subscribe identity w =
      if truthy py subscribe.scene
      then (if is_privileged identity.role
          then (if truthy py subscribe.session
              then found_in (lookup subscribe.scene w.scenes) "scene not registered"
              else refused scene_not_found "test mode requires session")
          else refused auth_denied "test mode requires test or operator role")
      else found (active_scene w) "no active scene"
