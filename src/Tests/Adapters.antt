-- ===== src/Tests/Adapters.antt =====
-- The adapters on a fresh scene.
use lumencast_py.Prelude.{String, ◌≡◌, refl, Option, none, some, List, [], ◌∷◌}
use lumencast_py.Prelude.Dict.{put, update}
use lumencast_py.Json.{Json, int, pos, obj, field, end}
use lumencast_py.Server.Scene.{Scene}
use lumencast_py.Server.Subscription.{Heap}
use lumencast_py.Server.Adapters.{http_poll_adapter, ws_subscribe_adapter}
use lumencast_py.Server.Adapters.Leaves.{leaves}
use lumencast_py.Server.Adapters.Relayed.{
  Relayed, polled, spoken, all_messages, written, adapters-Relayed,
}
use lumencast_py.Tests.Codec.{library}
use lumencast_py.Tests.Scene.{scene, heap}

abbrev body : Json
body = obj (field "a" (obj (field "b" (int (pos 1)) end)) end)

-- a request that fails between two that bring the body, and an empty one
abbrev polls : List (Option Json)
polls = some body ∷ none ∷ some (obj end) ∷ some body ∷ []

-- two connections, with a text that is no JSON
abbrev connections : List (List String)
connections = ("{}" ∷ "x" ∷ "{}" ∷ []) ∷ ("{}" ∷ []) ∷ []

emissions : written [] (spoken (polled polls)) ≡ ("a.b", int (pos 1)) ∷ []
unfolding written spoken polled leaves update put
emissions = refl

adapters-Relayed_example :
    ((r : Scene × Heap) × (http_poll_adapter none polls scene heap ≡ some r)
      × Relayed (spoken (polled polls)) scene heap r)
    × Relayed
        (spoken (all_messages (library body) connections))
        scene
        heap
        (ws_subscribe_adapter (library body) none connections scene heap)
adapters-Relayed_example = adapters-Relayed (library body) polls connections scene heap
