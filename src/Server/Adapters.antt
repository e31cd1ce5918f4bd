-- ===== src/Server/Adapters.antt =====
-- server/adapters: what polled bodies and upstream messages do to a scene. What the requests and
-- the connections bring is a list.
pub mod Leaves
pub mod Relayed
use Prim.Native.String.{◌++◌ as cat}
use lumencast_py.Prelude.{String, Option, none, some, List, [], ◌∷◌, str_eq, if◌then◌else◌}
use lumencast_py.Prelude.Dict
use lumencast_py.Prelude.Dict.{Dict}
use lumencast_py.Json.{Json, obj, Fields, end, field, to_dict}
use lumencast_py.Protocol.Envelope.{JsonText}
use lumencast_py.Server.Scene.{Scene, emit}
use lumencast_py.Server.Subscription.{Heap}

-- f"{prefix}.{k}" if prefix else str(k)
abbrev pub joined : String → String → String
joined prefix k = if str_eq prefix "" then k else cat prefix (cat "." k)

-- the body of the loop of `_flatten`, where nested objects are flattened in place
unfoldable mutual
  pub flatten_each : Fields → String → Dict Json → Dict Json
  flatten_each end prefix out = out
  flatten_each (field k v fs) prefix out =
      flatten_each fs prefix (flatten_value v (joined prefix k) out)

  pub flatten_value : Json → String → Dict Json → Dict Json
  flatten_value (obj fs) key out = Dict.update out (flatten_each fs key [])
  flatten_value v key out = Dict.put key v out

abbrev pub leaf_name : String → String
leaf_name prefix = if str_eq prefix "" then "value" else prefix

-- `_flatten`
unfoldable pub flatten : Json → String → Dict Json
flatten (obj fs) prefix = flatten_each fs prefix []
flatten v prefix = (leaf_name prefix, v) ∷ []

-- `if patches: await scene.emit(patches)`; `none` is an exception
unfoldable pub emit_if_any : Dict Json → Scene → Heap → Option (Scene × Heap)
emit_if_any [] s h = some (s, h)
emit_if_any (p ∷ ps) s h = emit (p ∷ ps) none s h

-- transform(body) if transform else what the adapter makes of the body; `none` is an exception
abbrev pub patches_with :
    Option (Json → Option (Dict Json)) → (Json → Dict Json) → Json → Option (Dict Json)
patches_with none own body = some (own body)
patches_with (some transform) own body = transform body

abbrev pub emit_read : Option (Dict Json) → Scene → Heap → Option (Scene × Heap)
emit_read none s h = none
emit_read (some patches) s h = emit_if_any patches s h

-- one round of `http_poll_adapter`; `none` is a request that fails
unfoldable pub poll :
    Option (Json → Option (Dict Json)) → Option Json → Scene → Heap → Option (Scene × Heap)
poll transform none s h = some (s, h)
poll transform (some body) s h = emit_read (patches_with transform (λ b. flatten b "") body) s h

-- the loop of `http_poll_adapter`, over what its requests bring until it is cancelled
unfoldable pub http_poll_adapter :
    Option (Json → Option (Dict Json)) → List (Option Json) → Scene → Heap → Option (Scene × Heap)
unfolding poll
http_poll_adapter transform [] s h = some (s, h)
http_poll_adapter transform (got ∷ more) s h = elim (poll transform got s h) [
  | none ↦ none
  | some (s', h') ↦ http_poll_adapter transform more s' h'
]

abbrev pub message_patches : Json → Dict Json
message_patches (obj fs) = to_dict fs
message_patches v = []

module _ (jt : JsonText) where
  -- one message of `ws_subscribe_adapter`; a text that is no JSON is dropped
  unfoldable pub upstream :
      Option (Json → Option (Dict Json)) → String → Scene → Heap → Option (Scene × Heap)
  upstream transform raw s h = elim (jt.loads raw) [
    | none ↦ some (s, h)
    | some body ↦ emit_read (patches_with transform message_patches body) s h
  ]

  -- the messages of one connection; an exception ends it
  unfoldable pub relay :
      Option (Json → Option (Dict Json)) → List String → Scene → Heap → Scene × Heap
  unfolding upstream
  relay transform [] s h = (s, h)
  relay transform (raw ∷ raws) s h = elim (upstream transform raw s h) [
    | none ↦ (s, h)
    | some (s', h') ↦ relay transform raws s' h'
  ]

  -- the loop of `ws_subscribe_adapter`, over what its connections bring until it is cancelled
  unfoldable pub ws_subscribe_adapter :
      Option (Json → Option (Dict Json)) → List (List String) → Scene → Heap → Scene × Heap
  unfolding relay
  ws_subscribe_adapter transform [] s h = (s, h)
  ws_subscribe_adapter transform (raws ∷ more) s h =
      let (s', h') = relay transform raws s h in ws_subscribe_adapter transform more s' h'
