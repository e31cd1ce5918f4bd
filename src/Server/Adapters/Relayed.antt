-- ===== src/Server/Adapters/Relayed.antt =====
-- server/adapters: the loops of the adapters as sequences of emissions.
use mathlib.Core.Path.{subst}
use lumencast_py.Prelude.{
  ℕ, ◌+◌, String, ◌≡◌, refl, ap, ◌∙◌, Option, none, some, List, [], ◌∷◌, ◌++◌, length,
  length-append, arith, Option-cases, inl, inr,
}
use lumencast_py.Prelude.Dict.{Dict, update}
use lumencast_py.Json.{Json, null, bool, int, real, text, arr, obj, to_dict}
use lumencast_py.Protocol.Envelope.{JsonText}
use lumencast_py.Server.Scene.{Scene}
use lumencast_py.Server.Scene.Delivery.{Follows, emitted-Follows}
use lumencast_py.Server.Scene.Resume.{Emission, after_emit, heap_after, emit-after_emit}
use lumencast_py.Server.Subscription.{Heap}
use lumencast_py.Server.Adapters.Leaves.{said_by, flatten-said_by}
use lumencast_py.Server.Adapters.{
  flatten, emit_if_any, poll, http_poll_adapter, message_patches, upstream, relay,
  ws_subscribe_adapter,
}

-- the maps written on a state in turn
unfoldable pub written : Dict Json → List (Dict Json) → Dict Json
written st [] = st
written st (d ∷ ds) = written (update st d) ds

-- the maps that are not empty
unfoldable pub spoken : List (Dict Json) → List (Dict Json)
spoken [] = []
spoken ([] ∷ ds) = spoken ds
spoken ((e ∷ d) ∷ ds) = (e ∷ d) ∷ spoken ds

-- what the polls that succeed bring
unfoldable pub polled : List (Option Json) → List (Dict Json)
polled [] = []
polled (none ∷ more) = polled more
polled (some body ∷ more) = said_by body ∷ polled more

-- what a text brings: the object that it is
abbrev pub object_of : Option Json → List (Dict Json)
object_of (some (obj fs)) = to_dict fs ∷ []
object_of o = []

unfoldable pub messages : JsonText → List String → List (Dict Json)
messages jt [] = []
messages jt (raw ∷ raws) = object_of (jt.loads raw) ++ messages jt raws

unfoldable pub all_messages : JsonText → List (List String) → List (Dict Json)
unfolding messages
all_messages jt [] = []
all_messages jt (raws ∷ more) = messages jt raws ++ all_messages jt more

-- From a scene to a later one by emissions of the maps `ds` in turn: the state has them written, the
-- number has advanced by one for each, and every client whose queue brought it to the state is
-- brought to the later state by its queue.
pub record Relayed (ds : List (Dict Json)) (s : Scene) (h : Heap) (r : Scene × Heap) : Type 0 where
  pub state : r.0.store.state ≡ written s.store.state ds
  pub number : r.0.seq.cur ≡ s.seq.cur + length ds
  pub clients :
      (i : ℕ) (c : Dict Json)
      → Follows i (record { scene = s; heap = h; client = c })
      → Follows i (record { scene = r.0; heap = r.1; client = c })

quiet-Relayed : (s : Scene) (h : Heap) → Relayed [] s h (s, h)
unfolding written
quiet-Relayed s h = record { state = refl; number = omega arith; clients = λ i c f. f }

written-append :
    (st : Dict Json) (ds es : List (Dict Json)) → written (written st ds) es ≡ written st (ds ++ es)
unfolding written
written-append st [] es = refl
written-append st (d ∷ ds) es = written-append (update st d) ds es

append-Relayed :
    (ds es : List (Dict Json)) (s : Scene) (h : Heap) (q r : Scene × Heap)
    → Relayed ds s h q
    → Relayed es q.0 q.1 r
    → Relayed (ds ++ es) s h r
append-Relayed ds es s h q r before later = record {
  state = later.state ∙ ap (λ st. written st es) before.state ∙ written-append s.store.state ds es;
  number = omega (arith, before.number, later.number, length-append ds es);
  clients = λ i c f. later.clients i c (before.clients i c f);
}

emission-Relayed :
    (e : Emission) (s : Scene) (h : Heap)
    → Relayed (((e.path, e.value) ∷ e.more) ∷ []) s h (after_emit e s, heap_after e s h)
unfolding after_emit written
emission-Relayed e s h = record {
  state = refl;
  number = refl;
  clients = λ i c f. emitted-Follows i e (record { scene = s; heap = h; client = c }) f;
}

spoken-cons :
    (d : Dict Json) (ds : List (Dict Json)) → spoken (d ∷ []) ++ spoken ds ≡ spoken (d ∷ ds)
unfolding spoken
spoken-cons [] ds = refl
spoken-cons (e ∷ d) ds = refl

spoken-append : (ds es : List (Dict Json)) → spoken ds ++ spoken es ≡ spoken (ds ++ es)
unfolding spoken
spoken-append [] es = refl
spoken-append ([] ∷ ds) es = spoken-append ds es
spoken-append ((e ∷ d) ∷ ds) es = ap (λ r. (e ∷ d) ∷ r) (spoken-append ds es)

-- one map, which is emitted where it is not empty
emit_if_any-Relayed :
    (d : Dict Json) (s : Scene) (h : Heap)
    → (r : Scene × Heap) × (emit_if_any d s h ≡ some r) × Relayed (spoken (d ∷ [])) s h r
unfolding emit_if_any spoken
emit_if_any-Relayed [] s h = ((s, h), refl, quiet-Relayed s h)
emit_if_any-Relayed ((k, v) ∷ d) s h =
    let e : Emission = record { path = k; value = v; more = d; cause = none } in
    ((after_emit e s, heap_after e s h), emit-after_emit e s h, emission-Relayed e s h)

-- a map, and what comes after it
then-Relayed :
    (d : Dict Json) (ds : List (Dict Json)) (s : Scene) (h : Heap) (q r : Scene × Heap)
    → Relayed (spoken (d ∷ [])) s h q
    → Relayed (spoken ds) q.0 q.1 r
    → Relayed (spoken (d ∷ ds)) s h r
then-Relayed d ds s h q r one rest =
    rw (spoken-cons d ds) at (append-Relayed (spoken (d ∷ [])) (spoken ds) s h q r one rest)

http-Relayed :
    (polls : List (Option Json)) (s : Scene) (h : Heap)
    → (r : Scene × Heap) × (http_poll_adapter none polls s h ≡ some r)
      × Relayed (spoken (polled polls)) s h r
unfolding http_poll_adapter poll polled spoken
http-Relayed [] s h = ((s, h), refl, quiet-Relayed s h)
http-Relayed (none ∷ more) s h = http-Relayed more s h
http-Relayed (some body ∷ more) s h =
    let (q, emitted, one) = emit_if_any-Relayed (flatten body "") s h in
    let (r, went_on, rest) = http-Relayed more q.0 q.1 in
    (
      r,
      rw (http_poll_adapter, emitted) went_on,
      subst (λ (d : Dict Json). Relayed (spoken (d ∷ polled more)) s h r) (flatten-said_by body)
          (then-Relayed (flatten body "") (polled more) s h q r one rest),
    )

-- a message that is no object says nothing
spoken_object :
    (body : Json) (ds : List (Dict Json))
    → spoken (message_patches body ∷ ds) ≡ spoken (object_of (some body) ++ ds)
unfolding spoken
spoken_object (obj fs) ds = refl
spoken_object null ds = refl
spoken_object (bool b) ds = refl
spoken_object (int n) ds = refl
spoken_object (real x) ds = refl
spoken_object (text t) ds = refl
spoken_object (arr xs) ds = refl

module _ (jt : JsonText) where
  relay-Relayed :
      (raws : List String) (s : Scene) (h : Heap)
      → Relayed (spoken (messages jt raws)) s h (relay jt none raws s h)
  unfolding relay upstream messages spoken
  relay-Relayed [] s h = quiet-Relayed s h
  relay-Relayed (raw ∷ raws) s h = elim (Option-cases (jt.loads raw)) [
    | inl dropped ↦ rw (messages, relay, dropped) (relay-Relayed raws s h)
    | inr (body, read) ↦
        let (q, emitted, one) = emit_if_any-Relayed (message_patches body) s h in
        rw (messages, relay, read, emitted)
          (rw (spoken_object body (messages jt raws)) at (
            then-Relayed (message_patches body) (messages jt raws) s h q _ one
              (relay-Relayed raws q.0 q.1)))
  ]

  ws-Relayed :
      (connections : List (List String)) (s : Scene) (h : Heap)
      → Relayed
          (spoken (all_messages jt connections))
          s
          h
          (ws_subscribe_adapter jt none connections s h)
  unfolding ws_subscribe_adapter all_messages spoken
  ws-Relayed [] s h = quiet-Relayed s h
  ws-Relayed (raws ∷ more) s h =
      let q = relay jt none raws s h in
      rw (spoken-append (messages jt raws) (all_messages jt more)) at (
        append-Relayed (spoken (messages jt raws)) (spoken (all_messages jt more)) s h q _
          (relay-Relayed raws s h) (ws-Relayed more q.0 q.1))

  -- Whatever the requests and the connections of an adapter without a transform bring, failures and
  -- texts that are no JSON included, it does not raise: it emits in turn the leaves of the bodies by
  -- their dotted paths, or the body under `value` where it is no object, or the messages that are
  -- objects, where they are not empty. The state then has them written in
  -- their order, the number has advanced by one for each, and every client whose queue brought it
  -- to the state before is brought to the state after by its queue.
  pub adapters-Relayed :
      (polls : List (Option Json)) (connections : List (List String)) (s : Scene) (h : Heap)
      → ((r : Scene × Heap) × (http_poll_adapter none polls s h ≡ some r)
          × Relayed (spoken (polled polls)) s h r)
        × Relayed
            (spoken (all_messages jt connections))
            s
            h
            (ws_subscribe_adapter jt none connections s h)
  adapters-Relayed polls connections s h = (http-Relayed polls s h, ws-Relayed connections s h)
