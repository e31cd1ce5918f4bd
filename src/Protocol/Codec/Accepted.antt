-- ===== src/Protocol/Codec/Accepted.antt =====
-- protocol/codec.py: what every text that `decode_client` accepts has in it.
use lumencast_py.Prelude.{
  String, true, Option, none, some, inl, inr, ◌≡◌, refl, str_eq, arith, if◌then◌else◌, eq_iff,
  Bool-cases,
}
use lumencast_py.Prelude.Dict.{Dict, get}
use lumencast_py.Json.{
  bind-ok, Json, null, bool, int, real, text, arr, obj, Fields, to_dict, Exception, Result, ok,
  raise, ◌>>=◌,
}
use lumencast_py.Json.Builtins.{Builtins, default}
use lumencast_py.Protocol.Envelope.{JsonText, decode_json, object_of}
use lumencast_py.Protocol.Types.{
  frame_pong, frame_subscribe, frame_input, frame_ping, frame_unsubscribe,
}
use lumencast_py.Protocol.Frames.{ClientFrame}
use lumencast_py.Protocol.Codec.Parse.{
  check_envelope, parse_envelope, is_version, type_of, as_decode_error,
}
use lumencast_py.Protocol.Codec.Decode.{client_frame, decode_subscribe, decode_input, decode_client}

abbrev pub client_type : ClientFrame → String
client_type (ClientFrame.subscribe m) = frame_subscribe
client_type (ClientFrame.input m) = frame_input
client_type (ClientFrame.ping nonce) = frame_ping
client_type (ClientFrame.pong nonce) = frame_pong
client_type ClientFrame.unsubscribe = frame_unsubscribe

-- What a text that reads as a client frame holds.
pub record Stamped (jt : JsonText) (raw : String) (f : ClientFrame) : Type 0 where
  pub fields : Fields
  pub loads_raw : jt.loads raw ≡ some (obj fields)
  pub version_ok : is_version (get "v" (to_dict fields)) ≡ true
  pub discriminated : get "type" (to_dict fields) ≡ some (text (client_type f))

object_lem :
    (o : Option Json) (d : Dict Json)
    → as_decode_error (object_of o) ≡ ok d
    → (fs : Fields) × ((o ≡ some (obj fs)) × (d ≡ to_dict fs))
object_lem (some (obj fs)) d h = (fs, (refl, cc))
object_lem none d h = cc
object_lem (some null) d h = cc
object_lem (some (bool b)) d h = cc
object_lem (some (int n)) d h = cc
object_lem (some (real x)) d h = cc
object_lem (some (text s)) d h = cc
object_lem (some (arr xs)) d h = cc

type_lem : (o : Option Json) (t : String) → type_of o ≡ ok t → o ≡ some (text t)
type_lem (some (text s)) t h = cc
type_lem none t h = cc
type_lem (some null) t h = cc
type_lem (some (bool b)) t h = cc
type_lem (some (int n)) t h = cc
type_lem (some (real x)) t h = cc
type_lem (some (arr xs)) t h = cc
type_lem (some (obj fs)) t h = cc

raise_ok {ℓ κ} :
    {A : Type ℓ} {B : Type κ} {x : Exception} (a : A) → ◌≡◌ {A = Result A} (raise x) (ok a) → B
raise_ok a h = cc

check_lem :
    (env : Dict Json) (t : String) (e : Dict Json)
    → check_envelope env ≡ ok (t, e)
    → (is_version (get "v" env) ≡ true) × ((get "type" env ≡ some (text t)) × (e ≡ env))
unfolding check_envelope
check_lem env t e h = elim (Bool-cases (is_version (get "v" env))) [
  | inl same ↦
      let (u, (typed, out)) =
        bind-ok (type_of (get "type" env)) (λ u. ok (u, env)) (t, e) (rw same at h) in
      (same, (type_lem (get "type" env) t (cc), cc))
  | inr other ↦ raise_ok (t, e) (rw other at h)
]

type_of_ok : (g f : ClientFrame) → ok g ≡ ok f → client_type f ≡ client_type g
type_of_ok g f h = cc

-- What one test of a chain on the discriminator adds.
test_lem :
    (t k : String) (r rest : Result ClientFrame) (f : ClientFrame)
    → (r ≡ ok f → client_type f ≡ k)
    → (rest ≡ ok f → t ≡ client_type f)
    → (if str_eq t k then r else rest) ≡ ok f
    → t ≡ client_type f
test_lem t k r rest f here later h = elim (Bool-cases (str_eq t k)) [
  | inl same ↦ ground (arith, eq_iff t k, here (rw same at h))
  | inr other ↦ later (rw other at h)
]

module _ (py : Builtins) where
  subscribe_lem :
      (env : Dict Json) (f : ClientFrame)
      → (do s ← decode_subscribe py env; ok (ClientFrame.subscribe s)) ≡ ok f
      → client_type f ≡ frame_subscribe
  subscribe_lem env f h =
      let (s, (_, out)) =
        bind-ok (decode_subscribe py env) (λ s. ok (ClientFrame.subscribe s)) f h in
      type_of_ok (ClientFrame.subscribe s) f out

  input_lem :
      (env : Dict Json) (f : ClientFrame)
      → (do i ← decode_input py env; ok (ClientFrame.input i)) ≡ ok f
      → client_type f ≡ frame_input
  input_lem env f h =
      let (i, (_, out)) = bind-ok (decode_input py env) (λ i. ok (ClientFrame.input i)) f h in
      type_of_ok (ClientFrame.input i) f out

  client_type_lem :
      (t : String) (env : Dict Json) (f : ClientFrame)
      → client_frame py (t, env) ≡ ok f
      → t ≡ client_type f
  unfolding client_frame
  client_type_lem t env f h =
      let nonce = default (get "nonce" env) null in
      test_lem t frame_subscribe _ _ f (subscribe_lem env f)
        (test_lem t frame_input _ _ f (input_lem env f) (
          test_lem t frame_ping _ _ f (type_of_ok (ClientFrame.ping nonce) f) (
            test_lem t frame_pong _ _ f (type_of_ok (ClientFrame.pong nonce) f) (
              test_lem t frame_unsubscribe _ _ f (type_of_ok ClientFrame.unsubscribe f)
                (raise_ok f)))))
        h

  -- A text that decodes to a client frame is a JSON object whose version is the protocol's and
  -- whose discriminator is that of the frame.
  pub decode_client-Stamped :
      (jt : JsonText) (raw : String) (f : ClientFrame)
      → decode_client py jt raw ≡ ok f
      → Stamped jt raw f
  unfolding decode_client parse_envelope decode_json
  decode_client-Stamped jt raw f h =
      let ((t, e), (parsed, framed)) = bind-ok (parse_envelope jt raw) (client_frame py) f h in
      let (d, (read, checked)) =
        bind-ok (as_decode_error (object_of (jt.loads raw))) check_envelope (t, e) parsed in
      let (fs, (loaded, same)) = object_lem (jt.loads raw) d read in
      let (version, (typed, kept)) = check_lem d t e checked in
      record {
        fields = fs;
        loads_raw = loaded;
        version_ok = rw same at version;
        discriminated = rw same at (rw (client_type_lem t e f framed) at typed);
      }
