-- ===== src/Server/Session/Inputs.antt =====
-- server/ws_handler.py: what the reader does with the inputs of a client.
use Prim.Native.String.{◌++◌ as cat}
use mathlib.Core.Path.{subst}
use lumencast_py.Prelude.{
  true, ◌≢◌, ◌⊎◌, sym, ap, str_eq, eq_iff, arith, String, Option, none, some, List, [], ◌∷◌, ◌≡◌,
  refl, ◌∙◌, inl, inr, All, if◌then◌else◌, Bool-cases,
}
use lumencast_py.Prelude.Dict
use lumencast_py.Json.{
  pos, Json, null, bool, int, real, text, arr, obj, of_dict, Result, ok, raise, Exception,
  version_mismatch, decode_error, unknown_type, value_error, type_error, overflow_error, key_error,
  attribute_error, runtime_error, ◌>>=◌,
}
use lumencast_py.Json.Builtins.{Builtins}
use lumencast_py.Protocol.Envelope.{JsonText, ReadsBack}
use lumencast_py.Protocol.Codec.Decode.{decode_client}
use lumencast_py.Protocol.Codec.Encode.{client_frame_to_dict, encode_client}
use lumencast_py.Protocol.Codec.RoundTrip.{decode_client-encode_client}
use lumencast_py.Protocol.Errors.{of_value, value}
use lumencast_py.Protocol.Frames.{Patch, Cause, ClientFrame, ServerFrame, Input}
use lumencast_py.Protocol.Types.{Role}
use lumencast_py.Server.Auth.{Identity, can_write_role}
use lumencast_py.Server.Scene.{Scene, current_seq}
use lumencast_py.Server.Scene.ApplyInput.{Rejection, apply_input, as_dict}
use lumencast_py.Server.Scene.ApplyInput.Admission.{
  Admissible, apply_input_commits, apply_input_atomic,
}
use lumencast_py.Server.Scene.ApplyInput.Codes.{IsListed, apply_input-IsListed}
use lumencast_py.Server.Scene.ApplyInput.Namespaces.{IsPrivate, apply_input_private}
use lumencast_py.Server.Scene.Resume.{Emission, patches_of, after_emit, heap_after}
use lumencast_py.Server.Subscription.{Heap}
use lumencast_py.Server.Session.{
  Session, Texts, dispatch, undecoded, round, dispatched, reader, answer, after_input, cause_of,
  push_out, send, send_error, role_of, subject_of,
}

-- the value of leaf `j` for a session
abbrev pub leaf : String → Session → Option Json
leaf j t = Dict.get j t.scene.store.state

-- What an emission says of the input that caused it: nothing where the input has no id, and else
-- the id beside the role and the subject, or the role again where the subject is empty.
pub data Provenance (texts : Texts) (who : Identity) (id : Json) : Option Cause → Type 0 where
  unnamed : id ≡ null → Provenance texts who id none
  named :
      (r : Role) (subject : String)
      → who.role ≡ some r
      → id ≢ null
      → ((who.subject ≢ "") × (subject ≡ who.subject))
        ⊎ ((who.subject ≡ "") × (subject ≡ texts.role r))
      → Provenance texts who id
          (some (record { source = cat (cat (texts.role r) ":") subject; input_id = id }))

module _ (py : Builtins) (texts : Texts) where
  leaf-undecoded :
      (e : Exception) (t : Session) (j : String) → leaf j (undecoded texts e t) ≡ leaf j t
  unfolding undecoded
  leaf-undecoded version_mismatch t j = refl
  leaf-undecoded decode_error t j = refl
  leaf-undecoded unknown_type t j = refl
  leaf-undecoded value_error t j = refl
  leaf-undecoded type_error t j = refl
  leaf-undecoded overflow_error t j = refl
  leaf-undecoded key_error t j = refl
  leaf-undecoded attribute_error t j = refl
  leaf-undecoded runtime_error t j = refl

  leaf-answer :
      (r : Option Rejection) (t : Session) (j : String) → leaf j (answer texts r t) ≡ leaf j t
  leaf-answer none t j = refl
  leaf-answer (some r) t j = refl

  input_leaf_lem :
      (who : Identity) (m : Input) (t : Session) (j : String)
      (res : Result (Option Rejection × (Scene × Heap)))
      → apply_input py who m.patches (cause_of texts who m.client_msg_id) t.scene t.heap ≡ res
      → IsPrivate j
      → leaf j
          (dispatched py texts
            (do done ← res; ok (after_input texts t done))
            (ClientFrame.input m)
            t).0
        ≡ leaf j t
  input_leaf_lem who m t j (raise e) h o = refl
  input_leaf_lem who m t j (ok (r, (s, k))) h o =
      leaf-answer r (record t { scene = s; heap = k }) j
      ∙ apply_input_private py who m.patches _ t.scene s t.heap k r j h o

  leaf-round :
      (who : Identity) (r : Result ClientFrame) (t : Session) (j : String)
      → IsPrivate j
      → leaf j (round py texts who r t).0 ≡ leaf j t
  unfolding dispatch
  leaf-round who (raise e) t j o = leaf-undecoded e t j
  leaf-round who (ok (ClientFrame.input m)) t j o = input_leaf_lem who m t j _ refl o
  leaf-round who (ok (ClientFrame.ping n)) t j o = refl
  leaf-round who (ok (ClientFrame.pong n)) t j o = refl
  leaf-round who (ok ClientFrame.unsubscribe) t j o = refl
  leaf-round who (ok (ClientFrame.subscribe m)) t j o = refl

  reader_cons :
      (jt : JsonText) (who : Identity) (raw : String) (raws : List String) (t : Session)
      → reader py texts jt who (raw ∷ raws) t ≡ (
          let (t', on) = round py texts who (decode_client py jt raw) t in
          if on then reader py texts jt who raws t' else t')
  unfolding reader
  reader_cons jt who raw raws t = refl

  reader_nil : (jt : JsonText) (who : Identity) (t : Session) → reader py texts jt who [] t ≡ t
  unfolding reader
  reader_nil jt who t = refl

  -- Whatever texts a client sends in a session, decodable or not, accepted or rejected: a leaf
  -- outside the namespaces `__inputs` and `__test` keeps its value, or its absence.
  pub reader_private :
      (jt : JsonText) (who : Identity) (raws : List String) (t : Session) (j : String)
      → IsPrivate j
      → leaf j (reader py texts jt who raws t) ≡ leaf j t
  reader_private jt who [] t j o = rw (reader_nil jt who t) refl
  reader_private jt who (raw ∷ raws) t j o =
      let r = round py texts who (decode_client py jt raw) t in
      let here = leaf-round who (decode_client py jt raw) t j o in
      rw (reader_cons jt who raw raws t) (elim (Bool-cases r.1) [
        | inl on ↦ rw on (reader_private jt who raws r.0 j o ∙ here)
        | inr off ↦ rw off here
      ])

  -- the source, from what stands for the role and for the subject
  source_lem :
      (who : Identity) (r : Role) (subject : String) (id : Json)
      → who.role ≡ some r
      → subject_of texts who ≡ subject
      → Provenance texts who id
          (some (record { source = cat (cat (texts.role r) ":") subject; input_id = id }))
      → Provenance texts who id (
          some (record {
            source = cat (cat (role_of texts who.role) ":") (subject_of texts who);
            input_id = id;
          }))
  source_lem who r subject id role called p =
      subst (λ (z : String). Provenance texts who id (some (record { source = z; input_id = id })))
        (sym (
          ap (λ x. cat (cat (role_of texts x) ":") (subject_of texts who)) role
          ∙ ap (cat (cat (texts.role r) ":")) called))
        p

  named_cause :
      (who : Identity) (r : Role) (id : Json)
      → who.role ≡ some r
      → id ≢ null
      → Provenance texts who id (
          some (record {
            source = cat (cat (role_of texts who.role) ":") (subject_of texts who);
            input_id = id;
          }))
  unfolding subject_of
  named_cause who r id role ne = elim (Bool-cases (str_eq who.subject "")) [
    | inl empty ↦
        source_lem who r (texts.role r) id role (rw empty (ap (role_of texts) role))
          (Provenance.named r (texts.role r) role ne (inr ((eq_iff who.subject "").0 empty, refl)))
    | inr filled ↦ source_lem who r who.subject id role (rw filled refl) (
        Provenance.named r who.subject role ne
          (inl ((λ e. absurd (ground (arith, eq_iff who.subject "", filled, e))), refl)))
  ]

  cause_of-Provenance :
      (who : Identity) (r : Role) (id : Json)
      → who.role ≡ some r
      → Provenance texts who id (cause_of texts who id)
  unfolding cause_of
  cause_of-Provenance who r null role = Provenance.unnamed refl
  cause_of-Provenance who r (bool b) role = named_cause who r (bool b) role (λ e. cc e)
  cause_of-Provenance who r (int n) role = named_cause who r (int n) role (λ e. cc e)
  cause_of-Provenance who r (real x) role = named_cause who r (real x) role (λ e. cc e)
  cause_of-Provenance who r (text x) role = named_cause who r (text x) role (λ e. cc e)
  cause_of-Provenance who r (arr x) role = named_cause who r (arr x) role (λ e. cc e)
  cause_of-Provenance who r (obj x) role = named_cause who r (obj x) role (λ e. cc e)

  -- An input frame that a client encodes, whose patches are not none and all admissible for its
  -- identity, is emitted whole by the session, and the session goes on, where the JSON library
  -- reads back the object that it wrote. Its provenance is none where it has no message id, and
  -- else that id with the role of the identity and its subject, or the role again where the
  -- subject is empty.
  pub reader_commits :
      (jt : JsonText) (who : Identity) (p : Patch) (ps : List Patch) (id : Json)
      (raws : List String) (t : Session)
      → (let f = ClientFrame.input (record { patches = p ∷ ps; client_msg_id = id }) in
          ReadsBack jt (obj (of_dict (client_frame_to_dict py f)))
          → All (Admissible py who t.scene) (p ∷ ps)
          → (e : Emission) × (patches_of e ≡ as_dict (p ∷ ps) [])
            × Provenance texts who id e.cause
            × (reader py texts jt who (encode_client py jt f ∷ raws) t
                ≡ reader py texts jt who raws (record t {
                  scene = after_emit e t.scene;
                  heap = heap_after e t.scene t.heap;
                })))
  unfolding dispatch
  reader_commits jt who p ps id raws t back a =
      let f = ClientFrame.input (record { patches = p ∷ ps; client_msg_id = id }) in
      let (e, shape, same, done) =
        apply_input_commits py who p ps (cause_of texts who id) t.scene t.heap a in
      let (r, role, writes) = can_write_role who p.path a.0.writable in
      (
        e,
        shape,
        subst (Provenance texts who id) (sym same) (cause_of-Provenance who r id role),
        rw (reader_cons jt who (encode_client py jt f) raws t)
            (rw (decode_client-encode_client py jt f tt back) (rw done refl)),
      )

  -- the answer to a rejection with one of the three codes
  sent_as :
      (r : Rejection) (t : Session)
      → IsListed r.code
      → answer texts (some r) t
        ≡ push_out
            (send (
              ServerFrame.error (record {
                code = text r.code;
                message = text (texts.reason r.reason);
                recoverable = true;
                seq = pos (current_seq t.scene);
                ts = text "";
                retry_after_ms = pos 0;
                path = elim r.path [ none ↦ null | some p ↦ text p ];
              })))
            t
  unfolding send_error of_value value
  sent_as r t (inl e) = rw e refl
  sent_as r t (inr (inl e)) = rw e refl
  sent_as r t (inr (inr e)) = rw e refl

  -- An input frame that a client encodes and that the scene rejects is answered with one error
  -- frame at the scene's number, with the code and the path of the rejection and recoverable; the
  -- scene and every queue stay as they were, and the session goes on, where the JSON library reads
  -- back the object that it wrote.
  pub reader_rejects :
      (jt : JsonText) (who : Identity) (m : Input) (raws : List String) (t : Session)
      (r : Rejection) (s : Scene) (h : Heap)
      → ReadsBack jt (obj (of_dict (client_frame_to_dict py (ClientFrame.input m))))
      → apply_input py who m.patches (cause_of texts who m.client_msg_id) t.scene t.heap
        ≡ ok (some r, (s, h))
      → reader py texts jt who (encode_client py jt (ClientFrame.input m) ∷ raws) t
        ≡ reader py texts jt who raws (
            push_out
              (send (
                ServerFrame.error (record {
                  code = text r.code;
                  message = text (texts.reason r.reason);
                  recoverable = true;
                  seq = pos (current_seq t.scene);
                  ts = text "";
                  retry_after_ms = pos 0;
                  path = elim r.path [ none ↦ null | some p ↦ text p ];
                })))
              t)
  unfolding dispatch
  reader_rejects jt who m raws t r s h back e =
      let (scene_kept, heap_kept) = apply_input_atomic py who m.patches _ t.scene s t.heap h r e in
      let answered = sent_as r t (apply_input-IsListed py who m.patches _ t.scene s t.heap h r e) in
      rw (reader_cons jt who (encode_client py jt (ClientFrame.input m)) raws t) (
        rw (decode_client-encode_client py jt (ClientFrame.input m) tt back)
          (rw e (rw scene_kept (rw heap_kept (ap (reader py texts jt who raws) answered)))))
