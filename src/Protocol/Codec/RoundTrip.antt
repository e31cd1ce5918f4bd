-- ===== src/Protocol/Codec/RoundTrip.antt =====
-- protocol/codec.py: decoding gives back the frame that was encoded.
use lumencast_py.Prelude.{
  String, true, false, none, [], ◌∷◌, ◌⊎◌, inl, inr, ◌≡◌, refl, ap, sym, str_eq, arith, eq_iff,
  zero, suc,
}
use lumencast_py.Prelude.Dict.{Dict, get, get-put}
use lumencast_py.Json.{
  ℤ, pos, negsuc, Json, null, int, text, Fields, obj, to_dict, of_dict, ok, ◌>>=◌, to_dict-of_dict,
}
use lumencast_py.Json.Builtins.{Builtins, to_int, default, truthy, or_else, to_mapping}
use lumencast_py.Protocol.Envelope.{JsonText, ReadsBack, encode_json, decode_json}
use lumencast_py.Protocol.Frames.{
  ClientFrame, ServerFrame, Subscribe, Input, Snapshot, Delta, SceneChanged, Error,
}
use lumencast_py.Protocol.Codec.Parse.{check_envelope, parse_envelope, is_version}
use lumencast_py.Protocol.Codec.Decode.{
  text_or_empty, client_frame, server_frame, decode_subscribe, decode_input, decode_snapshot,
  decode_delta, decode_scene_changed, decode_error_frame, decode_client, decode_server,
}
use lumencast_py.Protocol.Codec.Encode.{
  put_truthy, server_frame_to_dict, client_frame_to_dict, encode_server, encode_client,
}
use lumencast_py.Protocol.Codec.Parts.{
  get-put_some_same, get-put_some_other, default-put_set_same, get-put_set_other,
  parse_patches-patches_to_json, parse_scene_transition_lem, parse_cause_lem, int_if_set_lem,
}

-- A value that counts as set, or the one that stands for an unset field.
abbrev pub SetOr : Builtins → Json → Json → Type 0
SetOr py d v = (truthy py v ≡ true) ⊎ (v ≡ d)

of_dict_cons :
    (k : String) (v : Json) (d : Dict Json) → of_dict ((k, v) ∷ d) ≡ Fields.field k v (of_dict d)
unfolding of_dict
of_dict_cons k v d = refl

module _ (py : Builtins) where
  empty_mapping : to_mapping py (or_else py (obj (of_dict [])) (obj Fields.end)) ≡ ok []
  unfolding to_mapping truthy of_dict to_dict
  empty_mapping = refl

  pub get-put_truthy_other :
      (k j : String) (v : Json) (d : Dict Json)
      → str_eq k j ≡ false
      → get j (put_truthy py k v d) ≡ get j d
  get-put_truthy_other k j v d h = ground (arith, h, get-put k j v d)

  default-put_truthy :
      (k : String) (v e : Json) (d : Dict Json)
      → get k d ≡ none
      → truthy py e ≡ false
      → SetOr py e v
      → default (get k (put_truthy py k v d)) e ≡ v
  default-put_truthy k v e d h off (inl on) = rw on (ground (arith, get-put k k v d, eq_iff k k))
  default-put_truthy k v e d h off (inr same) = rw same (rw off (rw h refl))

  text_or_empty-put_truthy :
      (k : String) (v : Json) (d : Dict Json)
      → get k d ≡ none
      → SetOr py (text "") v
      → text_or_empty py (get k (put_truthy py k v d)) ≡ v
  unfolding truthy
  text_or_empty-put_truthy k v d h on =
      rw (default-put_truthy k v (text "") d h refl on) (or_empty on)
    where
      or_empty : SetOr py (text "") v → or_else py v (text "") ≡ v
      or_empty (inl t) = rw t refl
      or_empty (inr e) = rw e refl

  to_mapping-or_else :
      (d : Dict Json) → to_mapping py (or_else py (obj (of_dict d)) (obj Fields.end)) ≡ ok d
  unfolding to_mapping truthy
  to_mapping-or_else [] = empty_mapping
  to_mapping-or_else ((k, v) ∷ d) =
      rw (of_dict_cons k v d) (ap ok (rw (sym (of_dict_cons k v d)) (to_dict-of_dict ((k, v) ∷ d))))

  read_snapshot :
      (m : Snapshot)
      → SetOr py (text "") m.ts
      → (check_envelope (server_frame_to_dict py (ServerFrame.snapshot m)) >>= server_frame py)
        ≡ ok (ServerFrame.snapshot m)
  unfolding check_envelope is_version server_frame server_frame_to_dict decode_snapshot get to_int
  read_snapshot m set =
      simp (get-put_truthy_other, text_or_empty-put_truthy "ts" m.ts)
        (rw (to_mapping-or_else m.state) refl)

  read_delta :
      (m : Delta)
      → SetOr py (text "") m.ts
      → (check_envelope (server_frame_to_dict py (ServerFrame.delta m)) >>= server_frame py)
        ≡ ok (ServerFrame.delta m)
  unfolding check_envelope is_version server_frame server_frame_to_dict decode_delta get to_int
  read_delta m set = simp (
    get-put_some_other,
    get-put_some_same,
    get-put_truthy_other,
    text_or_empty-put_truthy "ts" m.ts,
    parse_patches-patches_to_json,
    parse_cause_lem,
  )

  read_scene_changed :
      (m : SceneChanged)
      → SetOr py (text "") m.ts
      → SetOr py null m.from_scene_id
      → (check_envelope (server_frame_to_dict py (ServerFrame.scene_changed m)) >>= server_frame py)
        ≡ ok (ServerFrame.scene_changed m)
  unfolding check_envelope is_version server_frame server_frame_to_dict decode_scene_changed get
      to_int truthy
  read_scene_changed m set from = simp (
    get-put_some_other,
    get-put_some_same,
    get-put_truthy_other,
    text_or_empty-put_truthy "ts" m.ts,
    default-put_truthy "from_scene_id" m.from_scene_id null,
    parse_scene_transition_lem,
  )

  retry_lem :
      (n : ℤ) (d : Dict Json)
      → get "retry_after_ms" d ≡ none
      → to_int py (
          or_else py
            (default
              (get "retry_after_ms" (put_truthy py "retry_after_ms" (int n) d))
              (int (pos 0)))
            (int (pos 0)))
        ≡ ok n
  unfolding truthy to_int
  retry_lem (pos zero) d h = rw h refl
  retry_lem (pos (suc n)) d h =
      ground (arith, get-put "retry_after_ms" "retry_after_ms" (int (pos (suc n))) d)
  retry_lem (negsuc n) d h =
      ground (arith, get-put "retry_after_ms" "retry_after_ms" (int (negsuc n)) d)

  read_error :
      (m : Error)
      → SetOr py (text "") m.ts
      → (check_envelope (server_frame_to_dict py (ServerFrame.error m)) >>= server_frame py)
        ≡ ok (ServerFrame.error m)
  unfolding check_envelope is_version server_frame server_frame_to_dict decode_error_frame get
      to_int truthy
  read_error m set = simp (
    get-put_set_other,
    default-put_set_same,
    get-put_truthy_other,
    text_or_empty-put_truthy "ts" m.ts,
    retry_lem,
  )

  read_subscribe :
      (m : Subscribe)
      → SetOr py (text "") m.scene
      → SetOr py (text "") m.session
      → (check_envelope (client_frame_to_dict py (ClientFrame.subscribe m)) >>= client_frame py)
        ≡ ok (ClientFrame.subscribe m)
  unfolding check_envelope is_version client_frame client_frame_to_dict decode_subscribe get to_int
  read_subscribe m scene session = simp (
    get-put_some_other,
    get-put_some_same,
    get-put_truthy_other,
    text_or_empty-put_truthy "scene" m.scene,
    text_or_empty-put_truthy "session" m.session,
    int_if_set_lem,
  )

  read_input :
      (m : Input)
      → (check_envelope (client_frame_to_dict py (ClientFrame.input m)) >>= client_frame py)
        ≡ ok (ClientFrame.input m)
  unfolding check_envelope is_version client_frame client_frame_to_dict decode_input get
  read_input m = simp (get-put_set_other, default-put_set_same, parse_patches-patches_to_json)

  -- The fields that the encoder leaves out where they do not count as set.
  abbrev pub Written : ServerFrame → Type 0
  Written (ServerFrame.snapshot m) = SetOr py (text "") m.ts
  Written (ServerFrame.delta m) = SetOr py (text "") m.ts
  Written (ServerFrame.scene_changed m) = SetOr py (text "") m.ts × SetOr py null m.from_scene_id
  Written (ServerFrame.error m) = SetOr py (text "") m.ts
  Written (ServerFrame.pong nonce) = Unit
  Written (ServerFrame.ping nonce) = Unit

  abbrev pub Sent : ClientFrame → Type 0
  Sent (ClientFrame.subscribe m) = SetOr py (text "") m.scene × SetOr py (text "") m.session
  Sent f = Unit

  read_server_frame :
      (f : ServerFrame)
      → Written f
      → (check_envelope (server_frame_to_dict py f) >>= server_frame py) ≡ ok f
  unfolding check_envelope is_version server_frame server_frame_to_dict get
  read_server_frame (ServerFrame.snapshot m) h = read_snapshot m h
  read_server_frame (ServerFrame.delta m) h = read_delta m h
  read_server_frame (ServerFrame.scene_changed m) (ts, from) = read_scene_changed m ts from
  read_server_frame (ServerFrame.error m) h = read_error m h
  read_server_frame (ServerFrame.pong nonce) h = simp (get-put_set_other, default-put_set_same)
  read_server_frame (ServerFrame.ping nonce) h = simp (get-put_set_other, default-put_set_same)

  read_client_frame :
      (f : ClientFrame)
      → Sent f
      → (check_envelope (client_frame_to_dict py f) >>= client_frame py) ≡ ok f
  unfolding check_envelope is_version client_frame client_frame_to_dict get
  read_client_frame (ClientFrame.subscribe m) (scene, session) = read_subscribe m scene session
  read_client_frame (ClientFrame.input m) h = read_input m
  read_client_frame (ClientFrame.pong nonce) h = simp (get-put_set_other, default-put_set_same)
  read_client_frame (ClientFrame.ping nonce) h = simp (get-put_set_other, default-put_set_same)
  read_client_frame ClientFrame.unsubscribe h = refl

  -- A server frame that is encoded and decoded again is the same frame, for every frame whose
  -- timestamp (and source scene) either counts as set or is the default that decoding fills in,
  -- where the JSON library reads back the object that it wrote.
  pub decode_server-encode_server :
      (jt : JsonText) (f : ServerFrame)
      → Written f
      → ReadsBack jt (obj (of_dict (server_frame_to_dict py f)))
      → decode_server py jt (encode_server py jt f) ≡ ok f
  unfolding decode_server encode_server encode_json decode_json parse_envelope
  decode_server-encode_server jt f h back =
      rw back (rw (to_dict-of_dict (server_frame_to_dict py f)) (read_server_frame f h))

  -- A client frame that is encoded and decoded again is the same frame, for every frame whose
  -- scene and session either count as set or are the empty text, where the JSON library reads
  -- back the object that it wrote.
  pub decode_client-encode_client :
      (jt : JsonText) (f : ClientFrame)
      → Sent f
      → ReadsBack jt (obj (of_dict (client_frame_to_dict py f)))
      → decode_client py jt (encode_client py jt f) ≡ ok f
  unfolding decode_client encode_client encode_json decode_json parse_envelope
  decode_client-encode_client jt f h back =
      rw back (rw (to_dict-of_dict (client_frame_to_dict py f)) (read_client_frame f h))
