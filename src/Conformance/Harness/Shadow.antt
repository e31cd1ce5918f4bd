-- ===== src/Conformance/Harness/Shadow.antt =====
-- conformance/harness.py: the shadow state follows the deltas that the codec writes.
use lumencast_py.Prelude.{List, [], ◌∷◌, map, ◌≡◌, refl, ap, some}
use lumencast_py.Prelude.Dict.{Dict, get, put}
use lumencast_py.Json.{
  Json, arr, obj, Fields, Items, nil, cons, of_dict, of_list, to_list, to_dict, to_dict-of_dict,
  to_list-of_list, null, text, ok,
}
use lumencast_py.Json.Builtins.{Builtins, truthy, to_text, or_else, default}
use lumencast_py.Protocol.Frames.{Delta, Patch, ServerFrame}
use lumencast_py.Protocol.Codec.Encode.{server_frame_to_dict, patch_to_dict, patches_to_json}
use lumencast_py.Protocol.Codec.Parts.{get-put_some_other}
use lumencast_py.Protocol.Codec.RoundTrip.{get-put_truthy_other}
use lumencast_py.Server.Scene.Resume.{write_patches}
use lumencast_py.Conformance.Harness.{absorb_patches, absorb_list, absorb_server_frame}

module _ (py : Builtins) where
  path_there : (p : Patch) → get "path" (to_dict (of_dict (patch_to_dict p))) ≡ some (text p.path)
  unfolding patch_to_dict get
  path_there p = rw (to_dict-of_dict (patch_to_dict p)) (simp (get-put_some_other))

  value_there :
      (p : Patch) → default (get "value" (to_dict (of_dict (patch_to_dict p)))) null ≡ p.value
  unfolding patch_to_dict get
  value_there p = rw (to_dict-of_dict (patch_to_dict p)) (simp (get-put_some_other))

  absorb_found :
      (fs : Fields) (path v : Json) (ps : List Json) (st : Dict Json)
      → get "path" (to_dict fs) ≡ some path
      → default (get "value" (to_dict fs)) null ≡ v
      → absorb_patches py (obj fs ∷ ps) st ≡ absorb_patches py ps (put (to_text py path) v st)
  unfolding absorb_patches
  absorb_found fs path v ps st h e = rw (h, absorb_patches) (rw e refl)

  absorb_one :
      (p : Patch) (ps : List Json) (st : Dict Json)
      → absorb_patches py (obj (of_dict (patch_to_dict p)) ∷ ps) st
        ≡ absorb_patches py ps (put p.path p.value st)
  unfolding to_text
  absorb_one p ps st =
      absorb_found (of_dict (patch_to_dict p)) (text p.path) p.value ps st (path_there p)
        (value_there p)

  absorb_nil : (st : Dict Json) → absorb_patches py [] st ≡ st
  unfolding absorb_patches
  absorb_nil st = refl

  absorb_patches-map :
      (ps : List Patch) (st : Dict Json)
      → absorb_patches py (map (λ p. obj (of_dict (patch_to_dict p))) ps) st ≡ write_patches st ps
  unfolding write_patches
  absorb_patches-map [] st = absorb_nil st
  absorb_patches-map (p ∷ ps) st =
      rw (absorb_one p _ st) (absorb_patches-map ps (put p.path p.value st))

  or_nil :
      (xs : Items) (st : Dict Json)
      → absorb_list py (or_else py (arr xs) (arr nil)) st ≡ ok (absorb_patches py (to_list xs) st)
  unfolding truthy
  or_nil nil st = refl
  or_nil (cons x xs) st = refl

  absorb_json :
      (ps : List Patch) (st : Dict Json)
      → absorb_list py (or_else py (patches_to_json ps) (arr nil)) st ≡ ok (write_patches st ps)
  unfolding patches_to_json
  absorb_json ps st = rw (or_nil (of_list (map (λ p. obj (of_dict (patch_to_dict p))) ps)) st) (
      rw (to_list-of_list (map (λ p. obj (of_dict (patch_to_dict p))) ps))
        (ap ok (absorb_patches-map ps st)))

  -- Absorbing the dict that the codec writes for a delta does not raise, and writes its patches on the shadow state,
  -- in their order, whatever timestamp, cause and transitions the delta has.
  pub absorb_server_frame-server_frame_to_dict :
      (m : Delta) (st : Dict Json)
      → absorb_server_frame py (server_frame_to_dict py (ServerFrame.delta m)) st
        ≡ ok (write_patches st m.patches)
  unfolding absorb_server_frame server_frame_to_dict get
  absorb_server_frame-server_frame_to_dict m st =
      simp (get-put_some_other, get-put_truthy_other) (absorb_json m.patches st)
