-- ===== src/Lsml/Canonical.antt =====
-- lsml/hash.py: `canonicalise` and the digests over it. json.dumps of a text, the UTF-8 encoding and
-- sha256 are parameters.
pub mod Order
pub mod Address
use lumencast_py.Prelude.{
  ℕ, String, Bool, true, false, Option, none, some, List, [], ◌∷◌, ◌++◌, if◌then◌else◌,
}
use lumencast_py.Prelude.Dict
use lumencast_py.Prelude.Dict.{Dict}
use lumencast_py.Prelude.TextOrder.{text_lt}
use Prim.Native.String.{◌++◌ as cat}
use lumencast_py.Json.{
  Json, Items, Fields, null, bool, int, real, text, arr, obj, Result, ok, raise, overflow_error,
  ◌>>=◌, of_dict, to_dict,
}
use lumencast_py.Json.Builtins.{Builtins, or_raise}
use lumencast_py.Lsml.Chars.{Chars}
use lumencast_py.Lsml.Number.{Numerals, format_number}

abbrev pub zero_hash : String
zero_hash = "sha256:0000000000000000000000000000000000000000000000000000000000000000"

-- sorted(d.items()), by the keys
unfoldable pub insert {ℓ} : {V : Type ℓ} → String × V → Dict V → Dict V
insert (k, v) [] = (k, v) ∷ []
insert (k, v) ((j, w) ∷ d) =
    let rest = insert (k, v) d in if text_lt k j then (k, v) ∷ (j, w) ∷ d else (j, w) ∷ rest

unfoldable pub sorted {ℓ} : {V : Type ℓ} → Dict V → Dict V
unfolding insert
sorted [] = []
sorted (e ∷ d) = insert e (sorted d)

-- ",".join(parts)
unfoldable pub join : List Chars → Chars
join [] = []
join (s ∷ []) = s
join (s ∷ t ∷ rest) = s ++ b',' ∷ join (t ∷ rest)

-- "true", "false" and "null"
abbrev pub true_chars : Chars
true_chars = b't' ∷ b'r' ∷ b'u' ∷ b'e' ∷ []

abbrev pub false_chars : Chars
false_chars = b'f' ∷ b'a' ∷ b'l' ∷ b's' ∷ b'e' ∷ []

abbrev pub null_chars : Chars
null_chars = b'n' ∷ b'u' ∷ b'l' ∷ b'l' ∷ []

-- What the encoder and the hash library answer.
pub record Digest : Type 0 where
  pub dumps : String → Chars
  pub utf_8 : Chars → List ℕ
  pub sha256_hex : List ℕ → String

-- The members of an object in the order of their keys; the first value without a canonical form
-- raises.
unfoldable pub members : Digest → Dict (Result Chars) → Result (List Chars)
members dig [] = ok []
members dig ((k, value) ∷ d) = do
  v ← value
  rest ← members dig d
  ok ((dig.dumps k ++ b':' ∷ v) ∷ rest)

module _ (py : Builtins) (num : Numerals) (dig : Digest) where
  unfoldable mutual
    pub canonicalise : Json → Result Chars
    canonicalise null = ok null_chars
    canonicalise (bool true) = ok true_chars
    canonicalise (bool false) = ok false_chars
    canonicalise (int n) = or_raise (py.float_of_int n) (raise overflow_error) >>= format_number num
    canonicalise (real f) = format_number num f
    canonicalise (text s) = ok (dig.dumps s)
    canonicalise (arr xs) = do parts ← canonicalise_items xs; ok (b'[' ∷ (join parts ++ b']' ∷ []))
    canonicalise (obj fs) = do
      parts ← members dig (sorted (canonicalise_fields fs))
      ok (b'{' ∷ (join parts ++ b'}' ∷ []))

    pub canonicalise_items : Items → Result (List Chars)
    canonicalise_items Items.nil = ok []
    canonicalise_items (Items.cons x xs) = do
      v ← canonicalise x
      rest ← canonicalise_items xs
      ok (v ∷ rest)

    pub canonicalise_fields : Fields → Dict (Result Chars)
    canonicalise_fields Fields.end = []
    canonicalise_fields (Fields.field k x fs) = (k, canonicalise x) ∷ canonicalise_fields fs

  -- a mapping, with its `scene_version` zeroed
  unfoldable pub replace_scene_version : Dict Json → Dict Json
  replace_scene_version bundle =
      if Dict.has "scene_version" bundle
      then Dict.put "scene_version" (text zero_hash) bundle
      else bundle

  unfoldable pub canonical_bytes : Dict Json → Result (List ℕ)
  unfolding canonicalise replace_scene_version
  canonical_bytes bundle = do
    s ← canonicalise (obj (of_dict (replace_scene_version bundle)))
    ok (dig.utf_8 s)

  unfoldable pub hash_bundle : Dict Json → Result String
  unfolding canonical_bytes
  hash_bundle bundle = do b ← canonical_bytes bundle; ok (dig.sha256_hex b)

  unfoldable pub hash_inline_bundle : Dict Json → Result String
  unfolding hash_bundle
  hash_inline_bundle inline = do h ← hash_bundle inline; ok (cat "sha256:" h)
