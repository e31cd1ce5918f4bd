-- ===== src/Cli/Build.antt =====
-- cli/build.py: `run`, which seals a bundle with its address and writes it. The file system answers
-- whether the path is a file and what was read of it; json.dumps with sorted keys is a parameter.
use lumencast_py.Prelude.{ℕ, String, ◌≡◌, refl, Bool, true, false, Option, none, some}
use lumencast_py.Prelude.Dict
use lumencast_py.Prelude.Dict.{Dict}
use lumencast_py.Json.{Json, text, obj, Fields, to_dict, of_dict, Result, ok, ◌>>=◌}
use lumencast_py.Json.Builtins.{Builtins}
use lumencast_py.Lsml.Number.{Numerals}
use lumencast_py.Lsml.Canonical.{Digest, hash_inline_bundle}
use lumencast_py.Lsml.Canonical.Address.{hash_inline_bundle-sealed}

-- The exit code, what is written to the file of `--out`, and what is printed.
pub record Outcome : Type 0 where
  pub exit : ℕ
  pub written : Option String
  pub printed : Option String

abbrev pub failed : ℕ → Outcome
failed code = record { exit = code; written = none; printed = none }

-- with `--out` the digest is printed, else the bundle
abbrev pub deliver : Bool → String → String → Outcome
deliver true canonical digest = record { exit = 0; written = some canonical; printed = some digest }
deliver false canonical digest = record { exit = 0; written = none; printed = some canonical }

module _ (py : Builtins) (num : Numerals) (dig : Digest) (dumps_sorted : Json → String) where
  -- bundle["scene_version"] = hash_inline_bundle(bundle)
  unfoldable pub seal : Dict Json → Result (Dict Json × String)
  seal bundle = do
    digest ← hash_inline_bundle py num dig bundle
    ok (Dict.put "scene_version" (text digest) bundle, digest)

  abbrev pub build : Bool → Json → Result Outcome
  build out (obj fs) = do
    (bundle, digest) ← seal (to_dict fs)
    ok (deliver out (dumps_sorted (obj (of_dict bundle))) digest)
  build out v = ok (failed 1)

  -- `none` for a text that could not be read or is no JSON
  abbrev pub build_read : Bool → Option Json → Result Outcome
  build_read out none = ok (failed 2)
  build_read out (some v) = build out v

  unfoldable pub run : Bool → Option Json → Bool → Result Outcome
  unfolding seal
  run true read out = build_read out read
  run false read out = ok (failed 2)

  -- A bundle that has a `scene_version` and an address is delivered with exit code 0, as the dump
  -- of the bundle with its `scene_version` replaced by the address: with `--out` the dump is
  -- written and the address printed, else the dump is printed. What is delivered verifies: the
  -- address computed from it is the one it carries.
  pub run-Verifies :
      (fs : Fields) (h : String)
      → Dict.has "scene_version" (to_dict fs) ≡ true
      → hash_inline_bundle py num dig (to_dict fs) ≡ ok h
      → (b : Dict Json) × (b ≡ Dict.put "scene_version" (text h) (to_dict fs))
        × (run true (some (obj fs)) true
            ≡ ok (record {
              exit = 0;
              written = some (dumps_sorted (obj (of_dict b)));
              printed = some h;
            }))
        × (run true (some (obj fs)) false
            ≡ ok (record {
              exit = 0;
              written = none;
              printed = some (dumps_sorted (obj (of_dict b)));
            }))
        × (Dict.get "scene_version" b ≡ some (text h))
        × (hash_inline_bundle py num dig b ≡ ok h)
  unfolding run
  run-Verifies fs h there e =
      let (carried, verifies) =
        (hash_inline_bundle-sealed py num dig (text h) (to_dict fs) there).1 h e in
      (
        Dict.put "scene_version" (text h) (to_dict fs),
        refl,
        rw e refl,
        rw e refl,
        carried,
        verifies,
      )
