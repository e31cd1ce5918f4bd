-- ===== src/Tests/Lsml.antt =====
-- The address of a bundle, over numerals that are written as tallies.
use lumencast_py.Prelude.{
  ◌+◌, ◌≡◌, refl, ap, true, false, Option, none, some, [], ◌∷◌, length, arith, ◌-◌, ◌==◌,
  if◌then◌else◌,
}
use lumencast_py.Prelude.Dict.{Dict, get, put, has}
use lumencast_py.Json.{
  ℤ, pos, negsuc, Json, int, text, obj, Fields, field, end, ok, to_dict, of_dict,
}
use lumencast_py.Lsml.Chars.{Chars, repeat, lstrip, rstrip, before, after, contains, take, drop}
use lumencast_py.Json.Integers.{◌+ℤ◌, minus}
use lumencast_py.Prelude.{eq_iff}
use lumencast_py.Lsml.Canonical.{insert, sorted, members, join}
use lumencast_py.Lsml.Chars.Laws.{Free-repeat, length-repeat}
use lumencast_py.Lsml.Number.{Numerals, format_number, shortest_digits}
use lumencast_py.Lsml.Number.RoundTrip.{Legible}
use lumencast_py.Lsml.Number.Rendered.{IsRepr, format_number-Rendered}
use lumencast_py.Lsml.Canonical.{Digest, hash_inline_bundle}
use lumencast_py.Lsml.Canonical.Order.{Same, SameFields}
use lumencast_py.Lsml.Canonical.Address.{hash_inline_bundle-Same}
use lumencast_py.Cli.Build.{run, run-Verifies}
use lumencast_py.Tests.Input.{py}

-- int(): a sign and a tally
abbrev tally : Chars → Option ℤ
tally [] = none
tally (c ∷ []) = none
tally (c ∷ d ∷ s) = if c == b'+' then some (pos (length s)) else some (negsuc (length s - 1))

-- repr of every float is "120.50"
abbrev pub num : Numerals
num = record {
  is_nan = λ f. false;
  is_inf = λ f. false;
  is_zero = λ f. f.bits == 0;
  is_negative = λ f. false;
  repr_abs = λ f. b'1' ∷ b'2' ∷ b'0' ∷ b'.' ∷ b'5' ∷ b'0' ∷ [];
  show = λ n. b'|' ∷ repeat b'|' n;
  int_of = tally;
}

num-Legible : Legible num
num-Legible = record {
  unscaled = λ n. (refl, Free-repeat b'e' b'|' n refl);
  positive = λ n. ap (λ k. some (pos k)) (length-repeat b'|' n);
  negative = λ n. ap some (ap negsuc (omega (arith, length-repeat b'|' (n + 1))));
}

program : Unit {0}
unfolding format_number contains minus ◌+ℤ◌ before after lstrip rstrip take drop hash_inline_bundle
    insert sorted members join put has to_dict of_dict run
program = tt

-- the zero after the digits is dropped
rendered : format_number num (record { bits = 1 }) ≡ ok (b'1' ∷ b'2' ∷ b'0' ∷ b'.' ∷ b'5' ∷ [])
unfolding program
rendered = refl

format_number-Rendered_example :
    (t : Chars) × (format_number num (record { bits = 1 }) ≡ ok t)
    × (shortest_digits num t ≡ shortest_digits num (b'1' ∷ b'2' ∷ b'0' ∷ b'.' ∷ b'5' ∷ b'0' ∷ []))
unfolding program
format_number-Rendered_example =
    format_number-Rendered num num-Legible (record { bits = 1 }) refl refl
      (IsRepr.positional (record {
        unscaled = (refl, (refl, (refl, (refl, (refl, (refl, tt))))));
        pointed_once = (refl, (refl, tt));
        nonzero = refl;
      }))

-- two spellings of one bundle, with members in another order at two depths
abbrev inner : Fields
inner = field "b" (int (pos 2)) (field "a" (int (pos 1)) end)

abbrev inner_sorted : Fields
inner_sorted = field "a" (int (pos 1)) (field "b" (int (pos 2)) end)

abbrev first : Dict Json
first = ("scene_version", text "v") ∷ ("layout", obj inner) ∷ []

abbrev second : Dict Json
second = ("layout", obj inner_sorted) ∷ ("scene_version", text "v") ∷ []

-- the canonical text is its own encoding, and the hash is a constant
abbrev pub dig : Digest
dig = record { dumps = λ s. b'"' ∷ b'"' ∷ []; utf_8 = λ s. s; sha256_hex = λ b. "00" }

spelled : SameFields (of_dict first) (of_dict second)
unfolding program
spelled =
    SameFields.trans
      (SameFields.swapped "scene_version" "layout" (text "v") (obj inner) end
        (ground (arith, eq_iff "scene_version" "layout")))
      (SameFields.field "layout"
        (Same.fields (
          SameFields.swapped "b" "a" (int (pos 2)) (int (pos 1)) end
            (ground (arith, eq_iff "b" "a"))))
        (SameFields.field "scene_version" (Same.kept (text "v")) SameFields.end))

hash_inline_bundle-Same_example :
    hash_inline_bundle py num dig first ≡ hash_inline_bundle py num dig second
hash_inline_bundle-Same_example = hash_inline_bundle-Same py num dig first second spelled

hashed : hash_inline_bundle py num dig first ≡ ok "sha256:00"
unfolding program
hashed = refl

run-Verifies_example :
    (b : Dict Json) × (b ≡ put "scene_version" (text "sha256:00") first)
    × (run py num dig (λ v. "{}") true (some (obj (of_dict first))) true
        ≡ ok (record { exit = 0; written = some "{}"; printed = some "sha256:00" }))
    × (run py num dig (λ v. "{}") true (some (obj (of_dict first))) false
        ≡ ok (record { exit = 0; written = none; printed = some "{}" }))
    × (get "scene_version" b ≡ some (text "sha256:00"))
    × (hash_inline_bundle py num dig b ≡ ok "sha256:00")
unfolding program
run-Verifies_example = run-Verifies py num dig (λ v. "{}") (of_dict first) "sha256:00" refl hashed
