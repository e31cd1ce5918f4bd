-- ===== src/Conformance/Scenario.antt =====
-- conformance/scenario.py: scenarios and the parser of their documents, over what yaml.safe_load
-- returns, for documents whose values are JSON values.
pub mod Parsed
use lumencast_py.Prelude.{
  ℕ, zero, suc, String, Bool, true, false, not, Option, none, some, List, [], ◌∷◌, map, keep,
  any_of, str_eq, if◌then◌else◌,
}
use lumencast_py.Prelude.Dict
use lumencast_py.Prelude.Dict.{Dict}
use lumencast_py.Json.{
  ℤ, pos, Json, null, bool, int, real, text, arr, obj, Items, Fields, end, to_dict, to_list, Result,
  ok, raise, value_error, type_error, ◌>>=◌,
}
use lumencast_py.Json.Builtins.{Builtins, default, or_else, to_int, to_text}
use lumencast_py.Lsml.Number.{Numerals}
use lumencast_py.Lsml.Canonical.{Digest, hash_inline_bundle}

pub data Tag : Type 0 where
  required recommended extended : Tag

pub data Target : Type 0 where
  any server runtime : Target

pub data StepKind : Type 0 where
  client_sends server_sends server_emits expect_runtime_state expect_server_state : StepKind
  expect_no_frame_for expect_client_action client_action wait set_clock unsupported : StepKind

pub record BundleDecl : Type 0 where
  pub id : String
  pub inline : Dict Json
  pub hash : String

pub record Step : Type 0 where
  pub kind : StepKind
  pub raw_kind : String
  pub frame : Json
  pub state : Json
  pub duration_ms : ℤ
  pub action : String
  pub reason : String
  pub extra : Dict Json

pub record Scenario : Type 0 where
  pub name : String
  pub description : String
  pub tag : Tag
  pub target : Target
  pub spec_refs : List String
  pub bundles : List BundleDecl
  pub steps : List Step
  pub raw : Dict Json

-- {b.id: b.hash for b in bundles}
unfoldable pub hashes_of : List BundleDecl → Dict String → Dict String
hashes_of [] d = d
hashes_of (b ∷ bs) d = hashes_of bs (Dict.put b.id b.hash d)

unfoldable pub bundle_hashes : Scenario → Dict String
unfolding hashes_of
bundle_hashes sc = hashes_of sc.bundles []

-- Tag(s), or the default on a ValueError
abbrev pub tag_of : String → Tag
tag_of s =
    if str_eq s "recommended"
    then recommended
    else if str_eq s "extended"
    then extended
    else required

abbrev pub target_of : String → Target
target_of s = if str_eq s "server" then server else if str_eq s "runtime" then runtime else any

-- the kinds by their spelling
abbrev pub step_kinds : Dict StepKind
step_kinds =
    ("client-sends", client_sends)
    ∷ ("server-sends", server_sends)
    ∷ ("server-emits", server_emits)
    ∷ ("expect-runtime-state", expect_runtime_state)
    ∷ ("expect-server-state", expect_server_state)
    ∷ ("expect-no-frame-for", expect_no_frame_for)
    ∷ ("expect-client-action", expect_client_action)
    ∷ ("client-action", client_action)
    ∷ ("wait", wait)
    ∷ ("set-clock", set_clock)
    ∷ []

abbrev pub or_unsupported : Option StepKind → StepKind
or_unsupported none = unsupported
or_unsupported (some k) = k

-- StepKind(s), or the synthetic kind on a ValueError, which has a spelling of its own as well
unfoldable pub kind_of : String → StepKind
kind_of s = or_unsupported (Dict.get s step_kinds)

-- the characters of a text, as texts
unfoldable pub characters : String → List Json
characters String.[] = []
characters (String.◌∷◌ c s) = text (String.◌∷◌ c String.[]) ∷ characters s

-- iter(v)
unfoldable pub iterate : Json → Result (List Json)
unfolding characters
iterate (arr xs) = ok (to_list xs)
iterate (obj fs) = ok (map (λ (e : String × Json). text e.0) (to_dict fs))
iterate (text s) = ok (characters s)
iterate v = raise type_error

abbrev pub known_keys : List String
known_keys = "kind" ∷ "frame" ∷ "state" ∷ "duration_ms" ∷ "action" ∷ "reason" ∷ []

-- a value that is present and not null
abbrev pub given : Option Json → Option Json
given none = none
given (some null) = none
given (some v) = some v

module _ (py : Builtins) (num : Numerals) (dig : Digest) where
  unfoldable pub parse_tag : Option Json → Tag
  parse_tag value = elim (given value) [ none ↦ required | some v ↦ tag_of (to_text py v) ]

  unfoldable pub parse_target : Option Json → Target
  parse_target value = elim (given value) [ none ↦ any | some v ↦ target_of (to_text py v) ]

  abbrev pub text_at : String → Dict Json → String
  text_at key d = to_text py (default (Dict.get key d) (text ""))

  abbrev pub inline_of : Option Json → Dict Json
  inline_of (some (obj fs)) = to_dict fs
  inline_of v = []

  -- the hash of a body that is not empty
  abbrev pub hash_of : Dict Json → Result String
  hash_of [] = ok ""
  hash_of (e ∷ d) = hash_inline_bundle py num dig (e ∷ d)

  unfoldable pub parse_bundle_items : List Json → Result (List BundleDecl)
  parse_bundle_items [] = ok []
  parse_bundle_items (obj fs ∷ items) =
      let rest = parse_bundle_items items in
      let bid = text_at "id" (to_dict fs) in
      if str_eq bid "" then rest else (do
        hash ← hash_of (inline_of (Dict.get "inline" (to_dict fs)))
        bundles ← rest
        ok (
            record { id = bid; inline = inline_of (Dict.get "inline" (to_dict fs)); hash = hash }
            ∷ bundles))
  parse_bundle_items (v ∷ items) = parse_bundle_items items

  unfoldable pub parse_bundles : Option Json → Result (List BundleDecl)
  unfolding parse_bundle_items
  parse_bundles (some (arr xs)) = parse_bundle_items (to_list xs)
  parse_bundles raw = ok []

  -- item.get(key) or {}
  abbrev pub or_empty : Option Json → Json
  or_empty v = or_else py (default v null) (obj end)

  unfoldable pub parse_step : Dict Json → Result Step
  unfolding kind_of
  parse_step item =
      to_int py (or_else py (default (Dict.get "duration_ms" item) (int (pos 0))) (int (pos 0)))
      >>= λ duration_ms. ok (record {
        kind = kind_of (text_at "kind" item);
        raw_kind = text_at "kind" item;
        frame = or_empty (Dict.get "frame" item);
        state = or_empty (Dict.get "state" item);
        duration_ms = duration_ms;
        action = text_at "action" item;
        reason = text_at "reason" item;
        extra = keep (λ e. not (any_of (str_eq e.0) known_keys)) item;
      })

  unfoldable pub parse_steps : List Json → Result (List Step)
  unfolding parse_step
  parse_steps [] = ok []
  parse_steps (obj fs ∷ items) = do
    step ← parse_step (to_dict fs)
    steps ← parse_steps items
    ok (step ∷ steps)
  parse_steps (v ∷ items) = parse_steps items

  -- parsed.get(key) or []
  abbrev pub items_at : String → Dict Json → Result (List Json)
  items_at key d = iterate (or_else py (default (Dict.get key d) null) (arr Items.nil))

  unfoldable pub parse_named : String → Dict Json → Result Scenario
  unfolding parse_tag parse_target parse_bundles parse_steps iterate
  parse_named name parsed = do
    refs ← items_at "spec_refs" parsed
    bundles ← parse_bundles (Dict.get "bundles" parsed)
    items ← items_at "steps" parsed
    steps ← parse_steps items
    ok (record {
      name = name;
      description = text_at "description" parsed;
      tag = parse_tag (Dict.get "tag" parsed);
      target = parse_target (Dict.get "target" parsed);
      spec_refs = map (to_text py) refs;
      bundles = bundles;
      steps = steps;
      raw = parsed;
    })

  abbrev pub parse_mapping : Option Json → Dict Json → Result Scenario
  parse_mapping (some (text name)) parsed =
      if str_eq name "" then raise value_error else parse_named name parsed
  parse_mapping v parsed = raise value_error

  unfoldable pub parse_scenario : Json → Result Scenario
  unfolding parse_named
  parse_scenario (obj fs) = parse_mapping (Dict.get "name" (to_dict fs)) (to_dict fs)
  parse_scenario v = raise value_error

  -- the documents of a directory, in the order of their paths
  unfoldable pub load_each : List Json → Result (List Scenario)
  unfolding parse_scenario
  load_each [] = ok []
  load_each (v ∷ vs) = do sc ← parse_scenario v; scs ← load_each vs; ok (sc ∷ scs)
