-- ===== src/Conformance/Player/Arrivals.antt =====
-- conformance/harness.py: what the steps of a scenario run over, and how they end.
use lumencast_py.Prelude.{
  ℕ, String, Bool, true, false, ◌||◌, Option, none, some, List, [], ◌∷◌, ◌==◌, str_eq,
}
use lumencast_py.Prelude.Dict.{Dict}
use lumencast_py.Json.{Json, text, Result, ok}
use lumencast_py.Conformance.Match.{Matched}
use lumencast_py.Conformance.Scenario.{Scenario}

-- The bridge to the server, which keeps a state of its own.
pub record Driver (D : Type 0) : Type 0 where
  pub setup : Scenario → D → Result ((String × Dict String) × D)
  pub snapshot_state : D → Result (Option (Dict Json))
  pub emit : List Json → D → Result D

-- What a receive ends with: a text, the timeout, the close with its code, or another exception.
pub data Arrival : Type 0 where
  received : String → Arrival
  timed_out : Arrival
  closed : Option ℕ → Arrival
  broken : Arrival

-- How a part of a run ends.
pub data Ended {ℓ} (A : Type ℓ) : Type ℓ where
  went : A → Ended A
  failed : Ended A
  skipped : Ended A

abbrev pub and_go {ℓ κ} : {A : Type ℓ} {B : Type κ} → Ended A → (A → Ended B) → Ended B
and_go (went a) f = f a
and_go failed f = failed
and_go skipped f = skipped

pub record Play (D : Type 0) : Type 0 where
  pub driver : D
  pub inbox : List Arrival
  pub sent : List String
  pub shadow : Dict Json

-- where nothing more arrives, a receive times out
abbrev pub first : List Arrival → Arrival
first [] = timed_out
first (a ∷ rest) = a

abbrev pub later : List Arrival → List Arrival
later [] = []
later (a ∷ rest) = rest

-- the closes that bring no data
abbrev pub is_clean : Option ℕ → Bool
is_clean none = false
is_clean (some code) = (code == 1000) || ((code == 1001) || (code == 1005))

abbrev pub silence : Arrival → Bool
silence timed_out = true
silence (closed code) = is_clean code
silence a = false

abbrev pub no_text : Arrival → Bool
no_text (received raw) = false
no_text a = true

abbrev pub is_text : String → Option Json → Bool
is_text s (some (text t)) = str_eq s t
is_text s v = false

abbrev pub matched : Matched → Bool
matched (ok none) = true
matched m = false

abbrev pub or_shadow : Option (Dict Json) → Dict Json → Dict Json
or_shadow none shadow = shadow
or_shadow (some state) shadow = state
