-- ===== src/Conformance/Player/Trace.antt =====
-- What a run of steps takes from the socket, absorbs and sends.
use lumencast_py.Prelude.{
  length, ◌≤◌, arith, String, ◌≡◌, refl, Bool, true, none, some, List, [], ◌∷◌, ◌++◌, All,
}
use lumencast_py.Prelude.Dict.{Dict}
use lumencast_py.Json.{Json, obj, Fields, Result, ok, raise, ◌>>=◌}
use lumencast_py.Json.Builtins.{Builtins}
use lumencast_py.Protocol.Envelope.{JsonText}
use lumencast_py.Conformance.Placeholders.{substitute_placeholders}
use lumencast_py.Conformance.Match.{HashPattern, Matched, match_frame}
use lumencast_py.Conformance.Scenario.{
  Step, StepKind, client_sends, server_sends, server_emits, expect_no_frame_for,
  expect_client_action,
}
use lumencast_py.Conformance.Player.{
  silence, no_text, Arrival, received, Ended, went, failed, skipped, and_go, Play, first, later,
  no_text, silence, matched, absorb_arrival,
}

pub failed_ne {ℓ κ} : {A : Type ℓ} {B : Type κ} {a : A} → failed ≡ went a → B
failed_ne h = absurd cc

pub skipped_ne {ℓ κ} : {A : Type ℓ} {B : Type κ} {a : A} → skipped ≡ went a → B
skipped_ne h = absurd cc

pub went_inj {ℓ} : {A : Type ℓ} {a b : A} → went a ≡ went b → a ≡ b
went_inj h = cc

-- a step that went through after another one did
pub and_go-went {ℓ κ} :
    {A : Type ℓ} {B : Type κ} (r : Ended A) (f : A → Ended B) (b : B)
    → and_go r f ≡ went b
    → (a : A) × ((r ≡ went a) × (f a ≡ went b))
and_go-went (went a) f b h = (a, (refl, h))
and_go-went failed f b h = failed_ne h
and_go-went skipped f b h = skipped_ne h

pub matched-ok : (m : Matched) → matched m ≡ true → m ≡ ok none
matched-ok (ok none) h = refl
matched-ok (ok (some m)) h = absurd cc
matched-ok (raise e) h = absurd cc

-- the arrivals that a receive takes
abbrev pub taken : List Arrival → List Arrival
taken [] = []
taken (a ∷ rest) = a ∷ []

pub taken-later : (l : List Arrival) → l ≡ taken l ++ later l
taken-later [] = refl
taken-later (a ∷ rest) = refl

pub length-taken : (l : List Arrival) → length (taken l) ≤ 1
length-taken [] = omega arith
length-taken (a ∷ rest) = omega arith

pub All-taken :
    (test : Arrival → Bool) (l : List Arrival)
    → test (first l) ≡ true
    → All (λ a. test a ≡ true) (taken l)
All-taken test [] h = tt
All-taken test (a ∷ rest) h = (h, tt)

bind_ok : (r : Result (Dict Json)) → r ≡ (r >>= λ st. ok st)
bind_ok (ok st) = refl
bind_ok (raise e) = refl

bind_after :
    (r : Result (Dict Json)) (h f g : Dict Json → Result (Dict Json))
    → ((st : Dict Json) → h st ≡ (f st >>= g))
    → (r >>= h) ≡ ((r >>= f) >>= g)
bind_after (ok st) h f g e = e st
bind_after (raise e) h f g k = refl

module _ (py : Builtins) (re : HashPattern) (jt : JsonText) where
  -- the shadow after some arrivals
  abbrev pub absorb_all : List Arrival → Dict Json → Result (Dict Json)
  absorb_all [] st = ok st
  absorb_all (a ∷ rest) st = absorb_arrival py re jt a st >>= absorb_all rest

  pub absorb_all-taken :
      (l : List Arrival) (st : Dict Json)
      → absorb_arrival py re jt (first l) st ≡ absorb_all (taken l) st
  absorb_all-taken [] st = refl
  absorb_all-taken (a ∷ rest) st = bind_ok (absorb_arrival py re jt a st)

  pub absorb_all-append :
      (l m : List Arrival) (st : Dict Json)
      → absorb_all (l ++ m) st ≡ (absorb_all l st >>= absorb_all m)
  absorb_all-append [] m st = refl
  absorb_all-append (a ∷ l) m st =
      bind_after (absorb_arrival py re jt a st) (absorb_all (l ++ m)) (absorb_all l) (absorb_all m)
        (absorb_all-append l m)

  module _ (tokens hashes : Dict String) where
    -- One text came, it is an object, and it matches the frame with its placeholders replaced.
    pub record IsFrame (frame : Json) (l : List Arrival) : Type 0 where
      pub raw : String
      pub expected : Fields
      pub actual : Fields
      pub came : l ≡ received raw ∷ []
      pub read : jt.loads raw ≡ some (obj actual)
      pub resolved : substitute_placeholders tokens hashes frame ≡ obj expected
      pub fits : match_frame py re expected actual ≡ ok none

    -- The arrivals that a step takes, by its kind.
    abbrev pub Takes : StepKind → Step → List Arrival → Type 0
    Takes server_sends st l = IsFrame st.frame l
    Takes server_emits st l =
        (drained : List Arrival) × (frame : List Arrival) × (l ≡ drained ++ frame)
        × (length drained ≤ 1)
        × IsFrame st.frame frame
    Takes expect_no_frame_for st l = All (λ a. silence a ≡ true) l
    Takes expect_client_action st l = All (λ a. no_text a ≡ true) l
    Takes kind st l = l ≡ []

    -- what a step sends
    abbrev pub sends : StepKind → Step → List String
    sends client_sends st = jt.dumps (substitute_placeholders tokens hashes st.frame) ∷ []
    sends kind st = []

    module _ {D : Type 0} where
      -- A step of kind `kind` from `p` to `q`.
      pub record Stepped (kind : StepKind) (st : Step) (p q : Play D) : Type 0 where
        pub took : List Arrival
        pub takes : Takes kind st took
        pub inbox : p.inbox ≡ took ++ q.inbox
        pub shadow : absorb_all took p.shadow ≡ ok q.shadow
        pub sent : q.sent ≡ p.sent ++ sends kind st

      -- The steps one after the other.
      pub data Ran : List Step → Play D → Play D → Type 0 where
        done : (p : Play D) → Ran [] p p
        next :
            (st : Step) (sts : List Step) (p q r : Play D)
            → Stepped st.kind st p q
            → Ran sts q r
            → Ran (st ∷ sts) p r
