-- ===== src/Conformance/Player/Receives.antt =====
-- What each receive of a step takes, where the step goes through.
use mathlib.Core.List.{append-nil, append_assoc}
use lumencast_py.Prelude.{
  ◌∙◌, String, ◌≡◌, refl, sym, ap, Bool, true, false, Option, none, some, List, [], ◌∷◌, ◌++◌, inl,
  inr, Bool-cases,
}
use lumencast_py.Prelude.Dict.{Dict}
use lumencast_py.Json.{Json, null, bool, int, real, text, arr, obj, Result, ok, raise, ◌>>=◌}
use lumencast_py.Json.Builtins.{Builtins}
use lumencast_py.Protocol.Envelope.{JsonText}
use lumencast_py.Conformance.Placeholders.{substitute_placeholders}
use lumencast_py.Conformance.Match.{HashPattern, match_frame}
use lumencast_py.Conformance.Scenario.{Step, StepKind, server_emits}
use lumencast_py.Conformance.Player.{
  Arrival, received, timed_out, closed, broken, went, Play, first, later, matched, absorb_arrival,
  absorbed, with_shadow, expect_value, expect_arrival, expect_server_frame, drain, has_state,
  expect_state, expect_server, take_when,
}
use lumencast_py.Conformance.Player.Trace.{
  length-taken, failed_ne, went_inj, taken, taken-later, matched-ok, absorb_all, absorb_all-taken,
  absorb_all-append, IsFrame, Takes, sends, Stepped,
}

module _ (py : Builtins) (re : HashPattern) (jt : JsonText) where
  module _ (tokens hashes : Dict String) where
    module _ {D : Type 0} where
      -- What a receive that finds its frame leaves.
      pub record Found (frame : Json) (p q : Play D) : Type 0 where
        pub found : IsFrame py re jt tokens hashes frame (taken p.inbox)
        pub is_absorbed : absorbed py re jt p ≡ went q

      pub value-Found :
          (frame : Json) (p q : Play D) (raw : String) (rest : List Arrival) (v : Json)
          (o : Option Json)
          → p.inbox ≡ received raw ∷ rest
          → substitute_placeholders tokens hashes frame ≡ v
          → jt.loads raw ≡ o
          → expect_value py re jt v o p ≡ went q
          → Found frame p q
      value-Found frame p q raw rest (obj es) (some (obj fs)) i r e h =
          elim (Bool-cases (matched (match_frame py re es fs))) [
            | inl fits ↦ record {
              found = record {
                raw = raw;
                expected = es;
                actual = fs;
                came = ap taken i;
                read = e;
                resolved = r;
                fits = matched-ok _ fits;
              };
              is_absorbed = rw fits at h;
            }
            | inr misses ↦ failed_ne (rw misses at h)
          ]
      value-Found frame p q raw rest (obj es) none i r e h = failed_ne h
      value-Found frame p q raw rest (obj es) (some null) i r e h = failed_ne h
      value-Found frame p q raw rest (obj es) (some (bool x)) i r e h = failed_ne h
      value-Found frame p q raw rest (obj es) (some (int x)) i r e h = failed_ne h
      value-Found frame p q raw rest (obj es) (some (real x)) i r e h = failed_ne h
      value-Found frame p q raw rest (obj es) (some (text x)) i r e h = failed_ne h
      value-Found frame p q raw rest (obj es) (some (arr x)) i r e h = failed_ne h
      value-Found frame p q raw rest null o i r e h = failed_ne h
      value-Found frame p q raw rest (bool x) o i r e h = failed_ne h
      value-Found frame p q raw rest (int x) o i r e h = failed_ne h
      value-Found frame p q raw rest (real x) o i r e h = failed_ne h
      value-Found frame p q raw rest (text x) o i r e h = failed_ne h
      value-Found frame p q raw rest (arr x) o i r e h = failed_ne h

      pub inbox-Found :
          (frame : Json) (p q : Play D) (l : List Arrival)
          → p.inbox ≡ l
          → expect_arrival py re jt (substitute_placeholders tokens hashes frame) (first l) p
            ≡ went q
          → Found frame p q
      inbox-Found frame p q [] i h = failed_ne h
      inbox-Found frame p q (received raw ∷ rest) i h =
          value-Found frame p q raw rest _ _ i refl refl h
      inbox-Found frame p q (timed_out ∷ rest) i h = failed_ne h
      inbox-Found frame p q (closed code ∷ rest) i h = failed_ne h
      inbox-Found frame p q (broken ∷ rest) i h = failed_ne h

      pub expect-Found :
          (frame : Json) (p q : Play D)
          → expect_server_frame py re jt (substitute_placeholders tokens hashes frame) p ≡ went q
          → Found frame p q
      unfolding expect_server_frame
      expect-Found frame p q h = inbox-Found frame p q p.inbox refl h

      -- what a receive that is absorbed leaves
      absorbed-went :
          (p q : Play D) (o : Result (Dict Json))
          → absorb_arrival py re jt (first p.inbox) p.shadow ≡ o
          → with_shadow py re jt o p ≡ went q
          → (st : Dict Json) × (absorb_arrival py re jt (first p.inbox) p.shadow ≡ ok st)
            × (q ≡ record p { inbox = later p.inbox; shadow = st })
      absorbed-went p q (ok st) a h = (st, a, sym (went_inj h))
      absorbed-went p q (raise e) a h = failed_ne h

      -- a receive that is absorbed, and one step that takes nothing
      pub received-Stepped :
          (kind : StepKind) (st : Step) (p q : Play D)
          → absorbed py re jt p ≡ went q
          → Takes py re jt tokens hashes kind st (taken p.inbox)
          → sends py re jt tokens hashes kind st ≡ []
          → Stepped py re jt tokens hashes kind st p q
      received-Stepped kind st p q e t s =
          let (state, ab, shape) = absorbed-went p q _ refl e in
          record {
            took = taken p.inbox;
            takes = t;
            inbox = rw shape (taken-later p.inbox);
            shadow =
                sym (absorb_all-taken py re jt p.inbox p.shadow)
                ∙ ab
                ∙ ap (λ (r : Play D). ok r.shadow) (sym shape);
            sent = rw (shape, s) (sym (append-nil p.sent));
          }

      pub idle-Stepped :
          (kind : StepKind) (st : Step) (p q : Play D)
          → q ≡ p
          → Takes py re jt tokens hashes kind st []
          → sends py re jt tokens hashes kind st ≡ []
          → Stepped py re jt tokens hashes kind st p q
      idle-Stepped kind st p q e t s = record {
        took = [];
        takes = t;
        inbox = ap (λ (r : Play D). r.inbox) (sym e);
        shadow = ap (λ (r : Play D). ok r.shadow) (sym e);
        sent = rw (e, s) (sym (append-nil p.sent));
      }

      pub state-idle :
          (v : Json) (state : Dict Json) (p q : Play D)
          → expect_state py re jt v state p ≡ went q
          → q ≡ p
      state-idle (obj fs) state p q h = elim (Bool-cases (has_state py re jt fs state)) [
        | inl there ↦ sym (went_inj (rw there at h))
        | inr missing ↦ failed_ne (rw missing at h)
      ]
      state-idle null state p q h = failed_ne h
      state-idle (bool x) state p q h = failed_ne h
      state-idle (int x) state p q h = failed_ne h
      state-idle (real x) state p q h = failed_ne h
      state-idle (text x) state p q h = failed_ne h
      state-idle (arr x) state p q h = failed_ne h

      pub server-idle :
          (v : Json) (r : Result (Option (Dict Json))) (p q : Play D)
          → expect_server py re jt v r p ≡ went q
          → q ≡ p
      server-idle v (ok state) p q h = state-idle v _ p q h
      server-idle v (raise e) p q h = failed_ne h

      pub take-absorbed :
          (b : Bool) (p q : Play D)
          → take_when py re jt b p ≡ went q
          → (b ≡ true) × (absorbed py re jt p ≡ went q)
      take-absorbed true p q h = (refl, h)
      take-absorbed false p q h = failed_ne h

      pub drain-absorbed :
          (a : Arrival) (p q : Play D) → drain py re jt a p ≡ went q → absorbed py re jt p ≡ went q
      drain-absorbed (received raw) p q h = h
      drain-absorbed timed_out p q h = h
      drain-absorbed (closed code) p q h = failed_ne h
      drain-absorbed broken p q h = failed_ne h

      -- a frame after a receive that was absorbed
      pub emits-Stepped :
          (st : Step) (p m q : Play D) (d : D)
          → absorbed py re jt p ≡ went m
          → Found st.frame (record m { driver = d }) q
          → Stepped py re jt tokens hashes server_emits st p q
      emits-Stepped st p m q d e f =
          let (one, ab, shape) = absorbed-went p m _ refl e in
          let (two, ab_two, shape_two) =
            absorbed-went (record m { driver = d }) q _ refl f.is_absorbed in
          record {
            took = taken p.inbox ++ taken m.inbox;
            takes = (taken p.inbox, taken m.inbox, refl, length-taken p.inbox, f.found);
            inbox =
                taken-later p.inbox
                ∙ ap (λ l. taken p.inbox ++ l)
                    (ap (λ (r : Play D). r.inbox) (sym shape)
                      ∙ taken-later m.inbox
                      ∙ ap (λ l. taken m.inbox ++ l) (ap (λ (r : Play D). r.inbox) (sym shape_two)))
                ∙ sym (append_assoc (taken p.inbox) (taken m.inbox) q.inbox);
            shadow =
                absorb_all-append py re jt (taken p.inbox) (taken m.inbox) p.shadow
                ∙ ap (λ r. r >>= absorb_all py re jt (taken m.inbox))
                    (sym (absorb_all-taken py re jt p.inbox p.shadow) ∙ ab)
                ∙ ap (absorb_all py re jt (taken m.inbox))
                    (ap (λ (r : Play D). r.shadow) (sym shape))
                ∙ sym (absorb_all-taken py re jt m.inbox m.shadow)
                ∙ ab_two
                ∙ ap (λ (r : Play D). ok r.shadow) (sym shape_two);
            sent =
                ap (λ (r : Play D). r.sent) shape_two
                ∙ ap (λ (r : Play D). r.sent) shape
                ∙ sym (append-nil p.sent);
          }
