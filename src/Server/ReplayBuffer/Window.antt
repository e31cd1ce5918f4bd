-- ===== src/Server/ReplayBuffer/Window.antt =====
-- What the buffer holds: a window of the emissions, and what `since` answers over it.
use lumencast_py.Prelude.{
  ℕ, ◌+◌, ◌≤◌, ◌<◌, ◌≡◌, refl, ap, ◌∙◌, ◌≢◌, ◌⊎◌, true, false, List, [], ◌∷◌, ◌++◌, length,
  length-append, ltb, keep, arith, inl, inr, Bool-cases,
}
use lumencast_py.Json.{pos}
use lumencast_py.Server.ReplayBuffer.{ReplayRecord, ReplayBuffer, push, since, popleft, slice_from}

-- the records carry the numbers b + 1, b + 2, …, e
abbrev pub Ends : ℕ → List ReplayRecord → ℕ → Type 0
Ends b [] e = b ≡ e
Ends b (r ∷ rs) e = (r.seq ≡ b + 1) × Ends (b + 1) rs e

Ends-le : (b : ℕ) (rs : List ReplayRecord) (e : ℕ) → Ends b rs e → b ≤ e
Ends-le b [] e h = omega arith
Ends-le b (r ∷ rs) e h = omega (arith, Ends-le (b + 1) rs e h.1)

Ends-append :
    (b : ℕ) (rs : List ReplayRecord) (e : ℕ) (r : ReplayRecord)
    → Ends b rs e
    → r.seq ≡ e + 1
    → Ends b (rs ++ r ∷ []) (e + 1)
Ends-append b [] e r h k = (omega arith, omega arith)
Ends-append b (q ∷ rs) e r h k = (h.0, Ends-append (b + 1) rs e r h.1 k)

-- the records after number `n`
abbrev pub after : ℕ → List ReplayRecord → List ReplayRecord
after n rs = keep (λ q. ltb n q.seq) rs

after-append :
    (n : ℕ) (rs : List ReplayRecord) (r : ReplayRecord)
    → n < r.seq
    → after n (rs ++ r ∷ []) ≡ after n rs ++ r ∷ []
unfolding keep
after-append n [] r h = ground arith
after-append n (q ∷ rs) r h = ground (arith, after-append n rs r)

covered_from :
    (n b e : ℕ) (rs : List ReplayRecord)
    → Ends b rs e
    → b ≤ n
    → slice_from (pos n) rs ≡ record { records = after n rs; covered = true }
unfolding slice_from
covered_from n b e [] h k = unfold keep in refl
covered_from n b e (r ∷ rs) h k = ground arith

uncovered_from :
    (n b e : ℕ) (r : ReplayRecord) (rs : List ReplayRecord)
    → Ends b (r ∷ rs) e
    → n < b
    → slice_from (pos n) (r ∷ rs) ≡ record { records = []; covered = false }
unfolding slice_from
uncovered_from n b e r rs h k = ground arith

-- dropping the oldest record of a window leaves a window
Ends-popleft :
    (b : ℕ) (r : ReplayRecord) (rs : List ReplayRecord) (e : ℕ)
    → Ends b (r ∷ rs) e
    → Ends (b + 1) (popleft (r ∷ rs)) e
Ends-popleft b r rs e h = h.1

-- and takes nothing from what comes after a number that the window still covers
after-popleft :
    (n b e : ℕ) (r : ReplayRecord) (rs : List ReplayRecord)
    → Ends b (r ∷ rs) e
    → b + 1 ≤ n
    → after n (popleft (r ∷ rs)) ≡ after n (r ∷ rs)
unfolding keep
after-popleft n b e r rs h k = ground arith

-- The window that a list of records is, seen from a number `n` of the past: where it still covers
-- `n`, the records after `n` are the given ones.
pub record Covers (n e : ℕ) (before records : List ReplayRecord) (b : ℕ) (last : ReplayRecord)
    : Type 0 where
  pub start : ℕ
  pub window : Ends start records e
  pub filled : records ≢ []
  pub older : start ≤ n → b ≤ n
  pub grown : start ≤ n → after n records ≡ after n before ++ last ∷ []

append_ne : (rs : List ReplayRecord) (r : ReplayRecord) → rs ++ r ∷ [] ≢ []
append_ne [] r h = cc
append_ne (q ∷ rs) r h = cc

-- The oldest record is dropped from a list that is not empty.
dropped :
    (n b e : ℕ) (rs : List ReplayRecord) (r : ReplayRecord)
    → 1 ≤ length rs
    → n ≤ e
    → r.seq ≡ e + 1
    → Ends b rs e
    → Covers n (e + 1) rs (popleft (rs ++ r ∷ [])) b r
dropped n b e [] r le h s w = absurd (omega arith)
dropped n b e (q ∷ rs) r le h s w = record {
  start = b + 1;
  window = Ends-append (b + 1) rs e r w.1 s;
  filled = append_ne rs r;
  older = λ k. omega arith;
  grown =
      λ k. after-append n rs r (omega arith) ∙ ap (λ t. t ++ r ∷ []) (after-popleft n b e q rs w k);
}

longer :
    (buf : ReplayBuffer) (r : ReplayRecord)
    → 1 ≤ buf.maxlen
    → ltb buf.maxlen (length (buf.records ++ r ∷ [])) ≡ true
    → 1 ≤ length buf.records
longer buf r room full = ground (arith, length-append buf.records (r ∷ []))

-- One more record, in a buffer that may have to drop its oldest.
pub push-Covers :
    (n b e : ℕ) (buf : ReplayBuffer) (r : ReplayRecord)
    → 1 ≤ buf.maxlen
    → n ≤ e
    → r.seq ≡ e + 1
    → Ends b buf.records e
    → Covers n (e + 1) buf.records (push r buf).records b r
unfolding push
push-Covers n b e buf r room le s w =
    elim (Bool-cases (ltb buf.maxlen (length (buf.records ++ r ∷ [])))) [
      | inl full ↦ rw (full) (dropped n b e buf.records r (longer buf r room full) le s w)
      | inr fits ↦ rw (fits) (record {
        start = b;
        window = Ends-append b buf.records e r w s;
        filled = append_ne buf.records r;
        older = λ h. h;
        grown = λ h. after-append n buf.records r (omega arith);
      })
    ]

-- Nothing comes after the last number.
pub after_last : (b : ℕ) (rs : List ReplayRecord) (e : ℕ) → Ends b rs e → after e rs ≡ []
unfolding keep
after_last b [] e h = refl
after_last b (r ∷ rs) e h = ground (arith, after_last (b + 1) rs e, Ends-le (b + 1) rs e)

cases_from :
    (n b e : ℕ) (rs : List ReplayRecord)
    → Ends b rs e
    → (rs ≡ [] → n ≡ e)
    → ((b ≤ n) × (slice_from (pos n) rs ≡ record { records = after n rs; covered = true }))
      ⊎ (slice_from (pos n) rs ≡ record { records = []; covered = false })
cases_from n b e [] h k =
    inl (omega (arith, k refl), covered_from n b e [] h (omega (arith, k refl)))
cases_from n b e (r ∷ rs) h k = elim (Bool-cases (ltb n b)) [
  | inl old ↦ inr (uncovered_from n b e r rs h (ground arith))
  | inr new ↦ inl (ground arith, covered_from n b e (r ∷ rs) h (ground arith))
]

-- `since` either covers the number, and answers every record after it, or says that it does not.
pub since_cases :
    (n b e : ℕ) (buf : ReplayBuffer)
    → Ends b buf.records e
    → (buf.records ≡ [] → n ≡ e)
    → ((b ≤ n) × (since (pos n) buf ≡ record { records = after n buf.records; covered = true }))
      ⊎ (since (pos n) buf ≡ record { records = []; covered = false })
unfolding since
since_cases n b e buf = cases_from n b e buf.records

-- A request from the last number is covered, and there is nothing to replay.
pub since_last :
    (b e : ℕ) (buf : ReplayBuffer)
    → Ends b buf.records e
    → since (pos e) buf ≡ record { records = []; covered = true }
unfolding since
since_last b e buf w =
    covered_from e b e buf.records w (Ends-le b buf.records e w)
    ∙ ap (λ rs. record { records = rs; covered = true }) (after_last b buf.records e w)
