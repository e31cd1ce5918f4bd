-- ===== src/Protocol/Sequence.antt =====
-- protocol/sequence.py: `SequenceTracker`. Its lock makes each method one step.
pub mod Stream
use lumencast_py.Prelude.{ℕ, ◌+◌, Bool, true, false, ltb, leb, ◌==◌, if◌then◌else◌}
use lumencast_py.Json.{ℤ, pos, negsuc}

pub record SequenceTracker : Type 0 where
  pub cur : ℕ

abbrev pub init : SequenceTracker
init = record { cur = 0 }

unfoldable pub next_server : SequenceTracker → ℕ × SequenceTracker
next_server t = (t.cur + 1, record { cur = t.cur + 1 })

unfoldable pub reset : SequenceTracker → SequenceTracker
reset t = record { cur = 0 }

unfoldable pub current : SequenceTracker → ℕ
current t = t.cur

-- `advance` and `replay` are the results False and True; the other two are the exceptions.
pub data Observed : Type 0 where
  advance replay : Observed
  invalid_seq_start gap : Observed

unfoldable pub observe_server : SequenceTracker → ℤ → Observed × SequenceTracker
observe_server t (negsuc n) = if t.cur == 0 then (invalid_seq_start, t) else (replay, t)
observe_server t (pos seq) =
    if t.cur == 0
    then (if ltb seq 1 then (invalid_seq_start, t) else (advance, record { cur = seq }))
    else if seq == t.cur + 1
    then (advance, record { cur = seq })
    else if leb seq t.cur
    then (replay, t)
    else (gap, t)

unfoldable pub observe_snapshot : SequenceTracker → ℤ → SequenceTracker
observe_snapshot t (negsuc n) = t
observe_snapshot t (pos seq) = if leb 1 seq then record { cur = seq } else t
