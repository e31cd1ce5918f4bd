-- ===== src/Server/ReplayBuffer.antt =====
-- server/replay_buffer.py: the bounded ring of recent emissions.
pub mod Window
use lumencast_py.Prelude.{
  ℕ, zero, suc, ◌+◌, Bool, true, false, Option, List, [], ◌∷◌, ◌++◌, length, ltb, keep,
  if◌then◌else◌,
}
use lumencast_py.Json.{ℤ, pos, negsuc}
use lumencast_py.Protocol.Frames.{Patch, Cause}

abbrev pub default_replay_buffer_size : ℕ
default_replay_buffer_size = 256

pub record ReplayRecord : Type 0 where
  pub seq : ℕ
  pub patches : List Patch
  pub cause : Option Cause

pub record ReplaySlice : Type 0 where
  pub records : List ReplayRecord
  pub covered : Bool

pub record ReplayBuffer : Type 0 where
  pub maxlen : ℕ
  pub records : List ReplayRecord

-- the constructor, at an integer capacity
unfoldable pub init : ℤ → ReplayBuffer
init (negsuc n) = record { maxlen = default_replay_buffer_size; records = [] }
init (pos zero) = record { maxlen = default_replay_buffer_size; records = [] }
init (pos (suc n)) = record { maxlen = suc n; records = [] }

-- the record that `deque.append` drops on the left
abbrev pub popleft : List ReplayRecord → List ReplayRecord
popleft [] = []
popleft (r ∷ rs) = rs

-- `deque.append` at a maximal length
unfoldable pub push : ReplayRecord → ReplayBuffer → ReplayBuffer
push r b =
    let records = b.records ++ r ∷ [] in
    record b { records = if ltb b.maxlen (length records) then popleft records else records }

-- since_seq < n
abbrev pub lt_seq : ℤ → ℕ → Bool
lt_seq (pos s) n = ltb s n
lt_seq (negsuc s) n = true

-- since_seq + 1 < n
abbrev pub gap_before : ℤ → ℕ → Bool
gap_before (pos s) n = ltb (s + 1) n
gap_before (negsuc zero) n = ltb 0 n
gap_before (negsuc (suc s)) n = true

unfoldable pub slice_from : ℤ → List ReplayRecord → ReplaySlice
slice_from since_seq [] = record { records = []; covered = true }
slice_from since_seq (r ∷ rs) =
    if gap_before since_seq r.seq
    then record { records = []; covered = false }
    else record { records = keep (λ q. lt_seq since_seq q.seq) (r ∷ rs); covered = true }

unfoldable pub since : ℤ → ReplayBuffer → ReplaySlice
unfolding slice_from
since since_seq b = slice_from since_seq b.records

unfoldable pub reset : ReplayBuffer → ReplayBuffer
reset b = record b { records = [] }

unfoldable pub len : ReplayBuffer → ℕ
len b = length b.records
