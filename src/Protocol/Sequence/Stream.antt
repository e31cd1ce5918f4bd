-- ===== src/Protocol/Sequence/Stream.antt =====
-- What a receiver concludes from a stream of sequence numbers.
use lumencast_py.Prelude.{
  ℕ, suc, zero, ◌+◌, ◌≤◌, ◌≡◌, refl, List, [], ◌∷◌, arith, inl, inr, Bool-cases, ◌==◌, leb,
}
use lumencast_py.Json.{ℤ, pos, negsuc}
use lumencast_py.Protocol.Sequence.{
  SequenceTracker, Observed, advance, replay, invalid_seq_start, gap, observe_server, next_server,
}

-- The frames that the receiver applies, up to the first exception.
abbrev keep_if_advance : Observed → ℤ → List ℤ → List ℤ
keep_if_advance advance seq rest = seq ∷ rest
keep_if_advance replay seq rest = rest
keep_if_advance invalid_seq_start seq rest = []
keep_if_advance gap seq rest = []

unfoldable pub applied : SequenceTracker → List ℤ → List ℤ
applied t [] = []
applied t (seq ∷ seqs) =
    let (seen, t') = observe_server t seq in keep_if_advance seen seq (applied t' seqs)

abbrev pub Consecutive : ℕ → List ℤ → Type 0
Consecutive c [] = Unit
Consecutive c (seq ∷ seqs) = (seq ≡ pos (c + 1)) × Consecutive (c + 1) seqs

-- the numbers that a sender allocates in `n` calls of `next_server`
unfoldable pub sent : ℕ → SequenceTracker → List ℤ
sent zero t = []
sent (suc n) t = let (seq, t') = next_server t in pos seq ∷ sent n t'

-- The three things that can happen once a first frame has been seen.
data Seen (t : SequenceTracker) (seq : ℤ) : Type 0 where
  next :
      observe_server t seq ≡ (advance, record { cur = t.cur + 1 })
      → seq ≡ pos (t.cur + 1)
      → Seen t seq
  old : observe_server t seq ≡ (replay, t) → Seen t seq
  ahead : observe_server t seq ≡ (gap, t) → Seen t seq

seen : (t : SequenceTracker) (seq : ℤ) → 1 ≤ t.cur → Seen t seq
unfolding observe_server
seen t (negsuc n) h = old (ground arith)
seen t (pos n) h = elim (Bool-cases (n == t.cur + 1)) [
  | inl same ↦ next (ground arith) (ground arith)
  | inr other ↦ elim (Bool-cases (leb n t.cur)) [
    | inl low ↦ old (ground arith)
    | inr high ↦ ahead (ground arith)
  ]
]

applied-cons :
    (t t' : SequenceTracker) (o : Observed) (seq : ℤ) (seqs : List ℤ)
    → observe_server t seq ≡ (o, t')
    → applied t (seq ∷ seqs) ≡ keep_if_advance o seq (applied t' seqs)
unfolding applied
applied-cons t t' o seq seqs e = rw e

-- After its first frame a receiver applies consecutive numbers only: whatever is received, in
-- whatever order, no frame is applied twice and none is passed over.
pub applied-Consecutive :
    (t : SequenceTracker) (seqs : List ℤ) → 1 ≤ t.cur → Consecutive t.cur (applied t seqs)
applied-Consecutive t [] h = unfold applied in tt
applied-Consecutive t (seq ∷ seqs) h = elim (seen t seq h) [
  | next e p ↦
      rw (applied-cons t _ advance seq seqs e)
        (p, applied-Consecutive (record { cur = t.cur + 1 }) seqs (omega arith))
  | old e ↦ rw (applied-cons t t replay seq seqs e) (applied-Consecutive t seqs h)
  | ahead e ↦ rw (applied-cons t t gap seq seqs e) tt
]

-- A receiver that is level with the sender applies every frame that the sender emits next.
applied-sent : (n : ℕ) (t : SequenceTracker) → applied t (sent n t) ≡ sent n t
unfolding applied observe_server sent next_server
applied-sent zero t = refl
applied-sent (suc n) t = ground (arith, applied-sent n (next_server t).1)
