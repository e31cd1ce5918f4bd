-- ===== src/Lsml/Chars/Laws.antt =====
-- Taking a text apart at a character, and stripping what was padded.
use lumencast_py.Prelude.{
  ℕ, zero, suc, ◌≤◌, ◌≡◌, refl, ap, true, false, [], ◌∷◌, ◌++◌, length, All, ◌==◌, arith, ◌&&◌, inl,
  inr, Bool-cases,
}
use lumencast_py.Lsml.Chars.{
  Chars, contains, before, after, lstrip, rstrip, is_empty, repeat, take, drop,
}

-- The character is not in the text.
abbrev pub Free : ℕ → Chars → Type 0
Free c s = All (λ d. (c == d) ≡ false) s

pub contains-Free : (c : ℕ) (s : Chars) → Free c s → contains c s ≡ false
unfolding contains
contains-Free c [] f = refl
contains-Free c (d ∷ s) f = ground (arith, contains-Free c s f.1, f.0)

pub before-Free : (c : ℕ) (s : Chars) → Free c s → before c s ≡ s
unfolding before
before-Free c [] f = refl
before-Free c (d ∷ s) f = rw f.0 (ap (◌∷◌ d) (before-Free c s f.1))

pub after-Free : (c : ℕ) (s : Chars) → Free c s → after c s ≡ []
unfolding after
after-Free c [] f = refl
after-Free c (d ∷ s) f = rw f.0 (after-Free c s f.1)

pub contains-append : (c : ℕ) (s t : Chars) → contains c (s ++ c ∷ t) ≡ true
unfolding contains
contains-append c [] t = ground arith
contains-append c (d ∷ s) t = ground (arith, contains-append c s t)

pub before-append : (c : ℕ) (s t : Chars) → Free c s → before c (s ++ c ∷ t) ≡ s
unfolding before
before-append c [] t f = ground arith
before-append c (d ∷ s) t f = rw f.0 (ap (◌∷◌ d) (before-append c s t f.1))

pub after-append : (c : ℕ) (s t : Chars) → Free c s → after c (s ++ c ∷ t) ≡ t
unfolding after
after-append c [] t f = ground arith
after-append c (d ∷ s) t f = rw f.0 (after-append c s t f.1)

pub length-repeat : (c n : ℕ) → length (repeat c n) ≡ n
unfolding repeat
length-repeat c zero = refl
length-repeat c (suc n) = ap suc (length-repeat c n)

pub Free-repeat : (c d n : ℕ) → (c == d) ≡ false → Free c (repeat d n)
unfolding repeat
Free-repeat c d zero h = tt
Free-repeat c d (suc n) h = (h, Free-repeat c d n h)

pub Free-append : (c : ℕ) (s t : Chars) → Free c s → Free c t → Free c (s ++ t)
Free-append c [] t f g = g
Free-append c (d ∷ s) t f g = (f.0, Free-append c s t f.1 g)

pub Free-take : (c n : ℕ) (s : Chars) → Free c s → Free c (take n s)
unfolding take
Free-take c zero s f = tt
Free-take c (suc n) [] f = tt
Free-take c (suc n) (d ∷ s) f = (f.0, Free-take c n s f.1)

pub take-drop : (n : ℕ) (s : Chars) → take n s ++ drop n s ≡ s
unfolding take drop
take-drop zero s = refl
take-drop (suc n) [] = refl
take-drop (suc n) (c ∷ s) = ap (◌∷◌ c) (take-drop n s)

pub length-take : (n : ℕ) (s : Chars) → n ≤ length s → length (take n s) ≡ n
unfolding take
length-take zero s h = refl
length-take (suc n) [] h = absurd (omega arith)
length-take (suc n) (c ∷ s) h = ap suc (length-take n s (omega arith))

pub lstrip-repeat : (c n : ℕ) (s : Chars) → lstrip c (repeat c n ++ s) ≡ lstrip c s
unfolding lstrip repeat
lstrip-repeat c zero s = refl
lstrip-repeat c (suc n) s = ground (arith, lstrip-repeat c n s)

rstrip_blank : (c n : ℕ) → rstrip c (repeat c n) ≡ []
unfolding rstrip repeat
rstrip_blank c zero = refl
rstrip_blank c (suc n) = ground (arith, rstrip_blank c n)

pub rstrip-repeat : (c n : ℕ) (s : Chars) → rstrip c (s ++ repeat c n) ≡ rstrip c s
unfolding rstrip
rstrip-repeat c n [] = rstrip_blank c n
rstrip-repeat c n (d ∷ s) = rw (rstrip-repeat c n s) refl

length-lstrip : (c : ℕ) (s : Chars) → length (lstrip c s) ≤ length s
unfolding lstrip
length-lstrip c [] = omega arith
length-lstrip c (d ∷ s) = ground (arith, length-lstrip c s)

-- Nothing is stripped of a text that starts with nothing to strip.
pub lstrip-append :
    (c : ℕ) (s t : Chars) → is_empty s ≡ false → lstrip c s ≡ s → lstrip c (s ++ t) ≡ s ++ t
unfolding lstrip
lstrip-append c [] t f h = absurd cc
lstrip-append c (d ∷ s) t f h = ground (arith, length-lstrip c s, ap length h)

pub Free-drop : (c n : ℕ) (s : Chars) → Free c s → Free c (drop n s)
unfolding drop
Free-drop c zero s f = f
Free-drop c (suc n) [] f = tt
Free-drop c (suc n) (d ∷ s) f = Free-drop c n s f.1

pub Free-before : (c : ℕ) (s : Chars) → Free c (before c s)
unfolding before
Free-before c [] = tt
Free-before c (d ∷ s) = elim (Bool-cases (c == d)) [
  | inl same ↦ rw same tt
  | inr other ↦ rw other (other, Free-before c s)
]

pub Free-before_other : (c e : ℕ) (s : Chars) → Free e s → Free e (before c s)
unfolding before
Free-before_other c e [] f = tt
Free-before_other c e (d ∷ s) f = elim (Bool-cases (c == d)) [
  | inl same ↦ rw same tt
  | inr other ↦ rw other (f.0, Free-before_other c e s f.1)
]

pub Free-after : (c e : ℕ) (s : Chars) → Free e s → Free e (after c s)
unfolding after
Free-after c e [] f = tt
Free-after c e (d ∷ s) f = elim (Bool-cases (c == d)) [
  | inl same ↦ rw same f.1
  | inr other ↦ rw other (Free-after c e s f.1)
]

pub Free-lstrip : (c e : ℕ) (s : Chars) → Free e s → Free e (lstrip c s)
unfolding lstrip
Free-lstrip c e [] f = tt
Free-lstrip c e (d ∷ s) f = elim (Bool-cases (c == d)) [
  | inl same ↦ rw same (Free-lstrip c e s f.1)
  | inr other ↦ rw other f
]

pub Free-rstrip : (c e : ℕ) (s : Chars) → Free e s → Free e (rstrip c s)
unfolding rstrip
Free-rstrip c e [] f = tt
Free-rstrip c e (d ∷ s) f = elim (Bool-cases ((c == d) && is_empty (rstrip c s))) [
  | inl gone ↦ rw gone tt
  | inr kept ↦ rw kept (f.0, Free-rstrip c e s f.1)
]

pub lstrip-lstrip : (c : ℕ) (s : Chars) → lstrip c (lstrip c s) ≡ lstrip c s
unfolding lstrip
lstrip-lstrip c [] = refl
lstrip-lstrip c (d ∷ s) = elim (Bool-cases (c == d)) [
  | inl same ↦ rw same (lstrip-lstrip c s)
  | inr other ↦ rw (other, other) refl
]

pub rstrip-rstrip : (c : ℕ) (s : Chars) → rstrip c (rstrip c s) ≡ rstrip c s
unfolding rstrip
rstrip-rstrip c [] = refl
rstrip-rstrip c (d ∷ s) = elim (Bool-cases ((c == d) && is_empty (rstrip c s))) [
  | inl gone ↦ rw gone refl
  | inr kept ↦ rw (kept, rstrip-rstrip c s, kept) refl
]

-- A text that starts with something to keep still does after both strips.
pub lstrip-rstrip :
    (c : ℕ) (s : Chars)
    → is_empty s ≡ false
    → lstrip c s ≡ s
    → (is_empty (rstrip c s) ≡ false) × (lstrip c (rstrip c s) ≡ rstrip c s)
unfolding lstrip rstrip
lstrip-rstrip c [] f h = absurd cc
lstrip-rstrip c (d ∷ s) f h = elim (Bool-cases (c == d)) [
  | inl same ↦ absurd (ground (arith, same, length-lstrip c s, ap length h))
  | inr other ↦ rw (other, other) (refl, refl)
]
