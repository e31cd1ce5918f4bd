-- ===== src/Server/Scene/FanOut.antt =====
-- The subscribers of a scene and what the loops over them do to the heap.
use lumencast_py.Prelude.{
  ℕ, ◌+◌, ◌<◌, ◌≡◌, refl, Bool, true, false, List, [], ◌∷◌, ◌++◌, keep, ◌==◌, if◌then◌else◌, arith,
  Bool-cases, inl, inr,
}
use lumencast_py.Server.Subscription.{Subscription, Heap, modify, modify_all}
use lumencast_py.Server.Scene.{contains, add}

abbrev pub Distinct : List ℕ → Type 0
Distinct [] = Unit
Distinct (i ∷ is) = (contains i is ≡ false) × Distinct is

pub at-modify_all :
    (l : List ℕ) (f : Subscription → Subscription) (h : Heap) (i : ℕ)
    → Distinct l
    → (modify_all l f h).at i ≡ (if contains i l then f (h.at i) else h.at i)
unfolding modify_all
at-modify_all [] f h i d = refl
at-modify_all (j ∷ js) f h i d = ground (arith, at-modify_all js f (modify j f h) i)

pub contains-append :
    (i j : ℕ) (l : List ℕ) → contains i (l ++ j ∷ []) ≡ (if contains i l then true else i == j)
contains-append i j [] = ground arith
contains-append i j (k ∷ l) = ground (arith, contains-append i j l)

Distinct-append : (j : ℕ) (l : List ℕ) → Distinct l → contains j l ≡ false → Distinct (l ++ j ∷ [])
Distinct-append j [] d n = (refl, tt)
Distinct-append j (k ∷ l) d n =
    (ground (arith, contains-append k j l), Distinct-append j l d.1 (ground arith))

pub add-Distinct : (j : ℕ) (l : List ℕ) → Distinct l → Distinct (add j l)
unfolding add
add-Distinct j l d = elim (Bool-cases (contains j l)) [
  | inl old ↦ rw old d
  | inr new ↦ rw new (Distinct-append j l d new)
]

pub contains-add :
    (i j : ℕ) (l : List ℕ) → contains i (add j l) ≡ (if contains i l then true else i == j)
unfolding add
contains-add i j l = ground (arith, contains-append i j l)

pub contains-keep :
    (p : ℕ → Bool) (i : ℕ) (l : List ℕ)
    → contains i (keep p l) ≡ (if p i then contains i l else false)
unfolding keep
contains-keep p i [] = ground arith
contains-keep p i (j ∷ l) = ground (arith, contains-keep p i l)

pub keep-Distinct : (p : ℕ → Bool) (l : List ℕ) → Distinct l → Distinct (keep p l)
unfolding keep
keep-Distinct p [] d = tt
keep-Distinct p (j ∷ l) d = elim (Bool-cases (p j)) [
  | inl kept ↦ rw kept (ground (arith, contains-keep p j l, d.0), keep-Distinct p l d.1)
  | inr dropped ↦ rw dropped (keep-Distinct p l d.1)
]

pub next-modify_all :
    (l : List ℕ) (f : Subscription → Subscription) (h : Heap) → (modify_all l f h).next ≡ h.next
unfolding modify_all
next-modify_all [] f h = refl
next-modify_all (j ∷ js) f h = next-modify_all js f (modify j f h)

-- What a loop over the subscribers does to one of them.
pub at-modify_all_member :
    (l : List ℕ) (f : Subscription → Subscription) (h : Heap) (i : ℕ)
    → Distinct l
    → contains i l ≡ true
    → (modify_all l f h).at i ≡ f (h.at i)
at-modify_all_member l f h i d m = ground (arith, at-modify_all l f h i)

-- References below a bound.
abbrev pub Below : ℕ → List ℕ → Type 0
Below n [] = Unit
Below n (j ∷ js) = (j < n) × Below n js

pub contains-lt : (i n : ℕ) (l : List ℕ) → Below n l → contains i l ≡ true → i < n
contains-lt i n [] b m = cc
contains-lt i n (j ∷ l) b m = ground (arith, contains-lt i n l)

pub Below-suc : (n : ℕ) (l : List ℕ) → Below n l → Below (n + 1) l
Below-suc n [] b = tt
Below-suc n (j ∷ l) b = (omega arith, Below-suc n l b.1)

Below-append : (n j : ℕ) (l : List ℕ) → Below n l → j < n → Below n (l ++ j ∷ [])
Below-append n j [] b h = (h, tt)
Below-append n j (k ∷ l) b h = (b.0, Below-append n j l b.1 h)

pub Below-add : (n j : ℕ) (l : List ℕ) → Below n l → j < n → Below n (add j l)
unfolding add
Below-add n j l b h = elim (Bool-cases (contains j l)) [
  | inl old ↦ rw old b
  | inr new ↦ rw new (Below-append n j l b h)
]

pub Below-keep : (n : ℕ) (p : ℕ → Bool) (l : List ℕ) → Below n l → Below n (keep p l)
unfolding keep
Below-keep n p [] b = tt
Below-keep n p (j ∷ l) b = elim (Bool-cases (p j)) [
  | inl kept ↦ rw kept (b.0, Below-keep n p l b.1)
  | inr dropped ↦ rw dropped (Below-keep n p l b.1)
]
