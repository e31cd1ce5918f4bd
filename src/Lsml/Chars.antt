-- ===== src/Lsml/Chars.antt =====
-- Python's `str` methods on the list of a text's code points.
pub mod Laws
use lumencast_py.Prelude.{
  ℕ, zero, suc, ◌≡◌, Bool, true, false, ◌&&◌, List, [], ◌∷◌, ◌==◌, if◌then◌else◌,
}

abbrev pub Chars : Type 0
Chars = List ℕ

-- c in s
unfoldable pub contains : ℕ → Chars → Bool
contains c [] = false
contains c (d ∷ s) = if c == d then true else contains c s

-- s.partition(c), without the separator: all of `s` is before a separator that is not there
unfoldable pub before : ℕ → Chars → Chars
before c [] = []
before c (d ∷ s) = let rest = before c s in if c == d then [] else d ∷ rest

unfoldable pub after : ℕ → Chars → Chars
after c [] = []
after c (d ∷ s) = if c == d then s else after c s

-- s.lstrip(c)
unfoldable pub lstrip : ℕ → Chars → Chars
lstrip c [] = []
lstrip c (d ∷ s) = if c == d then lstrip c s else d ∷ s

abbrev pub is_empty : Chars → Bool
is_empty [] = true
is_empty (c ∷ s) = false

-- s.rstrip(c)
unfoldable pub rstrip : ℕ → Chars → Chars
rstrip c [] = []
rstrip c (d ∷ s) = let rest = rstrip c s in if (c == d) && is_empty rest then [] else d ∷ rest

-- c * n
unfoldable pub repeat : ℕ → ℕ → Chars
repeat c zero = []
repeat c (suc n) = c ∷ repeat c n

-- s[:n] and s[n:]
unfoldable pub take : ℕ → Chars → Chars
take zero s = []
take (suc n) [] = []
take (suc n) (c ∷ s) = c ∷ take n s

unfoldable pub drop : ℕ → Chars → Chars
drop zero s = s
drop (suc n) [] = []
drop (suc n) (c ∷ s) = drop n s
