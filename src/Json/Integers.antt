-- ===== src/Json/Integers.antt =====
-- The integer operations that the code applies, over ℤ.
use lumencast_py.Prelude.{
  ℕ, zero, suc, ◌+◌, ◌-◌, Bool, true, false, leb, if◌then◌else◌, ◌≡◌, refl, ap, arith,
}
use lumencast_py.Json.{ℤ, pos, negsuc}

-- a - b of two natural numbers
unfoldable pub diff : ℕ → ℕ → ℤ
diff a b = if leb b a then pos (a - b) else negsuc (b - a - 1)

infixl 65 ◌+ℤ◌
unfoldable pub ◌+ℤ◌ : ℤ → ℤ → ℤ
unfolding diff
pos a +ℤ pos b = pos (a + b)
pos a +ℤ negsuc b = diff a (b + 1)
negsuc a +ℤ pos b = diff b (a + 1)
negsuc a +ℤ negsuc b = negsuc (a + b + 1)

-- z - n
unfoldable pub minus : ℤ → ℕ → ℤ
unfolding diff
minus (pos a) n = diff a n
minus (negsuc a) n = negsuc (a + n)

-- 0 <= z
abbrev pub nonneg : ℤ → Bool
nonneg (pos n) = true
nonneg (negsuc n) = false

-- abs(z)
abbrev pub abs : ℤ → ℕ
abs (pos n) = n
abs (negsuc n) = n + 1

pub diff_none : (a b : ℕ) → b ≡ 0 → diff a b ≡ pos a
unfolding diff
diff_none a b h = ground (arith, h)

pub minus_none : (z : ℤ) (n : ℕ) → n ≡ 0 → minus z n ≡ z
unfolding minus
minus_none (pos a) n h = diff_none a n h
minus_none (negsuc a) n h = ap negsuc (omega (arith, h))

pub diff-suc : (a b : ℕ) → diff (suc a) (suc b) ≡ diff a b
unfolding diff
diff-suc a b = ground arith

pub one_more : (z : ℤ) → pos 1 +ℤ minus z 1 ≡ z
unfolding ◌+ℤ◌ minus diff
one_more (pos zero) = refl
one_more (pos (suc n)) = ground arith
one_more (negsuc n) = ground arith

pub diff_below : (n : ℕ) → diff 0 (n + 1) ≡ negsuc n
unfolding diff
diff_below n = ground arith
