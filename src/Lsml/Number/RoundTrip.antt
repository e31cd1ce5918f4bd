-- ===== src/Lsml/Number/RoundTrip.antt =====
-- Where ECMAScript writes the point: the digits and their scale are read back from the text.
use lumencast_py.Prelude.{
  ◌&&◌, ℕ, ◌+◌, ◌-◌, ◌≤◌, ◌≡◌, refl, ap, ◌∙◌, false, some, [], ◌∷◌, ◌++◌, length, length-append,
  ltb, leb, arith, inl, inr, Bool-cases,
}
use mathlib.Core.List.{append-nil}
use lumencast_py.Json.{ℤ, pos, negsuc, ok}
use lumencast_py.Json.Integers.{
  ◌+ℤ◌, minus, abs, diff, diff_none, minus_none, diff-suc, diff_below, one_more,
}
use lumencast_py.Lsml.Chars.{Chars, before, after, lstrip, rstrip, is_empty, repeat, take, drop}
use lumencast_py.Lsml.Chars.Laws.{
  Free, contains-Free, before-Free, after-Free, contains-append, before-append, after-append,
  length-repeat, Free-repeat, Free-append, Free-take, Free-drop, take-drop, length-take,
  lstrip-repeat, rstrip-repeat, lstrip-append,
}
use lumencast_py.Lsml.Number.{
  Numerals, scaled, shortest_digits, place, exponential, mantissa_of, sign_of, or_nought, exp_upper,
}

-- Digits as `shortest_digits` gives them: some, with no zero at either end, and without a point or
-- an exponent.
pub record IsDigits (d : Chars) : Type 0 where
  pub filled : is_empty d ≡ false
  pub led : lstrip b'0' d ≡ d
  pub ended : rstrip b'0' d ≡ d
  pub pointless : Free b'.' d
  pub unscaled : Free b'e' d

pub or_nought_lem : (d : Chars) → is_empty d ≡ false → or_nought d ≡ d
or_nought_lem [] h = absurd cc
or_nought_lem (c ∷ d) h = refl

scaled_lem :
    (m i f s d : Chars) (e : ℤ)
    → before b'.' m ≡ i
    → after b'.' m ≡ f
    → lstrip b'0' (i ++ f) ≡ s
    → rstrip b'0' s ≡ d
    → is_empty d ≡ false
    → scaled m e ≡ (d, minus (pos (length i) +ℤ e) (length (i ++ f) - length s))
unfolding scaled
scaled_lem m i f s d e hi hf hs hd k = rw (hi, hf, hs, hd, or_nought_lem d k) refl

-- digits in front of the point, and zeros up to it
scaled-integral :
    (d : Chars) (k : ℕ) → IsDigits d → scaled (d ++ repeat b'0' k) (pos 0) ≡ (d, pos (length d + k))
unfolding ◌+ℤ◌ minus
scaled-integral d k h =
    let free = Free-append b'.' d (repeat b'0' k) h.pointless (Free-repeat b'.' b'0' k refl) in
    scaled_lem (d ++ repeat b'0' k) (d ++ repeat b'0' k) [] (d ++ repeat b'0' k) d (pos 0)
      (before-Free b'.' _ free) (after-Free b'.' _ free)
      (ap (lstrip b'0') (append-nil _) ∙ lstrip-append b'0' d _ h.filled h.led)
      (rstrip-repeat b'0' k d ∙ h.ended) h.filled
    ∙ ap (λ z. (d, z))
        (rw (append-nil (d ++ repeat b'0' k), length-append d (repeat b'0' k), length-repeat b'0' k)
          (diff_none (length d + k + 0) (length d + k - (length d + k)) (omega arith)
            ∙ ap pos (omega arith)))

-- the point within the digits
scaled-pointed :
    (d : Chars) (n : ℕ) (e : ℤ)
    → IsDigits d
    → n ≤ length d
    → scaled (take n d ++ b'.' ∷ drop n d) e ≡ (d, pos n +ℤ e)
unfolding minus
scaled-pointed d n e h le =
    let free = Free-take b'.' n d h.pointless in
    scaled_lem (take n d ++ b'.' ∷ drop n d) (take n d) (drop n d) d d e
      (before-append b'.' (take n d) (drop n d) free) (after-append b'.' (take n d) (drop n d) free)
      (ap (lstrip b'0') (take-drop n d) ∙ h.led) h.ended h.filled
    ∙ ap (λ z. (d, z))
        (rw (length-take n d le, take-drop n d)
          (minus_none (pos n +ℤ e) (length d - length d) (omega arith)))

-- zeros between the point and the digits
scaled-fraction :
    (d : Chars) (k : ℕ)
    → IsDigits d
    → scaled (b'0' ∷ b'.' ∷ (repeat b'0' k ++ d)) (pos 0) ≡ (d, diff 0 k)
unfolding before after lstrip ◌+ℤ◌ minus
scaled-fraction d k h =
    scaled_lem (b'0' ∷ b'.' ∷ (repeat b'0' k ++ d)) (b'0' ∷ []) (repeat b'0' k ++ d) d d (pos 0)
      refl refl (lstrip-repeat b'0' k d ∙ h.led) h.ended h.filled
    ∙ ap (λ z. (d, z))
        (rw (length-append (repeat b'0' k) d, length-repeat b'0' k)
          (ap (diff 1) (omega arith) ∙ diff-suc 0 k))

scaled-mantissa_of :
    (num : Numerals) (d : Chars) (e : ℤ)
    → IsDigits d
    → scaled (mantissa_of num d) e ≡ (d, pos 1 +ℤ e)
unfolding take drop
scaled-mantissa_of num [] e h = absurd (cc h.filled)
scaled-mantissa_of num (c ∷ []) e h =
    scaled_lem (c ∷ []) (c ∷ []) [] (c ∷ []) (c ∷ []) e (before-Free b'.' _ h.pointless)
      (after-Free b'.' _ h.pointless) h.led h.ended refl
    ∙ ap (λ z. (c ∷ [], z)) (minus_none (pos 1 +ℤ e) 0 refl)
scaled-mantissa_of num (c ∷ c' ∷ s) e h = scaled-pointed (c ∷ c' ∷ s) 1 e h (omega arith)

Free-mantissa_of : (num : Numerals) (d : Chars) → Free b'e' d → Free b'e' (mantissa_of num d)
Free-mantissa_of num [] f = tt
Free-mantissa_of num (c ∷ []) f = f
Free-mantissa_of num (c ∷ c' ∷ s) f = (f.0, (refl, f.1))

-- int() reads what str() writes, with either sign, and str() writes no "e".
pub record Legible (num : Numerals) : Type 0 where
  pub unscaled : (n : ℕ) → Free b'e' (num.show n)
  pub positive : (n : ℕ) → num.int_of (b'+' ∷ num.show n) ≡ some (pos n)
  pub negative : (n : ℕ) → num.int_of (b'-' ∷ num.show (n + 1)) ≡ some (negsuc n)

module _ (num : Numerals) (legible : Legible num) where
  pub plain_digits : (t : Chars) → Free b'e' t → shortest_digits num t ≡ ok (scaled t (pos 0))
  unfolding shortest_digits
  plain_digits t f = rw (contains-Free b'e' t f) refl

  pub scaled_digits :
      (m t : Chars) (z : ℤ)
      → Free b'e' m
      → Free b'e' t
      → num.int_of t ≡ some z
      → shortest_digits num (m ++ b'e' ∷ t) ≡ ok (scaled m z)
  unfolding shortest_digits
  scaled_digits m t z f g h =
      rw
        (
          contains-append b'e' m t,
          after-append b'e' m t f,
          before-append b'e' m t f,
          contains-Free b'e' t g,
          h,
        )
        refl

  int_of-sign_of : (z : ℤ) → num.int_of (sign_of num z ∷ num.show (abs z)) ≡ some z
  int_of-sign_of (pos n) = legible.positive n
  int_of-sign_of (negsuc n) = legible.negative n

  Free-sign_of : (z : ℤ) → Free b'e' (sign_of num z ∷ num.show (abs z))
  Free-sign_of (pos n) = (refl, legible.unscaled n)
  Free-sign_of (negsuc n) = (refl, legible.unscaled (n + 1))

  shortest_digits-exponential :
      (d : Chars) (z : ℤ) → IsDigits d → shortest_digits num (exponential num d z) ≡ ok (d, z)
  unfolding exponential
  shortest_digits-exponential d z h =
      scaled_digits (mantissa_of num d) _ (minus z 1) (Free-mantissa_of num d h.unscaled)
        (Free-sign_of (minus z 1)) (int_of-sign_of (minus z 1))
      ∙ ap ok (scaled-mantissa_of num d (minus z 1) h ∙ ap (λ w. (d, w)) (one_more z))

  shortest_digits-fraction :
      (d : Chars) (k : ℕ)
      → IsDigits d
      → shortest_digits num (b'0' ∷ b'.' ∷ (repeat b'0' k ++ d)) ≡ ok (d, diff 0 k)
  shortest_digits-fraction d k h =
      plain_digits _
        (refl, (refl, Free-append b'e' (repeat b'0' k) d (Free-repeat b'e' b'0' k refl) h.unscaled))
      ∙ ap ok (scaled-fraction d k h)

  shortest_digits-nought :
      (d : Chars) → IsDigits d → shortest_digits num (b'0' ∷ b'.' ∷ d) ≡ ok (d, pos 0)
  unfolding repeat diff
  shortest_digits-nought d h = shortest_digits-fraction d 0 h

  shortest_digits-pointed :
      (d : Chars) (n : ℕ)
      → IsDigits d
      → n ≤ length d
      → shortest_digits num (take n d ++ b'.' ∷ drop n d) ≡ ok (d, pos n)
  unfolding ◌+ℤ◌
  shortest_digits-pointed d n h le =
      plain_digits _ (
        Free-append b'e' (take n d) _ (Free-take b'e' n d h.unscaled)
          (refl, Free-drop b'e' n d h.unscaled))
      ∙ ap ok (scaled-pointed d n (pos 0) h le ∙ ap (λ m. (d, pos m)) (omega arith))

  shortest_digits-integral :
      (d : Chars) (n : ℕ)
      → IsDigits d
      → length d ≤ n
      → shortest_digits num (d ++ repeat b'0' (n - length d)) ≡ ok (d, pos n)
  shortest_digits-integral d n h le =
      plain_digits _ (Free-append b'e' d _ h.unscaled (Free-repeat b'e' b'0' (n - length d) refl))
      ∙ ap ok (scaled-integral d (n - length d) h ∙ ap (λ m. (d, pos m)) (omega arith))

  -- Wherever the point belongs, the text that `place` writes for digits is read back as the same
  -- digits at the same scale, for digits with no zero at either end, where int() reads what str()
  -- writes.
  pub shortest_digits-place :
      (d : Chars) (z : ℤ) → IsDigits d → shortest_digits num (place num d z) ≡ ok (d, z)
  unfolding place
  shortest_digits-place d (pos n) h = elim (Bool-cases (leb (length d) n && leb n exp_upper)) [
    | inl whole ↦ rw whole (shortest_digits-integral d n h (ground arith))
    | inr more ↦ elim (Bool-cases (ltb 0 n && leb n exp_upper)) [
      | inl within ↦ rw (more, within) (shortest_digits-pointed d n h (ground arith))
      | inr not_within ↦ elim (Bool-cases (leb n 0)) [
        | inl none_left ↦
            rw (more, not_within, none_left)
              (shortest_digits-nought d h ∙ ap (λ m. ok (d, pos m)) (ground arith))
        | inr large ↦ rw (more, not_within, large) (shortest_digits-exponential d (pos n) h)
      ]
    ]
  ]
  shortest_digits-place d (negsuc n) h = elim (Bool-cases (ltb (n + 1) 6)) [
    | inl near ↦ rw near (shortest_digits-fraction d (n + 1) h ∙ ap (λ m. ok (d, m)) (diff_below n))
    | inr far ↦ rw far (shortest_digits-exponential d (negsuc n) h)
  ]
