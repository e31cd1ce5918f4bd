-- ===== src/Lsml/Number.antt =====
-- lsml/hash.py: `format_number`, which renders a number as ECMAScript does. The digits are read off
-- `repr`, which is a parameter.
pub mod RoundTrip
pub mod Rendered
use lumencast_py.Prelude.{
  ℕ, zero, suc, ◌+◌, ◌-◌, Bool, true, false, not, ◌&&◌, ◌||◌, Option, none, some, List, [], ◌∷◌,
  ◌++◌, length, leb, ltb, if◌then◌else◌,
}
use lumencast_py.Json.{ℤ, pos, negsuc, Float, Result, ok, raise, value_error, ◌>>=◌}
use lumencast_py.Json.Integers.{◌+ℤ◌, minus, nonneg, abs}
use lumencast_py.Lsml.Chars.{
  Chars, contains, before, after, lstrip, rstrip, is_empty, repeat, take, drop,
}

-- What the interpreter answers of floats and integers: math.isnan and math.isinf, f == 0.0, f < 0,
-- repr(abs(f)), str of a natural number, and int of a text.
pub record Numerals : Type 0 where
  pub is_nan : Float → Bool
  pub is_inf : Float → Bool
  pub is_zero : Float → Bool
  pub is_negative : Float → Bool
  pub repr_abs : Float → Chars
  pub show : ℕ → Chars
  pub int_of : Chars → Option ℤ

abbrev pub exp_upper : ℕ
exp_upper = 21

abbrev pub or_value_error {ℓ} : {A : Type ℓ} → Option A → Result A
or_value_error none = raise value_error
or_value_error (some a) = ok a

-- s or "0"
abbrev pub or_nought : Chars → Chars
or_nought [] = b'0' ∷ []
or_nought (c ∷ s) = c ∷ s

-- the digits and the point of a mantissa, scaled by an exponent
unfoldable pub scaled : Chars → ℤ → Chars × ℤ
scaled mantissa exponent =
    let integer_part = before b'.' mantissa in
    let fraction_part = after b'.' mantissa in
    let raw = integer_part ++ fraction_part in
    let stripped = lstrip b'0' raw in
    let leading_zeros = length raw - length stripped in
    (or_nought (rstrip b'0' stripped), minus (pos (length integer_part) +ℤ exponent) leading_zeros)

module _ (num : Numerals) where
  -- A second "e" does not unpack, and an exponent that int() refuses raises: both are ValueErrors.
  unfoldable pub shortest_digits : Chars → Result (Chars × ℤ)
  unfolding scaled
  shortest_digits text =
      if contains b'e' text
      then (if contains b'e' (after b'e' text)
          then raise value_error
          else or_value_error (num.int_of (after b'e' text)) >>= λ exponent.
              ok (scaled (before b'e' text) exponent))
      else ok (scaled text (pos 0))

  abbrev pub mantissa_of : Chars → Chars
  mantissa_of [] = []
  mantissa_of (d ∷ []) = d ∷ []
  mantissa_of (d ∷ c ∷ s) = d ∷ b'.' ∷ c ∷ s

  abbrev pub sign_of : ℤ → ℕ
  sign_of z = if nonneg z then b'+' else b'-'

  unfoldable pub exponential : Chars → ℤ → Chars
  exponential digits point =
      let exponent = minus point 1 in
      mantissa_of digits ++ b'e' ∷ sign_of exponent ∷ num.show (abs exponent)

  -- the digits with the point where ECMAScript writes it
  unfoldable pub place : Chars → ℤ → Chars
  unfolding exponential
  place digits (pos point) =
      if leb (length digits) point && leb point exp_upper
      then digits ++ repeat b'0' (point - length digits)
      else if ltb 0 point && leb point exp_upper
      then take point digits ++ b'.' ∷ drop point digits
      else if leb point 0
      then b'0' ∷ b'.' ∷ digits
      else exponential digits (pos point)
  place digits (negsuc n) =
      if ltb (n + 1) 6
      then b'0' ∷ b'.' ∷ (repeat b'0' (n + 1) ++ digits)
      else exponential digits (negsuc n)

  abbrev pub signed : Bool → Chars → Chars
  signed true s = b'-' ∷ s
  signed false s = s

  unfoldable pub format_number : Float → Result Chars
  unfolding shortest_digits place
  format_number f =
      if num.is_nan f || num.is_inf f
      then raise value_error
      else if num.is_zero f
      then ok (b'0' ∷ [])
      else shortest_digits (num.repr_abs f) >>= λ (digits, point).
          ok (signed (num.is_negative f) (place digits point))
