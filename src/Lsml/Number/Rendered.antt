-- ===== src/Lsml/Number/Rendered.antt =====
-- `format_number` renders the digits and the scale that `repr` has.
use lumencast_py.Prelude.{ℕ, ◌≡◌, refl, sym, ◌∙◌, false, ◌||◌, some, ◌∷◌, ◌++◌}
use lumencast_py.Json.{ℤ, pos, Float, ok}
use lumencast_py.Lsml.Chars.{Chars, before, after, lstrip, rstrip, is_empty}
use lumencast_py.Lsml.Chars.Laws.{
  Free, Free-append, Free-before, Free-before_other, Free-after, Free-lstrip, Free-rstrip,
  lstrip-lstrip, rstrip-rstrip, lstrip-rstrip,
}
use lumencast_py.Lsml.Number.{Numerals, scaled, shortest_digits, place, format_number, signed}
use lumencast_py.Lsml.Number.RoundTrip.{
  IsDigits, Legible, or_nought_lem, plain_digits, scaled_digits, shortest_digits-place,
}

-- The mantissa of a number that is not zero: one point at most, and a digit other than zero.
pub record IsMantissa (m : Chars) : Type 0 where
  pub unscaled : Free b'e' m
  pub pointed_once : Free b'.' (after b'.' m)
  pub nonzero : is_empty (lstrip b'0' (before b'.' m ++ after b'.' m)) ≡ false

-- What `repr` gives for a float that is positive and finite.
pub data IsRepr (num : Numerals) (t : Chars) : Type 0 where
  positional : IsMantissa t → IsRepr num t
  scientific :
      (m x : Chars) (z : ℤ)
      → IsMantissa m
      → Free b'e' x
      → num.int_of x ≡ some z
      → t ≡ m ++ b'e' ∷ x
      → IsRepr num t

scaled-IsDigits : (m : Chars) (e : ℤ) → IsMantissa m → IsDigits (scaled m e).0
unfolding scaled
scaled-IsDigits m e h =
    let raw = before b'.' m ++ after b'.' m in
    let (filled, led) = lstrip-rstrip b'0' (lstrip b'0' raw) h.nonzero (lstrip-lstrip b'0' raw) in
    let strip : (c : ℕ) → Free c raw → Free c (rstrip b'0' (lstrip b'0' raw)) =
      λ c f. Free-rstrip b'0' c (lstrip b'0' raw) (Free-lstrip b'0' c raw f) in
    rw (or_nought_lem (rstrip b'0' (lstrip b'0' raw)) filled) (record {
      filled = filled;
      led = led;
      ended = rstrip-rstrip b'0' (lstrip b'0' raw);
      pointless = strip b'.' (Free-append b'.' _ _ (Free-before b'.' m) h.pointed_once);
      unscaled = strip b'e' (
          Free-append b'e' _ _ (Free-before_other b'.' b'e' m h.unscaled)
            (Free-after b'.' b'e' m h.unscaled));
    })

module _ (num : Numerals) (legible : Legible num) where
  repr-IsDigits :
      (t : Chars)
      → IsRepr num t
      → (d : Chars) × (z : ℤ) × (shortest_digits num t ≡ ok (d, z)) × IsDigits d
  repr-IsDigits t (positional h) = (
    (scaled t (pos 0)).0,
    (scaled t (pos 0)).1,
    plain_digits num legible t h.unscaled,
    scaled-IsDigits t (pos 0) h,
  )
  repr-IsDigits t (scientific m x z h f e s) = (
    (scaled m z).0,
    (scaled m z).1,
    rw s (scaled_digits num legible m x z h.unscaled f e),
    scaled-IsDigits m z h,
  )

  -- A float that is finite and not zero is rendered, with its sign in front, as a text that has the
  -- digits and the scale of `repr`, where `repr` writes a positive decimal and int() reads what
  -- str() writes.
  pub format_number-Rendered :
      (f : Float)
      → (num.is_nan f || num.is_inf f) ≡ false
      → num.is_zero f ≡ false
      → IsRepr num (num.repr_abs f)
      → (t : Chars) × (format_number num f ≡ ok (signed num (num.is_negative f) t))
        × (shortest_digits num t ≡ shortest_digits num (num.repr_abs f))
  unfolding format_number
  format_number-Rendered f finite nonzero r =
      let (d, z, e, digits) = repr-IsDigits (num.repr_abs f) r in
      (
        place num d z,
        rw (finite, nonzero, e) refl,
        shortest_digits-place num legible d z digits ∙ sym e,
      )
