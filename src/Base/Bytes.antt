-- ===== src/Base/Bytes.antt =====
-- Byte lengths of texts.
use Prim.Native.Nat.{ℕ, ◌+◌, ◌-◌, ◌≤◌, compare, Ordering}
use Prim.Native.Char.{Char, len_utf8}
use Prim.Native.String.len
use Prim.Native.String.slice
use Prim.Native.String.{String, len, slice, fits}
use mathlib.Core.Path.{◌≡◌, refl}
use native.Mathlib.Omega.{arith}
use text.Mathlib.TextEquality.{eq_iff}
use text.Mathlib.TextPositions.{len-append, len_utf8-pos}
use darius.Base.Text.{◌⧺◌, is_blank}
use mathlib.Core.Bool.{true}

-- The test is told apart by its three outcomes, the text stays a variable.
fits_cases :
    (o : Ordering) (a b : ℕ) (c : Char) (r : String)
    → compare a b ≡ o
    → len_utf8 c ≡ a
    → len r ≤ b - a
    → len (fits o c r) ≤ b
fits_cases Ordering.lt a b c r o e h = rw (len.cons c r, e) (ground arith)
fits_cases Ordering.eq a b c r o e h = rw (len.cons c r, e) (ground arith)
fits_cases Ordering.gt a b c r o e h = rw len.nil (omega arith)

len-fits-le :
    (c : Char) (r : String) (b : ℕ)
    → len r ≤ b - len_utf8 c
    → len (fits (compare (len_utf8 c) b) c r) ≤ b
len-fits-le c r b h = fits_cases (compare (len_utf8 c) b) (len_utf8 c) b c r refl refl h

-- A text that is cut at a byte position is no longer than that.
pub len-slice-le : (s : String) (b : ℕ) → len (slice s 0 b) ≤ b
len-slice-le String.[] b = rw (slice.nil 0 b, len.nil) (omega arith)
len-slice-le (String.◌∷◌ c s) b =
    rw (slice.cons-zero c s b)
      (len-fits-le c (slice s 0 (b - len_utf8 c)) b (len-slice-le s (b - len_utf8 c)))

pub len-⧺ : (s t : String) → len (s ⧺ t) ≡ len s + len t
len-⧺ = len-append

-- Only the empty text has no bytes.
pub blank_of_len : (s : String) → len s ≡ 0 → is_blank s ≡ true
blank_of_len String.[] e = ground (arith, eq_iff "" "")
blank_of_len (String.◌∷◌ c s) e =
    let (k, p) = len_utf8-pos c in absurd (omega (arith, len.cons c s, p))
