-- ===== src/Prelude/Int.antt =====
-- Python's integers, and `int(s)` on a text of code points.
use Prim.Native.Nat.{ℕ, ◌+◌, ◌-◌, ◌*◌}
use mathlib.Core.Bool.{Bool, false, ◌&&◌}
use mathlib.Core.Option.{Option, none, some}
use mathlib.Core.List.{List, [], ◌∷◌}
use autosubmit.Prelude.Tests.{ltb, leb, if◌then◌else◌}

-- `negsuc n` is -(n + 1).
pub data ℤ : Type 0 where
  pos : ℕ → ℤ
  negsuc : ℕ → ℤ

-- A text as its code points, for code that looks into a string.
abbrev pub Text : Type 0
Text = List ℕ

-- a - b, as an integer.
abbrev pub sub_ℕ : ℕ → ℕ → ℤ
sub_ℕ a b = if leb b a then pos (a - b) else negsuc (b - a - 1)

abbrev pub neg : ℕ → ℤ
neg n = sub_ℕ 0 n

infixl 65 ◌+ℤ◌
abbrev pub ◌+ℤ◌ : ℤ → ℤ → ℤ
pos a +ℤ pos b = pos (a + b)
pos a +ℤ negsuc b = sub_ℕ a (b + 1)
negsuc a +ℤ pos b = sub_ℕ b (a + 1)
negsuc a +ℤ negsuc b = negsuc (a + b + 1)

-- `n * z` for a count `n`.
abbrev pub scale : ℕ → ℤ → ℤ
scale n (pos a) = pos (n * a)
scale n (negsuc a) = neg (n * (a + 1))

-- `z > 0`.
abbrev pub positive : ℤ → Bool
positive (pos n) = ltb 0 n
positive (negsuc n) = false

is_digit : ℕ → Bool
is_digit c = leb b'0' c && leb c b'9'

digits_from : ℕ → Text → Option ℕ
unfolding is_digit
digits_from acc [] = some acc
digits_from acc (c ∷ s) =
    let rest = digits_from (acc * 10 + (c - b'0')) s in if is_digit c then rest else none

-- `int(s)` for an unsigned run of digits; the empty text is refused.
unfoldable pub int_of_digits : Text → Option ℕ
unfolding digits_from
int_of_digits [] = none
int_of_digits (c ∷ s) = digits_from 0 (c ∷ s)

negated : Option ℕ → Option ℤ
negated none = none
negated (some n) = some (neg n)

unsigned : Option ℕ → Option ℤ
unsigned none = none
unsigned (some n) = some (pos n)

-- `int(s)`: a sign at most, then digits. `none` is the ValueError. (Blanks and underscores, which
-- Python also takes, do not occur in the values that are read.)
unfoldable pub int_of : Text → Option ℤ
unfolding int_of_digits negated unsigned
int_of [] = none
int_of (c ∷ s) =
    if leb b'+' c && leb c b'+'
    then unsigned (int_of_digits s)
    else if leb b'-' c && leb c b'-'
    then negated (int_of_digits s)
    else unsigned (int_of_digits (c ∷ s))
