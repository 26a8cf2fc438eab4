-- ===== src/Prelude/Words.antt =====
-- Machine words of the 32-bit target: an `int`, an `unsigned int` and an `unsigned long` are
-- the bit pattern below 2 ^ 32, so a conversion between them is the identity; a `short` is the
-- pattern below 2 ^ 16.
use Prim.Native.Nat.{ℕ, ◌+◌, ◌-◌, ◌^◌, ◌%◌}
use mathlib.Core.Bool.{Bool, ◌||◌, ◌&&◌}
use tcpoudp.Prelude.Tests.{ltb, leb, ◌==◌}

abbrev pub word : ℕ
word = 2 ^ 32

abbrev pub half_word : ℕ
half_word = 2 ^ 31

abbrev pub short_word : ℕ
short_word = 2 ^ 16

-- `unsigned` addition and subtraction wrap.
abbrev pub add32 : ℕ → ℕ → ℕ
add32 a b = (a + b) % word

abbrev pub sub32 : ℕ → ℕ → ℕ
sub32 a b = (a + word - b) % word

-- The pattern of the int -1.
abbrev pub minus_one : ℕ
minus_one = 2 ^ 32 - 1

-- `x <= 0` at an int.
abbrev pub nonpositive : ℕ → Bool
nonpositive x = x == 0 || leb half_word x

-- `a < b` between ints.
abbrev pub lt_int : ℕ → ℕ → Bool
lt_int a b = ltb ((a + half_word) % word) ((b + half_word) % word)

-- `k <= d` between a small positive constant and a short.
abbrev pub le_short : ℕ → ℕ → Bool
le_short k d = ltb d (2 ^ 15) && leb k d
