-- ===== src/Prelude/Words.antt =====
-- 64-bit words as numbers below 2 ^ 64. An int64 is its two's complement bit pattern, so that the
-- conversions `int64(x)` and `uint64(x)` leave the number as it is; a Go `int` is an int64.
use Prim.Native.Nat.{ℕ, ◌+◌, ◌-◌, ◌%◌, ◌^◌}
use mathlib.Core.Bool.{Bool, ◌||◌}
use smb_mem_lib.Prelude.Tests.{ltb, leb}

-- `a + b` and `a - b` on uint64 and on int64, which wrap round alike.
abbrev pub add64 : ℕ → ℕ → ℕ
add64 a b = (a + b) % 2 ^ 64

abbrev pub sub64 : ℕ → ℕ → ℕ
sub64 a b = (a + 2 ^ 64 - b) % 2 ^ 64

-- Moves the negative patterns below the others, and keeps the order in each half.
abbrev pub biased : ℕ → ℕ
biased a = (a + 2 ^ 63) % 2 ^ 64

-- `a < b` and `a <= b` on int64.
abbrev pub slt : ℕ → ℕ → Bool
slt a b = ltb (biased a) (biased b)

abbrev pub sle : ℕ → ℕ → Bool
sle a b = leb (biased a) (biased b)

-- `n >= b` for a length `n`, which is not negative, and an int `b`.
abbrev pub length_ge : ℕ → ℕ → Bool
length_ge n b = slt b 0 || leb b n
