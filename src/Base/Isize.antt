-- ===== src/Base/Isize.antt =====
-- `isize` as its bit pattern, a number below 2 ^ 64.
use Prim.Native.Nat.{ℕ, ◌+◌, ◌-◌, ◌/◌, ◌%◌, ◌^◌}
use mathlib.Core.Bool.{Bool}
use bitos.Base.Tests.{ltb, leb, if◌then◌else◌}

-- The order of the signed values is the order of the shifted patterns.
abbrev pub rank : ℕ → ℕ
rank a = (a + 2 ^ 63) % 2 ^ 64

-- `a <= b` and `a < b` on signed values.
abbrev pub le_signed : ℕ → ℕ → Bool
le_signed a b = leb (rank a) (rank b)

abbrev pub lt_signed : ℕ → ℕ → Bool
lt_signed a b = ltb (rank a) (rank b)

-- `a + b`, wrapping.
abbrev pub add_signed : ℕ → ℕ → ℕ
add_signed a b = (a + b) % 2 ^ 64

-- `a - b`, wrapping.
abbrev pub sub_signed : ℕ → ℕ → ℕ
sub_signed a b = (a + 2 ^ 64 - b) % 2 ^ 64

-- `a / b` for a value `a` that is not negative and `b` that is not 0, rounded towards 0.
abbrev pub div_signed : ℕ → ℕ → ℕ
div_signed a b = if ltb b (2 ^ 63) then a / b else (2 ^ 64 - a / (2 ^ 64 - b)) % 2 ^ 64
