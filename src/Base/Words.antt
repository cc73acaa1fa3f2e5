-- ===== src/Base/Words.antt =====
-- int64 as its two's complement bit pattern, a number below 2 ^ 64.
use Prim.Native.Nat.{ℕ, ◌+◌, ◌-◌, ◌%◌, ◌^◌}
use mathlib.Core.Bool.{Bool}
use pbvex.Base.Tests.{ltb, leb}

-- The patterns from here on stand for the negative numbers.
abbrev pub sign_bit : ℕ
sign_bit = 2 ^ 63

abbrev pub wrap : ℕ → ℕ
wrap n = n % 2 ^ 64

-- a < b and a <= b on int64.
abbrev pub lt_i64 : ℕ → ℕ → Bool
lt_i64 a b = ltb (wrap (a + sign_bit)) (wrap (b + sign_bit))

abbrev pub le_i64 : ℕ → ℕ → Bool
le_i64 a b = leb (wrap (a + sign_bit)) (wrap (b + sign_bit))

-- a - b.
abbrev pub sub_i64 : ℕ → ℕ → ℕ
sub_i64 a b = wrap (a + (2 ^ 64 - wrap b))
