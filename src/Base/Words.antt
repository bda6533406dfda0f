-- ===== src/Base/Words.antt =====
-- Signed integers of a fixed width: Go's conversions and its arithmetic, which wraps.
use howdah.Base.Tests.{ltb, if◌then◌else◌}
use howdah.Base.Int.{ℤ, pos, negsuc, pos_part, neg_part, sub_ℕ, ◌+ℤ◌}
use Prim.Native.Nat.{ℕ, ◌+◌, ◌-◌, ◌*◌, ◌%◌, ◌^◌}

-- The low bits of an integer in two's complement, read as a signed number.
abbrev pub low_bits : ℕ → ℤ → ℕ
low_bits modulus (pos n) = n % modulus
low_bits modulus (negsuc n) = modulus - 1 - n % modulus

abbrev pub signed : ℕ → ℕ → ℤ
signed half bits = if ltb bits half then pos bits else negsuc (2 * half - 1 - bits)

unfoldable pub to_int32 : ℤ → ℤ
to_int32 i = signed (2 ^ 31) (low_bits (2 ^ 32) i)

unfoldable pub to_int64 : ℤ → ℤ
to_int64 i = signed (2 ^ 63) (low_bits (2 ^ 64) i)

-- The product with a natural number that is not 0.
unfoldable pub times : ℤ → ℕ → ℤ
times (pos n) k = pos (n * k)
times (negsuc n) k = negsuc ((n + 1) * k - 1)

-- The sum of two int64 numbers.
abbrev pub add_int64 : ℤ → ℤ → ℤ
add_int64 a b = signed (2 ^ 63) (low_bits (2 ^ 64) (a +ℤ b))

-- The difference of two int64 numbers.
unfoldable pub sub_int64 : ℤ → ℤ → ℤ
unfolding to_int64
sub_int64 a b = to_int64 (sub_ℕ (pos_part a + neg_part b) (neg_part a + pos_part b))
