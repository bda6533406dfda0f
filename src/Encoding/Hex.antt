-- ===== src/Encoding/Hex.antt =====
-- encoding/hex: `hex.EncodeToString`.
use howdah.Base.{ℕ, [], ◌∷◌, ◌+◌, ◌/◌, ◌%◌, ltb, if◌then◌else◌}
use howdah.Base.Bytes.{Bytes}

unfoldable pub hex_digit : ℕ → ℕ
hex_digit d = if ltb d 10 then d + b'0' else d + 87

unfoldable pub hex : Bytes → Bytes
unfolding hex_digit
hex [] = []
hex (b ∷ bs) = hex_digit (b / 16) ∷ hex_digit (b % 16) ∷ hex bs
