-- ===== src/Common/Hex.antt =====
-- Bytes in lower-case hexadecimal digits.
use Prim.Native.Nat.{ℕ, zero, suc, ◌/◌, ◌%◌}
use Prim.Native.Char.{Char}
use Prim.Native.String.{String, [], ◌∷◌}
use mathlib.Core.List.{List, [] as no_bytes, ◌∷◌ as byte_first}

abbrev digit_at : String → ℕ → Char
digit_at [] n = "0"
digit_at (c ∷ s) zero = c
digit_at (c ∷ s) (suc n) = digit_at s n

abbrev pub digits : String
digits = "0123456789abcdef"

-- Each byte by its high and its low half.
unfoldable pub hex : List ℕ → String
hex no_bytes = []
hex (byte_first b bytes) = digit_at digits (b / 16) ∷ (digit_at digits (b % 16) ∷ hex bytes)
