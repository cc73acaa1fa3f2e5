-- ===== src/Schema/Bytes/RoundTrip.antt =====
-- Decoding what was encoded.
use pbvex.Base.{ℕ, ◌+◌, ◌*◌, ◌/◌, ◌%◌, ◌<◌, ◌==◌, ◌≡◌, refl, some, List, [], ◌∷◌, arith, false}
use pbvex.Schema.Bytes.{
  AreBytes, base64_char, base64_value, base64_encode, base64_decode, base64_group, is_end,
}

base64_value-char : (n : ℕ) → n < 64 → base64_value (base64_char n) ≡ some n
unfolding base64_value base64_char
base64_value-char n h = ground arith

base64_char-ne : (n : ℕ) → n < 64 → (base64_char n == b'=') ≡ false
unfolding base64_char
base64_char-ne n h = ground arith

-- The decoder gives back the bytes that were encoded.
pub base64_decode-encode : (bs : List ℕ) → AreBytes bs → base64_decode (base64_encode bs) ≡ some bs
unfolding base64_decode base64_encode base64_group is_end
base64_decode-encode [] h = refl
base64_decode-encode (a ∷ []) h =
    ground (arith, base64_value-char (a / 4), base64_value-char (a % 4 * 16))
base64_decode-encode (a ∷ b ∷ []) h = ground (
  arith,
  base64_value-char (a / 4),
  base64_value-char (a % 4 * 16 + b / 16),
  base64_value-char (b % 16 * 4),
  base64_char-ne (b % 16 * 4),
)
base64_decode-encode (a ∷ b ∷ c ∷ rest) h = ground (
  arith,
  base64_value-char (a / 4),
  base64_value-char (a % 4 * 16 + b / 16),
  base64_value-char (b % 16 * 4 + c / 64),
  base64_value-char (c % 64),
  base64_char-ne (b % 16 * 4 + c / 64),
  base64_char-ne (c % 64),
  base64_decode-encode rest,
)
