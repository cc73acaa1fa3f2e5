-- ===== src/Schema/Bytes.antt =====
-- The encodings of bytes that backend/internal/schema/order.go takes from Go's standard library:
-- hex.EncodeToString, base64.StdEncoding, and encoding/binary on eight bytes.
pub mod Compare
pub mod RoundTrip
use pbvex.Base.{
  ℕ, zero, suc, ◌+◌, ◌-◌, ◌*◌, ◌/◌, ◌%◌, ◌<◌, ◌==◌, leb, ltb, Bool, true, false, ◌&&◌, ◌||◌, Option,
  none, some, List, [], ◌∷◌, ◌++◌, All, if◌then◌else◌,
}

abbrev pub AreBytes : List ℕ → Type 0
AreBytes = All (λ b. b < 256)

unfoldable pub hex_digit : ℕ → ℕ
hex_digit n = if ltb n 10 then n + b'0' else n - 10 + b'a'

unfoldable pub hex : List ℕ → List ℕ
unfolding hex_digit
hex [] = []
hex (b ∷ bs) = hex_digit (b / 16) ∷ hex_digit (b % 16) ∷ hex bs

-- binary.BigEndian.PutUint64 at k = 8: the k low bytes of u, highest first.
unfoldable pub big_endian : ℕ → ℕ → List ℕ
big_endian zero u = []
big_endian (suc k) u = big_endian k (u / 256) ++ (u % 256) ∷ []

-- binary.LittleEndian.Uint64.
unfoldable pub little_endian : List ℕ → ℕ
little_endian [] = 0
little_endian (b ∷ bs) = b + 256 * little_endian bs

unfoldable pub base64_char : ℕ → ℕ
base64_char n =
    if ltb n 26
    then n + b'A'
    else if ltb n 52
    then n - 26 + b'a'
    else if ltb n 62
    then n - 52 + b'0'
    else if n == 62
    then b'+'
    else b'/'

unfoldable pub base64_value : ℕ → Option ℕ
base64_value c =
    if leb b'A' c && leb c b'Z'
    then some (c - b'A')
    else if leb b'a' c && leb c b'z'
    then some (c - b'a' + 26)
    else if leb b'0' c && leb c b'9'
    then some (c - b'0' + 52)
    else if c == b'+'
    then some 62
    else if c == b'/'
    then some 63
    else none

unfoldable pub base64_encode : List ℕ → List ℕ
unfolding base64_char
base64_encode [] = []
base64_encode (a ∷ []) = base64_char (a / 4) ∷ base64_char (a % 4 * 16) ∷ b'=' ∷ b'=' ∷ []
base64_encode (a ∷ b ∷ []) =
    base64_char (a / 4) ∷ base64_char (a % 4 * 16 + b / 16) ∷ base64_char (b % 16 * 4) ∷ b'=' ∷ []
base64_encode (a ∷ b ∷ c ∷ rest) =
    base64_char (a / 4)
    ∷ base64_char (a % 4 * 16 + b / 16)
    ∷ base64_char (b % 16 * 4 + c / 64)
    ∷ base64_char (c % 64)
    ∷ base64_encode rest

is_end : List ℕ → Bool
is_end [] = true
is_end (c ∷ cs) = false

-- One group of four characters, which may end in padding, in front of `rest`; `more` is what the
-- characters behind it decode to.
base64_group : ℕ → ℕ → ℕ → ℕ → Bool → Option (List ℕ) → Option (List ℕ)
unfolding base64_value
base64_group p q r s last more = elim (base64_value p) [
  | none ↦ none
  | some a ↦ elim (base64_value q) [
    | none ↦ none
    | some b ↦
        if r == b'=' && s == b'=' && last
        then some ((a * 4 + b / 16) ∷ [])
        else elim (base64_value r) [
          | none ↦ none
          | some c ↦
              if s == b'=' && last
              then some ((a * 4 + b / 16) ∷ (b % 16 * 16 + c / 4) ∷ [])
              else elim (base64_value s) [
                | none ↦ none
                | some d ↦ elim more [
                  | none ↦ none
                  | some bs ↦
                      some ((a * 4 + b / 16) ∷ (b % 16 * 16 + c / 4) ∷ (c % 4 * 64 + d) ∷ bs)
                ]
              ]
        ]
  ]
]

-- DecodeString. Go's decoder skips line breaks, which the sources then refuse by encoding again;
-- here they are refused at once.
unfoldable pub base64_decode : List ℕ → Option (List ℕ)
unfolding base64_group is_end
base64_decode [] = some []
base64_decode (p ∷ q ∷ r ∷ s ∷ rest) = base64_group p q r s (is_end rest) (base64_decode rest)
base64_decode _ = none
