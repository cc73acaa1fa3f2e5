-- ===== src/Hosting/Token.antt =====
-- backend/hosting/client.go: token, optional and ValidToken.
use pbvex.Base.{ℕ, leb, ◌==◌, Bool, true, false, ◌&&◌, ◌||◌, List, [], ◌∷◌, length}

abbrev is_between : ℕ → ℕ → ℕ → Bool
is_between lo hi c = leb lo c && leb c hi

-- The source ranges over runes; a rune beyond ASCII is refused like each of its bytes.
unfoldable pub is_token_char : ℕ → Bool
is_token_char c =
    is_between b'a' b'z' c
    || is_between b'A' b'Z' c
    || is_between b'0' b'9' c
    || c == b'_'
    || c == b'-'
    || c == b'.'
    || c == b':'
    || c == b'/'

unfoldable pub all_token_chars : List ℕ → Bool
unfolding is_token_char
all_token_chars [] = true
all_token_chars (c ∷ cs) = is_token_char c && all_token_chars cs

unfoldable pub token : List ℕ → Bool
unfolding all_token_chars
token [] = false
token (c ∷ cs) = leb (length (c ∷ cs)) 128 && all_token_chars (c ∷ cs)

unfoldable pub optional_token : List ℕ → Bool
unfolding token
optional_token [] = true
optional_token (c ∷ cs) = token (c ∷ cs)
