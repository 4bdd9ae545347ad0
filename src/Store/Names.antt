-- ===== src/Store/Names.antt =====
-- The tests on texts: `safeName` of apps/worker/binding.mjs, the request key.
use agentmeld.Prelude.Text.{codes, between}
use agentmeld.Prelude.{
  ℕ, String, Bool, false, ◌&&◌, ◌||◌, List, [], ◌∷◌, nat_beq, leb, length, every,
}

unfoldable pub alphanumeric : ℕ → Bool
unfolding between
alphanumeric c = between b'a' b'z' c || between b'A' b'Z' c || between b'0' b'9' c

-- [a-zA-Z0-9 ._-]
unfoldable pub name_character : ℕ → Bool
unfolding alphanumeric
name_character c =
    alphanumeric c || nat_beq c b' ' || nat_beq c b'.' || nat_beq c b'_' || nat_beq c b'-'

-- /^[a-zA-Z0-9][a-zA-Z0-9 ._-]{0,119}$/; such a name is not '..'.
unfoldable pub safe_codes : List ℕ → Bool
unfolding name_character
safe_codes [] = false
safe_codes (c ∷ cs) = alphanumeric c && every name_character cs && leb (length cs) 119

unfoldable pub safe_name : String → Bool
unfolding safe_codes
safe_name name = safe_codes (codes name)

-- /^[a-f0-9-]{36}$/
unfoldable pub key_character : ℕ → Bool
unfolding between
key_character c = between b'a' b'f' c || between b'0' b'9' c || nat_beq c b'-'

unfoldable pub valid_key : String → Bool
unfolding key_character
valid_key key = every key_character (codes key) && nat_beq (length (codes key)) 36
