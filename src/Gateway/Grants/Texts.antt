-- ===== src/Gateway/Grants/Texts.antt =====
-- The regular expressions and bounds of src/material_agent/gateway/authorization.py on texts.
use Prim.Native.Char.{code}
use materials_screening_agen.Prelude.{
  ℕ, String, Bool, false, List, [], ◌∷◌, ◌==◌, ◌&&◌, ◌||◌, all, ltb, leb, string_eq, nat_eq, length,
}

abbrev codes : String → List ℕ
codes String.[] = []
codes (String.◌∷◌ c s) = code c ∷ codes s

abbrev in_range : ℕ → ℕ → ℕ → Bool
in_range lo hi c = leb lo c && leb c hi

abbrev is_digit : ℕ → Bool
is_digit = in_range b'0' b'9'

abbrev is_alphanumeric : ℕ → Bool
is_alphanumeric c = in_range b'A' b'Z' c || in_range b'a' b'z' c || is_digit c

-- [A-Za-z0-9._:/-]
abbrev is_reference_character : ℕ → Bool
is_reference_character c =
    is_alphanumeric c || c == b'.' || c == b'_' || c == b':' || c == b'/' || c == b'-'

matches_reference : List ℕ → Bool
matches_reference [] = false
matches_reference (c ∷ rest) =
    is_alphanumeric c
    && all rest is_reference_character
    && leb 2 (length rest)
    && leb (length rest) 255

unfoldable pub is_valid_confirmation_reference : String → Bool
unfolding matches_reference
is_valid_confirmation_reference value = matches_reference (codes value)

-- _SHA256_RE
unfoldable pub is_sha256 : String → Bool
is_sha256 text =
    length (codes text) == 64 && all (codes text) (λ c. is_digit c || in_range b'a' b'f' c)

abbrev pub is_bounded : String → Bool
is_bounded text = ltb 0 (length (codes text)) && leb (length (codes text)) 128
