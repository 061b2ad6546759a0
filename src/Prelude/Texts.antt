-- ===== src/Prelude/Texts.antt =====
-- The texts that Python's `str.strip` leaves empty.
use Prim.Native.Char.{Char, code}
use Prim.Native.String.{String}
use Prim.Native.Nat.{ℕ}
use mathlib.Core.Bool.{Bool, true, ◌&&◌, ◌||◌}
use mathlib.Core.List.{[], ◌∷◌}
use materials_screening_agen.Prelude.Tests.{leb, ◌==◌, nat_eq}
use materials_screening_agen.Prelude.Table.{any}

abbrev between : ℕ → ℕ → ℕ → Bool
between low high n = leb low n && leb n high

-- The white space of `str.isspace`.
abbrev is_space : Char → Bool
is_space c =
    between 9 13 (code c)
    || between 28 32 (code c)
    || between 8192 8202 (code c)
    || any (133 ∷ 160 ∷ 5760 ∷ 8232 ∷ 8233 ∷ 8239 ∷ 8287 ∷ 12288 ∷ []) (λ n. code c == n)

-- `not text.strip()`
unfoldable pub is_blank : String → Bool
is_blank String.[] = true
is_blank (String.◌∷◌ c s) = is_space c && is_blank s
