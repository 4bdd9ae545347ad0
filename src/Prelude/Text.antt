-- ===== src/Prelude/Text.antt =====
-- Texts as lists of their UTF-16 units, and `trim`.
use Prim.Native.Nat.{ℕ}
use Prim.Native.String.{String}
use Prim.Native.Char.{code}
use mathlib.Core.Bool.{Bool, true, false, ◌&&◌, ◌||◌}
use mathlib.Core.List.{List, [], ◌∷◌}
use agentmeld.Prelude.Tests.{if◌then◌else◌, nat_beq, leb}

-- The code points of a text.
abbrev pub codes : String → List ℕ
codes String.[] = []
codes (String.◌∷◌ c s) = code c ∷ codes s

unfoldable pub between : ℕ → ℕ → ℕ → Bool
between low high c = leb low c && leb c high

-- The white space and line ends that `trim` removes.
unfoldable pub space : ℕ → Bool
unfolding between
space c =
    between 9 13 c
    || nat_beq c 32
    || nat_beq c 160
    || nat_beq c 5760
    || between 8192 8202 c
    || between 8232 8233 c
    || nat_beq c 8239
    || nat_beq c 8287
    || nat_beq c 12288
    || nat_beq c 65279

unfoldable pub trim_start : List ℕ → List ℕ
unfolding space
trim_start [] = []
trim_start (c ∷ cs) = let rest = trim_start cs in if space c then rest else c ∷ cs

-- A unit before the rest, less the white space that ends the text.
unfoldable pub keep_before : ℕ → List ℕ → List ℕ
unfolding space
keep_before c [] = if space c then [] else c ∷ []
keep_before c (d ∷ ds) = c ∷ d ∷ ds

unfoldable pub trim_end : List ℕ → List ℕ
unfolding keep_before
trim_end [] = []
trim_end (c ∷ cs) = keep_before c (trim_end cs)

unfoldable pub trim : List ℕ → List ℕ
unfolding trim_start trim_end
trim cs = trim_end (trim_start cs)

unfoldable pub blank : List ℕ → Bool
blank [] = true
blank (c ∷ cs) = false
