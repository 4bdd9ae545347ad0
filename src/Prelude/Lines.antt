-- ===== src/Prelude/Lines.antt =====
-- Bytes that arrive in chunks, and the lines that they make.
use Prim.Native.Nat.{ℕ, suc, ◌≤◌}
use mathlib.Core.Path.{◌≡◌}
use mathlib.Core.Logic.{inl, inr}
use mathlib.Core.List.{List, [], ◌∷◌, ◌++◌}
use mathlib.Core.Option.{Option, none, some}
use native.Mathlib.Omega.{arith}
use agentmeld.Prelude.Tests.{if◌then◌else◌, nat_beq, Option-cases}
use agentmeld.Prelude.Lists.{length}

abbrev pub newline : ℕ
newline = 10

-- A line before the first newline, and the bytes after it.
abbrev pub Split : Type 0
Split = Option (List ℕ × List ℕ)

abbrev pub longer : ℕ → Split → Split
longer b none = none
longer b (some (line, rest)) = some (b ∷ line, rest)

-- buffer.indexOf(0x0a) with both subarrays.
unfoldable pub break_line : List ℕ → Split
break_line [] = none
break_line (b ∷ bs) =
    let rest = break_line bs in if nat_beq b newline then some ([], bs) else longer b rest

unfoldable pub joined : List (List ℕ) → List ℕ
joined [] = []
joined (c ∷ cs) = c ++ joined cs

pub break_line-append :
    (bs tail line rest : List ℕ)
    → break_line bs ≡ some (line, rest)
    → break_line (bs ++ tail) ≡ some (line, rest ++ tail)
unfolding break_line
break_line-append [] tail line rest h = cc
break_line-append (b ∷ bs) tail line rest h = elim (Option-cases (break_line bs)) [
  | inl e ↦ ground arith
  | inr ((l, r), e) ↦ ground (arith, break_line-append bs tail l r e)
]

pub length-break_line :
    (bs line : List ℕ) (rest : List ℕ)
    → break_line bs ≡ some (line, rest)
    → suc (length rest) ≤ length bs
unfolding break_line
length-break_line [] line rest h = cc
length-break_line (b ∷ bs) line rest h = elim (Option-cases (break_line bs)) [
  | inl e ↦ ground arith
  | inr ((l, r), e) ↦ ground (arith, length-break_line bs l r e)
]
