-- ===== src/FilePath/Lines.antt =====
-- Lines that are written one after the other are read back one by one.
use goodgrep.Prelude.{ℕ, ◌≡◌, refl, false, List, [], ◌∷◌, ◌++◌, arith, not}
use goodgrep.Prelude.Tests.{nat_key}
use goodgrep.Prelude.Lists.{length, filter, contains, is_empty, All}
use goodgrep.FilePath.{split, onto}

-- `writeln!` of each line.
pub write_lines : List (List ℕ) → List ℕ
write_lines [] = []
write_lines (line ∷ lines) = line ++ b'\n' ∷ write_lines lines

split-line :
    (line rest : List ℕ)
    → contains line b'\n' ≡ false
    → split b'\n' (line ++ b'\n' ∷ rest) ≡ line ∷ split b'\n' rest
unfolding split onto
split-line [] rest h = refl
split-line (c ∷ line) rest h = ground (arith, split-line line rest)

-- A line of text: it has a byte, and no line break.
abbrev pub IsLine : List ℕ → Type 0
IsLine line = (is_empty line ≡ false) × (contains line b'\n' ≡ false)

pub length-split :
    (lines : List (List ℕ))
    → All IsLine lines
    → length (filter (λ line. not (is_empty line)) (split b'\n' (write_lines lines))) ≡ length lines
unfolding write_lines split
length-split [] a = refl
length-split (line ∷ lines) a =
    ground (arith, split-line line (write_lines lines) a.0.1, length-split lines a.1, a.0.0)
