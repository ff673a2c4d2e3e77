-- ===== src/Text.antt =====
-- Rust's `str` as the chunker reads it: a list of scalar values, of which each takes one to four
-- bytes. A position is an offset in bytes; a cut inside a character panics, which is `none`.
pub mod Cuts
pub mod Counts
pub mod Trims
pub mod LineText
pub mod Feeds
pub mod Nested
pub mod FirstLine
pub mod Decimal
use goodgrep.Prelude.{
  ℕ, zero, suc, ◌+◌, ◌-◌, Bool, true, false, not, ◌&&◌, ◌||◌, List, [], ◌∷◌, Option, none, some,
}
use goodgrep.Prelude.Tests.{ltb, leb, ◌==◌, nat_key, if◌then◌else◌}
use goodgrep.Prelude.Lists.{is_empty}
use goodgrep.Prelude.Panics.{◌>>=◌}
use goodgrep.FilePath.{split}

-- `char::len_utf8`
unfoldable pub len_utf8 : ℕ → ℕ
len_utf8 c = if ltb c 128 then 1 else if ltb c 2048 then 2 else if ltb c 65536 then 3 else 4

-- `str::len`
abbrev pub bytes : List ℕ → ℕ
bytes [] = 0
bytes (c ∷ s) = len_utf8 c + bytes s

-- `char::is_whitespace`: the property White_Space.
unfoldable pub is_whitespace : ℕ → Bool
is_whitespace c =
    (leb 9 c && leb c 13)
    || c == 32
    || c == 133
    || c == 160
    || c == 5760
    || (leb 8192 c && leb c 8202)
    || c == 8232
    || c == 8233
    || c == 8239
    || c == 8287
    || c == 12288

unfoldable pub trim_start : List ℕ → List ℕ
trim_start [] = []
trim_start (c ∷ s) = if is_whitespace c then trim_start s else c ∷ s

-- A character stays if one behind it stays, or if it is not blank.
unfoldable pub trim_end : List ℕ → List ℕ
trim_end [] = []
trim_end (c ∷ s) =
    let rest = trim_end s in if is_empty rest && is_whitespace c then [] else c ∷ rest

unfoldable pub trim : List ℕ → List ℕ
unfolding trim_start trim_end
trim s = trim_end (trim_start s)

-- `str::split_at`
unfoldable pub split_at : List ℕ → ℕ → Option (List ℕ × List ℕ)
split_at [] mid = if mid == 0 then some ([], []) else none
split_at (c ∷ s) mid =
    let rest = split_at s (mid - len_utf8 c) in
    if mid == 0
    then some ([], c ∷ s)
    else if leb (len_utf8 c) mid
    then (do (before, behind) ← rest; some (c ∷ before, behind))
    else none

-- `&s[from..to]`
unfoldable pub slice : List ℕ → ℕ → ℕ → Option (List ℕ)
unfolding split_at
slice s from to = if ltb to from then none else do
  (before, behind) ← split_at s from
  (middle, rest) ← split_at behind (to - from)
  some middle

-- `str::floor_char_boundary`
unfoldable pub floor_char_boundary : List ℕ → ℕ → ℕ
floor_char_boundary [] index = 0
floor_char_boundary (c ∷ s) index =
    let rest = floor_char_boundary s (index - len_utf8 c) in
    if leb (len_utf8 c) index then len_utf8 c + rest else 0

unfoldable pub strip_cr : List ℕ → List ℕ
strip_cr [] = []
strip_cr (c ∷ []) = if c == b'\r' then [] else c ∷ []
strip_cr (c ∷ d ∷ s) = c ∷ strip_cr (d ∷ s)

unfoldable pub ended : List (List ℕ) → List (List ℕ)
unfolding strip_cr
ended [] = []
ended ([] ∷ []) = []
ended ((c ∷ s) ∷ []) = (c ∷ s) ∷ []
ended (p ∷ q ∷ ps) = strip_cr p ∷ ended (q ∷ ps)

-- `str::lines`
unfoldable pub lines : List ℕ → List (List ℕ)
unfolding ended split
lines s = ended (split b'\n' s)
