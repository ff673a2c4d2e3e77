-- ===== src/Snapshot/Manager/Pointer.antt =====
-- `read_active_snapshot_id` and `write_active_snapshot`: the file ACTIVE_SNAPSHOT. What
-- `fs::read_to_string` gives is a parameter: the text, or an error, as that of bytes that are not UTF-8.
use goodgrep.Prelude.{ℕ, ◌≡◌, ap, ◌∙◌, false, List, [], ◌∷◌, ◌++◌, Option, none, some, arith}
use goodgrep.Prelude.Tests.{nat_key}
use goodgrep.Prelude.Lists.{any, is_empty, All}
use goodgrep.Prelude.Results.{Result, ok, err}
use goodgrep.Text.{lines, trim, is_whitespace}
use goodgrep.Text.Decimal.{trim_dark}
use goodgrep.Text.FirstLine.{IsPlain, strip_cr_plain, feedless_plain, lines_first}

-- The error of a read.
pub data ReadFailure (E : Type 0) : Type 0 where
  not_found : ReadFailure E
  other_failure : E → ReadFailure E

-- `raw.lines().next().unwrap_or("")`
abbrev pub first_line : List (List ℕ) → List ℕ
first_line [] = []
first_line (line ∷ rest) = line

abbrev pub some_id : List ℕ → Option (List ℕ)
some_id [] = none
some_id (c ∷ cs) = some (c ∷ cs)

pub read_active_snapshot_id :
    {E : Type 0} → Result (ReadFailure E) (List ℕ) → Result E (Option (List ℕ))
read_active_snapshot_id (ok raw) = ok (some_id (trim (first_line (lines raw))))
read_active_snapshot_id (err not_found) = ok none
read_active_snapshot_id (err (other_failure e)) = err e

-- `writeln!(file, "{snapshot_id}")`
abbrev pub active_file : List ℕ → List ℕ
active_file snapshot_id = snapshot_id ++ b'\n' ∷ []

any-All : (id : List ℕ) → any is_whitespace id ≡ false → All (λ c. is_whitespace c ≡ false) id
any-All [] h = tt
any-All (c ∷ cs) h = (ground (arith, h), any-All cs (ground (arith, h)))

dark-IsPlain : (id : List ℕ) → any is_whitespace id ≡ false → IsPlain id
unfolding is_whitespace
dark-IsPlain [] h = tt
dark-IsPlain (c ∷ cs) h = (ground (arith, h), dark-IsPlain cs (ground (arith, h)))

-- The id of the active snapshot is read as it was written, if it has a character and no white space.
pub read_active_snapshot_id-active_file :
    {E : Type 0} (id : List ℕ)
    → is_empty id ≡ false
    → any is_whitespace id ≡ false
    → read_active_snapshot_id {E = E} (ok (active_file id)) ≡ ok (some id)
unfolding read_active_snapshot_id
read_active_snapshot_id-active_file [] h clean = cc
read_active_snapshot_id-active_file (c ∷ cs) h clean =
    let plain = dark-IsPlain (c ∷ cs) clean in
    ap (λ s. ok (some_id s))
      (ap (λ ls. trim (first_line ls)) (lines_first (c ∷ cs) [] (feedless_plain (c ∷ cs) plain))
        ∙ ap trim (strip_cr_plain (c ∷ cs) plain)
        ∙ trim_dark (c ∷ cs) (any-All (c ∷ cs) clean))
