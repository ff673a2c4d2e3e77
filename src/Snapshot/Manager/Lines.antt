-- ===== src/Snapshot/Manager/Lines.antt =====
-- The artifact of a tombstone file counts its lines.
use goodgrep.Prelude.{ℕ, ◌≡◌, String, List}
use goodgrep.Prelude.Lists.{length, All}
use goodgrep.FilePath.Lines.{write_lines, IsLine, length-split}
use goodgrep.Snapshot.Manager.{compute_tombstone_artifact}

-- If every line that is written has a byte and no line break in it, the artifact of the file counts
-- the lines that were written.
pub count-compute_tombstone_artifact :
    (sha256 : List ℕ → String) (lines : List (List ℕ))
    → All IsLine lines
    → (compute_tombstone_artifact sha256 (write_lines lines)).count ≡ length lines
unfolding compute_tombstone_artifact
count-compute_tombstone_artifact sha256 lines a = length-split lines a
