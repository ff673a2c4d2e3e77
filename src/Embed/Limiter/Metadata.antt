-- ===== src/Embed/Limiter/Metadata.antt =====
-- The process in a lock file.
use goodgrep.Prelude.{ℕ, ◌≤◌, ◌≡◌, refl, ap, ◌∙◌, false, List, [], ◌∷◌, ◌++◌, some, arith}
use goodgrep.Prelude.Tests.{nat_key}
use goodgrep.Prelude.Lists.{All, All-imp}
use goodgrep.FilePath.{codes, is_prefix}
use goodgrep.Text.{lines, trim, is_whitespace}
use goodgrep.Text.Decimal.{
  decimal, parse_u32, u32_max, IsDigits, decimal-IsDigits, parse_u32-decimal, trim_dark,
}
use goodgrep.Text.FirstLine.{IsPlain, strip_cr_plain, feedless_plain, lines_first}
use goodgrep.Embed.Limiter.{World, lock_metadata, first_pid, read_pid}

digits-IsPlain : (s : List ℕ) → IsDigits s → IsPlain s
digits-IsPlain s a = All-imp _ _ s (λ c h. ground (arith, h)) a

dark_digits : (s : List ℕ) → IsDigits s → All (λ c. is_whitespace c ≡ false) s
unfolding is_whitespace
dark_digits s a = All-imp _ _ s (λ c h. ground (arith, h)) a

first_pid_line :
    (d : List ℕ) (n : ℕ) (rest : List (List ℕ))
    → trim d ≡ d
    → parse_u32 d ≡ some n
    → first_pid ((codes "pid=" ++ d) ∷ rest) ≡ some n
unfolding first_pid is_prefix
first_pid_line d n rest trimmed parsed = rw (trimmed, parsed) refl

read_pid_text :
    (d rest : List ℕ) (n modified : ℕ)
    → IsDigits d
    → parse_u32 d ≡ some n
    → read_pid (record { content = (codes "pid=" ++ d) ++ b'\n' ∷ rest; modified = modified })
      ≡ some n
unfolding read_pid
read_pid_text d rest n modified a parsed =
    ap first_pid (
      lines_first (codes "pid=" ++ d) rest (feedless_plain (codes "pid=" ++ d) plain)
      ∙ ap (λ line. line ∷ lines rest) (strip_cr_plain (codes "pid=" ++ d) plain))
    ∙ first_pid_line d n (lines rest) (trim_dark d (dark_digits d a)) parsed
  where
    plain : IsPlain (codes "pid=" ++ d)
    plain = (refl, (refl, (refl, (refl, digits-IsPlain d a))))

-- The process that is written to a lock file is read back.
pub read_pid-lock_metadata :
    (w : World) (modified : ℕ)
    → w.process ≤ u32_max
    → read_pid (record { content = lock_metadata w; modified = modified }) ≡ some w.process
unfolding lock_metadata
read_pid-lock_metadata w modified h =
    read_pid_text (decimal w.process) ((codes "started_at_ms=" ++ decimal w.now) ++ b'\n' ∷ [])
      w.process modified (decimal-IsDigits w.process) (parse_u32-decimal w.process h)
