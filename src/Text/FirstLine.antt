-- ===== src/Text/FirstLine.antt =====
-- The first line of a text that begins with a line without carriage returns.
use goodgrep.Prelude.{ℕ, ◌≡◌, refl, ap, sym, ◌∙◌, false, ◌||◌, List, [], ◌∷◌, ◌++◌, arith}
use goodgrep.Prelude.Tests.{◌==◌, nat_key}
use goodgrep.Prelude.Lists.{All}
use goodgrep.Text.{lines, ended, strip_cr}
use goodgrep.Text.Counts.{split_nonempty}
use goodgrep.Text.Feeds.{HasNoFeed}
use goodgrep.Text.Nested.{split-piece}

-- A text without carriage returns and line feeds.
abbrev pub IsPlain : List ℕ → Type 0
IsPlain s = All (λ c. (c == b'\r' || c == b'\n') ≡ false) s

pub strip_cr_plain : (s : List ℕ) → IsPlain s → strip_cr s ≡ s
unfolding strip_cr
strip_cr_plain [] a = refl
strip_cr_plain (c ∷ []) a = ground (arith, a.0)
strip_cr_plain (c ∷ d ∷ s) a = ground (arith, strip_cr_plain (d ∷ s) a.1)

pub feedless_plain : (s : List ℕ) → IsPlain s → HasNoFeed s
feedless_plain [] a = refl
feedless_plain (c ∷ s) a = ground (arith, a.0, feedless_plain s a.1)

-- The first line of a text.
pub lines_first :
    (line rest : List ℕ)
    → HasNoFeed line
    → lines (line ++ b'\n' ∷ rest) ≡ strip_cr line ∷ lines rest
unfolding lines ended
lines_first line rest h =
    let (q, qs, e) = split_nonempty rest in
    ap ended (split-piece line rest q qs h e) ∙ ap (λ ps. strip_cr line ∷ ended ps) (sym e)
