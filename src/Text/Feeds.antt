-- ===== src/Text/Feeds.antt =====
-- No line of a text has a line feed.
use goodgrep.Prelude.{ℕ, suc, ◌≡◌, refl, ap, true, false, List, [], ◌∷◌, ◌++◌, arith, inl, inr}
use goodgrep.Prelude.Tests.{◌==◌, nat_key, Bool-cases}
use goodgrep.Prelude.Lists.{All, contains, contains-append, length}
use goodgrep.FilePath.{split, onto}
use goodgrep.Text.{lines, ended, strip_cr, trim, trim_start, trim_end}
use goodgrep.Text.Counts.{length-lines_cons}
use goodgrep.Text.Trims.{trim_start-suffix, trim_end-prefix}

abbrev pub HasNoFeed : List ℕ → Type 0
HasNoFeed line = contains line b'\n' ≡ false

onto-HasNoFeed :
    (c : ℕ) (ps : List (List ℕ))
    → (c == b'\n') ≡ false
    → All HasNoFeed ps
    → All HasNoFeed (onto c ps)
unfolding onto
onto-HasNoFeed c [] text a = (ground arith, tt)
onto-HasNoFeed c (p ∷ ps) text a = (ground (arith, a.0), a.1)

pub split_feed :
    (c : ℕ) (s : List ℕ) → (c == b'\n') ≡ true → split b'\n' (c ∷ s) ≡ [] ∷ split b'\n' s
unfolding split
split_feed c s feed = ground arith

pub split_text :
    (c : ℕ) (s : List ℕ) → (c == b'\n') ≡ false → split b'\n' (c ∷ s) ≡ onto c (split b'\n' s)
unfolding split
split_text c s text = ground arith

pub split-HasNoFeed : (s : List ℕ) → All HasNoFeed (split b'\n' s)
split-HasNoFeed [] = unfold split in (refl, tt)
split-HasNoFeed (c ∷ s) = elim (Bool-cases (c == b'\n')) [
  | inl feed ↦ rw (split_feed c s feed) (refl, split-HasNoFeed s)
  | inr text ↦ rw (split_text c s text) (onto-HasNoFeed c (split b'\n' s) text (split-HasNoFeed s))
]

strip_cr-HasNoFeed : (s : List ℕ) → HasNoFeed s → HasNoFeed (strip_cr s)
unfolding strip_cr
strip_cr-HasNoFeed [] h = h
strip_cr-HasNoFeed (c ∷ []) h = ground arith
strip_cr-HasNoFeed (c ∷ d ∷ s) h = ground (arith, strip_cr-HasNoFeed (d ∷ s))

ended-HasNoFeed : (ps : List (List ℕ)) → All HasNoFeed ps → All HasNoFeed (ended ps)
unfolding ended
ended-HasNoFeed [] a = tt
ended-HasNoFeed ([] ∷ []) a = tt
ended-HasNoFeed ((c ∷ s) ∷ []) a = a
ended-HasNoFeed (p ∷ q ∷ ps) a = (strip_cr-HasNoFeed p a.0, ended-HasNoFeed (q ∷ ps) a.1)

pub lines-HasNoFeed : (s : List ℕ) → All HasNoFeed (lines s)
unfolding lines
lines-HasNoFeed s = ended-HasNoFeed (split b'\n' s) (split-HasNoFeed s)

pub trim-HasNoFeed : (s : List ℕ) → HasNoFeed s → HasNoFeed (trim s)
unfolding trim
trim-HasNoFeed s h =
    let (p, start, light) = trim_start-suffix s in
    let (q, end_parts, end_light) = trim_end-prefix (trim_start s) in
    ground (
      arith,
      ap (λ u. contains u b'\n') start,
      contains-append p (trim_start s) b'\n',
      ap (λ u. contains u b'\n') end_parts,
      contains-append (trim_end (trim_start s)) q b'\n',
    )

-- A line in front of a text.
pub length-lines_line :
    (line s : List ℕ) → HasNoFeed line → length (lines (line ++ b'\n' ∷ s)) ≡ suc (length (lines s))
length-lines_line [] s h = ground (arith, length-lines_cons b'\n' s)
length-lines_line (c ∷ line) s h =
    ground (arith, length-lines_cons c (line ++ b'\n' ∷ s), length-lines_line line s)
