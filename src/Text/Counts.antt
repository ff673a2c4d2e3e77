-- ===== src/Text/Counts.antt =====
-- How many lines a text has, and that no part of it has more.
use goodgrep.Prelude.{ℕ, suc, ◌≤◌, max, ◌≡◌, refl, List, [], ◌∷◌, ◌++◌, arith, inl, inr}
use goodgrep.Prelude.Tests.{◌==◌, nat_key, if◌then◌else◌, Bool-cases}
use goodgrep.Prelude.Lists.{length}
use goodgrep.FilePath.{split, onto}
use goodgrep.Text.{lines, ended}

pub split_nonempty : (s : List ℕ) → (p : List ℕ) × (ps : List (List ℕ)) × (split b'\n' s ≡ p ∷ ps)
unfolding split onto
split_nonempty [] = ([], [], refl)
split_nonempty (c ∷ s) =
    let (p, ps, e) = split_nonempty s in
    elim (Bool-cases (c == b'\n')) [
      | inl feed ↦ ([], split b'\n' s, ground arith)
      | inr text ↦ (c ∷ p, ps, ground (arith, e))
    ]

length-ended-onto :
    (c : ℕ) (ps : List (List ℕ)) → length (ended (onto c ps)) ≡ max 1 (length (ended ps))
unfolding ended onto
length-ended-onto c [] = refl
length-ended-onto c ([] ∷ []) = refl
length-ended-onto c ((d ∷ s) ∷ []) = refl
length-ended-onto c (p ∷ q ∷ ps) = omega arith

length-ended_feed :
    (ps qs : List (List ℕ)) (q : List ℕ)
    → ps ≡ q ∷ qs
    → length (ended ([] ∷ ps)) ≡ suc (length (ended ps))
unfolding ended
length-ended_feed [] qs q h = absurd (ground (arith, h))
length-ended_feed (p ∷ ps) qs q h = refl

pub length-lines_cons :
    (c : ℕ) (s : List ℕ)
    → length (lines (c ∷ s))
      ≡ (if c == b'\n' then suc (length (lines s)) else max 1 (length (lines s)))
unfolding lines split
length-lines_cons c s =
    let (p, ps, e) = split_nonempty s in
    ground (arith, length-ended_feed (split b'\n' s) ps p e, length-ended-onto c (split b'\n' s))

pub length-lines_nil : length (lines []) ≡ 0
unfolding lines split ended
length-lines_nil = refl

-- A part of a text has at most as many lines.
pub length-lines_behind : (p s : List ℕ) → length (lines s) ≤ length (lines (p ++ s))
length-lines_behind [] s = omega arith
length-lines_behind (c ∷ p) s =
    ground (arith, length-lines_cons c (p ++ s), length-lines_behind p s)

pub length-lines_before : (s q : List ℕ) → length (lines s) ≤ length (lines (s ++ q))
length-lines_before [] q = ground (arith, length-lines_nil)
length-lines_before (c ∷ s) q =
    ground (arith, length-lines_cons c (s ++ q), length-lines_cons c s, length-lines_before s q)
