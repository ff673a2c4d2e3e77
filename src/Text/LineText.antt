-- ===== src/Text/LineText.antt =====
-- Ranges of lines of a text, by the pieces between its line feeds.
use goodgrep.Prelude.{
  ℕ, zero, suc, ◌≤◌, ◌<◌, inl, inr, ◌≡◌, refl, ap, true, false, List, [], ◌∷◌, ◌++◌, arith,
}
use goodgrep.Prelude.Tests.{◌==◌, nat_key, if◌then◌else◌, Bool-cases}
use goodgrep.Prelude.Lists.{length, take, drop}
use goodgrep.FilePath.{split, onto}
use goodgrep.Text.{lines}
use goodgrep.Text.Counts.{split_nonempty, length-lines_nil, length-lines_cons}

-- Lines with a line feed between them.
unfoldable pub join_lines : List (List ℕ) → List ℕ
join_lines [] = []
join_lines (p ∷ []) = p
join_lines (p ∷ q ∷ ps) = p ++ b'\n' ∷ join_lines (q ∷ ps)

join_lines-onto :
    (c k : ℕ) (ps : List (List ℕ))
    → join_lines (take (suc k) (onto c ps)) ≡ c ∷ join_lines (take (suc k) ps)
unfolding join_lines onto
join_lines-onto c zero [] = refl
join_lines-onto c (suc k) [] = refl
join_lines-onto c zero (p ∷ ps) = refl
join_lines-onto c (suc k) (p ∷ []) = refl
join_lines-onto c (suc k) (p ∷ q ∷ ps) = refl

join_lines_feed :
    (k : ℕ) (ps qs : List (List ℕ)) (q : List ℕ)
    → ps ≡ q ∷ qs
    → join_lines ([] ∷ take (suc k) ps) ≡ b'\n' ∷ join_lines (take (suc k) ps)
unfolding join_lines
join_lines_feed k [] qs q h = absurd (ground (arith, h))
join_lines_feed k (p ∷ ps) qs q h = refl

length-onto :
    (c : ℕ) (ps qs : List (List ℕ)) (q : List ℕ) → ps ≡ q ∷ qs → length (onto c ps) ≡ length ps
unfolding onto
length-onto c [] qs q h = absurd (ground (arith, h))
length-onto c (p ∷ ps) qs q h = refl

drop-onto : (c k : ℕ) (ps : List (List ℕ)) → drop (suc k) (onto c ps) ≡ drop (suc k) ps
unfolding onto
drop-onto c zero [] = refl
drop-onto c (suc k) [] = refl
drop-onto c k (p ∷ ps) = refl

-- The lines `i` to `i + more` of a text.
unfoldable pub line_text : ℕ → ℕ → List ℕ → List ℕ
unfolding join_lines split
line_text i more s = join_lines (take (suc more) (drop i (split b'\n' s)))

unfoldable pub line_total : List ℕ → ℕ
unfolding split
line_total s = length (split b'\n' s)

pub line_total_cons :
    (c : ℕ) (s : List ℕ)
    → line_total (c ∷ s) ≡ (if c == b'\n' then suc (line_total s) else line_total s)
unfolding line_total split
line_total_cons c s =
    let (p, ps, e) = split_nonempty s in ground (arith, length-onto c (split b'\n' s) ps p e)

pub line_text_end : (c : ℕ) (s : List ℕ) → (c == b'\n') ≡ true → line_text 0 0 (c ∷ s) ≡ []
unfolding line_text split join_lines
line_text_end c s feed = ground arith

pub line_text_next :
    (c more : ℕ) (s : List ℕ)
    → (c == b'\n') ≡ true
    → line_text 0 (suc more) (c ∷ s) ≡ b'\n' ∷ line_text 0 more s
unfolding line_text split
line_text_next c more s feed =
    let (p, ps, e) = split_nonempty s in ground (arith, join_lines_feed more (split b'\n' s) ps p e)

pub line_text_within :
    (c more : ℕ) (s : List ℕ)
    → (c == b'\n') ≡ false
    → line_text 0 more (c ∷ s) ≡ c ∷ line_text 0 more s
unfolding line_text split
line_text_within c more s text = ground (arith, join_lines-onto c more (split b'\n' s))

pub line_text_skip :
    (c i more : ℕ) (s : List ℕ)
    → line_text (suc i) more (c ∷ s)
      ≡ (if c == b'\n' then line_text i more s else line_text (suc i) more s)
unfolding line_text split
line_text_skip c i more s =
    ground (arith, ap (λ ps. join_lines (take (suc more) ps)) (drop-onto c i (split b'\n' s)))

pub line_total_nil : line_total [] ≡ 1
unfolding line_total split
line_total_nil = refl

pub line_text_nil : (i more : ℕ) → line_text i more [] ≡ []
unfolding line_text split join_lines
line_text_nil zero zero = refl
line_text_nil zero (suc more) = refl
line_text_nil (suc zero) more = refl
line_text_nil (suc (suc i)) more = refl

line_total_positive : (s : List ℕ) → 0 < line_total s
line_total_positive [] = omega (arith, line_total_nil)
line_total_positive (c ∷ s) = ground (arith, line_total_cons c s, line_total_positive s)

-- A range of lines has no more lines than that.
pub length-lines-line_text :
    (s : List ℕ) (i more : ℕ) → length (lines (line_text i more s)) ≤ suc more
length-lines-line_text [] i more = ground (arith, line_text_nil i more, length-lines_nil)
length-lines-line_text (c ∷ s) zero zero = elim (Bool-cases (c == b'\n')) [
  | inl feed ↦ ground (arith, line_text_end c s feed, length-lines_nil)
  | inr text ↦ ground (
    arith,
    line_text_within c 0 s text,
    length-lines_cons c (line_text 0 0 s),
    length-lines-line_text s 0 0,
  )
]
length-lines-line_text (c ∷ s) zero (suc more) = elim (Bool-cases (c == b'\n')) [
  | inl feed ↦ ground (
    arith,
    line_text_next c more s feed,
    length-lines_cons c (line_text 0 more s),
    length-lines-line_text s 0 more,
  )
  | inr text ↦ ground (
    arith,
    line_text_within c (suc more) s text,
    length-lines_cons c (line_text 0 (suc more) s),
    length-lines-line_text s 0 (suc more),
  )
]
length-lines-line_text (c ∷ s) (suc i) more = ground (
  arith,
  line_text_skip c i more s,
  length-lines-line_text s i more,
  length-lines-line_text s (suc i) more,
)

pub length-lines_bound : (s : List ℕ) → length (lines s) ≤ line_total s
length-lines_bound [] = ground (arith, length-lines_nil, line_total_nil)
length-lines_bound (c ∷ s) =
    ground (
      arith,
      length-lines_cons c s,
      line_total_cons c s,
      length-lines_bound s,
      line_total_positive s,
    )

feed_char : (c : ℕ) → (c == b'\n') ≡ true → c ≡ b'\n'
feed_char c feed = ground arith

-- All lines of a text are the text.
pub line_text_all : (s : List ℕ) (more : ℕ) → line_total s ≤ suc more → line_text 0 more s ≡ s
line_text_all [] more h = line_text_nil 0 more
line_text_all (c ∷ s) zero h = elim (Bool-cases (c == b'\n')) [
  | inl feed ↦ absurd (ground (arith, h, line_total_cons c s, line_total_positive s))
  | inr text ↦ ground (arith, line_text_within c 0 s text, line_total_cons c s, line_text_all s 0)
]
line_text_all (c ∷ s) (suc more) h = elim (Bool-cases (c == b'\n')) [
  | inl feed ↦ ground (
    arith,
    line_text_next c more s feed,
    line_total_cons c s,
    line_text_all s more,
    feed_char c feed,
  )
  | inr text ↦
      ground (
        arith,
        line_text_within c (suc more) s text,
        line_total_cons c s,
        line_text_all s (suc more),
      )
]

-- Behind the last line there is no text.
pub line_text_beyond : (s : List ℕ) (k : ℕ) → length (lines s) ≤ k → line_text k 0 s ≡ []
line_text_beyond [] k h = line_text_nil k 0
line_text_beyond (c ∷ s) zero h = absurd (ground (arith, h, length-lines_cons c s))
line_text_beyond (c ∷ s) (suc k) h = ground (
  arith,
  line_text_skip c k 0 s,
  length-lines_cons c s,
  line_text_beyond s k,
  line_text_beyond s (suc k),
)
