-- ===== src/Text/Nested.antt =====
-- A line of a range of lines.
use mathlib.Core.List.{append-nil, append_assoc}
use goodgrep.Prelude.{
  ℕ, zero, suc, ◌+◌, ◌-◌, ◌≤◌, ◌≡◌, refl, ap, List, [], ◌∷◌, ◌++◌, arith, sym, ◌∙◌,
}
use goodgrep.Prelude.Tests.{nat_key}
use goodgrep.Prelude.Lists.{All, All-take, take, drop}
use goodgrep.FilePath.{split, onto}
use goodgrep.Text.LineText.{join_lines, line_text}
use goodgrep.Text.Feeds.{HasNoFeed, split-HasNoFeed, split_text, split_feed}

All-drop {ℓ κ} : {A : Type ℓ} (P : A → Type κ) (n : ℕ) (xs : List A) → All P xs → All P (drop n xs)
All-drop P zero xs h = h
All-drop P (suc n) [] h = tt
All-drop P (suc n) (x ∷ xs) h = All-drop P n xs h.1

take_one-drop {ℓ} :
    {A : Type ℓ} (j more : ℕ) (xs : List A)
    → j ≤ more
    → take 1 (drop j (take (suc more) xs)) ≡ take 1 (drop j xs)
take_one-drop zero more [] h = refl
take_one-drop zero more (x ∷ xs) h = refl
take_one-drop (suc j) zero xs h = absurd (omega arith)
take_one-drop (suc j) (suc more) [] h = refl
take_one-drop (suc j) (suc more) (x ∷ xs) h = take_one-drop j more xs (omega arith)

drop-nil {ℓ} : {A : Type ℓ} (n : ℕ) → drop {A = A} n [] ≡ []
drop-nil zero = refl
drop-nil (suc n) = refl

suc_sum : (i j : ℕ) → suc (i + j) ≡ suc i + j
suc_sum i j = omega arith

zero_sum : (j : ℕ) → j ≡ 0 + j
zero_sum j = omega arith

drop-drop {ℓ} : {A : Type ℓ} (i j : ℕ) (xs : List A) → drop j (drop i xs) ≡ drop (i + j) xs
drop-drop zero j xs = ap (λ n. drop n xs) (zero_sum j)
drop-drop (suc i) j [] = drop-nil j ∙ sym (drop-nil (suc i + j))
drop-drop (suc i) j (x ∷ xs) = drop-drop i j xs ∙ ap (λ n. drop n (x ∷ xs)) (suc_sum i j)

pub split-piece :
    (p rest : List ℕ) (q : List ℕ) (qs : List (List ℕ))
    → HasNoFeed p
    → split b'\n' rest ≡ q ∷ qs
    → split b'\n' (p ++ b'\n' ∷ rest) ≡ p ∷ q ∷ qs
split-piece [] rest q qs h e = split_feed b'\n' rest refl ∙ ap (λ u. [] ∷ u) e
split-piece (c ∷ p) rest q qs h e =
    split_text c (p ++ b'\n' ∷ rest) (ground arith)
    ∙ ap (onto c) (split-piece p rest q qs (ground arith) e)
    ∙ unfold onto in refl

split_one : (p : List ℕ) → HasNoFeed p → split b'\n' p ≡ p ∷ []
split_one [] h = unfold split in refl
split_one (c ∷ p) h =
    split_text c p (ground arith) ∙ ap (onto c) (split_one p (ground arith)) ∙ unfold onto in refl

split-join_lines :
    (p : List ℕ) (ps : List (List ℕ))
    → All HasNoFeed (p ∷ ps)
    → split b'\n' (join_lines (p ∷ ps)) ≡ p ∷ ps
unfolding join_lines
split-join_lines p [] h = split_one p h.0
split-join_lines p (q ∷ ps) h =
    split-piece p (join_lines (q ∷ ps)) q ps h.0 (split-join_lines q ps h.1)

line_of_pieces :
    (j : ℕ) (ps : List (List ℕ))
    → All HasNoFeed ps
    → line_text j 0 (join_lines ps) ≡ join_lines (take 1 (drop j ps))
unfolding line_text join_lines
line_of_pieces zero [] h = unfold split in refl
line_of_pieces (suc zero) [] h = unfold split in refl
line_of_pieces (suc (suc j)) [] h = unfold split in refl
line_of_pieces j (p ∷ ps) h = ap (λ u. join_lines (take 1 (drop j u))) (split-join_lines p ps h)

-- The line `j` of the lines from `first` on.
pub line_text-line_text :
    (s : List ℕ) (first more j : ℕ)
    → j ≤ more
    → line_text j 0 (line_text first more s) ≡ line_text (first + j) 0 s
unfolding line_text
line_text-line_text s first more j h =
    line_of_pieces j (take (suc more) (drop first (split b'\n' s))) (
      All-take HasNoFeed (suc more) (drop first (split b'\n' s))
        (All-drop HasNoFeed first (split b'\n' s) (split-HasNoFeed s)))
    ∙ ap join_lines (take_one-drop j more (drop first (split b'\n' s)) h)
    ∙ ap (λ u. join_lines (take 1 u)) (drop-drop first j (split b'\n' s))

pieces_parts :
    (j more : ℕ) (ps : List (List ℕ))
    → j ≤ more
    → (a : List ℕ) × (b : List ℕ) × (join_lines (take (suc more) ps)
        ≡ a ++ (join_lines (take 1 (drop j ps)) ++ b))
unfolding join_lines
pieces_parts j more [] h =
    ([], [], sym (append-nil _ ∙ ap (λ u. join_lines (take 1 u)) (drop-nil j)))
pieces_parts zero zero (p ∷ ps) h = ([], [], sym (append-nil p))
pieces_parts zero (suc more) (p ∷ []) h = ([], [], sym (append-nil p))
pieces_parts zero (suc more) (p ∷ q ∷ ps) h =
    ([], b'\n' ∷ join_lines (take (suc more) (q ∷ ps)), refl)
pieces_parts (suc j) zero (p ∷ ps) h = absurd (omega arith)
pieces_parts (suc j) (suc more) (p ∷ []) h = (
  p,
  [],
  sym (
      ap (λ u. p ++ u) (append-nil _ ∙ ap (λ u. join_lines (take 1 u)) (drop-nil j))
      ∙ append-nil p),
)
pieces_parts (suc j) (suc more) (p ∷ q ∷ ps) h =
    let (a, b, e) = pieces_parts j more (q ∷ ps) (omega arith) in
    (
      p ++ b'\n' ∷ a,
      b,
      ap (λ u. p ++ b'\n' ∷ u) e
          ∙ sym (append_assoc p (b'\n' ∷ a) (join_lines (take 1 (drop j (q ∷ ps))) ++ b)),
    )

back : (i k : ℕ) → i ≤ k → i + (k - i) ≡ k
back i k h = omega arith

-- A range of lines has the text of each of its lines.
pub line_text_parts :
    (s : List ℕ) (first more k : ℕ)
    → first ≤ k
    → k ≤ first + more
    → (a : List ℕ) × (b : List ℕ) × (line_text first more s ≡ a ++ (line_text k 0 s ++ b))
unfolding line_text
line_text_parts s first more k from to =
    let (a, b, e) = pieces_parts (k - first) more (drop first (split b'\n' s)) (omega arith) in
    (
      a,
      b,
      e
          ∙ ap (λ u. a ++ (join_lines (take 1 u) ++ b))
              (drop-drop first (k - first) (split b'\n' s)
                ∙ ap (λ n. drop n (split b'\n' s)) (back first k from)),
    )
