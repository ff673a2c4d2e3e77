-- ===== src/Text/Cuts.antt =====
-- A cut between two characters: positions that are the sizes of prefixes.
use goodgrep.Prelude.{
  ℕ, ◌+◌, ◌-◌, ◌≤◌, ◌<◌, ◌≡◌, refl, ap, List, [], ◌∷◌, ◌++◌, some, arith, inl, inr,
}
use goodgrep.Prelude.Tests.{leb, Bool-cases}
use goodgrep.Text.{len_utf8, bytes, split_at, slice, floor_char_boundary}

pub len_utf8_bounds : (c : ℕ) → (0 < len_utf8 c) × (len_utf8 c ≤ 4)
unfolding len_utf8
len_utf8_bounds c = ground arith

pub bytes-append : (p q : List ℕ) → bytes (p ++ q) ≡ bytes p + bytes q
bytes-append [] q = omega arith
bytes-append (c ∷ p) q = omega (arith, bytes-append p q)

sum_less : (m n : ℕ) → m + n - m ≡ n
sum_less m n = omega arith

split_at_cons :
    (c : ℕ) (s : List ℕ) (n : ℕ) (p q : List ℕ)
    → split_at s n ≡ some (p, q)
    → split_at (c ∷ s) (len_utf8 c + n) ≡ some (c ∷ p, q)
unfolding split_at
split_at_cons c s n p q h =
    ground (arith, len_utf8_bounds c, ap (split_at s) (sum_less (len_utf8 c) n), h)

pub split_at-bytes : (p q : List ℕ) → split_at (p ++ q) (bytes p) ≡ some (p, q)
split_at-bytes [] [] = unfold split_at in refl
split_at-bytes [] (c ∷ q) = unfold split_at in refl
split_at-bytes (c ∷ p) q = split_at_cons c (p ++ q) (bytes p) p q (split_at-bytes p q)

slice-split_at :
    (s t p q r : List ℕ) (m n : ℕ)
    → split_at s m ≡ some (p, t)
    → split_at t n ≡ some (q, r)
    → slice s m (m + n) ≡ some q
unfolding slice
slice-split_at s t p q r m n first second =
    ground (arith, first, second, ap (split_at t) (sum_less m n))

-- The slice between two cuts is the text between them.
pub slice-bytes : (p q r : List ℕ) → slice (p ++ (q ++ r)) (bytes p) (bytes p + bytes q) ≡ some q
slice-bytes p q r =
    slice-split_at (p ++ (q ++ r)) (q ++ r) p q r (bytes p) (bytes q) (split_at-bytes p (q ++ r))
      (split_at-bytes q r)

-- The boundary below a position ends a prefix that is no longer than that, and not empty if the
-- position leaves room for a character.
pub floor_char_boundary-prefix :
    (s : List ℕ) (index : ℕ)
    → (p : List ℕ) × (q : List ℕ) × (s ≡ p ++ q)
      × (floor_char_boundary s index ≡ bytes p)
      × (bytes p ≤ index)
unfolding floor_char_boundary
floor_char_boundary-prefix [] index = ([], [], refl, refl, omega arith)
floor_char_boundary-prefix (c ∷ s) index = elim (Bool-cases (leb (len_utf8 c) index)) [
  | inl fits ↦
      let (p, q, parts, cut, small) = floor_char_boundary-prefix s (index - len_utf8 c) in
      (c ∷ p, q, ap (λ t. c ∷ t) parts, ground (arith, cut), ground (arith, small))
  | inr large ↦ ([], c ∷ s, refl, ground arith, omega arith)
]

pub floor_char_boundary-positive :
    (c : ℕ) (s : List ℕ) (index : ℕ) → 4 ≤ index → 0 < floor_char_boundary (c ∷ s) index
unfolding floor_char_boundary
floor_char_boundary-positive c s index room = ground (arith, len_utf8_bounds c)
