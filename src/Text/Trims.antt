-- ===== src/Text/Trims.antt =====
-- Trimming takes blank characters only.
use goodgrep.Prelude.{Bool, ℕ, ◌≡◌, refl, not, ◌&&◌, List, [], ◌∷◌, ◌++◌, arith, inl, inr}
use goodgrep.Prelude.Tests.{nat_key, Bool-cases}
use goodgrep.Prelude.Lists.{filter, is_empty, List-cases}
use goodgrep.Text.{is_whitespace, trim_start, trim_end}

abbrev pub is_dark : ℕ → Bool
is_dark c = not (is_whitespace c)

-- The characters of a text that are not blank.
abbrev pub ink : List ℕ → List ℕ
ink s = filter is_dark s

-- What `trim_start` takes off.
pub trim_start-suffix : (s : List ℕ) → (p : List ℕ) × (s ≡ p ++ trim_start s) × (ink p ≡ [])
unfolding trim_start
trim_start-suffix [] = ([], refl, refl)
trim_start-suffix (c ∷ s) = elim (Bool-cases (is_whitespace c)) [
  | inl blank ↦
      let (p, parts, none_left) = trim_start-suffix s in
      (c ∷ p, ground (arith, parts), ground (arith, none_left))
  | inr dark ↦ ([], ground arith, refl)
]

trim_end_cons :
    (c : ℕ) (s q : List ℕ)
    → s ≡ trim_end s ++ q
    → ink q ≡ []
    → (r : List ℕ) × (c ∷ s ≡ trim_end (c ∷ s) ++ r) × (ink r ≡ [])
unfolding trim_end
trim_end_cons c s q parts none_left = elim (Bool-cases (is_empty (trim_end s) && is_whitespace c)) [
  | inl blank ↦ (
    c ∷ q,
    elim (List-cases (trim_end s)) [
      | inl gone ↦ ground (arith, gone, parts)
      | inr (d, t, left) ↦ absurd (ground (arith, left))
    ],
    ground (arith, none_left),
  )
  | inr dark ↦ (q, ground (arith, parts), none_left)
]

-- What `trim_end` takes off.
pub trim_end-prefix : (s : List ℕ) → (q : List ℕ) × (s ≡ trim_end s ++ q) × (ink q ≡ [])
trim_end-prefix [] = unfold trim_end in ([], refl, refl)
trim_end-prefix (c ∷ s) =
    let (q, parts, none_left) = trim_end-prefix s in trim_end_cons c s q parts none_left
