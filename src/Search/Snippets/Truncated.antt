-- ===== src/Search/Snippets/Truncated.antt =====
-- Where a text is cut.
use goodgrep.Prelude.{
  ℕ, zero, suc, ◌≤◌, ◌<◌, min, ◌≡◌, refl, true, false, ◌&&◌, ap, List, [], ◌∷◌, arith, ◌⊎◌, inl,
  inr,
}
use goodgrep.Prelude.Tests.{ltb, leb, ◌==◌, nat_key, if◌then◌else◌, Bool-cases}
use goodgrep.Prelude.Lists.{length, take}
use goodgrep.Search.Snippets.{is_char_boundary, step_back, truncate_str_bytes}

boundary-zero : (s : List ℕ) → is_char_boundary s 0 ≡ true
unfolding is_char_boundary
boundary-zero [] = refl
boundary-zero (b ∷ []) = refl
boundary-zero (b ∷ c ∷ s) = refl

step_back_sound :
    (s : List ℕ) (n : ℕ)
    → (step_back s n ≤ n)
      × (is_char_boundary s (step_back s n) ≡ true)
      × ((m : ℕ) → step_back s n < m → m ≤ n → is_char_boundary s m ≡ false)
unfolding step_back
step_back_sound s zero = (omega arith, boundary-zero s, λ m more less. absurd (omega arith))
step_back_sound s (suc n) =
    let (below, cut, above) = step_back_sound s n in
    (ground (arith, below), ground (arith, cut), last above)
  where
    last :
        ((m : ℕ) → step_back s n < m → m ≤ n → is_char_boundary s m ≡ false)
        → (m : ℕ) → (if is_char_boundary s (suc n) then suc n else step_back s n) < m
        → m ≤ suc n
        → is_char_boundary s m ≡ false
    last above m more less = elim (Bool-cases (m == suc n)) [
      | inl same ↦ ground (arith, ap (is_char_boundary s) ((nat_key.same_iff m (suc n)).0 same))
      | inr other ↦ ground (arith, above m)
    ]

min-less : (m n : ℕ) → m ≤ n → min m n ≡ m
min-less m n h = omega arith

-- The text that is kept is the longest prefix of at most `max_bytes` bytes that ends between two
-- characters, or the whole text if that is no longer than `max_bytes`; the flag tells whether the text
-- was cut.
pub truncate_str_bytes_sound :
    (s : List ℕ) (max_bytes : ℕ)
    → ((truncate_str_bytes s max_bytes).1 ≡ ltb max_bytes (length s))
      × (((length s ≤ max_bytes) × ((truncate_str_bytes s max_bytes).0 ≡ s))
          ⊎ ((n : ℕ) × ((truncate_str_bytes s max_bytes).0 ≡ take n s)
              × (n ≤ max_bytes)
              × (max_bytes < length s)
              × (is_char_boundary s n ≡ true)
              × ((m : ℕ) → (is_char_boundary s m && ltb n m && leb m max_bytes) ≡ false)))
unfolding truncate_str_bytes
truncate_str_bytes_sound [] max_bytes = (ground arith, inl (ground arith))
truncate_str_bytes_sound (b ∷ s) zero = (
  ground arith,
  inr (0, refl, omega arith, omega arith, boundary-zero (b ∷ s), λ m. ground arith),
)
truncate_str_bytes_sound (b ∷ s) (suc k) = elim (Bool-cases (leb (suc (length s)) (suc k))) [
  | inl short ↦ (ground arith, inl (ground arith))
  | inr long ↦
      let (below, boundary, above) = step_back_sound (b ∷ s) (suc k) in
      (
        ground arith,
        inr (
          step_back (b ∷ s) (suc k),
          ground (
            arith,
            ap (λ n. take (step_back (b ∷ s) n) (b ∷ s))
                (min-less (suc k) (suc (length s)) (ground arith)),
          ),
          below,
          ground arith,
          boundary,
          λ m. ground (arith, above m),
        ),
      )
]
