-- ===== src/Search/Snippets/Capped.antt =====
-- What the caps leave of the results.
use mathlib.Core.Path.{subst}
use goodgrep.Prelude.{
  ℕ, zero, suc, ◌+◌, ◌-◌, ◌≤◌, ◌<◌, min, ◌≡◌, refl, ap, sym, ◌∙◌, List, [], ◌∷◌, arith, inl, inr,
}
use goodgrep.Prelude.Tests.{ltb, leb, ◌==◌, nat_key, Bool-cases}
use goodgrep.Prelude.Lists.{length, take, length-take, take_all}
use goodgrep.Types.{SearchResult, SearchLimitHit}
use goodgrep.Search.Snippets.{
  truncate_str_bytes, with_content, cap_result, cap_each, cap_total, total_bytes, usize_max,
  apply_snippet_caps,
}
use goodgrep.Search.Snippets.Truncated.{truncate_str_bytes_sound}

truncated :
    (s : List ℕ) (max_bytes : ℕ)
    → (n : ℕ) × ((truncate_str_bytes s max_bytes).0 ≡ take n s)
      × (length (truncate_str_bytes s max_bytes).0 ≤ max_bytes)
truncated s max_bytes = elim (truncate_str_bytes_sound s max_bytes).1 [
  | inl (short, same) ↦ (
    length s,
    same ∙ sym (take_all (length s) s (omega arith)),
    omega (arith, short, ap length same),
  )
  | inr (n, cut, below, longer, boundary, last) ↦
      (n, cut, omega (arith, below, ap length cut, length-take n s))
]

take-take : (m n : ℕ) (s : List ℕ) → (k : ℕ) × (take m (take n s) ≡ take k s)
take-take zero n s = (0, refl)
take-take (suc m) zero s = (0, refl)
take-take (suc m) (suc n) [] = (0, refl)
take-take (suc m) (suc n) (b ∷ s) = let (k, e) = take-take m n s in (suc k, ap (◌∷◌ b) e)

-- A snippet that is cut a second time.
cut_again :
    (remaining : ℕ) (s : List ℕ) (n : ℕ)
    → (k : ℕ) × ((truncate_str_bytes (take n s) remaining).0 ≡ take k s)
      × (length (take k s) ≤ length (take n s))
cut_again remaining s n =
    let (m, cut, below) = truncated (take n s) remaining in
    let (k, same) = take-take m n s in
    (k, cut ∙ same, omega (arith, ap length same, length-take m (take n s)))

module _ {F : Type 0} where
  -- The bytes of all snippets.
  abbrev pub sum_bytes : List (SearchResult F) → ℕ
  sum_bytes [] = 0
  sum_bytes (r ∷ rs) = length r.content + sum_bytes rs

  -- The same results in the same order, each with a prefix of its snippet of at most `most` bytes.
  pub data Shortened (most : ℕ) : List (SearchResult F) → List (SearchResult F) → Type 0 where
    nothing : Shortened most [] []
    shorter :
        {r : SearchResult F} {rs qs : List (SearchResult F)} (n : ℕ)
        → length (take n r.content) ≤ most
        → Shortened most rs qs
        → Shortened most (r ∷ rs) (with_content r (take n r.content) ∷ qs)

  total_bytes-sum :
      (t : ℕ) (rs : List (SearchResult F))
      → t ≤ usize_max
      → total_bytes t rs ≡ min (t + sum_bytes rs) usize_max
  total_bytes-sum t [] h = omega arith
  total_bytes-sum t (r ∷ rs) h =
      total_bytes-sum (min (t + length r.content) usize_max) rs (omega arith) ∙ omega arith

  sum-cap_total :
      (remaining : ℕ) (rs : List (SearchResult F)) → sum_bytes (cap_total remaining rs) ≤ remaining
  unfolding cap_total
  sum-cap_total remaining [] = omega arith
  sum-cap_total remaining (r ∷ rs) = ground (
    arith,
    sum-cap_total 0 rs,
    sum-cap_total (remaining - length r.content) rs,
    (truncated r.content remaining).2,
  )

  cap_result-shorter :
      (most : ℕ) (r : SearchResult F)
      → (n : ℕ) × ((cap_result most r).0 ≡ with_content r (take n r.content))
        × (length (take n r.content) ≤ most)
  unfolding cap_result
  cap_result-shorter most r = elim (Bool-cases (ltb most (length r.content))) [
    | inl over ↦
        let (n, cut, below) = truncated r.content most in
        (
          n,
          rw (over, (truncate_str_bytes_sound r.content most).0, over) (ap (with_content r) cut),
          omega (arith, below, ap length cut),
        )
    | inr fits ↦ (
      length r.content,
      rw fits (ap (with_content r) (sym (take_all (length r.content) r.content (omega arith)))),
      ground (arith, length-take (length r.content) r.content),
    )
  ]

  -- `shorter` for a result that is given by an equation.
  shorter_by :
      (most : ℕ) (r q : SearchResult F) (rs qs : List (SearchResult F)) (n : ℕ)
      → q ≡ with_content r (take n r.content)
      → length (take n r.content) ≤ most
      → Shortened most rs qs
      → Shortened most (r ∷ rs) (q ∷ qs)
  shorter_by most r q rs qs n same below rest =
      subst (λ x. Shortened most (r ∷ rs) (x ∷ qs)) (sym same) (shorter n below rest)

  cap_each-Shortened :
      (most : ℕ) (rs : List (SearchResult F)) → Shortened most rs (cap_each most rs).0
  unfolding cap_each
  cap_each-Shortened most [] = nothing
  cap_each-Shortened most (r ∷ rs) =
      let (n, same, below) = cap_result-shorter most r in
      shorter_by most r _ rs _ n same below (cap_each-Shortened most rs)

  cap_total-Shortened :
      (most remaining : ℕ) (rs qs : List (SearchResult F))
      → Shortened most rs qs
      → Shortened most rs (cap_total remaining qs)
  unfolding cap_total
  cap_total-Shortened most remaining _ _ nothing = nothing
  cap_total-Shortened most remaining _ _ (shorter {r} {rs} {qs} n below rest) =
      elim (Bool-cases (remaining == 0)) [
        | inl spent ↦ rw spent (shorter 0 (omega arith) (cap_total-Shortened most 0 rs qs rest))
        | inr more ↦ elim (Bool-cases (leb (length (take n r.content)) remaining)) [
          | inl fits ↦
              rw (more, fits)
                (shorter n below
                  (cap_total-Shortened most (remaining - length (take n r.content)) rs qs rest))
          | inr long ↦
              let (m, same, less) = cut_again remaining r.content n in
              rw (more, long)
                (shorter_by most r _ rs _ m (ap (with_content r) same) (omega arith)
                  (cap_total-Shortened most 0 rs qs rest))
        ]
      ]

  -- The capped results are the given ones, in their order, each with a prefix of its snippet of at most
  -- `max_bytes_per_result` bytes; together the snippets have at most `max_total_bytes` bytes, if that
  -- cap is below the greatest `usize`.
  pub apply_snippet_caps-bounds :
      (max_total_bytes max_bytes_per_result : ℕ) (rs : List (SearchResult F))
      (limits_hit : List SearchLimitHit)
      → max_total_bytes < usize_max
      → Shortened max_bytes_per_result rs
          (apply_snippet_caps max_total_bytes max_bytes_per_result rs limits_hit).0
        × (sum_bytes (apply_snippet_caps max_total_bytes max_bytes_per_result rs limits_hit).0
            ≤ max_total_bytes)
  unfolding apply_snippet_caps
  apply_snippet_caps-bounds total most rs hits small =
      elim (Bool-cases (leb (total_bytes 0 (cap_each most rs).0) total)) [
        | inl fits ↦
            rw fits
              (cap_each-Shortened most rs, ground (arith, total_bytes-sum 0 (cap_each most rs).0))
        | inr over ↦ rw over (
          cap_total-Shortened most total rs (cap_each most rs).0 (cap_each-Shortened most rs),
          sum-cap_total total (cap_each most rs).0,
        )
      ]
