-- ===== src/Search/Profile/Quotas/Fair.antt =====
-- `quotas_for_mode` follows the weights of the mode: the largest-remainder method.
use goodgrep.Prelude.{ℕ, suc, ◌+◌, ◌-◌, ◌*◌, ◌/◌, ◌≤◌, ◌≡◌, refl, List, [], ◌∷◌, arith}
use goodgrep.Prelude.Lists.{length}
use goodgrep.Types.{SearchMode}
use goodgrep.Search.Profile.Quotas.{
  Quotas, total, Share, bump, hand_out, insert_frac, sort_fracs, floors, fracs, allocate, weights,
  minimum, correct, quotas_for_mode,
}
use goodgrep.Search.Profile.Quotas.Total.{minimum_fits, floors_fit, allocate-total}

abbrev pub share : Share → Quotas → ℕ
share Share.code q = q.code
share Share.docs q = q.docs
share Share.graph q = q.graph

same : Share → Share → ℕ
same Share.code Share.code = 1
same Share.docs Share.docs = 1
same Share.graph Share.graph = 1
same _ _ = 0

-- How often a kind stands in the list of fractions.
times : Share → List (Share × ℕ) → ℕ
times s [] = 0
times s ((t, _) ∷ fs) = same s t + times s fs

times-insert_frac :
    (s : Share) (x : Share × ℕ) (fs : List (Share × ℕ))
    → times s (insert_frac x fs) ≡ same s x.0 + times s fs
unfolding times insert_frac
times-insert_frac s (t, n) [] = refl
times-insert_frac s (t, n) ((u, m) ∷ fs) = ground (arith, times-insert_frac s (t, n) fs)

times-fracs : (s : Share) (limit : ℕ) (w : Quotas) → times s (fracs limit w) ≡ 1
unfolding fracs sort_fracs times same
times-fracs Share.code limit w = simp times-insert_frac
times-fracs Share.docs limit w = simp times-insert_frac
times-fracs Share.graph limit w = simp times-insert_frac

share-bump : (s t : Share) (q : Quotas) → share s (bump t q) ≡ share s q + same s t
unfolding bump same
share-bump Share.code t q = ground arith
share-bump _ t q = ground arith

hand_out-share :
    (s : Share) (fs : List (Share × ℕ)) (n : ℕ) (q : Quotas)
    → (share s q ≤ share s (hand_out fs n q).0)
      × (share s (hand_out fs n q).0 ≤ share s q + times s fs)
unfolding hand_out times
hand_out-share s [] n q = (omega arith, omega arith)
hand_out-share s ((t, f) ∷ fs) n q =
    ground (arith, hand_out-share s fs (n - 1) (bump t q), share-bump s t q)

length-insert_frac :
    (x : Share × ℕ) (fs : List (Share × ℕ)) → length (insert_frac x fs) ≡ suc (length fs)
unfolding insert_frac
length-insert_frac (t, n) [] = refl
length-insert_frac (t, n) ((u, m) ∷ fs) = ground (arith, length-insert_frac (t, n) fs)

length-fracs : (limit : ℕ) (w : Quotas) → length (fracs limit w) ≡ 3
unfolding fracs sort_fracs
length-fracs limit w = simp length-insert_frac

hand_out_left : (fs : List (Share × ℕ)) (n : ℕ) (q : Quotas) → (hand_out fs n q).1 ≡ n - length fs
unfolding hand_out
hand_out_left [] n q = omega arith
hand_out_left ((t, f) ∷ fs) n q = ground (arith, hand_out_left fs (n - 1) (bump t q))

share-floors :
    (s : Share) (limit : ℕ) (mode : SearchMode)
    → share s (floors limit (weights mode)) ≡ limit * share s (weights mode) / 10
unfolding floors
share-floors Share.code limit mode = rw (floors_fit limit mode).2
share-floors _ limit mode = rw (floors_fit limit mode).2

-- What the loop over the fractions does to one kind.
abbrev Handed : Share → ℕ → SearchMode → Type 0
Handed s limit mode =
    let q = floors limit (weights mode) in
    let out = hand_out (fracs limit (weights mode)) (limit - total q) q in
    (limit * share s (weights mode) / 10 ≤ share s out.0)
    × (share s out.0 ≤ limit * share s (weights mode) / 10 + 1)
    × (out.1 ≡ 0)

hand_out_fair : (s : Share) (limit : ℕ) (mode : SearchMode) → Handed s limit mode
hand_out_fair s limit mode =
    let q = floors limit (weights mode) in
    let fs = fracs limit (weights mode) in
    omega (
      arith,
      floors_fit limit mode,
      share-floors s limit mode,
      hand_out-share s fs (limit - total q) q,
      hand_out_left fs (limit - total q) q,
      length-fracs limit (weights mode),
      times-fracs s limit (weights mode),
    )

allocate-share :
    (s : Share) (limit : ℕ) (mode : SearchMode)
    → (limit * share s (weights mode) / 10 ≤ share s (allocate limit (weights mode)))
      × (share s (allocate limit (weights mode)) ≤ limit * share s (weights mode) / 10 + 1)
unfolding allocate
allocate-share Share.code limit mode = ground (
  arith,
  hand_out_fair Share.code limit mode,
  share-floors Share.code limit mode,
  floors_fit limit mode,
)
allocate-share Share.docs limit mode = ground (
  arith,
  hand_out_fair Share.docs limit mode,
  share-floors Share.docs limit mode,
  floors_fit limit mode,
)
allocate-share Share.graph limit mode = ground (
  arith,
  hand_out_fair Share.graph limit mode,
  share-floors Share.graph limit mode,
  floors_fit limit mode,
)

-- Each kind gets its minimum and its share of what is left of the limit, weighted by the mode in tenths
-- and rounded down, or one more than that.
pub quotas_for_mode_fair :
    (limit : ℕ) (mode : SearchMode) (s : Share)
    → let rest = limit - total (minimum limit mode) in
      let least = share s (minimum limit mode) + rest * share s (weights mode) / 10 in
      (least ≤ share s (quotas_for_mode limit mode))
      × (share s (quotas_for_mode limit mode) ≤ least + 1)
unfolding quotas_for_mode correct
quotas_for_mode_fair limit mode Share.code =
    let rest = limit - total (minimum limit mode) in
    ground (
      arith,
      minimum_fits limit mode,
      allocate-total rest mode,
      allocate-share Share.code rest mode,
    )
quotas_for_mode_fair limit mode Share.docs =
    let rest = limit - total (minimum limit mode) in
    ground (
      arith,
      minimum_fits limit mode,
      allocate-total rest mode,
      allocate-share Share.docs rest mode,
    )
quotas_for_mode_fair limit mode Share.graph =
    let rest = limit - total (minimum limit mode) in
    ground (
      arith,
      minimum_fits limit mode,
      allocate-total rest mode,
      allocate-share Share.graph rest mode,
    )
