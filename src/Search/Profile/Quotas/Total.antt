-- ===== src/Search/Profile/Quotas/Total.antt =====
-- `quotas_for_mode` hands out the whole limit.
use goodgrep.Prelude.{ℕ, ◌+◌, ◌-◌, ◌≤◌, ◌≡◌, List, [], ◌∷◌, arith}
use goodgrep.Types.{SearchMode, balanced, discovery, implementation, planning, debug}
use goodgrep.Search.Profile.Quotas.{
  Quotas, total, Share, bump, hand_out, floors, fracs, allocate, weights, minimum, correct,
  quotas_for_mode,
}

pub minimum_fits : (limit : ℕ) (mode : SearchMode) → (total (minimum limit mode) ≤ limit)
unfolding minimum
minimum_fits limit balanced = ground arith
minimum_fits limit _ = ground arith

pub correct-total : (limit : ℕ) (a : Quotas) → total a ≤ limit → total (correct limit a) ≡ limit
unfolding correct
correct-total limit a h = ground arith

hand_out-total :
    (fs : List (Share × ℕ)) (n : ℕ) (q : Quotas)
    → total (hand_out fs n q).0 + (hand_out fs n q).1 ≡ total q + n
unfolding hand_out bump
hand_out-total [] n q = ground arith
hand_out-total ((Share.code, f) ∷ fs) n q =
    ground (arith, hand_out-total fs (n - 1) (bump Share.code q))
hand_out-total ((Share.docs, f) ∷ fs) n q =
    ground (arith, hand_out-total fs (n - 1) (bump Share.docs q))
hand_out-total ((Share.graph, f) ∷ fs) n q =
    ground (arith, hand_out-total fs (n - 1) (bump Share.graph q))

pub floors_fit :
    (limit : ℕ) (mode : SearchMode)
    → (total (floors limit (weights mode)) ≤ limit)
      × (limit ≤ total (floors limit (weights mode)) + 2)
      × (total (weights mode) ≡ 10)
unfolding weights floors
floors_fit limit balanced = omega arith
floors_fit limit discovery = omega arith
floors_fit limit implementation = omega arith
floors_fit limit planning = omega arith
floors_fit limit debug = omega arith

pub allocate-total : (limit : ℕ) (mode : SearchMode) → total (allocate limit (weights mode)) ≡ limit
unfolding allocate
allocate-total limit mode =
    let q = floors limit (weights mode) in
    ground (
      arith,
      floors_fit limit mode,
      hand_out-total (fracs limit (weights mode)) (limit - total q) q,
    )

-- The quotas of the three kinds add up to the limit, whatever the limit and the mode.
pub quotas_for_mode-total :
    (limit : ℕ) (mode : SearchMode) → total (quotas_for_mode limit mode) ≡ limit
unfolding quotas_for_mode
quotas_for_mode-total limit mode =
    let least = minimum limit mode in
    let a = allocate (limit - total least) (weights mode) in
    ground (
      arith,
      minimum_fits limit mode,
      allocate-total (limit - total least) mode,
      correct-total limit (record {
        code = a.code + least.code;
        docs = a.docs + least.docs;
        graph = a.graph + least.graph;
      }),
    )
