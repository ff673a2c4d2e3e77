-- ===== src/Search/Profile/Quotas.antt =====
-- The quotas of a mode (`quotas_for_mode`, `allocate`): the largest-remainder method over ten
-- parts, after a minimum for each kind.
pub mod Total
pub mod Fair
use goodgrep.Prelude.{ℕ, ◌+◌, ◌-◌, ◌*◌, ◌/◌, ◌%◌, ◌||◌, List, [], ◌∷◌}
use goodgrep.Prelude.Tests.{ltb, leb, ◌==◌, nat_key, if◌then◌else◌}
use goodgrep.Types.{SearchMode, balanced, discovery, implementation, planning, debug}

pub record Quotas : Type 0 where
  pub code : ℕ
  pub docs : ℕ
  pub graph : ℕ

abbrev pub total : Quotas → ℕ
total q = q.code + q.docs + q.graph

pub data Share : Type 0 where
  code docs graph : Share

-- `fracs.sort_by(|a, b| b.1.cmp(&a.1))`: stable, the largest fraction first.
unfoldable pub insert_frac : Share × ℕ → List (Share × ℕ) → List (Share × ℕ)
insert_frac x [] = x ∷ []
insert_frac (s, n) ((t, m) ∷ ys) =
    if leb m n then (s, n) ∷ (t, m) ∷ ys else (t, m) ∷ insert_frac (s, n) ys

unfoldable pub sort_fracs : List (Share × ℕ) → List (Share × ℕ)
sort_fracs [] = []
sort_fracs (x ∷ xs) = insert_frac x (sort_fracs xs)

unfoldable pub bump : Share → Quotas → Quotas
bump Share.code q = record q { code = q.code + 1 }
bump Share.docs q = record q { docs = q.docs + 1 }
bump Share.graph q = record q { graph = q.graph + 1 }

-- The loop over `fracs`, and what it leaves of the remainder.
unfoldable pub hand_out : List (Share × ℕ) → ℕ → Quotas → Quotas × ℕ
hand_out [] remainder q = (q, remainder)
hand_out ((s, _) ∷ rest) remainder q =
    let next = hand_out rest (remainder - 1) (bump s q) in
    if remainder == 0 then (q, remainder) else next

-- `limit * w / total`, rounded down.
unfoldable pub floors : ℕ → Quotas → Quotas
floors limit w = record {
  code = limit * w.code / total w;
  docs = limit * w.docs / total w;
  graph = limit * w.graph / total w;
}

unfoldable pub fracs : ℕ → Quotas → List (Share × ℕ)
fracs limit w = sort_fracs (
    (Share.code, (limit * w.code) % total w)
    ∷ (Share.docs, (limit * w.docs) % total w)
    ∷ (Share.graph, (limit * w.graph) % total w)
    ∷ [])

-- What no kind took goes to code.
unfoldable pub leftover_to_code : Quotas × ℕ → Quotas
leftover_to_code (q, left) = if ltb 0 left then record q { code = q.code + left } else q

unfoldable pub allocate : ℕ → Quotas → Quotas
unfolding leftover_to_code
allocate limit w =
    let q = floors limit w in
    let remainder = limit - total q in
    let out = leftover_to_code (hand_out (fracs limit w) remainder q) in
    if total w == 0 || limit == 0
    then record { code = 0; docs = 0; graph = 0 }
    else if remainder == 0
    then q
    else out

unfoldable pub weights : SearchMode → Quotas
weights discovery = record { code = 3; docs = 4; graph = 3 }
weights implementation = record { code = 6; docs = 2; graph = 2 }
weights planning = record { code = 2; docs = 6; graph = 2 }
weights debug = record { code = 7; docs = 2; graph = 1 }
weights balanced = record { code = 4; docs = 3; graph = 3 }

unfoldable pub graph_minimum : SearchMode → ℕ
graph_minimum debug = 0
graph_minimum _ = 1

unfoldable pub minimum : ℕ → SearchMode → Quotas
unfolding graph_minimum
minimum limit mode =
    if leb 3 limit
    then record { code = 1; docs = 1; graph = graph_minimum mode }
    else if limit == 2
    then record { code = 1; docs = 1; graph = 0 }
    else if limit == 1
    then record { code = 1; docs = 0; graph = 0 }
    else record { code = 0; docs = 0; graph = 0 }

-- The last step of `quotas_for_mode`, "correct any rounding drift".
unfoldable pub correct : ℕ → Quotas → Quotas
correct limit a =
    if ltb limit (total a)
    then record a { code = a.code - (total a - limit) }
    else if ltb (total a) limit
    then record a { code = a.code + (limit - total a) }
    else a

unfoldable pub quotas_for_mode : ℕ → SearchMode → Quotas
quotas_for_mode limit mode =
    let least = minimum limit mode in
    let used = total least in
    let a = allocate (limit - used) (weights mode) in
    if leb limit used
    then record least { graph = least.graph - (used - limit) }
    else correct limit (record {
      code = a.code + least.code;
      docs = a.docs + least.docs;
      graph = a.graph + least.graph;
    })
