-- ===== src/Snapshot/Pins/Balanced.antt =====
-- A snapshot that is in use is pinned, in every order of the threads' operations.
use goodgrep.Prelude.{
  ℕ, suc, ◌+◌, ◌-◌, ◌≤◌, ◌<◌, min, ◌≡◌, true, String, List, [], ◌∷◌, arith, inl, inr,
}
use goodgrep.Prelude.Tests.{◌==◌, string_key, if◌then◌else◌, Option-cases}
use goodgrep.Prelude.Lists.{contains}
use goodgrep.Prelude.Maps.{lookup, lookup-insert, lookup-remove, lookup-nil, contains-keys}
use goodgrep.Snapshot.Pins.{Pins, pin, unpin, ids, or_zero, Event, pins, unpins, run, usize_max}

count : String → Pins → ℕ
count k m = or_zero (lookup k m)

abbrev pub pins_of : String → List Event → ℕ
pins_of k [] = 0
pins_of k (pins id ∷ es) = if id == k then suc (pins_of k es) else pins_of k es
pins_of k (unpins id ∷ es) = pins_of k es

abbrev pub unpins_of : String → List Event → ℕ
unpins_of k [] = 0
unpins_of k (pins id ∷ es) = unpins_of k es
unpins_of k (unpins id ∷ es) = if id == k then suc (unpins_of k es) else unpins_of k es

count-pin :
    (k id : String) (m : Pins)
    → count k (pin id m) ≡ (if id == k then min (count k m + 1) usize_max else count k m)
unfolding count pin
count-pin k id m = ground (
  arith,
  lookup-insert id k (min (or_zero (lookup id m) + 1) usize_max) m,
  string_key.same_iff id k,
)

count-unpin :
    (k id : String) (m : Pins)
    → count k (unpin id m) ≡ (if id == k then count k m - 1 else count k m)
unfolding count unpin
count-unpin k id m = elim (Option-cases (lookup id m)) [
  | inl free ↦ ground (arith, free, string_key.same_iff id k)
  | inr (n, held) ↦
      ground
        (arith, held, lookup-insert id k (n - 1) m, lookup-remove id k m, string_key.same_iff id k)
]

count-run :
    (k : String) (es : List Event) (m : Pins)
    → count k m + pins_of k es ≤ usize_max
    → count k m + pins_of k es ≤ count k (run es m) + unpins_of k es
unfolding run
count-run k [] m h = omega arith
count-run k (pins id ∷ es) m h = ground (arith, count-run k es (pin id m), count-pin k id m)
count-run k (unpins id ∷ es) m h = ground (arith, count-run k es (unpin id m), count-unpin k id m)

contains-ids : (k : String) (m : Pins) → 0 < count k m → contains (ids m) k ≡ true
unfolding count
contains-ids k m h = elim (Option-cases (lookup k m)) [
  | inl free ↦ absurd (ground arith)
  | inr (n, held) ↦ contains-keys k n m held
]

-- A snapshot that has been pinned more often than unpinned is among the pinned ids, however the
-- operations of the threads are interleaved, if it was pinned at most `usize::MAX` times.
pub run-ids :
    (k : String) (es : List Event)
    → pins_of k es ≤ usize_max
    → unpins_of k es < pins_of k es
    → contains (ids (run es [])) k ≡ true
unfolding count
run-ids k es small more =
    contains-ids k (run es []) (ground (arith, count-run k es [], lookup-nil {V = ℕ} k))
