-- ===== src/Snapshot/Pins/Examples.antt =====
-- Two queries on one snapshot, one of them done.
use goodgrep.Prelude.{◌≡◌, true, [], ◌∷◌, arith}
use goodgrep.Prelude.Tests.{string_key}
use goodgrep.Prelude.Lists.{contains}
use goodgrep.Snapshot.Pins.{ids, pins, unpins, run}
use goodgrep.Snapshot.Pins.Balanced.{run-ids}

run-ids_example : contains (ids (run (pins "s" ∷ pins "s" ∷ unpins "s" ∷ []) [])) "s" ≡ true
run-ids_example = run-ids "s" (pins "s" ∷ pins "s" ∷ unpins "s" ∷ []) (omega arith) (omega arith)
