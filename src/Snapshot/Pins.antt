-- ===== src/Snapshot/Pins.antt =====
-- Tools/ggrep/src/snapshot/pins.rs: the snapshots that queries have in use. The mutex makes `pin` and
-- `unpin` atomic, so threads are a sequence of them; a count is a `usize` of 64 bits.
pub mod Balanced
pub mod Examples
use goodgrep.Prelude.{ℕ, ◌+◌, ◌-◌, ◌<◌, min, String, Bool, List, [], ◌∷◌, Option, none, some}
use goodgrep.Prelude.Tests.{ltb, string_key, if◌then◌else◌}
use goodgrep.Prelude.Maps.{lookup, insert, remove, keys}

abbrev pub usize_max : ℕ
usize_max = 18446744073709551615

abbrev pub or_zero : Option ℕ → ℕ
or_zero none = 0
or_zero (some n) = n

abbrev pub Pins : Type 0
Pins = List (String × ℕ)

pub pin : String → Pins → Pins
pin snapshot_id pins =
    insert snapshot_id (min (or_zero (lookup snapshot_id pins) + 1) usize_max) pins

pub unpin : String → Pins → Pins
unpin snapshot_id pins = elim (lookup snapshot_id pins) [
  | none ↦ pins
  | some count ↦
      if ltb 1 count then insert snapshot_id (count - 1) pins else remove snapshot_id pins
]

abbrev pub ids : Pins → List String
ids pins = keys pins

pub data Event : Type 0 where
  pins unpins : String → Event

pub run : List Event → Pins → Pins
run [] m = m
run (pins id ∷ es) m = run es (pin id m)
run (unpins id ∷ es) m = run es (unpin id m)
