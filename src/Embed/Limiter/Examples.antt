-- ===== src/Embed/Limiter/Examples.antt =====
-- Two processes, one slot, and the lock file of a dead process.
use goodgrep.Prelude.{ℕ, ◌≤◌, ◌<◌, ◌≡◌, ◌≢◌, refl, true, ◌||◌, [], ◌∷◌, Option, none, some, arith}
use goodgrep.Prelude.Tests.{◌==◌, nat_key, if◌then◌else◌}
use goodgrep.FilePath.{codes, is_prefix, split, onto}
use goodgrep.Text.{lines, ended, strip_cr, trim, trim_start, trim_end, is_whitespace}
use goodgrep.Text.Decimal.{decimal, digits, parse_u32, read_digits, without_plus, within_u32}
use goodgrep.Embed.Limiter.{
  World, Others, Locks, LockFile, write_slot, new_lock, acquired, sweep, acquire_permit, read_pid,
  first_pid, lock_metadata, is_stale_lock, lock_age,
}
use goodgrep.Embed.Limiter.Metadata.{read_pid-lock_metadata}
use goodgrep.Embed.Limiter.Permits.{acquire_permit-acquired}
use goodgrep.Embed.Limiter.Held.{sweep_respects}
use goodgrep.Embed.Limiter.Sweeps.{Keeps}
use goodgrep.Prelude.Lists.{length}

abbrev calm : ℕ → Option ℕ
calm slot = none

-- The processes 7 and 8 live.
abbrev seven : World
seven = record { now = 100; process = 7; pid_is_alive = λ p. p == 7 || p == 8; wrote = 100 }

abbrev eight : World
eight = record { now = 1000; process = 8; pid_is_alive = λ p. p == 7 || p == 8; wrote = 100 }

abbrev no_locks : Locks
no_locks slot = none

abbrev dead : LockFile
dead = record { content = codes "pid=5\nstarted_at_ms=1\n"; modified = 1 }

abbrev dead_lock : Locks
dead_lock slot = if slot == 0 then some dead else none

abbrev idle : Others
idle = record {
  before_open = λ slot locks. locks;
  before_check = λ slot locks. locks;
  before_remove = λ slot locks. locks;
}

-- The others put a lock file into slot 1 before each step, and leave slot 0 alone.
abbrev busy : Others
busy = record {
  before_open = λ slot. write_slot 1 (some dead);
  before_check = λ slot. write_slot 1 (some dead);
  before_remove = λ slot. write_slot 1 (some dead);
}

busy-Keeps {κ} : (Q : Option LockFile → Type κ) → Keeps busy (λ l. Q (l 0))
busy-Keeps Q = record {
  opens = λ slot locks h. h;
  checks = λ slot locks h. h;
  removes = λ slot locks h. h;
}

read_pid-lock_metadata_example :
    read_pid (record { content = lock_metadata seven; modified = 100 }) ≡ some 7
read_pid-lock_metadata_example = read_pid-lock_metadata seven 100 (omega arith)

seven_got : (sweep calm 2 0 seven idle 50 no_locks).0 ≡ acquired 0
unfolding sweep
seven_got = refl

metadata_fits : length (lock_metadata seven) ≤ 100
unfolding lock_metadata decimal digits
metadata_fits = omega arith

sweep_respects_example :
    let before = (sweep calm 2 0 seven idle 50 no_locks).1 in
    let after = sweep calm 2 0 eight busy 50 before in
    (after.1 0 ≡ before 0) × (after.0 ≢ acquired 0)
sweep_respects_example =
    sweep_respects calm seven eight idle busy 50 2 0 no_locks seven_got metadata_fits (omega arith)
      refl (busy-Keeps (λ o. o ≡ some (new_lock seven)))

dead_is_stale : is_stale_lock seven 50 (dead_lock 0) ≡ true
unfolding is_stale_lock read_pid first_pid lines split onto ended strip_cr is_prefix trim trim_start
    trim_end is_whitespace parse_u32 lock_age without_plus within_u32 read_digits
dead_is_stale = refl

-- The metadata of this process is cut behind "pid", so its lock is stale although the process lives.
abbrev cut_short : World
cut_short = record seven { wrote = 3 }

cut_short_is_stale : is_stale_lock eight 50 (some (new_lock cut_short)) ≡ true
unfolding is_stale_lock read_pid first_pid lines split onto ended strip_cr is_prefix trim trim_start
    trim_end is_whitespace parse_u32 lock_age without_plus within_u32 read_digits lock_metadata
    decimal digits
cut_short_is_stale = refl

acquire_permit-acquired_example :
    (j : ℕ) × (j < 2)
    × ((acquire_permit calm none 2 50 ((seven, busy) ∷ (seven, busy) ∷ []) dead_lock).0
        ≡ some (acquired j))
acquire_permit-acquired_example =
    acquire_permit-acquired calm (λ slot. refl) 2 50 0 seven seven busy busy [] dead_lock
      (omega arith) dead_is_stale (busy-Keeps (λ o. is_stale_lock seven 50 o ≡ true))
      (busy-Keeps (λ o. o ≡ none)) (busy-Keeps (λ o. o ≡ none))
