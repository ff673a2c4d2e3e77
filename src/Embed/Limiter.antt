-- ===== src/Embed/Limiter.antt =====
-- Tools/ggrep/src/embed/limiter.rs: at most `max` processes of a host embed at a time. The lock files
-- are a function from slots to files; the clock, the process and the live processes are a World, what
-- other processes do to the files between the steps of a sweep is an Others, and an error other than an
-- existing file is a parameter. Each of opening, checking and removing a file is one step; the clock
-- stands still during a sweep, and a removal succeeds.
pub mod Metadata
pub mod Sweeps
pub mod Held
pub mod Permits
pub mod Examples
use goodgrep.Prelude.{
  ℕ, zero, suc, ◌+◌, ◌-◌, Bool, true, false, not, ◌&&◌, ◌||◌, List, [], ◌∷◌, ◌++◌, Option, none,
  some,
}
use goodgrep.Prelude.Tests.{ltb, leb, ◌==◌, nat_key, if◌then◌else◌}
use goodgrep.Prelude.Lists.{drop, take}
use goodgrep.FilePath.{codes, is_prefix}
use goodgrep.Text.{lines, trim}
use goodgrep.Text.Decimal.{decimal, parse_u32}

pub record LockFile : Type 0 where
  pub content : List ℕ
  pub modified : ℕ

abbrev pub Locks : Type 0
Locks = ℕ → Option LockFile

-- `wrote` is how many bytes of its metadata the process gets into its file; errors are ignored.
pub record World : Type 0 where
  pub now : ℕ
  pub process : ℕ
  pub pid_is_alive : ℕ → Bool
  pub wrote : ℕ

-- What other processes do, before a sweep opens, checks or removes the file of a slot.
pub record Others : Type 0 where
  pub before_open : ℕ → Locks → Locks
  pub before_check : ℕ → Locks → Locks
  pub before_remove : ℕ → Locks → Locks

abbrev pub write_slot : ℕ → Option LockFile → Locks → Locks
write_slot slot file locks other = if other == slot then file else locks other

unfoldable pub lock_metadata : World → List ℕ
lock_metadata w =
    (codes "pid=" ++ decimal w.process)
    ++ b'\n' ∷ ((codes "started_at_ms=" ++ decimal w.now) ++ b'\n' ∷ [])

unfoldable pub first_pid : List (List ℕ) → Option ℕ
first_pid [] = none
first_pid (line ∷ rest) =
    let later = first_pid rest in
    if is_prefix (codes "pid=") line
    then elim (parse_u32 (trim (drop 4 line))) [ some pid ↦ some pid | none ↦ later ]
    else later

unfoldable pub read_pid : LockFile → Option ℕ
read_pid file = first_pid (lines file.content)

-- No age is the greatest duration.
unfoldable pub lock_age : World → LockFile → Option ℕ
lock_age w file = if leb file.modified w.now then some (w.now - file.modified) else none

abbrev pub is_live : World → Option ℕ → Bool
is_live w none = false
is_live w (some pid) = w.pid_is_alive pid

abbrev older : Option ℕ → ℕ → Bool
older none ttl = true
older (some age) ttl = ltb ttl age

-- A file that is not there any more counts as stale.
unfoldable pub is_stale_lock : World → ℕ → Option LockFile → Bool
is_stale_lock w ttl none = true
is_stale_lock w ttl (some file) =
    if is_live w (read_pid file) then false else older (lock_age w file) ttl

pub data Sweep (E : Type 0) : Type 0 where
  acquired : ℕ → Sweep E
  failed : E → Sweep E
  full : Sweep E

abbrev pub new_lock : World → LockFile
new_lock w = record { content = take w.wrote (lock_metadata w); modified = w.now }

-- A file that could not be created is checked, and removed if it is stale.
unfoldable pub clean_slot : ℕ → World → Others → ℕ → Locks → Locks
clean_slot slot w others ttl locks =
    let checked = others.before_check slot locks in
    if is_stale_lock w ttl (checked slot)
    then write_slot slot none (others.before_remove slot checked)
    else checked

module _ {E : Type 0} (open_error : ℕ → Option E) where
  -- The loop over the slots `slot` to `slot + left`.
  unfoldable pub sweep : ℕ → ℕ → World → Others → ℕ → Locks → Sweep E × Locks
  sweep zero slot w others ttl locks = (full, locks)
  sweep (suc left) slot w others ttl locks =
      let found = others.before_open slot locks in
      elim (open_error slot) [
        | some e ↦ (failed e, found)
        | none ↦ elim (found slot) [
          | none ↦ (acquired slot, write_slot slot (some (new_lock w)) found)
          | some file ↦ sweep left (suc slot) w others ttl (clean_slot slot w others ttl found)
        ]
      ]

  -- Rounds of sweeps, each with its world and what others do during it and before it.
  unfoldable pub acquire_loop : ℕ → ℕ → List (World × Others) → Locks → Sweep E × Locks
  acquire_loop max ttl [] locks = (full, locks)
  acquire_loop max ttl ((w, others) ∷ rounds) locks =
      let (result, left) = sweep max 0 w others ttl locks in
      elim result [
        | acquired slot ↦ (acquired slot, left)
        | failed e ↦ (failed e, left)
        | full ↦ acquire_loop max ttl rounds left
      ]

  -- No result is `Ok(None)`: there is no limit. `dir_error` is the error of `create_dir_all`.
  unfoldable pub acquire_permit :
      Option E → ℕ → ℕ → List (World × Others) → Locks → Option (Sweep E) × Locks
  acquire_permit dir_error max ttl rounds locks =
      if max == 0 then (none, locks) else elim dir_error [
        | some e ↦ (some (failed e), locks)
        | none ↦ let (result, left) = acquire_loop max ttl rounds locks in (some result, left)
      ]

pub record EmbedLimiterStatus : Type 0 where
  pub max_concurrent : ℕ
  pub in_use : ℕ
  pub stale_lock : Bool

unfoldable pub count_locks : ℕ → ℕ → World → ℕ → Locks → EmbedLimiterStatus → EmbedLimiterStatus
count_locks zero slot w ttl locks status = status
count_locks (suc left) slot w ttl locks status =
    count_locks left (suc slot) w ttl locks (elim (locks slot) [
      | none ↦ status
      | some file ↦ record status {
        in_use = status.in_use + 1;
        stale_lock = status.stale_lock || is_stale_lock w ttl (some file);
      }
    ])

unfoldable pub limiter_status : ℕ → World → ℕ → Locks → EmbedLimiterStatus
limiter_status max w ttl locks =
    if max == 0
    then record { max_concurrent = 0; in_use = 0; stale_lock = false }
    else count_locks max 0 w ttl locks
        (record { max_concurrent = max; in_use = 0; stale_lock = false })

-- Dropping a permit removes its file.
unfoldable pub drop_permit : ℕ → Locks → Locks
drop_permit slot locks = write_slot slot none locks
