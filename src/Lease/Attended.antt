-- ===== src/Lease/Attended.antt =====
-- A writer that keeps its lease by heartbeats, whatever the others do.
use Prim.Native.Nat.{◌^◌}
use goodgrep.Prelude.{
  ◌<◌, ◌&&◌, ℕ, ◌+◌, ◌≤◌, ◌≡◌, refl, ap, ◌∙◌, String, false, List, [], ◌∷◌, Option, none, some,
  arith, inl, inr,
}
use goodgrep.Prelude.Tests.{◌==◌, if◌then◌else◌, string_key, nat_key, Bool-cases}
use goodgrep.Prelude.Results.{ok}
use goodgrep.Lease.{
  WriterLeaseRecord, Writer, Event, finds_own, heartbeat_interval, is_stale, acquire,
  heartbeat_once, set_staging_txn_id, verify_lease_owner, release_lease, is_owner, step, run,
  new_record, to_secs, acquires, heartbeats, stages, releases,
}

-- The holder attends to its lease, of which the last heartbeat was at `beat`: whenever some writer
-- asks for the lease, that is no longer ago than the pause between two heartbeats, and whoever
-- releases did not find its own lease when it read the file. Heartbeats and staging are free.
abbrev pub Attends : String → ℕ → ℕ → ℕ → List Event → Type 0
Attends owner_id lease_epoch ttl beat [] = Unit
Attends owner_id lease_epoch ttl beat (acquires w now ∷ es) =
    (now ≤ beat + heartbeat_interval ttl) × Attends owner_id lease_epoch ttl beat es
Attends owner_id lease_epoch ttl beat (heartbeats o e now ∷ es) =
    Attends owner_id lease_epoch ttl (if o == owner_id && e == lease_epoch then now else beat) es
Attends owner_id lease_epoch ttl beat (stages o e txn ∷ es) =
    Attends owner_id lease_epoch ttl beat es
Attends owner_id lease_epoch ttl beat (releases o e read ∷ es) =
    (finds_own o e read ≡ false) × Attends owner_id lease_epoch ttl beat es

-- The lease file is the holder's, with its last heartbeat at `beat`.
record Held (owner_id : String) (lease_epoch ttl beat : ℕ) (file : Option WriterLeaseRecord)
    : Type 0 where
  held : WriterLeaseRecord
  is_file : file ≡ some held
  owner : held.owner_id ≡ owner_id
  epoch : held.lease_epoch ≡ lease_epoch
  lives : held.lease_ttl_ms ≡ ttl
  last_beat : held.last_heartbeat_at ≡ some (to_secs beat)

-- A writer that gets the lease holds it.
acquire-Held :
    (w : Writer) (start : ℕ) (file : Option WriterLeaseRecord) (lease : WriterLeaseRecord)
    → acquire w start file ≡ ok lease
    → Held w.owner_id lease.lease_epoch w.lease_ttl_ms start (some lease)
unfolding acquire new_record
acquire-Held w start none lease got = record {
  held = lease;
  is_file = refl;
  owner = ground (arith, got);
  epoch = refl;
  lives = ground (arith, got);
  last_beat = ground (arith, got);
}
acquire-Held w start (some old) lease got = record {
  held = lease;
  is_file = refl;
  owner = ground (arith, got);
  epoch = refl;
  lives = ground (arith, got);
  last_beat = ground (arith, got);
}

own_verified :
    (owner_id : String) (lease_epoch : ℕ) (file : Option WriterLeaseRecord)
    (held : WriterLeaseRecord)
    → file ≡ some held
    → held.owner_id ≡ owner_id
    → held.lease_epoch ≡ lease_epoch
    → verify_lease_owner owner_id lease_epoch file ≡ ok held
unfolding verify_lease_owner
own_verified owner_id lease_epoch file held same owner epoch =
    ground (arith, same, owner, epoch, string_key.same_iff held.owner_id owner_id)

module _ (owner_id : String) (lease_epoch ttl : ℕ) (long : 1500 ≤ ttl) (short : ttl < 2 ^ 63) where
  abbrev HeldAt : ℕ → Option WriterLeaseRecord → Type 0
  HeldAt beat file = Held owner_id lease_epoch ttl beat file

  acquire_kept :
      (w : Writer) (now beat : ℕ) (held : WriterLeaseRecord)
      → now ≤ beat + heartbeat_interval ttl
      → held.lease_ttl_ms ≡ ttl
      → held.last_heartbeat_at ≡ some (to_secs beat)
      → step (acquires w now) (some held) ≡ some held
  unfolding step acquire is_stale
  acquire_kept w now beat held soon lives last_beat = ground (arith, lives, last_beat)

  acquire-HeldAt :
      (w : Writer) (now beat : ℕ) (file : Option WriterLeaseRecord)
      → now ≤ beat + heartbeat_interval ttl
      → HeldAt beat file
      → HeldAt beat (step (acquires w now) file)
  acquire-HeldAt w now beat file soon i = record {
    held = i.held;
    is_file =
        ap (step (acquires w now)) i.is_file
        ∙ acquire_kept w now beat i.held soon i.lives i.last_beat;
    owner = i.owner;
    epoch = i.epoch;
    lives = i.lives;
    last_beat = i.last_beat;
  }

  heartbeat-HeldAt :
      (o : String) (e now beat : ℕ) (file : Option WriterLeaseRecord)
      → HeldAt beat file
      → HeldAt
          (if o == owner_id && e == lease_epoch then now else beat)
          (step (heartbeats o e now) file)
  unfolding step heartbeat_once
  heartbeat-HeldAt o e now beat file i = elim (Bool-cases (is_owner o e i.held)) [
    | inl own ↦ record {
      held = record i.held { last_heartbeat_at = some (to_secs now) };
      is_file = ground (arith, i.is_file, own);
      owner = i.owner;
      epoch = i.epoch;
      lives = i.lives;
      last_beat = ground (
        arith,
        own,
        i.owner,
        i.epoch,
        string_key.same_iff i.held.owner_id o,
        string_key.same_iff o owner_id,
      );
    }
    | inr other ↦ record {
      held = i.held;
      is_file = ground (arith, i.is_file, other);
      owner = i.owner;
      epoch = i.epoch;
      lives = i.lives;
      last_beat = ground (
        arith,
        other,
        i.owner,
        i.epoch,
        i.last_beat,
        string_key.same_iff i.held.owner_id o,
        string_key.same_iff o owner_id,
      );
    }
  ]

  stage-HeldAt :
      (o : String) (e beat : ℕ) (txn : Option String) (file : Option WriterLeaseRecord)
      → HeldAt beat file
      → HeldAt beat (step (stages o e txn) file)
  unfolding step set_staging_txn_id
  stage-HeldAt o e beat txn file i = elim (Bool-cases (is_owner o e i.held)) [
    | inl own ↦ record {
      held = record i.held { staging_txn_id = txn };
      is_file = ground (arith, i.is_file, own);
      owner = i.owner;
      epoch = i.epoch;
      lives = i.lives;
      last_beat = i.last_beat;
    }
    | inr other ↦ record {
      held = i.held;
      is_file = ground (arith, i.is_file, other);
      owner = i.owner;
      epoch = i.epoch;
      lives = i.lives;
      last_beat = i.last_beat;
    }
  ]

  release-HeldAt :
      (o : String) (e beat : ℕ) (read file : Option WriterLeaseRecord)
      → finds_own o e read ≡ false
      → HeldAt beat file
      → HeldAt beat (step (releases o e read) file)
  unfolding step release_lease
  release-HeldAt o e beat read file other i = rw other i

  run-HeldAt :
      (beat : ℕ) (es : List Event) (file : Option WriterLeaseRecord)
      → Attends owner_id lease_epoch ttl beat es
      → HeldAt beat file
      → (last : ℕ) × HeldAt last (run es file)
  unfolding run
  run-HeldAt beat [] file a i = (beat, i)
  run-HeldAt beat (acquires w now ∷ es) file a i =
      run-HeldAt beat es (step (acquires w now) file) a.1 (acquire-HeldAt w now beat file a.0 i)
  run-HeldAt beat (heartbeats o e now ∷ es) file a i =
      run-HeldAt (if o == owner_id && e == lease_epoch then now else beat) es
        (step (heartbeats o e now) file) a (heartbeat-HeldAt o e now beat file i)
  run-HeldAt beat (stages o e txn ∷ es) file a i =
      run-HeldAt beat es (step (stages o e txn) file) a (stage-HeldAt o e beat txn file i)
  run-HeldAt beat (releases o e read ∷ es) file a i =
      run-HeldAt beat es (step (releases o e read) file) a.1
        (release-HeldAt o e beat read file a.0 i)

-- A writer keeps the lease that it got at the time `start`, with a time to live of at least 1500 ms and
-- below 2^63 ms, through every sequence of events of any writers in which, whenever a writer asks for
-- the lease, the holder's last heartbeat is no longer ago than the pause between two heartbeats, and in
-- which no release goes on that found its own lease in the file: the check of the owner then
-- succeeds on the file, and its time to live is the same.
pub run-attended :
    (w : Writer) (start : ℕ) (file : Option WriterLeaseRecord) (lease : WriterLeaseRecord)
    (es : List Event)
    → 1500 ≤ w.lease_ttl_ms
    → w.lease_ttl_ms < 2 ^ 63
    → acquire w start file ≡ ok lease
    → Attends w.owner_id lease.lease_epoch w.lease_ttl_ms start es
    → (last : WriterLeaseRecord) × (run es (some lease) ≡ some last)
      × (verify_lease_owner w.owner_id lease.lease_epoch (run es (some lease)) ≡ ok last)
      × (last.lease_ttl_ms ≡ w.lease_ttl_ms)
run-attended w start file lease es long short got a =
    let (beat, i) =
      run-HeldAt w.owner_id lease.lease_epoch w.lease_ttl_ms long short start es (some lease) a
        (acquire-Held w start file lease got) in
    (i.held, i.is_file, own_verified _ _ _ i.held i.is_file i.owner i.epoch, i.lives)
