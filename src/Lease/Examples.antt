-- ===== src/Lease/Examples.antt =====
-- One writer holds the lease, another takes it over after ten seconds.
use Prim.Native.Nat.{◌^◌}
use goodgrep.Prelude.{
  ℕ, true, List, none, ◌+◌, ◌≤◌, ◌≡◌, refl, String, [], ◌∷◌, Option, some, arith,
}
use goodgrep.Prelude.Results.{ok, err}
use goodgrep.Lease.{
  WriterLeaseRecord, Writer, new_record, is_stale, acquire, verify_lease_owner, heartbeat_once,
  set_staging_txn_id, release_lease, run, acquires, heartbeats, stages, releases, Event,
  already_held, ownership_lost,
}
use goodgrep.Lease.Alive.{heartbeat_once-acquire}
use goodgrep.Lease.Alone.{acquire-fences, run-epoch}
use goodgrep.Lease.Attended.{run-attended}

abbrev first : Writer
first = record { owner_id = "one"; pid = 10; hostname = "h"; lease_ttl_ms = 5000 }

abbrev second : Writer
second = record { owner_id = "two"; pid = 20; hostname = "h"; lease_ttl_ms = 5000 }

abbrev lease : WriterLeaseRecord
lease = new_record first 1 0

abbrev taken : WriterLeaseRecord
taken = new_record second 2 10000

acquire-fences_example :
    (taken.lease_epoch ≡ lease.lease_epoch + 1)
    × (verify_lease_owner second.owner_id taken.lease_epoch (some taken) ≡ ok taken)
    × (verify_lease_owner lease.owner_id lease.lease_epoch (some taken) ≡ err ownership_lost)
    × ((later : ℕ)
        → heartbeat_once lease.owner_id lease.lease_epoch later (some taken) ≡ err ownership_lost)
    × ((txn : Option String)
        → set_staging_txn_id lease.owner_id lease.lease_epoch txn (some taken) ≡ err ownership_lost)
    × ((file : Option WriterLeaseRecord)
        → release_lease lease.owner_id lease.lease_epoch (some taken) file ≡ file)
unfolding acquire new_record is_stale
acquire-fences_example = acquire-fences second 10000 lease taken refl

abbrev events : List Event
events =
    acquires second 1500
    ∷ heartbeats "one" 1 1666
    ∷ stages "one" 1 (some "txn")
    ∷ releases "two" 1 (some lease)
    ∷ acquires second 3300
    ∷ []

run-attended_example :
    (last : WriterLeaseRecord) × (run events (some lease) ≡ some last)
    × (verify_lease_owner "one" 1 (run events (some lease)) ≡ ok last)
    × (last.lease_ttl_ms ≡ 5000)
unfolding acquire new_record
run-attended_example =
    run-attended first 0 none lease events (omega arith) (omega arith) refl
      (omega arith, (refl, (omega arith, tt)))

-- A time to live of 2^63 ms is negative as a signed number.
stale_at_once : is_stale (record lease { lease_ttl_ms = 2 ^ 63 }) 0 ≡ true
unfolding is_stale new_record
stale_at_once = refl

run-epoch_example :
    (last : WriterLeaseRecord) × (run
        (heartbeats "one" 1 900 ∷ acquires second 10000 ∷ [])
        (some lease)
      ≡ some last)
    × (lease.lease_epoch ≤ last.lease_epoch)
run-epoch_example =
    run-epoch lease (heartbeats "one" 1 900 ∷ acquires second 10000 ∷ []) (tt, (tt, tt))

abbrev beaten : WriterLeaseRecord
beaten = record lease { last_heartbeat_at = some 1000 }

heartbeat_once-acquire_example : acquire second 3000 (some beaten) ≡ err already_held
unfolding heartbeat_once new_record
heartbeat_once-acquire_example =
    heartbeat_once-acquire second lease beaten 1900 3000 refl (omega arith) (omega arith)
      (omega arith)
