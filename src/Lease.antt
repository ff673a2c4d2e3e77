-- ===== src/Lease.antt =====
-- Tools/ggrep/src/lease.rs: the lease that lets one writer change a store. Each operation but the release
-- is one step on the lease file, as under the guard file that they take; the guard is not modelled. The
-- release takes no guard, and it reads and removes the file in two steps. The lease file is `none`
-- where it is missing or does not parse; writing it succeeds. Times are in milliseconds;
-- `to_rfc3339_opts(Secs)` keeps the seconds, and a heartbeat that does not parse is `none`; the time
-- since it is signed. Epochs are taken not to reach 2^64.
pub mod Alive
pub mod Alone
pub mod Attended
pub mod Examples
use goodgrep.Prelude.{
  ℕ, ◌+◌, ◌-◌, ◌*◌, ◌/◌, max, String, Bool, true, false, not, ◌&&◌, ◌||◌, List, [], ◌∷◌, Option,
  none, some,
}
use goodgrep.Prelude.Tests.{ltb, ◌==◌, nat_key, string_key, if◌then◌else◌}
use goodgrep.Prelude.Int.{sub_ℕ, ltb_ℤ, as_i64}
use goodgrep.Prelude.Results.{Result, ok, err}

pub record WriterLeaseRecord : Type 0 where
  pub schema_version : ℕ
  pub owner_id : String
  pub pid : ℕ
  pub hostname : String
  pub started_at : ℕ
  pub last_heartbeat_at : Option ℕ
  pub lease_epoch : ℕ
  pub lease_ttl_ms : ℕ
  pub staging_txn_id : Option String

pub data LeaseError : Type 0 where
  unreadable already_held ownership_lost : LeaseError

-- Who asks for the lease: the ids of the process and its configured time to live.
pub record Writer : Type 0 where
  pub owner_id : String
  pub pid : ℕ
  pub hostname : String
  pub lease_ttl_ms : ℕ

abbrev pub lease_schema_version : ℕ
lease_schema_version = 1

-- A time as it is written to the file.
abbrev pub to_secs : ℕ → ℕ
to_secs now = now / 1000 * 1000

pub new_record : Writer → ℕ → ℕ → WriterLeaseRecord
new_record w lease_epoch now = record {
  schema_version = lease_schema_version;
  owner_id = w.owner_id;
  pid = w.pid;
  hostname = w.hostname;
  started_at = to_secs now;
  last_heartbeat_at = some (to_secs now);
  lease_epoch = lease_epoch;
  lease_ttl_ms = w.lease_ttl_ms;
  staging_txn_id = none;
}

pub is_stale : WriterLeaseRecord → ℕ → Bool
is_stale lease now = elim lease.last_heartbeat_at [
  | none ↦ true
  | some last ↦ ltb_ℤ (as_i64 lease.lease_ttl_ms) (sub_ℕ now last)
]

-- Each operation gives the file that it leaves.
pub acquire : Writer → ℕ → Option WriterLeaseRecord → Result LeaseError WriterLeaseRecord
acquire w now none = ok (new_record w 1 now)
acquire w now (some lease) =
    if not (is_stale lease now)
    then err already_held
    else ok (new_record w (lease.lease_epoch + 1) now)

abbrev pub is_owner : String → ℕ → WriterLeaseRecord → Bool
is_owner owner_id lease_epoch lease = lease.owner_id == owner_id && lease.lease_epoch == lease_epoch

pub verify_lease_owner : String → ℕ → Option WriterLeaseRecord → Result LeaseError WriterLeaseRecord
verify_lease_owner owner_id lease_epoch none = err unreadable
verify_lease_owner owner_id lease_epoch (some lease) =
    if is_owner owner_id lease_epoch lease then ok lease else err ownership_lost

pub heartbeat_once : String → ℕ → ℕ → Option WriterLeaseRecord → Result LeaseError WriterLeaseRecord
heartbeat_once owner_id lease_epoch now none = err unreadable
heartbeat_once owner_id lease_epoch now (some lease) =
    if is_owner owner_id lease_epoch lease
    then ok (record lease { last_heartbeat_at = some (to_secs now) })
    else err ownership_lost

pub set_staging_txn_id :
    String → ℕ → Option String → Option WriterLeaseRecord → Result LeaseError WriterLeaseRecord
set_staging_txn_id owner_id lease_epoch staging_txn_id none = err unreadable
set_staging_txn_id owner_id lease_epoch staging_txn_id (some lease) =
    if is_owner owner_id lease_epoch lease
    then ok (record lease { staging_txn_id = staging_txn_id })
    else err ownership_lost

-- Whether a release finds its own lease in the file that it reads.
abbrev pub finds_own : String → ℕ → Option WriterLeaseRecord → Bool
finds_own owner_id lease_epoch none = false
finds_own owner_id lease_epoch (some lease) = is_owner owner_id lease_epoch lease

-- A release takes no guard: `read` is the file when it is read, `file` when it is removed.
pub release_lease :
    String → ℕ → Option WriterLeaseRecord → Option WriterLeaseRecord → Option WriterLeaseRecord
release_lease owner_id lease_epoch read file =
    if finds_own owner_id lease_epoch read then none else file

-- The pause between two heartbeats of a holder.
abbrev pub heartbeat_interval : ℕ → ℕ
heartbeat_interval lease_ttl_ms = max (lease_ttl_ms / 3) 250

-- What the writers of a store do to its lease file, one after the other. A release stands where it
-- removes the file, with the file that it read before, perhaps some events ago.
pub data Event : Type 0 where
  acquires : Writer → ℕ → Event
  heartbeats : String → ℕ → ℕ → Event
  stages : String → ℕ → Option String → Event
  releases : String → ℕ → Option WriterLeaseRecord → Event

-- An operation that fails leaves the file as it is.
abbrev pub written :
    Result LeaseError WriterLeaseRecord → Option WriterLeaseRecord → Option WriterLeaseRecord
written (ok lease) file = some lease
written (err e) file = file

pub step : Event → Option WriterLeaseRecord → Option WriterLeaseRecord
step (acquires w now) file = written (acquire w now file) file
step (heartbeats o e now) file = written (heartbeat_once o e now file) file
step (stages o e txn) file = written (set_staging_txn_id o e txn file) file
step (releases o e read) file = release_lease o e read file

pub run : List Event → Option WriterLeaseRecord → Option WriterLeaseRecord
run [] file = file
run (e ∷ es) file = run es (step e file)
