-- ===== src/Lease/Alone.antt =====
-- Former holders, and epochs.
use goodgrep.Prelude.{
  ℕ, ◌+◌, ◌≤◌, ◌≡◌, refl, ap, ◌∙◌, String, List, [], ◌∷◌, Option, some, arith, inl, inr,
}
use goodgrep.Prelude.Tests.{string_key, nat_key, Bool-cases}
use goodgrep.Prelude.Lists.{All}
use goodgrep.Prelude.Results.{ok, err}
use goodgrep.Lease.{
  WriterLeaseRecord, Writer, Event, is_stale, acquire, heartbeat_once, set_staging_txn_id,
  verify_lease_owner, release_lease, is_owner, step, run, new_record, to_secs, ownership_lost,
  acquires, heartbeats, stages, releases,
}

-- A writer that takes a lease over shuts its former holder out: it gets an epoch of one more, and the
-- holder's checks, heartbeats and staging fail, and its release, if it reads the new lease, leaves the
-- file as it is, whatever that has become.
pub acquire-fences :
    (w : Writer) (now : ℕ) (lease taken : WriterLeaseRecord)
    → acquire w now (some lease) ≡ ok taken
    → (taken.lease_epoch ≡ lease.lease_epoch + 1)
      × (verify_lease_owner w.owner_id taken.lease_epoch (some taken) ≡ ok taken)
      × (verify_lease_owner lease.owner_id lease.lease_epoch (some taken) ≡ err ownership_lost)
      × ((later : ℕ)
          → heartbeat_once lease.owner_id lease.lease_epoch later (some taken) ≡ err ownership_lost)
      × ((txn : Option String)
          → set_staging_txn_id lease.owner_id lease.lease_epoch txn (some taken)
            ≡ err ownership_lost)
      × ((file : Option WriterLeaseRecord)
          → release_lease lease.owner_id lease.lease_epoch (some taken) file ≡ file)
unfolding acquire verify_lease_owner heartbeat_once set_staging_txn_id release_lease new_record
acquire-fences w now lease taken h = (
  ground arith,
  ground (arith, string_key.same_iff taken.owner_id w.owner_id),
  ground arith,
  λ later. ground arith,
  λ txn. ground arith,
  λ file. ground arith,
)

abbrev pub NotRelease : Event → Type 0
NotRelease (releases o e read) = ⊥
NotRelease _ = Unit

step-epoch :
    (lease : WriterLeaseRecord) (e : Event)
    → NotRelease e
    → (next : WriterLeaseRecord) × (step e (some lease) ≡ some next)
      × (lease.lease_epoch ≤ next.lease_epoch)
unfolding step acquire heartbeat_once set_staging_txn_id new_record
step-epoch lease (acquires w now) n = elim (Bool-cases (is_stale lease now)) [
  | inl stale ↦ (new_record w (lease.lease_epoch + 1) now, ground (arith, stale), omega arith)
  | inr fresh ↦ (lease, ground (arith, fresh), omega arith)
]
step-epoch lease (heartbeats o e now) n = elim (Bool-cases (is_owner o e lease)) [
  | inl own ↦
      (record lease { last_heartbeat_at = some (to_secs now) }, ground (arith, own), omega arith)
  | inr other ↦ (lease, ground (arith, other), omega arith)
]
step-epoch lease (stages o e txn) n = elim (Bool-cases (is_owner o e lease)) [
  | inl own ↦ (record lease { staging_txn_id = txn }, ground (arith, own), omega arith)
  | inr other ↦ (lease, ground (arith, other), omega arith)
]
step-epoch lease (releases o e read) n = absurd n

-- Without a release, a store that has a lease file keeps one, and its epoch never falls.
pub run-epoch :
    (lease : WriterLeaseRecord) (es : List Event)
    → All NotRelease es
    → (last : WriterLeaseRecord) × (run es (some lease) ≡ some last)
      × (lease.lease_epoch ≤ last.lease_epoch)
unfolding run
run-epoch lease [] a = (lease, refl, omega arith)
run-epoch lease (e ∷ es) a =
    let (next, stepped, more) = step-epoch lease e a.0 in
    let (last, ran, rest) = run-epoch next es a.1 in (last, ap (run es) stepped ∙ ran, omega arith)
