-- ===== src/Embed/Limiter/Held.antt =====
-- A permit, and the sweeps of other processes.
use goodgrep.Prelude.Lists.{length, take}
use goodgrep.Text.Decimal.{u32_max}
use goodgrep.Embed.Limiter.Metadata.{read_pid-lock_metadata}
use goodgrep.Prelude.{
  ℕ, zero, suc, List, [], ◌∷◌, ◌≤◌, ◌≡◌, ◌≢◌, refl, ap, sym, ◌∙◌, true, false, Option, some, arith,
  inl, inr,
}
use goodgrep.Prelude.Tests.{◌==◌, nat_key, Bool-cases, Option-cases}
use goodgrep.Embed.Limiter.{
  World, Others, Locks, LockFile, Sweep, acquired, write_slot, new_lock, clean_slot, sweep,
  is_stale_lock, is_live, read_pid, lock_metadata,
}
use goodgrep.Embed.Limiter.Sweeps.{
  Keeps, sweep_none, sweep_error, sweep_free, sweep_held, clean_fresh, clean_other,
}

take-length : (s : List ℕ) (n : ℕ) → length s ≤ n → take n s ≡ s
take-length [] zero h = refl
take-length [] (suc n) h = refl
take-length (c ∷ s) zero h = absurd (omega arith)
take-length (c ∷ s) (suc n) h = ap (λ r. c ∷ r) (take-length s n (omega (arith, h)))

module _ {E : Type 0} (open_error : ℕ → Option E) (w : World) (others : Others) (ttl : ℕ) where
  acquired_injective : (r : Sweep E) (i j : ℕ) → r ≡ acquired i → r ≡ acquired j → i ≡ j
  acquired_injective r i j h k = ground (arith, h, k)

  own_slot :
      (slot j : ℕ) (locks : Locks)
      → slot ≡ j
      → write_slot slot (some (new_lock w)) locks j ≡ some (new_lock w)
  own_slot slot j locks same = ground (arith, same)

  -- The slot of a permit has the file of its process.
  pub sweep_acquired :
      (left slot j : ℕ) (locks : Locks)
      → (sweep open_error left slot w others ttl locks).0 ≡ acquired j
      → (sweep open_error left slot w others ttl locks).1 j ≡ some (new_lock w)
  sweep_acquired zero slot j locks h =
      absurd (ground (arith, h, sweep_none open_error w others ttl slot locks))
  sweep_acquired (suc left) slot j locks h = elim (Option-cases (open_error slot)) [
    | inr (e, bad) ↦ absurd (
        ground
          (arith, ap (λ r. r.0) (sweep_error open_error w others ttl left slot locks e bad), h))
    | inl calm ↦ elim (Option-cases (others.before_open slot locks slot)) [
      | inl free ↦
          let step = sweep_free open_error w others ttl left slot locks calm free in
          ap (λ r. r.1 j) step
          ∙ own_slot slot j (others.before_open slot locks)
              (acquired_injective _ slot j (ap (λ r. r.0) step) h)
      | inr (file, held) ↦
          let step = sweep_held open_error w others ttl left slot locks file calm held in
          ap (λ r. r.1 j) step ∙ sweep_acquired left (suc slot) j _ (sym (ap (λ r. r.0) step) ∙ h)
    ]
  ]

  module _ (k : ℕ) (mine : LockFile) (live : is_live w (read_pid mine) ≡ true)
      (keeps : Keeps others (λ l. l k ≡ some mine)) where
    live_fresh : (o : Option LockFile) → o ≡ some mine → is_stale_lock w ttl o ≡ false
    unfolding is_stale_lock
    live_fresh o h = rw (h, live) refl

    -- Checking a slot leaves the file of a live process.
    clean_live :
        (slot : ℕ) (locks : Locks)
        → locks k ≡ some mine
        → clean_slot slot w others ttl locks k ≡ some mine
    clean_live slot locks own = elim (Bool-cases (k == slot)) [
      | inr other ↦ clean_other w others ttl slot locks (λ o. o ≡ some mine) k keeps other own
      | inl same ↦
          let checked = keeps.checks slot locks own in
          let here = ap (others.before_check slot locks) (sym ((nat_key.same_iff k slot).0 same)) in
          ap (λ l. l k) (clean_fresh w others ttl slot locks (live_fresh _ (here ∙ checked)))
          ∙ checked
    ]

    -- A sweep leaves that file, and gets another slot or none.
    pub sweep_live :
        (left slot : ℕ) (locks : Locks)
        → locks k ≡ some mine
        → ((sweep open_error left slot w others ttl locks).1 k ≡ some mine)
          × ((sweep open_error left slot w others ttl locks).0 ≢ acquired k)
    sweep_live zero slot locks own =
        let step = sweep_none open_error w others ttl slot locks in
        (ap (λ r. r.1 k) step ∙ own, λ got. ground (arith, got, ap (λ r. r.0) step))
    sweep_live (suc left) slot locks own =
        let found = keeps.opens slot locks own in
        elim (Option-cases (open_error slot)) [
          | inr (e, bad) ↦
              let step = sweep_error open_error w others ttl left slot locks e bad in
              (ap (λ r. r.1 k) step ∙ found, λ got. ground (arith, got, ap (λ r. r.0) step))
          | inl calm ↦ elim (Option-cases (others.before_open slot locks slot)) [
            | inl free ↦
                let step = sweep_free open_error w others ttl left slot locks calm free in
                let other : (k == slot) ≡ false = ground (
                  arith,
                  found,
                  free,
                  nat_key.same_iff k slot,
                  ap (others.before_open slot locks),
                ) in
                (
                  ap (λ r. r.1 k) step ∙ rw other found,
                  λ got.
                      ground (arith, other, acquired_injective _ slot k (ap (λ r. r.0) step) got),
                )
            | inr (file, held) ↦
                let step = sweep_held open_error w others ttl left slot locks file calm held in
                let (kept, none_got) = sweep_live left (suc slot) _ (clean_live slot _ found) in
                (ap (λ r. r.1 k) step ∙ kept, λ got. none_got (sym (ap (λ r. r.0) step) ∙ got))
          ]
        ]

-- A permit is respected: if the process `w` got the slot `j` in a sweep, with its metadata written in
-- full, then a later sweep of a process `v` that takes `w` to be alive leaves its lock file and does not
-- get the slot, if the processes besides `v` leave that file while `v` sweeps.
pub sweep_respects :
    {E : Type 0} (open_error : ℕ → Option E) (w v : World) (others later : Others) (ttl max j : ℕ)
    (locks : Locks)
    → (sweep open_error max 0 w others ttl locks).0 ≡ acquired j
    → length (lock_metadata w) ≤ w.wrote
    → w.process ≤ u32_max
    → v.pid_is_alive w.process ≡ true
    → Keeps later (λ l. l j ≡ some (new_lock w))
    → let before = (sweep open_error max 0 w others ttl locks).1 in
      let after = sweep open_error max 0 v later ttl before in
      (after.1 j ≡ before j) × (after.0 ≢ acquired j)
sweep_respects open_error w v others later ttl max j locks got whole small live keeps =
    let mine = sweep_acquired open_error w others ttl max 0 j locks got in
    let written = take-length (lock_metadata w) w.wrote whole in
    let owner =
      ap (λ s. read_pid (record { content = s; modified = w.now })) written
      ∙ read_pid-lock_metadata w w.now small in
    let (kept, not_got) =
      sweep_live open_error v later ttl j (new_lock w) (ap (is_live v) owner ∙ live) keeps max 0
        (sweep open_error max 0 w others ttl locks).1 mine in
    (kept ∙ sym mine, not_got)
