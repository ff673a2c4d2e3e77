-- ===== src/Embed/Limiter/Permits.antt =====
-- Permits: who gets one.
use goodgrep.Prelude.{
  ℕ, zero, suc, ◌+◌, ◌≤◌, ◌<◌, ◌≡◌, ◌⊎◌, refl, ap, sym, subst, ◌∙◌, true, false, List, ◌∷◌, Option,
  none, some, arith, inl, inr,
}
use goodgrep.Prelude.Tests.{◌==◌, nat_key, Bool-cases, Option-cases}
use goodgrep.Embed.Limiter.{
  World, Others, Locks, Sweep, acquired, full, sweep, acquire_loop, acquire_permit, is_stale_lock,
}
use goodgrep.Embed.Limiter.Sweeps.{
  Keeps, sweep_none, sweep_free, sweep_held, clean_other, clean_own,
}

module _ {E : Type 0} (open_error : ℕ → Option E) (calm : (slot : ℕ) → open_error slot ≡ none) where
  abbrev Taken : ℕ → Sweep E × Locks → Type 0
  Taken bound r = (j : ℕ) × (r.0 ≡ acquired j) × (j < bound)

  -- How a sweep ends: with a slot, or with the slot `k` free.
  abbrev Ends : ℕ → ℕ → Sweep E × Locks → Type 0
  Ends bound k r = Taken bound r ⊎ ((r.0 ≡ full) × (r.1 k ≡ none))

  module _ (w : World) (others : Others) (ttl bound k : ℕ)
      (free_kept : Keeps others (λ l. l k ≡ none)) where
    -- Behind the slot it stays free.
    sweep_behind :
        (left slot : ℕ) (locks : Locks)
        → slot + left ≡ bound
        → k < slot
        → locks k ≡ none
        → Ends bound k (sweep open_error left slot w others ttl locks)
    sweep_behind zero slot locks h past free =
        subst (Ends bound k) (sym (sweep_none open_error w others ttl slot locks))
          (inr (refl, free))
    sweep_behind (suc left) slot locks h past free =
        elim (Option-cases (others.before_open slot locks slot)) [
          | inl here ↦
              subst (Ends bound k)
                (sym (sweep_free open_error w others ttl left slot locks (calm slot) here))
                (inl (slot, refl, omega arith))
          | inr (file, held) ↦
              subst (Ends bound k)
                (sym (sweep_held open_error w others ttl left slot locks file (calm slot) held))
                (sweep_behind left (suc slot) _ (omega arith) (omega arith) (
                  clean_other w others ttl slot _ (λ o. o ≡ none) k free_kept (ground arith)
                    (free_kept.opens slot locks free)))
        ]

    -- A sweep over a stale slot ends with a slot, or it leaves that slot free.
    sweep_opens :
        Keeps others (λ l. is_stale_lock w ttl (l k) ≡ true)
        → k < bound
        → (left slot : ℕ) (locks : Locks) → slot + left ≡ bound
        → slot ≤ k
        → is_stale_lock w ttl (locks k) ≡ true
        → Ends bound k (sweep open_error left slot w others ttl locks)
    sweep_opens keeps below zero slot locks h from stale = absurd (omega arith)
    sweep_opens keeps below (suc left) slot locks h from stale =
        let found = others.before_open slot locks in
        let still = keeps.opens slot locks stale in
        elim (Option-cases (others.before_open slot locks slot)) [
          | inl here ↦
              subst (Ends bound k)
                (sym (sweep_free open_error w others ttl left slot locks (calm slot) here))
                (inl (slot, refl, omega arith))
          | inr (file, held) ↦
              subst (Ends bound k)
                (sym (sweep_held open_error w others ttl left slot locks file (calm slot) held))
                (elim (Bool-cases (k == slot)) [
                  | inl same ↦
                      let here = (nat_key.same_iff k slot).0 same in
                      sweep_behind left (suc slot) _ (omega arith) (omega (arith, here)) (
                        clean_own w others ttl slot found k same (
                          subst (λ i. is_stale_lock w ttl (others.before_check slot found i) ≡ true)
                            here (keeps.checks slot found still)))
                  | inr other ↦
                      sweep_opens keeps below left (suc slot) _ (omega arith)
                        (ground (arith, other))
                        (clean_other w others ttl slot found (λ o. is_stale_lock w ttl o ≡ true) k
                          keeps other still)
                ])
        ]

    -- A sweep over a free slot ends with a slot.
    sweep_finds :
        k < bound
        → (left slot : ℕ) (locks : Locks) → slot + left ≡ bound
        → slot ≤ k
        → locks k ≡ none
        → Taken bound (sweep open_error left slot w others ttl locks)
    sweep_finds below zero slot locks h from free = absurd (omega arith)
    sweep_finds below (suc left) slot locks h from free =
        let still = free_kept.opens slot locks free in
        elim (Option-cases (others.before_open slot locks slot)) [
          | inl here ↦
              subst (Taken bound)
                (sym (sweep_free open_error w others ttl left slot locks (calm slot) here))
                (slot, refl, omega arith)
          | inr (file, held) ↦
              let other : (k == slot) ≡ false =
                ground (
                  arith,
                  held,
                  still,
                  nat_key.same_iff k slot,
                  ap (others.before_open slot locks),
                ) in
              subst (Taken bound)
                (sym (sweep_held open_error w others ttl left slot locks file (calm slot) held))
                (sweep_finds below left (suc slot) _ (omega arith) (ground (arith, other))
                  (clean_other w others ttl slot _ (λ o. o ≡ none) k free_kept other still))
        ]

  acquire_loop_now :
      (max ttl j : ℕ) (w : World) (others : Others) (rounds : List (World × Others)) (locks : Locks)
      → (sweep open_error max 0 w others ttl locks).0 ≡ acquired j
      → (acquire_loop open_error max ttl ((w, others) ∷ rounds) locks).0 ≡ acquired j
  unfolding acquire_loop
  acquire_loop_now max ttl j w others rounds locks h = ground (arith, h)

  acquire_loop_later :
      (max ttl : ℕ) (w : World) (others : Others) (rounds : List (World × Others)) (locks : Locks)
      → (sweep open_error max 0 w others ttl locks).0 ≡ full
      → acquire_loop open_error max ttl ((w, others) ∷ rounds) locks
        ≡ acquire_loop open_error max ttl rounds (sweep open_error max 0 w others ttl locks).1
  unfolding acquire_loop
  acquire_loop_later max ttl w others rounds locks h = ground (arith, h)

  acquire_permit_enters :
      (max ttl : ℕ) (rounds : List (World × Others)) (locks : Locks)
      → 0 < max
      → (acquire_permit open_error none max ttl rounds locks).0
        ≡ some (acquire_loop open_error max ttl rounds locks).0
  unfolding acquire_permit
  acquire_permit_enters max ttl rounds locks h = ground arith

  loop_acquired :
      (max ttl slot : ℕ) (w v : World) (others meanwhile : Others) (rounds : List (World × Others))
      (locks : Locks)
      → slot < max
      → is_stale_lock w ttl (locks slot) ≡ true
      → Keeps others (λ l. is_stale_lock w ttl (l slot) ≡ true)
      → Keeps others (λ l. l slot ≡ none)
      → Keeps meanwhile (λ l. l slot ≡ none)
      → (j : ℕ) × (j < max)
        × ((acquire_loop open_error max ttl ((w, others) ∷ (v, meanwhile) ∷ rounds) locks).0
            ≡ acquired j)
  loop_acquired max ttl slot w v others meanwhile rounds locks h stale keeps free_kept later =
      elim (sweep_opens w others ttl max slot free_kept keeps h max 0 locks (omega arith)
        (omega arith) stale) [
          | inl (j, found, below) ↦ (j, below, acquire_loop_now max ttl j w others _ locks found)
          | inr (ended, gone) ↦
              let left = (sweep open_error max 0 w others ttl locks).1 in
              let (j, found, below) =
                sweep_finds v meanwhile ttl max slot later h max 0 left (omega arith) (omega arith)
                  gone in
              (
                j,
                below,
                ap (λ r. r.0) (acquire_loop_later max ttl w others _ locks ended)
                    ∙ acquire_loop_now max ttl j v meanwhile rounds left found,
              )
        ]

  -- A waiting process gets a permit in two rounds, if no file fails to open and if some slot is free or
  -- stale before the first round and stays so, whatever the other processes do otherwise: during the
  -- first round they leave the slot free or stale, and they do not take it once it is free, in the
  -- first and in the second round. Further rounds do not matter.
  pub acquire_permit-acquired :
      (max ttl slot : ℕ) (w v : World) (others meanwhile : Others) (rounds : List (World × Others))
      (locks : Locks)
      → slot < max
      → is_stale_lock w ttl (locks slot) ≡ true
      → Keeps others (λ l. is_stale_lock w ttl (l slot) ≡ true)
      → Keeps others (λ l. l slot ≡ none)
      → Keeps meanwhile (λ l. l slot ≡ none)
      → (j : ℕ) × (j < max)
        × ((acquire_permit open_error none max ttl ((w, others) ∷ (v, meanwhile) ∷ rounds) locks).0
            ≡ some (acquired j))
  acquire_permit-acquired max ttl slot w v others meanwhile rounds locks h stale keeps free later =
      let (j, below, found) =
        loop_acquired max ttl slot w v others meanwhile rounds locks h stale keeps free later in
      (j, below, acquire_permit_enters max ttl _ locks (omega arith) ∙ ap some found)
