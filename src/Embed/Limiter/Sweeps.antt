-- ===== src/Embed/Limiter/Sweeps.antt =====
-- The steps of a sweep over the slots.
use goodgrep.Prelude.{ℕ, suc, ◌≡◌, refl, ap, ◌∙◌, true, false, Option, none, some, arith, inl, inr}
use goodgrep.Prelude.Tests.{◌==◌, nat_key, Bool-cases}
use goodgrep.Embed.Limiter.{
  World, Others, Locks, LockFile, acquired, failed, full, write_slot, new_lock, clean_slot, sweep,
  is_stale_lock,
}

-- Other processes keep a property of the lock files.
pub record Keeps {κ} (others : Others) (Q : Locks → Type κ) : Type κ where
  pub opens : (slot : ℕ) (locks : Locks) → Q locks → Q (others.before_open slot locks)
  pub checks : (slot : ℕ) (locks : Locks) → Q locks → Q (others.before_check slot locks)
  pub removes : (slot : ℕ) (locks : Locks) → Q locks → Q (others.before_remove slot locks)

module _ {E : Type 0} (open_error : ℕ → Option E) (w : World) (others : Others) (ttl : ℕ) where
  pub sweep_none :
      (slot : ℕ) (locks : Locks) → sweep open_error 0 slot w others ttl locks ≡ (full, locks)
  unfolding sweep
  sweep_none slot locks = refl

  module _ (left slot : ℕ) (locks : Locks) where
    pub sweep_error :
        (e : E)
        → open_error slot ≡ some e
        → sweep open_error (suc left) slot w others ttl locks
          ≡ (failed e, others.before_open slot locks)
    unfolding sweep
    sweep_error e h = ground (arith, h)

    pub sweep_free :
        open_error slot ≡ none
        → others.before_open slot locks slot ≡ none
        → sweep open_error (suc left) slot w others ttl locks
          ≡ (acquired slot, write_slot slot (some (new_lock w)) (others.before_open slot locks))
    unfolding sweep
    sweep_free calm free = ground (arith, calm, free)

    pub sweep_held :
        (file : LockFile)
        → open_error slot ≡ none
        → others.before_open slot locks slot ≡ some file
        → sweep open_error (suc left) slot w others ttl locks
          ≡ sweep open_error left
              (suc slot)
              w
              others
              ttl
              (clean_slot slot w others ttl (others.before_open slot locks))
    unfolding sweep
    sweep_held file calm held = ground (arith, calm, held)

module _ (w : World) (others : Others) (ttl slot : ℕ) (locks : Locks) where
  pub clean_stale :
      is_stale_lock w ttl (others.before_check slot locks slot) ≡ true
      → clean_slot slot w others ttl locks
        ≡ write_slot slot none (others.before_remove slot (others.before_check slot locks))
  unfolding clean_slot
  clean_stale stale = rw stale refl

  pub clean_fresh :
      is_stale_lock w ttl (others.before_check slot locks slot) ≡ false
      → clean_slot slot w others ttl locks ≡ others.before_check slot locks
  unfolding clean_slot
  clean_fresh fresh = rw fresh refl

  -- Another slot keeps what the others keep of it.
  pub clean_other {κ} :
      (Q : Option LockFile → Type κ) (k : ℕ)
      → Keeps others (λ l. Q (l k))
      → (k == slot) ≡ false
      → Q (locks k)
      → Q (clean_slot slot w others ttl locks k)
  clean_other Q k keeps other h =
      let checked = keeps.checks slot locks h in
      elim (Bool-cases (is_stale_lock w ttl (others.before_check slot locks slot))) [
        | inl stale ↦ rw (clean_stale stale, other) (keeps.removes slot _ checked)
        | inr fresh ↦ rw (clean_fresh fresh) checked
      ]

  -- A slot whose file is stale is free.
  pub clean_own :
      (k : ℕ)
      → (k == slot) ≡ true
      → is_stale_lock w ttl (others.before_check slot locks slot) ≡ true
      → clean_slot slot w others ttl locks k ≡ none
  clean_own k same stale = ap (λ l. l k) (clean_stale stale) ∙ rw same refl
