-- ===== src/Snapshot/Gc/Sorted.antt =====
-- The order of `sort_newest`, and the entries that it puts first.
use mathlib.Core.List.{Mem, mem-cons, not-mem-nil, mem-cons_self, mem-cons_of_mem}
use mathlib.Core.Logic.Or
use mathlib.Core.Path.{subst}
use goodgrep.Prelude.{
  ℕ, zero, suc, ◌≤◌, ◌≡◌, refl, ap, String, Bool, true, false, ◌&&◌, List, [], ◌∷◌, arith, ◌⊎◌, inl,
  inr,
}
use goodgrep.Prelude.Tests.{leb, string_key, Bool-cases}
use goodgrep.Prelude.Lists.{length, contains, take, filter, All}
use goodgrep.Snapshot.Gc.{SnapshotEntry, insert_newest, sort_newest}

pub mem-insert_newest :
    (e x : SnapshotEntry) (xs : List SnapshotEntry)
    → (e ≡ x) ⊎ Mem e xs
    → Mem e (insert_newest x xs)
unfolding insert_newest
mem-insert_newest e x [] (inl same) = subst (λ y. Mem e (y ∷ [])) same mem-cons_self
mem-insert_newest e x [] (inr m) = absurd (not-mem-nil m)
mem-insert_newest e x (y ∷ ys) h = elim (Bool-cases (leb y.created_at x.created_at)) [
  | inl newer ↦ rw newer (front h)
  | inr older ↦ rw older (behind (mem-insert_newest e x ys) h)
]
  where
    front : (e ≡ x) ⊎ Mem e (y ∷ ys) → Mem e (x ∷ y ∷ ys)
    front (inl same) = subst (λ z. Mem e (z ∷ y ∷ ys)) same mem-cons_self
    front (inr m) = mem-cons_of_mem x m

    behind :
        ((e ≡ x) ⊎ Mem e ys → Mem e (insert_newest x ys))
        → (e ≡ x) ⊎ Mem e (y ∷ ys)
        → Mem e (y ∷ insert_newest x ys)
    behind rest (inl same) = mem-cons_of_mem y (rest (inl same))
    behind rest (inr m) =
        Or.elim (hlevel) (mem-cons.0 m)
          (λ same. subst (λ z. Mem e (z ∷ insert_newest x ys)) same mem-cons_self)
          (λ later. mem-cons_of_mem y (rest (inr later)))

pub mem-sort_newest :
    (e : SnapshotEntry) (xs : List SnapshotEntry) → Mem e xs → Mem e (sort_newest xs)
unfolding sort_newest
mem-sort_newest e [] m = absurd (not-mem-nil m)
mem-sort_newest e (x ∷ xs) m =
    Or.elim (hlevel) (mem-cons.0 m) (λ same. mem-insert_newest e x (sort_newest xs) (inl same))
      (λ later. mem-insert_newest e x (sort_newest xs) (inr (mem-sort_newest e xs later)))

-- How many entries pass a test does not depend on the order.
length-filter-insert_newest :
    (p : SnapshotEntry → Bool) (x : SnapshotEntry) (xs : List SnapshotEntry)
    → length (filter p (insert_newest x xs)) ≡ length (filter p (x ∷ xs))
unfolding insert_newest
length-filter-insert_newest p x [] = refl
length-filter-insert_newest p x (y ∷ ys) = ground (arith, length-filter-insert_newest p x ys)

pub length-filter-sort_newest :
    (p : SnapshotEntry → Bool) (xs : List SnapshotEntry)
    → length (filter p (sort_newest xs)) ≡ length (filter p xs)
unfolding sort_newest
length-filter-sort_newest p [] = refl
length-filter-sort_newest p (x ∷ xs) =
    ground (arith, length-filter-sort_newest p xs, length-filter-insert_newest p x (sort_newest xs))

-- The newest first.
pub Sorted : List SnapshotEntry → Type 0
Sorted [] = Unit
Sorted (x ∷ xs) = All (λ y. y.created_at ≤ x.created_at) xs × Sorted xs

All-insert_newest :
    (t : ℕ) (x : SnapshotEntry) (xs : List SnapshotEntry)
    → x.created_at ≤ t
    → All (λ y. y.created_at ≤ t) xs
    → All (λ y. y.created_at ≤ t) (insert_newest x xs)
unfolding insert_newest
All-insert_newest t x [] h a = (h, tt)
All-insert_newest t x (y ∷ ys) h a = ground (arith, All-insert_newest t x ys h a.1)

All-older :
    (s t : ℕ) (xs : List SnapshotEntry)
    → s ≤ t
    → All (λ y. y.created_at ≤ s) xs
    → All (λ y. y.created_at ≤ t) xs
All-older s t [] h a = tt
All-older s t (x ∷ xs) h a = (omega (arith, a.0), All-older s t xs h a.1)

insert_newest-Sorted :
    (x : SnapshotEntry) (xs : List SnapshotEntry) → Sorted xs → Sorted (insert_newest x xs)
unfolding insert_newest Sorted
insert_newest-Sorted x [] s = (tt, tt)
insert_newest-Sorted x (y ∷ ys) s = ground (
  arith,
  insert_newest-Sorted x ys s.1,
  All-insert_newest y.created_at x ys,
  All-older y.created_at x.created_at ys,
)

pub sort_newest-Sorted : (xs : List SnapshotEntry) → Sorted (sort_newest xs)
unfolding sort_newest Sorted
sort_newest-Sorted [] = tt
sort_newest-Sorted (x ∷ xs) = insert_newest-Sorted x (sort_newest xs) (sort_newest-Sorted xs)

-- In a sorted list, an entry that is not among the first `n` has `n` before it that are as new.
pub newer-take :
    (n : ℕ) (keep : List String) (e : SnapshotEntry) (xs : List SnapshotEntry)
    → Sorted xs
    → Mem e xs
    → contains keep e.snapshot_id ≡ false
    → All (λ f. contains keep f.snapshot_id ≡ true) (take n xs)
    → n ≤ length (filter (λ f. leb e.created_at f.created_at && contains keep f.snapshot_id) xs)
unfolding Sorted
newer-take zero keep e xs s m gone a = omega arith
newer-take (suc n) keep e [] s m gone a = absurd (not-mem-nil m)
newer-take (suc n) keep e (x ∷ xs) s m gone a =
    ground (arith, newer-take n keep e xs s.1 behind gone a.1, older xs s.0 behind)
  where
    behind : Mem e xs
    behind =
        Or.elim (hlevel) (mem-cons.0 m)
          (λ same. absurd (cc (ap (λ y. contains keep y.snapshot_id) same))) (λ later. later)

    older :
        (ys : List SnapshotEntry)
        → All (λ y. y.created_at ≤ x.created_at) ys
        → Mem e ys
        → leb e.created_at x.created_at ≡ true
    older [] b k = absurd (not-mem-nil k)
    older (y ∷ ys) b k =
        Or.elim (hlevel) (mem-cons.0 k) (λ same. ground (arith, b.0, ap (λ z. z.created_at) same))
          (older ys b.1)
