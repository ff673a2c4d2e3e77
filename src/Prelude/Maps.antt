-- ===== src/Prelude/Maps.antt =====
-- `HashSet` and `HashMap` as lists and association lists, with their laws in conditional form.
use mathlib.Core.Path.{◌≡◌, refl}
use mathlib.Core.Bool.{◌||◌, true}
use mathlib.Core.List.{List, [], ◌∷◌}
use mathlib.Core.Option.{Option, none, some}
use native.Mathlib.Omega.{arith}
use goodgrep.Prelude.Tests.{Key, ◌==◌, if◌then◌else◌}
use goodgrep.Prelude.Lists.{contains}

module _ {ℓ} {K : Type ℓ} ⦃e : Key K⦄ where
  -- `HashSet::insert`
  abbrev pub add : K → List K → List K
  add k ks = if contains ks k then ks else k ∷ ks

  pub contains-add : (k j : K) (ks : List K) → contains (add k ks) j ≡ (k == j || contains ks j)
  contains-add k j ks = ground (arith, e.same_iff k j)

  -- `HashSet::extend`
  abbrev pub add_all : List K → List K → List K
  add_all [] acc = acc
  add_all (k ∷ ks) acc = add_all ks (add k acc)

  pub contains-add_all :
      (ks acc : List K) (j : K) → contains (add_all ks acc) j ≡ (contains ks j || contains acc j)
  contains-add_all [] acc j = refl
  contains-add_all (k ∷ ks) acc j =
      ground (arith, contains-add_all ks (add k acc) j, contains-add k j acc)

module _ {ℓ κ} {K : Type ℓ} {V : Type κ} ⦃e : Key K⦄ where
  unfoldable pub lookup : K → List (K × V) → Option V
  lookup k [] = none
  lookup k (entry ∷ rest) = if entry.0 == k then some entry.1 else lookup k rest

  unfoldable pub remove : K → List (K × V) → List (K × V)
  remove k [] = []
  remove k (entry ∷ rest) = if entry.0 == k then remove k rest else entry ∷ remove k rest

  unfoldable pub insert : K → V → List (K × V) → List (K × V)
  insert k v m = (k, v) ∷ remove k m

  pub lookup-nil : (k : K) → lookup k [] ≡ none
  unfolding lookup
  lookup-nil k = refl

  pub lookup-remove :
      (k j : K) (m : List (K × V)) → lookup j (remove k m) ≡ (if k == j then none else lookup j m)
  unfolding lookup remove
  lookup-remove k j [] = ground arith
  lookup-remove k j (entry ∷ rest) =
      ground
        (arith, e.same_iff k j, e.same_iff entry.0 k, e.same_iff entry.0 j, lookup-remove k j rest)

  pub lookup-insert :
      (k j : K) (v : V) (m : List (K × V))
      → lookup j (insert k v m) ≡ (if k == j then some v else lookup j m)
  unfolding lookup insert
  lookup-insert k j v m = ground (arith, lookup-remove k j m)

  pub insert_all : List K → V → List (K × V) → List (K × V)
  insert_all [] v m = m
  insert_all (k ∷ ks) v m = insert k v (insert_all ks v m)

  pub remove_all : List K → List (K × V) → List (K × V)
  remove_all [] m = m
  remove_all (k ∷ ks) m = remove k (remove_all ks m)

  pub lookup-insert_all :
      (ks : List K) (v : V) (m : List (K × V)) (j : K)
      → lookup j (insert_all ks v m) ≡ (if contains ks j then some v else lookup j m)
  unfolding insert_all
  lookup-insert_all [] v m j = refl
  lookup-insert_all (k ∷ ks) v m j =
      ground (arith, lookup-insert k j v (insert_all ks v m), lookup-insert_all ks v m j)

  pub lookup-remove_all :
      (ks : List K) (m : List (K × V)) (j : K)
      → lookup j (remove_all ks m) ≡ (if contains ks j then none else lookup j m)
  unfolding remove_all
  lookup-remove_all [] m j = refl
  lookup-remove_all (k ∷ ks) m j =
      ground (arith, lookup-remove k j (remove_all ks m), lookup-remove_all ks m j)

  abbrev pub keys : List (K × V) → List K
  keys [] = []
  keys ((k, v) ∷ m) = k ∷ keys m

  pub contains-keys :
      (k : K) (v : V) (m : List (K × V)) → lookup k m ≡ some v → contains (keys m) k ≡ true
  unfolding lookup
  contains-keys k v [] h = cc
  contains-keys k v ((j, w) ∷ m) h = ground (arith, contains-keys k v m)
