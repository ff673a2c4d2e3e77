-- ===== src/Search/Profile/Select/Fill.antt =====
-- Filling the slots that the buckets leave.
use mathlib.Core.Path.{subst}
use goodgrep.Prelude.{ℕ, ◌<◌, ◌≡◌, sym, inl, inr, String, true, false, List, [], ◌∷◌, ◌++◌, arith}
use goodgrep.Prelude.Tests.{ltb, leb, string_key, nat_key, pair_key, pair_same_iff, Bool-cases}
use goodgrep.Prelude.Lists.{length, contains, All, take_all}
use goodgrep.Types.{SearchResult}
use goodgrep.Search.Profile.Select.{Picked, key, take_allowed, take_rest, fill_up}
use goodgrep.Search.Profile.Select.Grows.{Grows, stop, push, take_allowed-Grows, take_rest-Grows}
use goodgrep.Search.Profile.Select.Chosen.{Chosen, Grows-Chosen}

module _ {F : Type 0} where
  -- Every key of `rs` stands in the record.
  abbrev pub Covers : Picked → List (SearchResult F) → Type 0
  Covers p rs = All (λ r. contains p.selected_keys (key r) ≡ true) rs

  Grows-contains :
      (P : SearchResult F → Type 0) (limit : ℕ) (k : String × ℕ) {last : List (SearchResult F)}
      {end : Picked} {out : List (SearchResult F)} {p : Picked}
      → Grows P limit last end out p
      → contains p.selected_keys k ≡ true
      → contains end.selected_keys k ≡ true
  Grows-contains P limit k stop h = h
  Grows-contains P limit k (push {p = p} r pr room n e g) h =
      Grows-contains P limit k g (rw e (ground arith))

  abbrev pub Anything : SearchResult F → Type 0
  Anything r = Unit

  pub All-true : (rs : List (SearchResult F)) → All Anything rs
  All-true [] = tt
  All-true (r ∷ rs) = (tt, All-true rs)

  abbrev with_key : SearchResult F → Picked → Picked
  with_key r p = record p { selected_keys = key r ∷ p.selected_keys }

  take_rest_full :
      (limit : ℕ) (r : SearchResult F) (rs out : List (SearchResult F)) (p : Picked)
      → leb limit (length out) ≡ true
      → take_rest limit (r ∷ rs) out p ≡ (out, p)
  unfolding take_rest
  take_rest_full limit r rs out p full = rw full

  take_rest_old :
      (limit : ℕ) (r : SearchResult F) (rs out : List (SearchResult F)) (p : Picked)
      → leb limit (length out) ≡ false
      → contains p.selected_keys (key r) ≡ true
      → take_rest limit (r ∷ rs) out p ≡ take_rest limit rs out p
  unfolding take_rest
  take_rest_old limit r rs out p room old = rw (room, old)

  take_rest_new :
      (limit : ℕ) (r : SearchResult F) (rs out : List (SearchResult F)) (p : Picked)
      → leb limit (length out) ≡ false
      → contains p.selected_keys (key r) ≡ false
      → take_rest limit (r ∷ rs) out p ≡ take_rest limit rs (out ++ r ∷ []) (with_key r p)
  unfolding take_rest
  take_rest_new limit r rs out p room new = rw (room, new)

  -- A record that held a key still holds it at the end.
  take_rest-contains :
      (limit : ℕ) (k : String × ℕ) (rs out : List (SearchResult F)) (p : Picked)
      → contains p.selected_keys k ≡ true
      → contains (take_rest limit rs out p).1.selected_keys k ≡ true
  take_rest-contains limit k rs out p h =
      Grows-contains Anything limit k (take_rest-Grows Anything limit rs out p (All-true rs)) h

  take_rest-Covers :
      (limit : ℕ) (rs out : List (SearchResult F)) (p : Picked)
      → length (take_rest limit rs out p).0 < limit
      → Covers (take_rest limit rs out p).1 rs
  take_rest-Covers limit [] out p h = tt
  take_rest-Covers limit (r ∷ rs) out p h = elim (Bool-cases (leb limit (length out))) [
    | inl full ↦ absurd (ground (arith, rw (take_rest_full limit r rs out p full) at h))
    | inr room ↦ elim (Bool-cases (contains p.selected_keys (key r))) [
      | inl old ↦
          let e = take_rest_old limit r rs out p room old in
          subst (λ end. Covers end.1 (r ∷ rs)) (sym e)
            (
              take_rest-contains limit (key r) rs out p old,
              take_rest-Covers limit rs out p (rw e at h),
            )
      | inr new ↦
          let e = take_rest_new limit r rs out p room new in
          let p' = with_key r p in
          subst (λ end. Covers end.1 (r ∷ rs)) (sym e)
            (
              take_rest-contains limit (key r) rs (out ++ r ∷ []) p'
                  (ground (arith, pair_same_iff (key r) (key r))),
              take_rest-Covers limit rs (out ++ r ∷ []) p' (rw e at h),
            )
    ]
  ]

  -- What `fill_up` returns stands in some final record, and leaves no result out while there is room.
  pub record Filled (P : SearchResult F → Type 0) (limit : ℕ) (rs out : List (SearchResult F))
      : Type 0 where
    pub last : Picked
    pub chosen : Chosen P limit [] out last
    pub complete : length out < limit → Covers last rs

  pub fill_up-Filled :
      (P : SearchResult F → Type 0) (rs : List (SearchResult F)) (limit per_file_limit : ℕ)
      (out : List (SearchResult F)) (p : Picked)
      → All P rs
      → Chosen P limit [] out p
      → Filled P limit rs (fill_up rs limit per_file_limit (out, p))
  unfolding fill_up
  fill_up-Filled P rs limit pf out p a c =
      let g = take_allowed-Grows P limit pf rs out p a in
      let (filled, p') = take_allowed limit pf rs out p in
      let c' = Grows-Chosen P limit [] g c in
      let c'' = Grows-Chosen P limit [] (take_rest-Grows P limit rs filled p' a) c' in
      elim (Bool-cases (leb limit (length out))) [
        | inl full ↦
            rw (full, take_all limit out c.bounded)
              (record { last = p; chosen = c; complete = λ h. absurd (ground arith) })
        | inr room ↦ rw room (elim (Bool-cases (ltb (length filled) limit)) [
          | inl more ↦
              rw (more, take_all limit (take_rest limit rs filled p').0 c''.bounded)
                (record {
                  last = (take_rest limit rs filled p').1;
                  chosen = c'';
                  complete = take_rest-Covers limit rs filled p';
                })
          | inr done ↦
              rw (done, take_all limit filled c'.bounded)
                (record { last = p'; chosen = c'; complete = λ h. absurd (ground arith) })
        ])
      ]
