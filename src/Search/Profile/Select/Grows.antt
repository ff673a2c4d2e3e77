-- ===== src/Search/Profile/Select/Grows.antt =====
-- The loops of `select_for_mode` as one relation: `out` grows by results whose key is new, while
-- there is room.
use mathlib.Core.List.{Nodup, Nodup-cons, map-append, append_assoc, perm_middle}
use mathlib.Core.List.Perm
use mathlib.Core.List.{Perm}
use goodgrep.Prelude.{
  ℕ, ◌≤◌, ◌<◌, ◌≡◌, refl, ◌⊎◌, inl, inr, String, true, false, List, [], ◌∷◌, ◌++◌, map, arith,
}
use goodgrep.Prelude.Tests.{leb, string_key, nat_key, pair_key, Bool-cases}
use goodgrep.Prelude.Lists.{length, contains, All, All-append, length-append, not-mem_of_contains}
use goodgrep.Types.{SearchResult}
use goodgrep.Search.Profile.Select.{Picked, key, can_take, take_allowed, take_rest}

module _ {F : Type 0} where
  abbrev pub keys : List (SearchResult F) → List (String × ℕ)
  keys = map key

  pub data Grows (P : SearchResult F → Type 0) (limit : ℕ) (last : List (SearchResult F))
      (end : Picked) : List (SearchResult F) → Picked → Type 0 where
    stop : Grows P limit last end last end
    push :
        {out : List (SearchResult F)} {p q : Picked} (r : SearchResult F)
        → P r
        → length out < limit
        → contains p.selected_keys (key r) ≡ false
        → q.selected_keys ≡ key r ∷ p.selected_keys
        → Grows P limit last end (out ++ r ∷ []) q
        → Grows P limit last end out p

  can_take_cases :
      (r : SearchResult F) (per_file_limit : ℕ) (p : Picked)
      → (((can_take r per_file_limit p).0 ≡ false) × ((can_take r per_file_limit p).1 ≡ p))
        ⊎ (((can_take r per_file_limit p).0 ≡ true)
            × (contains p.selected_keys (key r) ≡ false)
            × ((can_take r per_file_limit p).1.selected_keys ≡ key r ∷ p.selected_keys))
  unfolding can_take
  can_take_cases r per_file_limit p = ground arith

  pub take_allowed-Grows :
      (P : SearchResult F → Type 0) (limit per_file_limit : ℕ) (rs out : List (SearchResult F))
      (p : Picked)
      → All P rs
      → let end = take_allowed limit per_file_limit rs out p in Grows P limit end.0 end.1 out p
  unfolding take_allowed
  take_allowed-Grows P limit pf [] out p a = stop
  take_allowed-Grows P limit pf (r ∷ rs) out p a = elim (Bool-cases (leb limit (length out))) [
    | inl full ↦ rw full stop
    | inr room ↦ rw room (elim (can_take_cases r pf p) [
      | inl (e, same) ↦ rw (e, same) (take_allowed-Grows P limit pf rs out p a.1)
      | inr (e, new, grown) ↦ rw e (
          push r a.0 (ground arith) new grown
            (take_allowed-Grows P limit pf rs (out ++ r ∷ []) (can_take r pf p).1 a.1))
    ])
  ]

  pub take_rest-Grows :
      (P : SearchResult F → Type 0) (limit : ℕ) (rs out : List (SearchResult F)) (p : Picked)
      → All P rs
      → let end = take_rest limit rs out p in Grows P limit end.0 end.1 out p
  unfolding take_rest
  take_rest-Grows P limit [] out p a = stop
  take_rest-Grows P limit (r ∷ rs) out p a = elim (Bool-cases (leb limit (length out))) [
    | inl full ↦ rw full stop
    | inr room ↦ rw room (elim (Bool-cases (contains p.selected_keys (key r))) [
      | inl old ↦ rw old (take_rest-Grows P limit rs out p a.1)
      | inr new ↦
          rw new
            (push r a.0 (ground arith) new refl (take_rest-Grows P limit rs (out ++ r ∷ []) _ a.1))
    ])
  ]

  pub Grows-All :
      (P : SearchResult F → Type 0) (limit : ℕ) {last : List (SearchResult F)} {end : Picked}
      {out : List (SearchResult F)} {p : Picked}
      → Grows P limit last end out p
      → All P out
      → All P last
  Grows-All P limit stop a = a
  Grows-All P limit (push {out = out} r pr h n e g) a =
      Grows-All P limit g (All-append P out (r ∷ []) a (pr, tt))

  pub Grows-length :
      (P : SearchResult F → Type 0) (limit : ℕ) {last : List (SearchResult F)} {end : Picked}
      {out : List (SearchResult F)} {p : Picked}
      → Grows P limit last end out p
      → length out ≤ limit
      → length last ≤ limit
  Grows-length P limit stop h = h
  Grows-length P limit (push {out = out} r pr room n e g) h =
      Grows-length P limit g (omega (arith, length-append out (r ∷ [])))

  pub Grows-Nodup :
      (P : SearchResult F → Type 0) (limit : ℕ) {last : List (SearchResult F)} {end : Picked}
      {out : List (SearchResult F)} {p : Picked}
      → Grows P limit last end out p
      → Nodup p.selected_keys
      → Nodup end.selected_keys
  Grows-Nodup P limit stop d = d
  Grows-Nodup P limit (push {p = p} r pr room n e g) d =
      Grows-Nodup P limit g (rw e (Nodup-cons.1 (not-mem_of_contains p.selected_keys (key r) n, d)))

  -- The keys taken so far, with those taken before, are the selected keys.
  pub Grows-perm :
      (P : SearchResult F → Type 0) (limit : ℕ) (before : List (String × ℕ))
      {last : List (SearchResult F)} {end : Picked} {out : List (SearchResult F)} {p : Picked}
      → Grows P limit last end out p
      → Perm (keys out ++ before) p.selected_keys
      → Perm (keys last ++ before) end.selected_keys
  Grows-perm P limit before stop h = h
  Grows-perm P limit before (push {out = out} r pr room n e g) h = Grows-perm P limit before g (
      rw (e, map-append key out (r ∷ []), append_assoc (keys out) (key r ∷ []) before)
        (Perm.trans (perm_middle (keys out) before) (Perm.cons (key r) h)))
