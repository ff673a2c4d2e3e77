-- ===== src/Search/Profile/Select/PerFile.antt =====
-- The balanced mode: `apply_per_file_then_truncate`.
use goodgrep.Prelude.{
  ℕ, ◌+◌, ◌≤◌, ◌<◌, ◌≡◌, ◌⊎◌, inl, inr, String, true, false, List, [], ◌∷◌, ◌++◌, min, arith,
}
use goodgrep.Prelude.Tests.{leb, string_key, nat_key, Bool-cases, ◌==◌, if◌then◌else◌}
use goodgrep.Prelude.Lists.{length, length-append}
use goodgrep.Prelude.Maps.{lookup, insert, lookup-insert, lookup-nil}
use goodgrep.Types.{balanced, SearchResult}
use goodgrep.Search.Profile.Select.{
  or_zero, per_file_loop, apply_per_file_then_truncate, by_mode, select_for_mode,
}

module _ {F : Type 0} where
  -- How many results a file has in a list.
  abbrev pub in_file : String → List (SearchResult F) → ℕ
  in_file path [] = 0
  in_file path (r ∷ rs) = (if r.path == path then 1 else 0) + in_file path rs

  in_file-append :
      (path : String) (xs ys : List (SearchResult F))
      → in_file path (xs ++ ys) ≡ in_file path xs + in_file path ys
  in_file-append path [] ys = omega arith
  in_file-append path (x ∷ xs) ys = omega (arith, in_file-append path xs ys)

  -- `counts` holds the number of results of each file in `out`.
  abbrev Counted : List (String × ℕ) → List (SearchResult F) → Type 0
  Counted counts out = (path : String) → or_zero (lookup path counts) ≡ in_file path out

  Counted-push :
      (r : SearchResult F) (counts : List (String × ℕ)) (out : List (SearchResult F))
      → Counted counts out
      → Counted (insert r.path (or_zero (lookup r.path counts) + 1) counts) (out ++ r ∷ [])
  Counted-push r counts out c path = ground (
    arith,
    c path,
    c r.path,
    lookup-insert r.path path (or_zero (lookup r.path counts) + 1) counts,
    in_file-append path out (r ∷ []),
    string_key.same_iff r.path path,
  )

  Counted-keep :
      (r : SearchResult F) (counts : List (String × ℕ)) (out : List (SearchResult F))
      → Counted counts out
      → Counted (insert r.path (or_zero (lookup r.path counts)) counts) out
  Counted-keep r counts out c path = ground (
    arith,
    c path,
    c r.path,
    lookup-insert r.path path (or_zero (lookup r.path counts)) counts,
    string_key.same_iff r.path path,
  )

  -- The state of the loop, and what its end is held to.
  record PerFile (limit per_file_limit : ℕ) (rs out end : List (SearchResult F)) : Type 0 where
    bounded : length out ≤ limit → length end ≤ limit
    capped : (path : String) → in_file path out ≤ per_file_limit → in_file path end ≤ per_file_limit
    full :
        (path : String)
        → in_file path out ≤ per_file_limit
        → length end < limit
        → in_file path end ≡ min per_file_limit (in_file path out + in_file path rs)

  per_file_loop-PerFile :
      (limit per_file_limit : ℕ) (rs out : List (SearchResult F)) (counts : List (String × ℕ))
      → Counted counts out
      → PerFile limit per_file_limit rs out (per_file_loop limit per_file_limit rs out counts)
  unfolding per_file_loop
  per_file_loop-PerFile limit pf [] out counts c = record {
    bounded = λ h. h;
    capped = λ path h. h;
    full = λ path h room. omega arith;
  }
  per_file_loop-PerFile limit pf (r ∷ rs) out counts c =
      elim (Bool-cases (leb limit (length out))) [
        | inl stop ↦ rw stop (record {
          bounded = λ h. h;
          capped = λ path h. h;
          full = λ path h room. absurd (ground arith);
        })
        | inr room ↦ rw room (elim (Bool-cases (leb pf (or_zero (lookup r.path counts)))) [
          | inl over ↦
              rw over
                (skip over (per_file_loop-PerFile limit pf rs out _ (Counted-keep r counts out c)))
          | inr under ↦ rw under (
              push room under
                (per_file_loop-PerFile limit pf rs (out ++ r ∷ []) _ (Counted-push r counts out c)))
        ])
      ]
    where
      skip :
          {end : List (SearchResult F)}
          → leb pf (or_zero (lookup r.path counts)) ≡ true
          → PerFile limit pf rs out end
          → PerFile limit pf (r ∷ rs) out end
      skip {end} over s = record {
        bounded = s.bounded;
        capped = s.capped;
        full = λ path h room. ground (arith, s.full path, c path, string_key.same_iff r.path path);
      }

      push :
          {end : List (SearchResult F)}
          → leb limit (length out) ≡ false
          → leb pf (or_zero (lookup r.path counts)) ≡ false
          → PerFile limit pf rs (out ++ r ∷ []) end
          → PerFile limit pf (r ∷ rs) out end
      push {end} room under s = record {
        bounded = λ h. ground (arith, s.bounded, length-append out (r ∷ []));
        capped = λ path h. ground (
          arith,
          s.capped path,
          c path,
          in_file-append path out (r ∷ []),
          string_key.same_iff r.path path,
        );
        full = λ path h left. ground (
          arith,
          s.full path,
          c path,
          in_file-append path out (r ∷ []),
          string_key.same_iff r.path path,
        );
      }

  select_balanced-PerFile :
      (rs : List (SearchResult F)) (limit per_file_limit : ℕ)
      → 0 < per_file_limit
      → PerFile limit per_file_limit rs [] (select_for_mode rs limit per_file_limit balanced)
  unfolding select_for_mode by_mode apply_per_file_then_truncate
  select_balanced-PerFile [] limit pf h = record {
    bounded = λ h. h;
    capped = λ path h. h;
    full = λ path h room. omega arith;
  }
  select_balanced-PerFile (r ∷ rs) limit pf h = elim (Bool-cases (limit == 0)) [
    | inl none_wanted ↦ rw none_wanted (record {
      bounded = λ h. h;
      capped = λ path h. h;
      full = λ path h room. absurd (ground arith);
    })
    | inr some_wanted ↦
        let positive : (pf == 0) ≡ false = ground arith in
        rw (some_wanted, positive)
          (per_file_loop-PerFile limit pf (r ∷ rs) [] [] (λ path. rw (lookup-nil {V = ℕ} path)))
  ]

  -- In the balanced mode, with a per-file limit, at most `limit` results are selected, of each file
  -- at most the per-file limit; and either the limit is reached, or of each file as many are
  -- selected as it has, up to the per-file limit.
  pub select_for_mode_balanced :
      (rs : List (SearchResult F)) (limit per_file_limit : ℕ) (path : String)
      → 0 < per_file_limit
      → let out = select_for_mode rs limit per_file_limit balanced in
        (length out ≤ limit)
        × (in_file path out ≤ per_file_limit)
        × ((length out ≡ limit) ⊎ (in_file path out ≡ min per_file_limit (in_file path rs)))
  select_for_mode_balanced rs limit pf path h =
      let s = select_balanced-PerFile rs limit pf h in
      let out = select_for_mode rs limit pf balanced in
      (
        s.bounded (omega arith),
        s.capped path (omega arith),
        elim (Bool-cases (leb limit (length out))) [
          | inl full ↦ inl (ground (arith, s.bounded (omega arith)))
          | inr room ↦ inr (ground (arith, s.full path))
        ],
      )
