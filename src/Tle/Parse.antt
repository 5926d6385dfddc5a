-- ===== src/Tle/Parse.antt =====
-- services/api/aries_api/tle.py: what `_parse_tle_text` accepts, and the group cache.
use aries_space.Base.{
  ℕ, ◌≤◌, ◌*◌, true, false, String, Option, none, some, List, [], ◌∷◌, ◌≡◌, inl, inr, arith,
  Bool-cases, Option-cases, All, length, map, ◌<>◌, List-cases,
}
use aries_space.Exn.{Exn, tle_unavailable}
use aries_space.Exec.{Result, ok, err, Result-cases}
use aries_space.Tle.{
  TleRecord, Strings, Celestrak, Caches, parse_triple, parse_triples, parse_tle_text, nonblank,
  lookup_group, assign_group, get_group_tles, refetch_group, fall_back_group, is_old, is_caught,
  mark_stale,
}

module _ (S : Strings) where
  -- Lines 1 and 2 of an element set, with its catalogue number.
  abbrev pub IsElementSet : ℕ → TleRecord → Type 0
  IsElementSet at r =
      (S.startswith r.line1 "1 " ≡ true)
      × (S.startswith r.line2 "2 " ≡ true)
      × (S.read_norad r.line1 ≡ some r.norad_id)
      × (r.fetched_at ≡ at)
      × (r.stale ≡ false)

  parse_triples-IsElementSet :
      (lines : List String) (at : ℕ)
      → All (IsElementSet at) (parse_triples S lines at)
        × (length (parse_triples S lines at) * 3 ≤ length lines)
  unfolding parse_triples parse_triple
  parse_triples-IsElementSet [] at = (tt, omega arith)
  parse_triples-IsElementSet (a ∷ []) at = (tt, omega arith)
  parse_triples-IsElementSet (a ∷ b ∷ []) at = (tt, omega arith)
  parse_triples-IsElementSet (a ∷ b ∷ c ∷ rest) at =
      let back = parse_triples-IsElementSet rest at in
      elim (Bool-cases (S.startswith b "1 ")) [
        | inr h ↦ ground (arith, h, back)
        | inl h ↦ elim (Bool-cases (S.startswith c "2 ")) [
          | inr g ↦ ground (arith, h, g, back)
          | inl g ↦ elim (Option-cases (S.read_norad b)) [
            | inl f ↦ ground (arith, h, g, f, back)
            | inr (n, f) ↦ ground (arith, h, g, f, back)
          ]
        ]
      ]

  length-nonblank : (lines : List String) → length (nonblank S S.rstrip lines) ≤ length lines
  unfolding nonblank
  length-nonblank [] = omega arith
  length-nonblank (x ∷ xs) = ground (arith, length-nonblank xs)

  -- Every record that is read from a text has lines that start as an element set's do and carry its
  -- number, is of the given time and not stale; and there is at most one for three of the text's lines.
  pub parse_tle_text-IsElementSet :
      (text : String) (at : ℕ)
      → All (IsElementSet at) (parse_tle_text S text at)
        × (length (parse_tle_text S text at) * 3 ≤ length (S.splitlines text))
  unfolding parse_tle_text
  parse_tle_text-IsElementSet text at = ground (
    arith,
    parse_triples-IsElementSet (nonblank S S.rstrip (S.splitlines text)) at,
    length-nonblank (S.splitlines text),
  )

  module _ {W : Type 0} (C : Celestrak W) (refresh : ℕ) where
    -- No group is cached without a record.
    abbrev pub IsFilled : List (String × List TleRecord) → Type 0
    IsFilled [] = Unit
    IsFilled ((_, []) ∷ rest) = ⊥
    IsFilled ((_, _ ∷ _) ∷ rest) = IsFilled rest

    assign_group-IsFilled :
        (k : String) (r : TleRecord) (rs : List TleRecord) (c : List (String × List TleRecord))
        → IsFilled c
        → IsFilled (assign_group k (r ∷ rs) c)
    unfolding assign_group
    assign_group-IsFilled k r rs [] h = tt
    assign_group-IsFilled k r rs ((k', []) ∷ rest) h = elim h [ ]
    assign_group-IsFilled k r rs ((k', x ∷ xs) ∷ rest) h =
        ground (arith, h, assign_group-IsFilled k r rs rest h)

    lookup_group-IsFilled :
        (k : String) (c : List (String × List TleRecord))
        → IsFilled c
        → (lookup_group k c ≡ some [])
        → ⊥
    lookup_group-IsFilled k [] h g = ground (arith, g)
    lookup_group-IsFilled k ((k', []) ∷ rest) h g = h
    lookup_group-IsFilled k ((k', x ∷ xs) ∷ rest) h g =
        ground (arith, g, lookup_group-IsFilled k rest h)

    abbrev pub IsNonEmpty : Result (List TleRecord) → Type 0
    IsNonEmpty (ok []) = ⊥
    IsNonEmpty (ok (_ ∷ _)) = Unit
    IsNonEmpty (err _) = Unit

    fall_back_group-IsFilled :
        (group : String) (cached : Option (List TleRecord)) (e : Exn) (s : Caches W)
        → IsFilled s.group_cache
        → IsFilled (fall_back_group S C refresh group cached e s).1.group_cache
          × IsNonEmpty (fall_back_group S C refresh group cached e s).0
    unfolding fall_back_group
    fall_back_group-IsFilled group none e s h = elim (Bool-cases (is_caught e)) [
      | inl g ↦ ground (arith, g, h)
      | inr g ↦ ground (arith, g, h)
    ]
    fall_back_group-IsFilled group (some []) e s h = elim (Bool-cases (is_caught e)) [
      | inl g ↦ ground (arith, g, h)
      | inr g ↦ ground (arith, g, h)
    ]
    fall_back_group-IsFilled group (some (r ∷ rs)) e s h = elim (Bool-cases (is_caught e)) [
      | inl g ↦ ground (
        arith,
        g,
        h,
        assign_group-IsFilled group (mark_stale r) (map mark_stale rs) s.group_cache h,
      )
      | inr g ↦ ground (arith, g, h)
    ]

    refetch_group-IsFilled :
        (group : String) (cached : Option (List TleRecord)) (s : Caches W)
        → IsFilled s.group_cache
        → IsFilled (refetch_group S C refresh group cached s).1.group_cache
          × IsNonEmpty (refetch_group S C refresh group cached s).0
    unfolding refetch_group
    refetch_group-IsFilled group cached s h =
        let back = fall_back_group-IsFilled group cached in
        let after = record s { world = (C.get_group group s.world).1 } in
        elim (Result-cases (C.get_group group s.world).0) [
          | inr (e, g) ↦ ground (arith, g, back e after h)
          | inl (text, g) ↦ elim (List-cases (parse_tle_text S text (C.now after.world))) [
            | inl f ↦ ground (
              arith,
              g,
              f,
              back (tle_unavailable ("Celestrak returned no TLEs for group " <> group)) after h,
            )
            | inr (r, rs, f) ↦
                ground (arith, g, f, assign_group-IsFilled group r rs s.group_cache h)
          ]
        ]

    -- From caches in which no group is empty `get_group_tles` returns at least one record when it
    -- returns, and leaves caches of that kind.
    pub get_group_tles-IsFilled :
        (group : String) (s : Caches W)
        → IsFilled s.group_cache
        → IsFilled (get_group_tles S C refresh group s).1.group_cache
          × IsNonEmpty (get_group_tles S C refresh group s).0
    unfolding get_group_tles
    get_group_tles-IsFilled group s h = elim (Option-cases (lookup_group group s.group_cache)) [
      | inl g ↦ ground (arith, g, refetch_group-IsFilled group none s h)
      | inr (found, g) ↦ elim (List-cases found) [
        | inl f ↦ ground (arith, g, f, h, lookup_group-IsFilled group s.group_cache h)
        | inr (r, rs, f) ↦ elim (Bool-cases (is_old S C refresh (C.now s.world) r)) [
          | inl old ↦ ground (arith, g, f, old, h, refetch_group-IsFilled group (some (r ∷ rs)) s h)
          | inr young ↦ ground (arith, g, f, young, h)
        ]
      ]
    ]
