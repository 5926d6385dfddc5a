-- ===== src/Tle.antt =====
-- services/api/aries_api/tle.py: two-line elements from Celestrak, with a cache that a failed fetch
-- falls back on. The caches hold the very records that callers get, so a record that is marked stale
-- is marked in its cache.

pub mod Fresh
mod Tests
pub mod Parse
use aries_space.Base.{
  ℕ, ◌-◌, ◌*◌, Bool, true, false, not, ◌||◌, ◌&&◌, String, ◌<>◌, Option, none, some, List, [], ◌∷◌,
  map, ltb, str_eq, if◌then◌else◌,
}
use aries_space.Base.Int.{ℤ, eq_ℤ}
use aries_space.Exn.{Exn, tle_unavailable, http_error, other}
use aries_space.Exec.{
  Result, ok, err, Exec, pure, raise, raise_if, gets, modify, try_except, or_raise, ◌>>=◌, ◌>>◌,
}

pub record TleRecord : Type 0 where
  pub norad_id : ℤ
  pub name : String
  pub line1 : String
  pub line2 : String
  pub fetched_at : ℕ
  pub stale : Bool

-- Python's operations on strings; `read_norad` is `int(line[2:7])`, `show` is `str` of an int.
pub record Strings : Type 0 where
  pub splitlines : String → List String
  pub strip : String → String
  pub rstrip : String → String
  pub startswith : String → String → Bool
  pub read_norad : String → Option ℤ
  pub show : ℤ → String

-- `httpx.get(...)`, `raise_for_status()` and `response.text` of the two queries, and the clock.
pub record Celestrak (W : Type 0) : Type 0 where
  pub get_catalogue : ℤ → Exec W String
  pub get_group : String → Exec W String
  pub now : W → ℕ

pub record Caches (W : Type 0) : Type 0 where
  pub world : W
  pub cache : List (ℤ × TleRecord)
  pub group_cache : List (String × List TleRecord)

abbrev pub lookup : ℤ → List (ℤ × TleRecord) → Option TleRecord
lookup k [] = none
lookup k ((k', v) ∷ rest) = if eq_ℤ k' k then some v else lookup k rest

abbrev pub assign : ℤ → TleRecord → List (ℤ × TleRecord) → List (ℤ × TleRecord)
assign k v [] = (k, v) ∷ []
assign k v ((k', v') ∷ rest) = if eq_ℤ k' k then (k', v) ∷ rest else (k', v') ∷ assign k v rest

pop : ℤ → List (ℤ × TleRecord) → List (ℤ × TleRecord)
pop k [] = []
pop k ((k', v) ∷ rest) = if eq_ℤ k' k then rest else (k', v) ∷ pop k rest

abbrev pub lookup_group : String → List (String × List TleRecord) → Option (List TleRecord)
lookup_group k [] = none
lookup_group k ((k', v) ∷ rest) = if str_eq k' k then some v else lookup_group k rest

unfoldable pub assign_group :
    String → List TleRecord → List (String × List TleRecord) → List (String × List TleRecord)
assign_group k v [] = (k, v) ∷ []
assign_group k v ((k', v') ∷ rest) =
    if str_eq k' k then (k', v) ∷ rest else (k', v') ∷ assign_group k v rest

abbrev pub mark_stale : TleRecord → TleRecord
mark_stale r = record r { stale = true }

-- The exceptions of `except (httpx.HTTPError, TLEUnavailableError)`.
abbrev pub is_caught : Exn → Bool
is_caught (tle_unavailable _) = true
is_caught http_error = true
is_caught _ = false

module _ (S : Strings) where
  -- `[line.f() for line in lines if line.strip()]`
  unfoldable pub nonblank : (String → String) → List String → List String
  nonblank f [] = []
  nonblank f (line ∷ lines) =
      let rest = nonblank f lines in if str_eq (S.strip line) "" then rest else f line ∷ rest

  unfoldable pub parse_triple : String → String → String → ℕ → Option TleRecord
  parse_triple name line1 line2 fetched_at =
      if not (S.startswith line1 "1 ") || not (S.startswith line2 "2 ")
      then none
      else elim (S.read_norad line1) [
        | none ↦ none
        | some norad_id ↦ some (record {
          norad_id = norad_id;
          name = S.strip name;
          line1 = line1;
          line2 = line2;
          fetched_at = fetched_at;
          stale = false;
        })
      ]

  -- Three lines at a time, as long as three are left.
  unfoldable pub parse_triples : List String → ℕ → List TleRecord
  unfolding parse_triple
  parse_triples (a ∷ b ∷ c ∷ rest) fetched_at =
      let records = parse_triples rest fetched_at in
      elim (parse_triple a b c fetched_at) [ none ↦ records | some r ↦ r ∷ records ]
  parse_triples _ fetched_at = []

  unfoldable pub parse_tle_text : String → ℕ → List TleRecord
  unfolding parse_triples nonblank
  parse_tle_text text fetched_at = parse_triples (nonblank S.rstrip (S.splitlines text)) fetched_at

  -- The first three lines of an answer.
  unfoldable pub first_three : List String → Option (String × String × String)
  first_three (a ∷ b ∷ c ∷ rest) = some (a, b, c)
  first_three _ = none

  module _ {W : Type 0} (C : Celestrak W) (refresh : ℕ) where
    abbrev pub on_world : {A : Type 0} → Exec W A → Exec (Caches W) A
    on_world m s = let (r, w) = m s.world in (r, record s { world = w })

    -- `now - fetched_at > timedelta(hours=config.TLE_REFRESH_HOURS)`
    abbrev pub is_old : ℕ → TleRecord → Bool
    is_old now r = ltb refresh (now - r.fetched_at)

    unfoldable pub fetch_live : ℤ → Exec W TleRecord
    unfolding first_three nonblank
    fetch_live norad_id = do
      text ← C.get_catalogue norad_id
      (name, line1, line2) ←
          or_raise (first_three (nonblank S.strip (S.splitlines text)))
            (tle_unavailable ("Celestrak returned no TLE for NORAD " <> S.show norad_id))
      fetched_at ← gets C.now
      pure (record {
        norad_id = norad_id;
        name = name;
        line1 = line1;
        line2 = line2;
        fetched_at = fetched_at;
        stale = false;
      })

    unfoldable pub fall_back : ℤ → Option TleRecord → Exn → Exec (Caches W) TleRecord
    fall_back norad_id cached e = if not (is_caught e) then raise e else elim cached [
      | none ↦ raise (
          tle_unavailable ("No live TLE reachable and no cached TLE for NORAD " <> S.show norad_id))
      | some r ↦ do
        modify (λ s. record s { cache = assign norad_id (mark_stale r) s.cache })
        pure (mark_stale r)
    ]

    unfoldable pub refetch : ℤ → Option TleRecord → Exec (Caches W) TleRecord
    unfolding fetch_live fall_back
    refetch norad_id cached =
        try_except
          (do
            r ← on_world (fetch_live norad_id)
            modify (λ s. record s { cache = assign norad_id r s.cache })
            pure r)
          (fall_back norad_id cached)

    unfoldable pub get_tle : ℤ → Exec (Caches W) TleRecord
    unfolding refetch
    get_tle norad_id s = elim (lookup norad_id s.cache) [
      | none ↦ refetch norad_id none s
      | some r ↦ if is_old (C.now s.world) r then refetch norad_id (some r) s else (ok r, s)
    ]

    unfoldable pub fall_back_group :
        String → Option (List TleRecord) → Exn → Exec (Caches W) (List TleRecord)
    unfolding assign_group
    fall_back_group group cached e =
        let gone : Exec (Caches W) (List TleRecord) =
          raise (tle_unavailable ("No live TLE reachable and no cached TLE for group " <> group)) in
        if not (is_caught e) then raise e else elim cached [
          | none ↦ gone
          | some [] ↦ gone
          | some (r ∷ rs) ↦ do
            let marked = map mark_stale (r ∷ rs)
            modify (λ s. record s { group_cache = assign_group group marked s.group_cache })
            pure marked
        ]

    unfoldable pub refetch_group :
        String → Option (List TleRecord) → Exec (Caches W) (List TleRecord)
    unfolding parse_tle_text fall_back_group assign_group
    refetch_group group cached =
        try_except
          (do
            text ← on_world (C.get_group group)
            fetched_at ← gets (λ s. C.now s.world)
            let records = parse_tle_text text fetched_at
            raise_if (elim records [ [] ↦ true | _ ∷ _ ↦ false ])
                (tle_unavailable ("Celestrak returned no TLEs for group " <> group))
            modify (λ s. record s { group_cache = assign_group group records s.group_cache })
            pure records)
          (fall_back_group group cached)

    -- `cached[0]` of an empty list is an `IndexError`.
    unfoldable pub get_group_tles : String → Exec (Caches W) (List TleRecord)
    unfolding refetch_group
    get_group_tles group s = elim (lookup_group group s.group_cache) [
      | none ↦ refetch_group group none s
      | some [] ↦ (err other, s)
      | some (r ∷ rs) ↦
          if is_old (C.now s.world) r
          then refetch_group group (some (r ∷ rs)) s
          else (ok (r ∷ rs), s)
    ]

unfoldable pub reset_cache : {W : Type 0} → Option ℤ → Caches W → Caches W
unfolding pop
reset_cache none s = record s { cache = []; group_cache = [] }
reset_cache (some norad_id) s = record s { cache = pop norad_id s.cache }
