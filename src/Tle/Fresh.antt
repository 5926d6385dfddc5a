-- ===== src/Tle/Fresh.antt =====
-- services/api/aries_api/tle.py: how old an element set may be, and what the group cache holds.
use aries_space.Base.{ℕ, true, false, ◌≡◌, ◌⊎◌}
use aries_space.Exn.{Exn}
use aries_space.Tle.{TleRecord, Strings, Celestrak, is_old}

module _ {W : Type 0} (S : Strings) (C : Celestrak W) (refresh : ℕ) where
  -- Marked stale, or not older than the refresh time.
  abbrev pub IsFresh : ℕ → TleRecord → Type 0
  IsFresh now r = (r.stale ≡ true) ⊎ (is_old S C refresh now r ≡ false)
