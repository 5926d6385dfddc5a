-- ===== src/Tle/Tests.antt =====
-- The theorems on services/api/aries_api/tle.py at caches and answers.
use aries_space.Base.{◌≤◌, ◌*◌, true, false, some, [], ◌∷◌, length, All}
use aries_space.Base.Int.{pos}
use aries_space.Exn.{http_error}
use aries_space.Exec.{err}
use aries_space.Tle.{TleRecord, Strings, Celestrak, Caches, get_group_tles, parse_tle_text}
use aries_space.Tle.Parse.{
  IsElementSet, IsFilled, IsNonEmpty, parse_tle_text-IsElementSet, get_group_tles-IsFilled,
}

abbrev strings : Strings
strings = record {
  splitlines = λ s. "SAT" ∷ "1 00005U" ∷ "2 00005" ∷ "odd" ∷ [];
  strip = λ s. s;
  rstrip = λ s. s;
  startswith = λ s p. true;
  read_norad = λ s. some (pos 5);
  show = λ n. "5";
}

-- A network that is down, at the time 100.
abbrev down : Celestrak (Unit {0})
down = record {
  get_catalogue = λ n w. (err http_error, w);
  get_group = λ g w. (err http_error, w);
  now = λ w. 100;
}

abbrev old : TleRecord
old = record {
  norad_id = pos 5;
  name = "SAT";
  line1 = "1 00005U";
  line2 = "2 00005";
  fetched_at = 1;
  stale = false;
}

abbrev caches : Caches (Unit {0})
caches = record { world = tt; cache = (pos 5, old) ∷ []; group_cache = ("resource", old ∷ []) ∷ [] }

parse_tle_text-IsElementSet_example :
    All (IsElementSet strings 7) (parse_tle_text strings "text" 7)
    × (length (parse_tle_text strings "text" 7) * 3 ≤ length (strings.splitlines "text"))
parse_tle_text-IsElementSet_example = parse_tle_text-IsElementSet strings "text" 7

get_group_tles-IsFilled_example :
    IsFilled strings down 10 (get_group_tles strings down 10 "resource" caches).1.group_cache
    × IsNonEmpty strings down 10 (get_group_tles strings down 10 "resource" caches).0
get_group_tles-IsFilled_example = get_group_tles-IsFilled strings down 10 "resource" caches tt
