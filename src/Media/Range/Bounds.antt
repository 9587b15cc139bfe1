-- ===== src/Media/Range/Bounds.antt =====
-- What any accepted `Range` header selects lies in the file.
use harmonixia_server.Prelude.{ℕ, ◌≤◌, ◌<◌, List, Option, none, some, arith}
use harmonixia_server.Media.Range.{
  RangeSelection, full, partial, suffix_range, last_position, start_range, bounds_range, unit_range,
  parse_range_header, parse_u64, trim, split_once,
}

-- A selection of a file of `n` bytes: all of it, or a range of positions that it has.
abbrev pub Fits : ℕ → Option RangeSelection → Type 0
Fits n none = Unit {0}
Fits n (some full) = Unit {0}
Fits n (some (partial first last)) = (first ≤ last) × (last < n)

suffix_range-Fits : (n : ℕ) (o : Option ℕ) → 0 < n → Fits n (suffix_range n o)
unfolding suffix_range
suffix_range-Fits n none h = tt
suffix_range-Fits n (some k) h = ground arith

last_position-Fits : (n s : ℕ) (o : Option ℕ) → s < n → Fits n (last_position n s o)
unfolding last_position
last_position-Fits n s none h = tt
last_position-Fits n s (some k) h = ground arith

start_range-Fits : (n : ℕ) (last : List ℕ) (o : Option ℕ) → Fits n (start_range n last o)
unfolding start_range
start_range-Fits n last none = tt
start_range-Fits n last (some s) = ground (arith, last_position-Fits n s (parse_u64 last))

bounds_range-Fits : (n : ℕ) (o : Option (List ℕ × List ℕ)) → 0 < n → Fits n (bounds_range n o)
unfolding bounds_range
bounds_range-Fits n none h = tt
bounds_range-Fits n (some (a, b)) h = ground (
  arith,
  suffix_range-Fits n (parse_u64 (trim b)),
  start_range-Fits n (trim b) (parse_u64 (trim a)),
)

unit_range-Fits : (n : ℕ) (o : Option (List ℕ × List ℕ)) → Fits n (unit_range n o)
unfolding unit_range
unit_range-Fits n none = tt
unit_range-Fits n (some (unit, set)) =
    ground (arith, bounds_range-Fits n (split_once b'-' (trim set)))

-- For every header and every file size, a selected range is not empty and ends before the file does.
pub parse_range_header-Fits : (value : List ℕ) (n : ℕ) → Fits n (parse_range_header value n)
unfolding parse_range_header
parse_range_header-Fits value n = unit_range-Fits n (split_once b'=' (trim value))
