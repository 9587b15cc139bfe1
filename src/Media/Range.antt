-- ===== src/Media/Range.antt =====
-- src/api/media.rs, `parse_range_header` and `parse_u64`: the `Range` header of a media request.
-- A header that `to_str` accepts is ASCII, so its white space is that of ASCII.
pub mod Bounds
pub mod Reading
pub mod RoundTrip
use mathlib.Core.List.{reverse}
use harmonixia_server.Prelude.{
  ℕ, ◌+◌, ◌-◌, ◌*◌, ◌^◌, min, Bool, false, not, ◌&&◌, ◌||◌, List, [], ◌∷◌, map, Option, none, some,
  ltb, leb, ◌==◌, if◌then◌else◌, all, is_empty, ◌≡◌, refl,
}
use harmonixia_server.Prelude.Text.{codes, codes_eq, is_digit, to_lower}

pub data RangeSelection : Type 0 where
  full : RangeSelection
  partial : ℕ → ℕ → RangeSelection

abbrev pub is_space : ℕ → Bool
is_space c = (leb 9 c && leb c 13) || c == 32

unfoldable pub trim_start : List ℕ → List ℕ
trim_start [] = []
trim_start (c ∷ s) = let rest = trim_start s in if is_space c then rest else c ∷ s

unfoldable pub trim : List ℕ → List ℕ
unfolding trim_start
trim s = reverse (trim_start (reverse (trim_start s)))

unfoldable pub split_once : ℕ → List ℕ → Option (List ℕ × List ℕ)
split_once sep [] = none
split_once sep (c ∷ s) =
    let rest = split_once sep s in
    if c == sep
    then some ([], s)
    else elim rest [ none ↦ none | some (before, after) ↦ some (c ∷ before, after) ]

unfoldable pub contains : ℕ → List ℕ → Bool
contains x [] = false
contains x (c ∷ s) = c == x || contains x s

-- `str::parse::<u64>` on a text of digits: `none` when the value does not fit 64 bits.
unfoldable pub parse_digits : ℕ → List ℕ → Option ℕ
parse_digits n [] = some n
parse_digits n (c ∷ s) =
    let rest = parse_digits (n * 10 + (c - b'0')) s in
    if ltb (n * 10 + (c - b'0')) (2 ^ 64) then rest else none

unfoldable pub parse_u64 : List ℕ → Option ℕ
unfolding parse_digits
parse_u64 s = if is_empty s || not (all is_digit s) then none else parse_digits 0 s

-- The part of `parse_range_header` that follows a `-` with nothing before it.
unfoldable pub suffix_range : ℕ → Option ℕ → Option RangeSelection
suffix_range file_size none = none
suffix_range file_size (some n) =
    if n == 0 then none else some (partial (file_size - n) (file_size - 1))

-- The last position of a range that begins at `start`.
unfoldable pub last_position : ℕ → ℕ → Option ℕ → Option RangeSelection
last_position file_size start none = none
last_position file_size start (some last) =
    if ltb last start then none else some (partial start (min last (file_size - 1)))

unfoldable pub start_range : ℕ → List ℕ → Option ℕ → Option RangeSelection
unfolding last_position
start_range file_size last none = none
start_range file_size last (some start) =
    if leb file_size start
    then none
    else if is_empty last
    then some (partial start (file_size - 1))
    else last_position file_size start (parse_u64 last)

-- After the split at `-`.
unfoldable pub bounds_range : ℕ → Option (List ℕ × List ℕ) → Option RangeSelection
unfolding suffix_range start_range
bounds_range file_size none = none
bounds_range file_size (some (start, last)) =
    if is_empty (trim start)
    then suffix_range file_size (parse_u64 (trim last))
    else start_range file_size (trim last) (parse_u64 (trim start))

-- After the split at `=`.
unfoldable pub unit_range : ℕ → Option (List ℕ × List ℕ) → Option RangeSelection
unit_range file_size none = none
unit_range file_size (some (unit, range_set)) =
    if not (codes_eq (map to_lower (trim unit)) (codes "bytes"))
    then some full
    else if is_empty (trim range_set) || contains b',' (trim range_set) || file_size == 0
    then none
    else bounds_range file_size (split_once b'-' (trim range_set))

-- `none` is `RangeNotSatisfiable`.
unfoldable pub parse_range_header : List ℕ → ℕ → Option RangeSelection
parse_range_header value file_size = unit_range file_size (split_once b'=' (trim value))

-- The cases of the program's own test.
parses_byte_ranges :
    (parse_range_header (codes "bytes=2-5") 10 ≡ some (partial 2 5))
    × (parse_range_header (codes "bytes=8-") 10 ≡ some (partial 8 9))
    × (parse_range_header (codes "bytes=-4") 10 ≡ some (partial 6 9))
    × (parse_range_header (codes "items=0-1") 10 ≡ some full)
    × (parse_range_header (codes "bytes=20-21") 10 ≡ none)
    × (parse_range_header (codes "bytes=5-2") 10 ≡ none)
    × (parse_range_header (codes "bytes=0-0,2-2") 10 ≡ none)
unfolding parse_range_header unit_range bounds_range trim split_once contains parse_u64
parses_byte_ranges = (refl, refl, refl, refl, refl, refl, refl)
