-- ===== src/Media/Range/RoundTrip.antt =====
-- The ranges that a client can ask for, their text, and what the server makes of it.
use harmonixia_server.Prelude.{ℕ, ◌+◌, ◌^◌, ◌≤◌, ◌<◌, List, [], ◌∷◌, ◌++◌, Option, none, some}
use harmonixia_server.Prelude.Text.{codes}
use harmonixia_server.Prelude.Decimal.{decimal}
use harmonixia_server.Media.Range.{RangeSelection, full, partial}

-- A byte range as RFC 9110 names them: `a-b`, `a-` and `-n`.
pub data ByteRange : Type 0 where
  from_to : ℕ → ℕ → ByteRange
  from : ℕ → ByteRange
  suffix : ℕ → ByteRange

abbrev print_range : ByteRange → List ℕ
print_range (from_to a b) = decimal a ++ b'-' ∷ decimal b
print_range (from a) = decimal a ++ b'-' ∷ []
print_range (suffix n) = b'-' ∷ decimal n

-- The header's text.
pub print : ByteRange → List ℕ
print r = codes "bytes" ++ b'=' ∷ print_range r

-- Every number is a `u64`, and a closed range does not end before it begins.
abbrev pub IsProper : ByteRange → Type 0
IsProper (from_to a b) = (a ≤ b) × (b < 2 ^ 64)
IsProper (from a) = a < 2 ^ 64
IsProper (suffix n) = n < 2 ^ 64

-- The positions that a range asks of a file of `size` bytes, whether or not the file has them.
abbrev pub Wanted : ByteRange → ℕ → ℕ → Type 0
Wanted (from_to a b) size i = (a ≤ i) × (i ≤ b)
Wanted (from a) size i = a ≤ i
Wanted (suffix n) size i = size ≤ i + n

-- The positions that an answer sends; a refusal sends none, and the full answer would send any.
abbrev pub Selected : Option RangeSelection → ℕ → Type 0
Selected none i = ⊥
Selected (some full) i = Unit {0}
Selected (some (partial first last)) i = (first ≤ i) × (i ≤ last)

-- The text around the first `-`.
abbrev halves : ByteRange → List ℕ × List ℕ
halves (from_to a b) = (decimal a, decimal b)
halves (from a) = (decimal a, [])
halves (suffix n) = ([], decimal n)
