-- ===== src/Media/Names/Quoting.antt =====
-- What a reader of the header finds in the file name that src/api/media.rs writes.
use harmonixia_server.Prelude.{
  ℕ, Bool, true, false, not, ◌||◌, List, [], ◌∷◌, ◌++◌, map, Option, none, some, ◌==◌, ◌≡◌, refl,
  if◌then◌else◌, all, arith,
}
use harmonixia_server.Prelude.Text.{codes}
use harmonixia_server.Media.Names.{
  is_control, quoted_char, quoted_filename, ContentDisposition, inline, attachment,
  disposition_name, content_disposition,
}

-- A text behind a prefix.
abbrev strip : List ℕ → List ℕ → Option (List ℕ)
strip [] s = some s
strip (p ∷ ps) [] = none
strip (p ∷ ps) (c ∷ s) = let rest = strip ps s in if c == p then rest else none

abbrev prepend : ℕ → Option (List ℕ) → Option (List ℕ)
prepend c none = none
prepend c (some s) = some (c ∷ s)

-- A quoted string that ends the header: a backslash takes the next character as it is, and no
-- control character may stand in it. What follows a closing quote refuses the header.
unfoldable pub read_quoted : List ℕ → Option (List ℕ)
read_quoted [] = none
read_quoted (c ∷ []) = if c == b'"' then some [] else none
read_quoted (c ∷ d ∷ s) =
    let plain = read_quoted (d ∷ s) in
    let escaped = read_quoted s in
    if c == b'"' || is_control c
    then none
    else if c == b'\\'
    then prepend d escaped
    else prepend c plain

abbrev read_parameter : Option (List ℕ) → Option (List ℕ)
read_parameter none = none
read_parameter (some s) = read_quoted s

-- The file name of a header of one disposition.
unfoldable pub read_filename : ContentDisposition → List ℕ → Option (List ℕ)
read_filename d s = read_parameter (strip (disposition_name d ++ codes "; filename=\"") s)

abbrev pub printable : ℕ → Bool
printable c = not (is_control c)

quoted_char-plain :
    (c : ℕ)
    → ((quoted_char c == b'"' || is_control (quoted_char c)) ≡ false)
      × ((quoted_char c == b'\\') ≡ false)
quoted_char-plain c = (ground arith, ground arith)

read_quoted-append :
    (s : List ℕ) → read_quoted (map quoted_char s ++ b'"' ∷ []) ≡ some (map quoted_char s)
unfolding read_quoted
read_quoted-append [] = refl
read_quoted-append (c ∷ []) = ground arith
read_quoted-append (c ∷ d ∷ s) =
    rw ((quoted_char-plain c).0, (quoted_char-plain c).1, read_quoted-append (d ∷ s)) refl

printable-quoted : (s : List ℕ) → all printable (map quoted_char s ++ b'"' ∷ []) ≡ true
printable-quoted [] = refl
printable-quoted (c ∷ s) = rw (printable-quoted s) (ground arith)

-- Whatever the file name holds, a reader of the header finds the sanitised name and nothing after
-- it, and the header has no control character.
pub content_disposition-read :
    (d : ContentDisposition) (filename : List ℕ)
    → (read_filename d (content_disposition d filename) ≡ some (quoted_filename filename))
      × (all printable (content_disposition d filename) ≡ true)
unfolding content_disposition quoted_filename read_filename
content_disposition-read inline f = (read_quoted-append f, printable-quoted f)
content_disposition-read attachment f = (read_quoted-append f, printable-quoted f)
