-- ===== src/Media/Names.antt =====
-- src/api/media.rs: the names that requests and files bring into paths and headers. A text is the list
-- of its code points; a path is its text, and `/` separates its components.
pub mod Components
pub mod Quoting
use harmonixia_server.Prelude.{
  ℕ, Bool, true, false, not, ◌&&◌, ◌||◌, List, [], ◌∷◌, ◌++◌, map, leb, ltb, ◌==◌, if◌then◌else◌,
  all, is_empty,
}
use harmonixia_server.Prelude.Text.{codes, codes_eq, is_digit}
use harmonixia_server.Errors.{ApiError, bad_request, Outcome, ok, err}

abbrev pub is_alphanumeric : ℕ → Bool
is_alphanumeric c = is_digit c || ((leb b'A' c && leb c b'Z') || (leb b'a' c && leb c b'z'))

-- `char::is_control`: the general category Cc.
abbrev pub is_control : ℕ → Bool
is_control c = ltb c 32 || (leb 127 c && leb c 159)

abbrev pub starts_with : List ℕ → List ℕ → Bool
starts_with [] s = true
starts_with (p ∷ ps) [] = false
starts_with (p ∷ ps) (c ∷ s) = c == p && starts_with ps s

-- `str::contains` and `str::ends_with` of a text.
abbrev pub contains_text : List ℕ → List ℕ → Bool
contains_text p [] = is_empty p
contains_text p (c ∷ s) = starts_with p (c ∷ s) || contains_text p s

abbrev pub ends_with : List ℕ → List ℕ → Bool
ends_with p [] = is_empty p
ends_with p (c ∷ s) = codes_eq p (c ∷ s) || ends_with p s

abbrev pub is_segment_byte : ℕ → Bool
is_segment_byte c = is_alphanumeric c || (c == b'.' || (c == b'-' || c == b'_'))

abbrev pub is_refused : List ℕ → Bool
is_refused value =
    is_empty value
    || (starts_with (b'.' ∷ []) value
        || (contains_text (b'.' ∷ b'.' ∷ []) value
            || (not (ends_with (b'.' ∷ b't' ∷ b's' ∷ []) value)
                || not (all is_segment_byte value))))

unfoldable pub validate_hls_segment_name : List ℕ → Outcome (List ℕ)
validate_hls_segment_name value =
    if is_refused value then err (bad_request "invalid HLS segment filename") else ok value

abbrev pub safe_char : ℕ → ℕ
safe_char c = if is_alphanumeric c || (c == b'-' || c == b'_') then c else b'_'

unfoldable pub safe_hls_path_fragment : List ℕ → List ℕ
safe_hls_path_fragment value =
    let safe = map safe_char value in if is_empty safe then codes "media" else safe

abbrev pub quoted_char : ℕ → ℕ
quoted_char c = if c == b'"' || (c == b'\\' || is_control c) then b'_' else c

unfoldable pub quoted_filename : List ℕ → List ℕ
quoted_filename filename = map quoted_char filename

pub data ContentDisposition : Type 0 where
  inline attachment : ContentDisposition

abbrev pub disposition_name : ContentDisposition → List ℕ
disposition_name inline = codes "inline"
disposition_name attachment = codes "attachment"

unfoldable pub content_disposition : ContentDisposition → List ℕ → List ℕ
content_disposition disposition filename =
    disposition_name disposition ++ codes "; filename=\"" ++ quoted_filename filename ++ b'"' ∷ []
