-- ===== src/Media/Responses.antt =====
-- src/api/media.rs: the responses that serve a file, with its range and its headers. The file system is
-- not under src/: what opening, measuring and seeking give back is an argument; so is the
-- test of `HeaderValue::from_str`. A body is the list of the bytes that its stream yields.
pub mod Headers
pub mod Served
use harmonixia_server.Prelude.{
  ℕ, zero, suc, ◌+◌, ◌-◌, Bool, true, false, List, [], ◌∷◌, ◌++◌, Option, none, some, if◌then◌else◌,
  length,
}
use harmonixia_server.Prelude.Text.{codes}
use harmonixia_server.Prelude.Decimal.{decimal}
use harmonixia_server.Errors.{
  ApiError, not_found, internal, Outcome, ok, err, panic, guard, ◌>>=◌, ◌>>◌,
}
use harmonixia_server.Media.Range.{RangeSelection, full, partial, parse_range_header}
use harmonixia_server.Media.Names.{ContentDisposition, attachment, content_disposition}

pub data HeaderName : Type 0 where
  accept_ranges content_length content_type disposition content_range : HeaderName

pub record Response : Type 0 where
  pub status : ℕ
  pub headers : List (HeaderName × List ℕ)
  pub body : List ℕ

-- A result of the file system: the error of a missing file is told from the others.
pub data Io {ℓ} (A : Type ℓ) : Type ℓ where
  done : A → Io A
  missing failed : Io A

-- `map_file_error` and `map_download_transcode_file_error`, by the error of a missing file.
unfoldable pub or_error {ℓ} : {A : Type ℓ} → ApiError → Io A → Outcome A
or_error e (done a) = ok a
or_error e missing = err e
or_error e failed = err internal

unfoldable pub media_file_not_found : ApiError
media_file_not_found = not_found "media original was not found"

unfoldable pub download_transcode_file_not_found : ApiError
download_transcode_file_not_found = not_found "downloadable transcode was not found"

-- An opened file: `metadata` tells whether it is a file and how long.
pub record OpenFile : Type 0 where
  pub is_file : Bool
  pub bytes : List ℕ

abbrev pub take {ℓ} : {A : Type ℓ} → ℕ → List A → List A
take zero xs = []
take (suc n) [] = []
take (suc n) (x ∷ xs) = x ∷ take n xs

abbrev pub drop {ℓ} : {A : Type ℓ} → ℕ → List A → List A
drop zero xs = xs
drop (suc n) [] = []
drop (suc n) (x ∷ xs) = drop n xs

-- The `Range` header of a request: absent, not a text, or a text. `none` is `RangeNotSatisfiable`.
unfoldable pub selection : Option (Option (List ℕ)) → ℕ → Option RangeSelection
selection none file_size = some full
selection (some none) file_size = none
selection (some (some value)) file_size = parse_range_header value file_size

abbrev pub range_text : ℕ → ℕ → ℕ → List ℕ
range_text first last file_size =
    codes "bytes " ++ decimal first ++ b'-' ∷ (decimal last ++ b'/' ∷ decimal file_size)

abbrev pub unsatisfied_text : ℕ → List ℕ
unsatisfied_text file_size = codes "bytes */" ++ decimal file_size

module _ (valid : List ℕ → Bool) where
  -- `HeaderValue::from_str(..).expect(..)`.
  abbrev pub header_value : List ℕ → Outcome (List ℕ)
  header_value text = if valid text then ok text else panic

  -- `headers.insert(name, ..)`.
  abbrev pub with_header : HeaderName → List ℕ → Response → Outcome Response
  with_header name text r =
      header_value text >>= λ value. ok (record r { headers = (name, value) ∷ r.headers })

  abbrev pub with_range : Option (List ℕ) → Response → Outcome Response
  with_range none r = ok r
  with_range (some text) r = with_header content_range text r

  -- `and_then(|mime_type| HeaderValue::from_str(mime_type).ok())`, or the default.
  unfoldable pub mime_or_default : Option (List ℕ) → List ℕ
  mime_or_default none = codes "application/octet-stream"
  mime_or_default (some mime) = if valid mime then mime else codes "application/octet-stream"

  unfoldable pub media_response :
      ℕ
      → List ℕ
      → Option (List ℕ)
      → List ℕ
      → ContentDisposition
      → ℕ
      → Option (List ℕ)
      → Outcome Response
  media_response status stream mime filename shown declared range =
      with_header content_length (decimal declared)
        (record { status = status; headers = (accept_ranges, codes "bytes") ∷ []; body = stream })
      >>= λ r.
          with_header disposition (content_disposition shown filename)
            (record r { headers = (content_type, mime_or_default mime) ∷ r.headers })
          >>= with_range range

  unfoldable pub downloadable_transcode_response :
      ℕ → List ℕ → List ℕ → ℕ → Option (List ℕ) → Outcome Response
  downloadable_transcode_response status stream filename declared range =
      with_header content_length (decimal declared)
        (record { status = status; headers = (accept_ranges, codes "bytes") ∷ []; body = stream })
      >>= λ r.
          with_header disposition (content_disposition attachment filename)
            (record r { headers = (content_type, codes "audio/mp4") ∷ r.headers })
          >>= with_range range

  unfoldable pub range_not_satisfiable_response : ℕ → Outcome Response
  range_not_satisfiable_response file_size =
      with_header content_range (unsatisfied_text file_size)
        (record { status = 416; headers = (accept_ranges, codes "bytes") ∷ []; body = [] })
      >>= λ r. ok (record r { headers = (content_length, codes "0") ∷ r.headers })

  -- `serve_original_media_file`, from the opened file on; `seek` is the outcome of a seek.
  unfoldable pub original_selected :
      (ℕ → Io (Unit {0}))
      → OpenFile
      → Option (List ℕ)
      → List ℕ
      → ContentDisposition
      → Option RangeSelection
      → Outcome Response
  original_selected seek file mime filename shown none =
      range_not_satisfiable_response (length file.bytes)
  original_selected seek file mime filename shown (some full) =
      media_response 200 file.bytes mime filename shown (length file.bytes) none
  original_selected seek file mime filename shown (some (partial start end)) =
      or_error media_file_not_found (seek start)
      >> media_response 206 (take (end - start + 1) (drop start file.bytes)) mime filename shown
          (end - start + 1) (some (range_text start end (length file.bytes)))

  unfoldable pub serve_original_media_file :
      Io OpenFile
      → (ℕ → Io (Unit {0}))
      → Option (Option (List ℕ))
      → Option (List ℕ)
      → List ℕ
      → ContentDisposition
      → Outcome Response
  serve_original_media_file opened seek range mime filename shown =
      or_error media_file_not_found opened >>= λ file.
      guard file.is_file media_file_not_found
      >> original_selected seek file mime filename shown (selection range (length file.bytes))

  unfoldable pub download_selected :
      (ℕ → Io (Unit {0})) → OpenFile → List ℕ → Option RangeSelection → Outcome Response
  download_selected seek file filename none = range_not_satisfiable_response (length file.bytes)
  download_selected seek file filename (some full) =
      downloadable_transcode_response 200 file.bytes filename (length file.bytes) none
  download_selected seek file filename (some (partial start end)) =
      or_error download_transcode_file_not_found (seek start)
      >> downloadable_transcode_response 206 (take (end - start + 1) (drop start file.bytes))
          filename (end - start + 1) (some (range_text start end (length file.bytes)))

  unfoldable pub serve_downloadable_transcode_file :
      Io OpenFile → (ℕ → Io (Unit {0})) → Option (Option (List ℕ)) → List ℕ → Outcome Response
  serve_downloadable_transcode_file opened seek range filename =
      or_error download_transcode_file_not_found opened >>= λ file.
      guard file.is_file download_transcode_file_not_found
      >> download_selected seek file filename (selection range (length file.bytes))
