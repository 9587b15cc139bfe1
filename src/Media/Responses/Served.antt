-- ===== src/Media/Responses/Served.antt =====
-- What src/api/media.rs answers with a file: the body, and the headers that describe it.
use harmonixia_server.Prelude.{
  ℕ, suc, ◌+◌, ◌-◌, ◌≤◌, ◌<◌, Bool, true, List, Option, none, some, length, all, ◌≡◌, refl, subst,
  sym, arith,
}
use harmonixia_server.Errors.{ApiError, Ensures, Ensures-bind, Ensures-guard}
use harmonixia_server.Media.Range.{RangeSelection, full, partial}
use harmonixia_server.Media.Range.Bounds.{Fits, parse_range_header-Fits}
use harmonixia_server.Media.Names.{ContentDisposition}
use harmonixia_server.Media.Responses.{
  Io, done, missing, failed, or_error, media_file_not_found, download_transcode_file_not_found,
  OpenFile, take, drop, selection, range_text, original_selected, serve_original_media_file,
  download_selected, serve_downloadable_transcode_file,
}
use harmonixia_server.Media.Responses.Headers.{
  visible, is_ascii, Content, whole, part, Describes, length-take, length-drop, range_text-visible,
  media_response-Describes, download_response-Describes, refusal-Describes,
}

-- `HeaderValue::from_str` takes every text of visible ASCII characters.
module _ (valid : List ℕ → Bool)
    (accepts : (text : List ℕ) → all visible text ≡ true → valid text ≡ true) where
  selection-Fits : (range : Option (Option (List ℕ))) (n : ℕ) → Fits n (selection range n)
  unfolding selection
  selection-Fits none n = tt
  selection-Fits (some none) n = tt
  selection-Fits (some (some value)) n = parse_range_header-Fits value n

  -- The body of a partial answer is the slice that was selected.
  part-Content :
      (bytes : List ℕ) (first last : ℕ)
      → first ≤ last
      → last < length bytes
      → let stream = take (last - first + 1) (drop first bytes) in
        (last - first + 1 ≡ length stream)
        × Content bytes 206 stream (some (range_text first last (length bytes)))
  part-Content bytes first last h k =
      let same : suc last - first ≡ last - first + 1 = omega (arith, h) in
      (
        sym (
            length-take (last - first + 1) (drop first bytes)
              (omega (arith, h, k, length-drop first bytes))),
        subst
            (λ n.
              Content bytes 206 (take n (drop first bytes))
                (some (range_text first last (length bytes))))
            same (part first last h k),
      )

  or_error-Anything {ℓ} :
      {A : Type ℓ} (e : ApiError) (m : Io A) → Ensures (λ a. Unit {0}) (or_error e m)
  unfolding or_error
  or_error-Anything e (done a) = tt
  or_error-Anything e missing = tt
  or_error-Anything e failed = tt

  original_selected-Describes :
      (seek : ℕ → Io (Unit {0})) (file : OpenFile) (mime : Option (List ℕ)) (filename : List ℕ)
      (shown : ContentDisposition) (o : Option RangeSelection)
      → all is_ascii filename ≡ true
      → Fits (length file.bytes) o
      → Ensures (Describes file.bytes) (original_selected valid seek file mime filename shown o)
  unfolding original_selected
  original_selected-Describes seek file mime filename shown none a h =
      refusal-Describes valid accepts file.bytes
  original_selected-Describes seek file mime filename shown (some full) a h =
      media_response-Describes valid accepts file.bytes 200 file.bytes mime filename shown _ none a
        refl whole tt
  original_selected-Describes seek file mime filename shown (some (partial first last)) a h =
      let (declared, content) = part-Content file.bytes first last h.0 h.1 in
      Ensures-bind (Describes file.bytes) (λ _. Unit {0})
        (or_error media_file_not_found (seek first)) _
        (or_error-Anything media_file_not_found (seek first))
        (λ _ _.
          media_response-Describes valid accepts file.bytes 206 _ mime filename shown _ _ a declared
            content (range_text-visible first last (length file.bytes)))

  download_selected-Describes :
      (seek : ℕ → Io (Unit {0})) (file : OpenFile) (filename : List ℕ) (o : Option RangeSelection)
      → all is_ascii filename ≡ true
      → Fits (length file.bytes) o
      → Ensures (Describes file.bytes) (download_selected valid seek file filename o)
  unfolding download_selected
  download_selected-Describes seek file filename none a h =
      refusal-Describes valid accepts file.bytes
  download_selected-Describes seek file filename (some full) a h =
      download_response-Describes valid accepts file.bytes 200 file.bytes filename _ none a refl
        whole tt
  download_selected-Describes seek file filename (some (partial first last)) a h =
      let (declared, content) = part-Content file.bytes first last h.0 h.1 in
      Ensures-bind (Describes file.bytes) (λ _. Unit {0})
        (or_error download_transcode_file_not_found (seek first)) _
        (or_error-Anything download_transcode_file_not_found (seek first))
        (λ _ _.
          download_response-Describes valid accepts file.bytes 206 _ filename _ _ a declared content
            (range_text-visible first last (length file.bytes)))

  serve_original_media_file-Describes :
      (file : OpenFile) (seek : ℕ → Io (Unit {0})) (range : Option (Option (List ℕ)))
      (mime : Option (List ℕ)) (filename : List ℕ) (shown : ContentDisposition)
      → all is_ascii filename ≡ true
      → Ensures
          (Describes file.bytes)
          (serve_original_media_file valid (done file) seek range mime filename shown)
  unfolding serve_original_media_file or_error
  serve_original_media_file-Describes file seek range mime filename shown a =
      Ensures-bind (Describes file.bytes) _ _ _ (Ensures-guard file.is_file media_file_not_found)
        (λ _ _.
          original_selected-Describes seek file mime filename shown _ a
            (selection-Fits range (length file.bytes)))

  serve_downloadable_transcode_file-Describes :
      (file : OpenFile) (seek : ℕ → Io (Unit {0})) (range : Option (Option (List ℕ)))
      (filename : List ℕ)
      → all is_ascii filename ≡ true
      → Ensures
          (Describes file.bytes)
          (serve_downloadable_transcode_file valid (done file) seek range filename)
  unfolding serve_downloadable_transcode_file or_error
  serve_downloadable_transcode_file-Describes file seek range filename a =
      Ensures-bind (Describes file.bytes) _ _ _
        (Ensures-guard file.is_file download_transcode_file_not_found)
        (λ _ _.
          download_selected-Describes seek file filename _ a
            (selection-Fits range (length file.bytes)))

  -- Where `HeaderValue::from_str` takes every text of visible ASCII characters and the file name is
  -- ASCII: for an opened file, any outcome of a seek, any `Range` header and any stored media type,
  -- serving an original or a generated download does not panic, and an answer describes the file: the
  -- length declared is that of the body, ranges are offered, and the body is the whole file, or the
  -- range that `Content-Range` names, or nothing, with the size of the file in `Content-Range`.
  pub serve-Describes :
      (file : OpenFile) (seek : ℕ → Io (Unit {0})) (range : Option (Option (List ℕ)))
      (mime : Option (List ℕ)) (filename : List ℕ) (shown : ContentDisposition)
      → all is_ascii filename ≡ true
      → Ensures
          (Describes file.bytes)
          (serve_original_media_file valid (done file) seek range mime filename shown)
        × Ensures
            (Describes file.bytes)
            (serve_downloadable_transcode_file valid (done file) seek range filename)
  serve-Describes file seek range mime filename shown a = (
    serve_original_media_file-Describes file seek range mime filename shown a,
    serve_downloadable_transcode_file-Describes file seek range filename a,
  )
