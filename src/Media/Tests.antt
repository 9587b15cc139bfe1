-- ===== src/Media/Tests.antt =====
-- The theorems on ranges, names, paths and responses at concrete requests.
use harmonixia_server.Prelude.{◌≡◌, refl, true, some, [], ◌∷◌, all}
use harmonixia_server.Prelude.Text.{codes}
use harmonixia_server.Errors.{ok, err, bad_request, Ensures}
use harmonixia_server.Media.Names.{
  validate_hls_segment_name, inline, content_disposition, quoted_filename,
}
use harmonixia_server.Media.Names.Components.{validate_hls_segment_name-segment, undotted-Plain}
use harmonixia_server.Media.Names.Quoting.{read_filename, printable, content_disposition-read}
use harmonixia_server.Media.Paths.{high, IsSegmentPath, hls_segment_path, hls_segment_path-Below}
use harmonixia_server.Media.Responses.{
  done, serve_original_media_file, serve_downloadable_transcode_file,
}
use harmonixia_server.Media.Responses.Headers.{visible, Describes}
use harmonixia_server.Media.Responses.Served.{serve-Describes}
use harmonixia_server.Media.Range.{parse_range_header}
use harmonixia_server.Media.Range.Bounds.{Fits, parse_range_header-Fits}

parse_range_header-Fits_example : Fits 10 (parse_range_header (codes "bytes=2-5") 10)
parse_range_header-Fits_example = parse_range_header-Fits (codes "bytes=2-5") 10

-- A stem of a segment, and the header of a name that tries to end its quotes.
accepted_segment :
    validate_hls_segment_name (codes "segment_00001.ts") ≡ ok (codes "segment_00001.ts")
accepted_segment = validate_hls_segment_name-segment b's' (codes "egment_00001") refl

climbing_refused :
    validate_hls_segment_name (codes "../1.ts") ≡ err (bad_request "invalid HLS segment filename")
unfolding validate_hls_segment_name
climbing_refused = refl

hls_segment_path-Below_example :
    Ensures
      (IsSegmentPath (codes "/tmp") (codes "7") (codes "sha1:ab/../c") high (codes "s_1.ts"))
      (hls_segment_path (codes "/tmp") (codes "7") (codes "sha1:ab/../c") high (codes "s_1.ts"))
hls_segment_path-Below_example =
    hls_segment_path-Below (codes "/tmp") (codes "7") (codes "sha1:ab/../c") (codes "s_1.ts") high
      refl (undotted-Plain b'7' [] refl refl)

content_disposition-read_example :
    (read_filename inline (content_disposition inline (codes "a\"b"))
      ≡ some (quoted_filename (codes "a\"b")))
    × (all printable (content_disposition inline (codes "a\"b")) ≡ true)
content_disposition-read_example = content_disposition-read inline (codes "a\"b")

-- `HeaderValue::from_str` as a test for visible ASCII; the name has a quote that the header replaces.
serve-Describes_example :
    Ensures (Describes (1 ∷ 2 ∷ 3 ∷ [])) (
      serve_original_media_file
        (all visible)
        (done (record { is_file = true; bytes = 1 ∷ 2 ∷ 3 ∷ [] }))
        (λ _. done tt)
        (some (some (codes "bytes=1-")))
        (some (codes "audio/flac"))
        (codes "x\".flac")
        inline)
    × Ensures (Describes (1 ∷ 2 ∷ 3 ∷ [])) (
        serve_downloadable_transcode_file
          (all visible)
          (done (record { is_file = true; bytes = 1 ∷ 2 ∷ 3 ∷ [] }))
          (λ _. done tt)
          (some (some (codes "bytes=1-")))
          (codes "x\".flac"))
serve-Describes_example =
    serve-Describes (all visible) (λ text h. h) (record { is_file = true; bytes = 1 ∷ 2 ∷ 3 ∷ [] })
      (λ _. done tt) (some (some (codes "bytes=1-"))) (some (codes "audio/flac")) (codes "x\".flac")
      inline refl
