-- ===== src/Media/Paths.antt =====
-- src/api/media.rs: where generated output is kept below the temporary directory, and where a segment
-- that a request names is looked up.
use mathlib.Core.List.{append_assoc, append-nil}
use harmonixia_server.Prelude.{
  ℕ, Bool, true, false, ◌||◌, List, [], ◌∷◌, ◌++◌, ◌≡◌, refl, sym, ap, ◌∙◌, all, is_empty,
  if◌then◌else◌, ◌==◌, arith, All, All-append, subst,
}
use harmonixia_server.Prelude.Text.{codes}
use harmonixia_server.Errors.{Outcome, ok, ◌>>=◌, Ensures, Ensures-bind}
use harmonixia_server.Media.Names.{starts_with, safe_hls_path_fragment, validate_hls_segment_name}
use harmonixia_server.Media.Names.Components.{
  components, IsPlain, not_slash, components-join, validate_hls_segment_name-Plain,
  safe_hls_path_fragment-Plain, undotted-Plain,
}

pub data AacTranscodeProfile : Type 0 where
  mobile standard high : AacTranscodeProfile

unfoldable pub api_name : AacTranscodeProfile → List ℕ
api_name mobile = codes "mobile"
api_name standard = codes "standard"
api_name high = codes "high"

abbrev pub ends_in_slash : List ℕ → Bool
ends_in_slash [] = false
ends_in_slash (c ∷ []) = c == b'/'
ends_in_slash (c ∷ d ∷ s) = ends_in_slash (d ∷ s)

-- `Path::join`: an absolute path takes the place of what it is joined to.
unfoldable pub join : List ℕ → List ℕ → List ℕ
join dir name =
    if starts_with (b'/' ∷ []) name
    then name
    else if is_empty dir || ends_in_slash dir
    then dir ++ name
    else dir ++ b'/' ∷ name

unfoldable pub output_dir : List ℕ → List ℕ → List ℕ → List ℕ → AacTranscodeProfile → List ℕ
output_dir area temp_dir id file_hash profile =
    join (join (join (join temp_dir area) id) (safe_hls_path_fragment file_hash)) (api_name profile)

-- `hls_output_dir` and `downloadable_transcode_path` of a media file with that id and hash.
unfoldable pub hls_output_dir : List ℕ → List ℕ → List ℕ → AacTranscodeProfile → List ℕ
hls_output_dir temp_dir id file_hash profile =
    output_dir (codes "harmonixia-hls") temp_dir id file_hash profile

unfoldable pub downloadable_transcode_path : List ℕ → List ℕ → List ℕ → AacTranscodeProfile → List ℕ
downloadable_transcode_path temp_dir id file_hash profile =
    join (output_dir (codes "harmonixia-dl") temp_dir id file_hash profile) (codes "track.m4a")

-- `hls_segment`: the file that is opened for a segment.
unfoldable pub hls_segment_path :
    List ℕ → List ℕ → List ℕ → AacTranscodeProfile → List ℕ → Outcome (List ℕ)
hls_segment_path temp_dir id file_hash profile segment =
    validate_hls_segment_name segment >>= λ name.
    ok (join (join (hls_output_dir temp_dir id file_hash profile) (codes "segments")) name)

-- A directory that a name is joined to by one separator.
abbrev pub IsOpen : List ℕ → Type 0
IsOpen dir = (is_empty dir || ends_in_slash dir) ≡ false

ends_in_slash-name :
    (c : ℕ) (s : List ℕ) → all not_slash (c ∷ s) ≡ true → ends_in_slash (c ∷ s) ≡ false
ends_in_slash-name c [] h = ground (arith, h)
ends_in_slash-name c (d ∷ s) h = ends_in_slash-name d s (ground (arith, h))

append-IsOpen :
    (dir : List ℕ) (c : ℕ) (s : List ℕ)
    → all not_slash (c ∷ s) ≡ true
    → IsOpen (dir ++ b'/' ∷ c ∷ s)
append-IsOpen [] c s h = ends_in_slash-name c s h
append-IsOpen (a ∷ []) c s h = ends_in_slash-name c s h
append-IsOpen (a ∷ b ∷ dir) c s h = append-IsOpen (b ∷ dir) c s h

join-plain :
    (dir name : List ℕ)
    → IsOpen dir
    → IsPlain name
    → (components (join dir name) ≡ components dir ++ name ∷ []) × IsOpen (join dir name)
unfolding join
join-plain dir [] h p = absurd (p.1 refl)
join-plain dir (c ∷ s) h p =
    rw (h, first) (components-join dir (c ∷ s) p.0, append-IsOpen dir c s p.0)
  where
    first : (c == b'/') ≡ false
    first = ground (arith, p.0)

-- A path that lies below a directory by these plain components.
abbrev Below : List ℕ → List ℕ → List (List ℕ) → Type 0
Below dir path names = IsOpen path × (components path ≡ components dir ++ names) × All IsPlain names

join-Below :
    (dir path name : List ℕ) (names : List (List ℕ))
    → Below dir path names
    → IsPlain name
    → Below dir (join path name) (names ++ name ∷ [])
join-Below dir path name names (open', at, plain) p =
    let (added, kept) = join-plain path name open' p in
    (
      kept,
      added ∙ ap (λ c. c ++ name ∷ []) at ∙ append_assoc (components dir) names (name ∷ []),
      All-append IsPlain names (name ∷ []) plain (p, tt),
    )

api_name-Plain : (profile : AacTranscodeProfile) → IsPlain (api_name profile)
unfolding api_name
api_name-Plain mobile = undotted-Plain _ _ refl refl
api_name-Plain standard = undotted-Plain _ _ refl refl
api_name-Plain high = undotted-Plain _ _ refl refl

output_dir-Below :
    (area temp_dir id file_hash : List ℕ) (profile : AacTranscodeProfile)
    → IsPlain area
    → IsOpen temp_dir
    → IsPlain id
    → Below temp_dir
        (output_dir area temp_dir id file_hash profile)
        (area ∷ id ∷ safe_hls_path_fragment file_hash ∷ api_name profile ∷ [])
unfolding output_dir
output_dir-Below area temp_dir id file_hash profile a t i =
    join-Below temp_dir _ _ _
      (join-Below temp_dir _ _ _
        (join-Below temp_dir _ _ _
          (join-Below temp_dir _ _ [] (t, sym (append-nil (components temp_dir)), tt) a) i)
        (safe_hls_path_fragment-Plain file_hash))
      (api_name-Plain profile)

hls_area-Plain : IsPlain (codes "harmonixia-hls")
hls_area-Plain = undotted-Plain _ _ refl refl

segments-Plain : IsPlain (codes "segments")
segments-Plain = undotted-Plain _ _ refl refl

-- The components of a segment's path below the temporary directory.
abbrev pub segment_names : List ℕ → List ℕ → AacTranscodeProfile → List ℕ → List (List ℕ)
segment_names id file_hash profile segment =
    codes "harmonixia-hls"
    ∷ id
    ∷ safe_hls_path_fragment file_hash
    ∷ api_name profile
    ∷ codes "segments"
    ∷ segment
    ∷ []

abbrev pub IsSegmentPath : List ℕ → List ℕ → List ℕ → AacTranscodeProfile → List ℕ → List ℕ → Type 0
IsSegmentPath temp_dir id file_hash profile segment path =
    (components path ≡ components temp_dir ++ segment_names id file_hash profile segment)
    × All IsPlain (segment_names id file_hash profile segment)

-- The file that a request for a segment opens, whatever text the request names it by: where the
-- temporary directory does not end in a separator and the id of the media file is a plain name, its
-- path lies below the temporary directory by six components that are neither empty nor `.` nor `..`
-- and hold no separator, the last of them the text as it was given.
pub hls_segment_path-Below :
    (temp_dir id file_hash segment : List ℕ) (profile : AacTranscodeProfile)
    → IsOpen temp_dir
    → IsPlain id
    → Ensures
        (IsSegmentPath temp_dir id file_hash profile segment)
        (hls_segment_path temp_dir id file_hash profile segment)
unfolding hls_segment_path hls_output_dir
hls_segment_path-Below temp_dir id file_hash segment profile t i =
    let dir =
      output_dir-Below (codes "harmonixia-hls") temp_dir id file_hash profile hls_area-Plain t i in
    let parent = join-Below temp_dir _ (codes "segments") _ dir segments-Plain in
    Ensures-bind (IsSegmentPath temp_dir id file_hash profile segment) _
      (validate_hls_segment_name segment) _ (validate_hls_segment_name-Plain segment)
      (λ name (same, plain).
        let (_, at, all_plain) = join-Below temp_dir _ name _ parent plain in
        subst
          (λ last.
            (components
                (join (join (hls_output_dir temp_dir id file_hash profile) (codes "segments")) name)
              ≡ components temp_dir ++ segment_names id file_hash profile last)
            × All IsPlain (segment_names id file_hash profile last))
          same (at, all_plain))
