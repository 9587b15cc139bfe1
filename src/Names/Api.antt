-- ===== src/Names/Api.antt =====
-- src/domain.rs and src/api/media.rs: how requests name the values of enumerations. Every
-- `from_str` looks at the text in lower case with `_` for `-`; `none` is its error.
use harmonixia_server.Prelude.{ℕ, List, [], ◌∷◌, map, Option, none, some, ◌==◌, if◌then◌else◌}
use harmonixia_server.Prelude.Text.{codes, to_lower}
use harmonixia_server.Playback.Types.{
  PlaybackItemType, track, episode, PlaybackContextType, album, playlist, podcast,
}
use harmonixia_server.Providers.Backoff.{
  ProviderKind, music_brainz, cover_art_archive, discogs, fanart_tv, the_audio_db, local_sidecars,
}
use harmonixia_server.Media.Paths.{AacTranscodeProfile, mobile, standard, high}
use harmonixia_server.Names.Matched.{matched}

abbrev pub normal_char : ℕ → ℕ
normal_char c = let lower = to_lower c in if lower == b'-' then b'_' else lower

-- `to_ascii_lowercase().replace('-', "_")`.
abbrev pub normalized : List ℕ → List ℕ
normalized = map normal_char

unfoldable pub item_type_api_name : PlaybackItemType → List ℕ
item_type_api_name track = codes "track"
item_type_api_name episode = codes "episode"

unfoldable pub item_type_from_str : List ℕ → Option PlaybackItemType
item_type_from_str value =
    matched (normalized value) ((codes "track", track) ∷ (codes "episode", episode) ∷ [])

unfoldable pub context_type_api_name : PlaybackContextType → List ℕ
context_type_api_name album = codes "album"
context_type_api_name playlist = codes "playlist"
context_type_api_name podcast = codes "podcast"

unfoldable pub context_type_from_str : List ℕ → Option PlaybackContextType
context_type_from_str value =
    matched (normalized value)
      ((codes "album", album) ∷ (codes "playlist", playlist) ∷ (codes "podcast", podcast) ∷ [])

unfoldable pub profile_from_str : List ℕ → Option AacTranscodeProfile
profile_from_str value =
    matched (normalized value)
      ((codes "mobile", mobile) ∷ (codes "standard", standard) ∷ (codes "high", high) ∷ [])

unfoldable pub provider_api_name : ProviderKind → List ℕ
provider_api_name music_brainz = codes "music_brainz"
provider_api_name cover_art_archive = codes "cover_art_archive"
provider_api_name discogs = codes "discogs"
provider_api_name fanart_tv = codes "fanart_tv"
provider_api_name the_audio_db = codes "the_audio_db"
provider_api_name local_sidecars = codes "local_sidecars"

unfoldable pub provider_from_str : List ℕ → Option ProviderKind
provider_from_str value = matched (normalized value) (
    (codes "music_brainz", music_brainz)
    ∷ (codes "musicbrainz", music_brainz)
    ∷ (codes "mb", music_brainz)
    ∷ (codes "cover_art_archive", cover_art_archive)
    ∷ (codes "coverartarchive", cover_art_archive)
    ∷ (codes "caa", cover_art_archive)
    ∷ (codes "discogs", discogs)
    ∷ (codes "fanart_tv", fanart_tv)
    ∷ (codes "fanart", fanart_tv)
    ∷ (codes "the_audio_db", the_audio_db)
    ∷ (codes "theaudiodb", the_audio_db)
    ∷ (codes "audiodb", the_audio_db)
    ∷ (codes "local_sidecars", local_sidecars)
    ∷ (codes "sidecars", local_sidecars)
    ∷ (codes "local", local_sidecars)
    ∷ [])

-- `parse_provider_kind` of src/storage.rs and of src/catalog.rs, which read a stored provider as a request
-- names it.
unfoldable pub parse_provider_kind : List ℕ → Option ProviderKind
unfolding provider_from_str
parse_provider_kind value = provider_from_str value

abbrev or_from_str : Option PlaybackItemType → List ℕ → Option PlaybackItemType
or_from_str (some t) value = some t
or_from_str none value = item_type_from_str value

-- The plural forms are for media requests only.
unfoldable pub parse_media_item_type : List ℕ → Option PlaybackItemType
parse_media_item_type value =
    or_from_str
      (matched (normalized value) ((codes "tracks", track) ∷ (codes "episodes", episode) ∷ []))
      value
