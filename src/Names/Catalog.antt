-- ===== src/Names/Catalog.antt =====
-- src/catalog.rs: how the enumerations of the catalog are written to the database and read back.
-- A text is the list of its characters; `none` is `InvalidStoredValue`.
use harmonixia_server.Prelude.{ℕ, Option, List, [], ◌∷◌}
use harmonixia_server.Prelude.Text.{codes}
use harmonixia_server.Names.{
  AlbumKind, MediaKind, MediaFileStatus, CatalogEntityType, ArtworkKind, MetadataMatchKind,
}
use harmonixia_server.Names.Matched.{matched}

unfoldable pub album_kind_name : AlbumKind → List ℕ
album_kind_name AlbumKind.album = codes "album"
album_kind_name AlbumKind.compilation = codes "compilation"
album_kind_name AlbumKind.single = codes "single"
album_kind_name AlbumKind.unknown = codes "unknown"

abbrev pub album_kind_arms : List (List ℕ × AlbumKind)
album_kind_arms =
    (codes "album", AlbumKind.album)
    ∷ (codes "compilation", AlbumKind.compilation)
    ∷ (codes "single", AlbumKind.single)
    ∷ (codes "unknown", AlbumKind.unknown)
    ∷ []

unfoldable pub parse_album_kind : List ℕ → Option AlbumKind
parse_album_kind value = matched value album_kind_arms

unfoldable pub media_kind_name : MediaKind → List ℕ
media_kind_name MediaKind.music = codes "music"
media_kind_name MediaKind.podcast = codes "podcast"

abbrev pub media_kind_arms : List (List ℕ × MediaKind)
media_kind_arms = (codes "music", MediaKind.music) ∷ (codes "podcast", MediaKind.podcast) ∷ []

unfoldable pub parse_media_kind : List ℕ → Option MediaKind
parse_media_kind value = matched value media_kind_arms

unfoldable pub media_file_status_name : MediaFileStatus → List ℕ
media_file_status_name MediaFileStatus.staged = codes "staged"
media_file_status_name MediaFileStatus.published = codes "published"
media_file_status_name MediaFileStatus.duplicate = codes "duplicate"
media_file_status_name MediaFileStatus.quarantined = codes "quarantined"
media_file_status_name MediaFileStatus.failed = codes "failed"

abbrev pub media_file_status_arms : List (List ℕ × MediaFileStatus)
media_file_status_arms =
    (codes "staged", MediaFileStatus.staged)
    ∷ (codes "published", MediaFileStatus.published)
    ∷ (codes "duplicate", MediaFileStatus.duplicate)
    ∷ (codes "quarantined", MediaFileStatus.quarantined)
    ∷ (codes "failed", MediaFileStatus.failed)
    ∷ []

unfoldable pub parse_media_file_status : List ℕ → Option MediaFileStatus
parse_media_file_status value = matched value media_file_status_arms

unfoldable pub entity_type_name : CatalogEntityType → List ℕ
entity_type_name CatalogEntityType.artist = codes "artist"
entity_type_name CatalogEntityType.album = codes "album"
entity_type_name CatalogEntityType.track = codes "track"
entity_type_name CatalogEntityType.podcast = codes "podcast"
entity_type_name CatalogEntityType.episode = codes "episode"
entity_type_name CatalogEntityType.media_file = codes "media_file"
entity_type_name CatalogEntityType.playlist = codes "playlist"

abbrev pub entity_type_arms : List (List ℕ × CatalogEntityType)
entity_type_arms =
    (codes "artist", CatalogEntityType.artist)
    ∷ (codes "album", CatalogEntityType.album)
    ∷ (codes "track", CatalogEntityType.track)
    ∷ (codes "podcast", CatalogEntityType.podcast)
    ∷ (codes "episode", CatalogEntityType.episode)
    ∷ (codes "media_file", CatalogEntityType.media_file)
    ∷ (codes "playlist", CatalogEntityType.playlist)
    ∷ []

unfoldable pub parse_entity_type : List ℕ → Option CatalogEntityType
parse_entity_type value = matched value entity_type_arms

unfoldable pub artwork_kind_name : ArtworkKind → List ℕ
artwork_kind_name ArtworkKind.cover = codes "cover"
artwork_kind_name ArtworkKind.artist = codes "artist"
artwork_kind_name ArtworkKind.fanart = codes "fanart"
artwork_kind_name ArtworkKind.thumbnail = codes "thumbnail"
artwork_kind_name ArtworkKind.other = codes "other"

abbrev pub artwork_kind_arms : List (List ℕ × ArtworkKind)
artwork_kind_arms =
    (codes "cover", ArtworkKind.cover)
    ∷ (codes "artist", ArtworkKind.artist)
    ∷ (codes "fanart", ArtworkKind.fanart)
    ∷ (codes "thumbnail", ArtworkKind.thumbnail)
    ∷ (codes "other", ArtworkKind.other)
    ∷ []

unfoldable pub parse_artwork_kind : List ℕ → Option ArtworkKind
parse_artwork_kind value = matched value artwork_kind_arms

unfoldable pub metadata_match_kind_name : MetadataMatchKind → List ℕ
metadata_match_kind_name MetadataMatchKind.exact_identifier = codes "exact_identifier"
metadata_match_kind_name MetadataMatchKind.high_confidence = codes "high_confidence"
metadata_match_kind_name MetadataMatchKind.moderate_confidence = codes "moderate_confidence"
metadata_match_kind_name MetadataMatchKind.local_only = codes "local_only"

abbrev pub metadata_match_kind_arms : List (List ℕ × MetadataMatchKind)
metadata_match_kind_arms =
    (codes "exact_identifier", MetadataMatchKind.exact_identifier)
    ∷ (codes "high_confidence", MetadataMatchKind.high_confidence)
    ∷ (codes "moderate_confidence", MetadataMatchKind.moderate_confidence)
    ∷ (codes "local_only", MetadataMatchKind.local_only)
    ∷ []

unfoldable pub parse_metadata_match_kind : List ℕ → Option MetadataMatchKind
parse_metadata_match_kind value = matched value metadata_match_kind_arms
