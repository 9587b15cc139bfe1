-- ===== src/Names/CatalogExact.antt =====
-- src/catalog.rs: each enumeration is read back exactly by its names.
use harmonixia_server.Prelude.{some, ◌≡◌, refl}
use harmonixia_server.Names.{
  AlbumKind, MediaKind, MediaFileStatus, CatalogEntityType, ArtworkKind, MetadataMatchKind,
}
use harmonixia_server.Names.Matched.{Inverts, matched-Inverts}
use harmonixia_server.Names.Catalog.{
  album_kind_name, album_kind_arms, parse_album_kind, media_kind_name, media_kind_arms,
  parse_media_kind, media_file_status_name, media_file_status_arms, parse_media_file_status,
  entity_type_name, entity_type_arms, parse_entity_type, artwork_kind_name, artwork_kind_arms,
  parse_artwork_kind, metadata_match_kind_name, metadata_match_kind_arms, parse_metadata_match_kind,
}

read-album_kind : (a : AlbumKind) → parse_album_kind (album_kind_name a) ≡ some a
unfolding parse_album_kind album_kind_name
read-album_kind AlbumKind.album = refl
read-album_kind AlbumKind.compilation = refl
read-album_kind AlbumKind.single = refl
read-album_kind AlbumKind.unknown = refl

pub album_kind-Inverts : Inverts album_kind_name parse_album_kind
unfolding parse_album_kind album_kind_name
album_kind-Inverts =
    matched-Inverts album_kind_name album_kind_arms (refl, (refl, (refl, (refl, tt))))
      read-album_kind

read-media_kind : (a : MediaKind) → parse_media_kind (media_kind_name a) ≡ some a
unfolding parse_media_kind media_kind_name
read-media_kind MediaKind.music = refl
read-media_kind MediaKind.podcast = refl

pub media_kind-Inverts : Inverts media_kind_name parse_media_kind
unfolding parse_media_kind media_kind_name
media_kind-Inverts =
    matched-Inverts media_kind_name media_kind_arms (refl, (refl, tt)) read-media_kind

read-media_file_status :
    (a : MediaFileStatus) → parse_media_file_status (media_file_status_name a) ≡ some a
unfolding parse_media_file_status media_file_status_name
read-media_file_status MediaFileStatus.staged = refl
read-media_file_status MediaFileStatus.published = refl
read-media_file_status MediaFileStatus.duplicate = refl
read-media_file_status MediaFileStatus.quarantined = refl
read-media_file_status MediaFileStatus.failed = refl

pub media_file_status-Inverts : Inverts media_file_status_name parse_media_file_status
unfolding parse_media_file_status media_file_status_name
media_file_status-Inverts =
    matched-Inverts media_file_status_name media_file_status_arms
      (refl, (refl, (refl, (refl, (refl, tt))))) read-media_file_status

read-entity_type : (a : CatalogEntityType) → parse_entity_type (entity_type_name a) ≡ some a
unfolding parse_entity_type entity_type_name
read-entity_type CatalogEntityType.artist = refl
read-entity_type CatalogEntityType.album = refl
read-entity_type CatalogEntityType.track = refl
read-entity_type CatalogEntityType.podcast = refl
read-entity_type CatalogEntityType.episode = refl
read-entity_type CatalogEntityType.media_file = refl
read-entity_type CatalogEntityType.playlist = refl

pub entity_type-Inverts : Inverts entity_type_name parse_entity_type
unfolding parse_entity_type entity_type_name
entity_type-Inverts =
    matched-Inverts entity_type_name entity_type_arms
      (refl, (refl, (refl, (refl, (refl, (refl, (refl, tt))))))) read-entity_type

read-artwork_kind : (a : ArtworkKind) → parse_artwork_kind (artwork_kind_name a) ≡ some a
unfolding parse_artwork_kind artwork_kind_name
read-artwork_kind ArtworkKind.cover = refl
read-artwork_kind ArtworkKind.artist = refl
read-artwork_kind ArtworkKind.fanart = refl
read-artwork_kind ArtworkKind.thumbnail = refl
read-artwork_kind ArtworkKind.other = refl

pub artwork_kind-Inverts : Inverts artwork_kind_name parse_artwork_kind
unfolding parse_artwork_kind artwork_kind_name
artwork_kind-Inverts =
    matched-Inverts artwork_kind_name artwork_kind_arms (refl, (refl, (refl, (refl, (refl, tt)))))
      read-artwork_kind

read-metadata_match_kind :
    (a : MetadataMatchKind) → parse_metadata_match_kind (metadata_match_kind_name a) ≡ some a
unfolding parse_metadata_match_kind metadata_match_kind_name
read-metadata_match_kind MetadataMatchKind.exact_identifier = refl
read-metadata_match_kind MetadataMatchKind.high_confidence = refl
read-metadata_match_kind MetadataMatchKind.moderate_confidence = refl
read-metadata_match_kind MetadataMatchKind.local_only = refl

pub metadata_match_kind-Inverts : Inverts metadata_match_kind_name parse_metadata_match_kind
unfolding parse_metadata_match_kind metadata_match_kind_name
metadata_match_kind-Inverts =
    matched-Inverts metadata_match_kind_name metadata_match_kind_arms
      (refl, (refl, (refl, (refl, tt)))) read-metadata_match_kind
