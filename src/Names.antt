-- ===== src/Names.antt =====
-- src/domain.rs: enumerations that have names in the API and in the database.
pub mod Matched
pub mod Stored
pub mod Catalog
pub mod Api
pub mod StoredExact
pub mod CatalogExact
pub mod Exact
pub mod Spelling
pub mod Tests

pub data AccountRole : Type 0 where
  admin user : AccountRole

pub data PlaylistScope : Type 0 where
  personal shared : PlaylistScope

pub data ImportJobKind : Type 0 where
  initial_scan dropbox_ingest full_rescan subtree_rescan provider_repair quarantine_retry :
      ImportJobKind

pub data ImportJobStatus : Type 0 where
  queued running completed failed quarantined retrying : ImportJobStatus

pub data CatalogMutationPolicy : Type 0 where
  preserve_visible_until_stable_grouping : CatalogMutationPolicy

pub data ImportJobSource : Type 0 where
  startup_initial_scan dropbox_watcher admin_initial_scan admin_dropbox_ingest admin_full_rescan
        admin_subtree_rescan admin_provider_repair quarantine_retry :
      ImportJobSource

pub data QuarantineReason : Type 0 where
  duplicate metadata_failure file_error unsupported_format conflicting_metadata : QuarantineReason

pub data QuarantineStatus : Type 0 where
  «open» retrying resolved deleted : QuarantineStatus

pub data AlbumKind : Type 0 where
  album compilation single unknown : AlbumKind

pub data MediaKind : Type 0 where
  music podcast : MediaKind

pub data MediaFileStatus : Type 0 where
  staged published duplicate quarantined failed : MediaFileStatus

pub data CatalogEntityType : Type 0 where
  artist album track podcast episode media_file playlist : CatalogEntityType

pub data ArtworkKind : Type 0 where
  cover artist fanart thumbnail other : ArtworkKind

pub data MetadataMatchKind : Type 0 where
  exact_identifier high_confidence moderate_confidence local_only : MetadataMatchKind
