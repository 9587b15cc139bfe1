-- ===== src/Names/StoredExact.antt =====
-- src/storage.rs: each enumeration is read back exactly by its names.
use harmonixia_server.Prelude.{some, ◌≡◌, refl}
use harmonixia_server.Playback.Types.{PlaybackItemType, PlaybackContextType}
use harmonixia_server.Providers.Backoff.{ProviderStatus}
use harmonixia_server.Names.{
  AccountRole, PlaylistScope, ImportJobKind, ImportJobStatus, CatalogMutationPolicy,
  ImportJobSource, QuarantineReason, QuarantineStatus,
}
use harmonixia_server.Names.Matched.{Inverts, matched-Inverts}
use harmonixia_server.Names.Stored.{
  account_role_name, account_role_arms, parse_account_role, playlist_scope_name,
  playlist_scope_arms, parse_playlist_scope, playback_item_type_name, playback_item_type_arms,
  parse_playback_item_type, playback_context_type_name, playback_context_type_arms,
  parse_playback_context_type, import_job_kind_name, import_job_kind_arms, parse_import_job_kind,
  import_job_status_name, import_job_status_arms, parse_import_job_status, provider_status_name,
  provider_status_arms, parse_provider_status, catalog_mutation_policy_name,
  catalog_mutation_policy_arms, parse_catalog_mutation_policy, import_job_source_name,
  import_job_source_arms, parse_import_job_source, quarantine_reason_name, quarantine_reason_arms,
  parse_quarantine_reason, quarantine_status_name, quarantine_status_arms, parse_quarantine_status,
}

read-account_role : (a : AccountRole) → parse_account_role (account_role_name a) ≡ some a
unfolding parse_account_role account_role_name
read-account_role AccountRole.admin = refl
read-account_role AccountRole.user = refl

pub account_role-Inverts : Inverts account_role_name parse_account_role
unfolding parse_account_role account_role_name
account_role-Inverts =
    matched-Inverts account_role_name account_role_arms (refl, (refl, tt)) read-account_role

read-playlist_scope : (a : PlaylistScope) → parse_playlist_scope (playlist_scope_name a) ≡ some a
unfolding parse_playlist_scope playlist_scope_name
read-playlist_scope PlaylistScope.personal = refl
read-playlist_scope PlaylistScope.shared = refl

pub playlist_scope-Inverts : Inverts playlist_scope_name parse_playlist_scope
unfolding parse_playlist_scope playlist_scope_name
playlist_scope-Inverts =
    matched-Inverts playlist_scope_name playlist_scope_arms (refl, (refl, tt)) read-playlist_scope

read-playback_item_type :
    (a : PlaybackItemType) → parse_playback_item_type (playback_item_type_name a) ≡ some a
unfolding parse_playback_item_type playback_item_type_name
read-playback_item_type PlaybackItemType.track = refl
read-playback_item_type PlaybackItemType.episode = refl

pub playback_item_type-Inverts : Inverts playback_item_type_name parse_playback_item_type
unfolding parse_playback_item_type playback_item_type_name
playback_item_type-Inverts =
    matched-Inverts playback_item_type_name playback_item_type_arms (refl, (refl, tt))
      read-playback_item_type

read-playback_context_type :
    (a : PlaybackContextType) → parse_playback_context_type (playback_context_type_name a) ≡ some a
unfolding parse_playback_context_type playback_context_type_name
read-playback_context_type PlaybackContextType.album = refl
read-playback_context_type PlaybackContextType.playlist = refl
read-playback_context_type PlaybackContextType.podcast = refl

pub playback_context_type-Inverts : Inverts playback_context_type_name parse_playback_context_type
unfolding parse_playback_context_type playback_context_type_name
playback_context_type-Inverts =
    matched-Inverts playback_context_type_name playback_context_type_arms (refl, (refl, (refl, tt)))
      read-playback_context_type

read-import_job_kind : (a : ImportJobKind) → parse_import_job_kind (import_job_kind_name a) ≡ some a
unfolding parse_import_job_kind import_job_kind_name
read-import_job_kind ImportJobKind.initial_scan = refl
read-import_job_kind ImportJobKind.dropbox_ingest = refl
read-import_job_kind ImportJobKind.full_rescan = refl
read-import_job_kind ImportJobKind.subtree_rescan = refl
read-import_job_kind ImportJobKind.provider_repair = refl
read-import_job_kind ImportJobKind.quarantine_retry = refl

pub import_job_kind-Inverts : Inverts import_job_kind_name parse_import_job_kind
unfolding parse_import_job_kind import_job_kind_name
import_job_kind-Inverts =
    matched-Inverts import_job_kind_name import_job_kind_arms
      (refl, (refl, (refl, (refl, (refl, (refl, tt)))))) read-import_job_kind

read-import_job_status :
    (a : ImportJobStatus) → parse_import_job_status (import_job_status_name a) ≡ some a
unfolding parse_import_job_status import_job_status_name
read-import_job_status ImportJobStatus.queued = refl
read-import_job_status ImportJobStatus.running = refl
read-import_job_status ImportJobStatus.completed = refl
read-import_job_status ImportJobStatus.failed = refl
read-import_job_status ImportJobStatus.quarantined = refl
read-import_job_status ImportJobStatus.retrying = refl

pub import_job_status-Inverts : Inverts import_job_status_name parse_import_job_status
unfolding parse_import_job_status import_job_status_name
import_job_status-Inverts =
    matched-Inverts import_job_status_name import_job_status_arms
      (refl, (refl, (refl, (refl, (refl, (refl, tt)))))) read-import_job_status

read-provider_status :
    (a : ProviderStatus) → parse_provider_status (provider_status_name a) ≡ some a
unfolding parse_provider_status provider_status_name
read-provider_status ProviderStatus.healthy = refl
read-provider_status ProviderStatus.degraded = refl
read-provider_status ProviderStatus.backing_off = refl
read-provider_status ProviderStatus.disabled = refl
read-provider_status ProviderStatus.unconfigured = refl

pub provider_status-Inverts : Inverts provider_status_name parse_provider_status
unfolding parse_provider_status provider_status_name
provider_status-Inverts =
    matched-Inverts provider_status_name provider_status_arms
      (refl, (refl, (refl, (refl, (refl, tt))))) read-provider_status

read-catalog_mutation_policy :
    (a : CatalogMutationPolicy)
    → parse_catalog_mutation_policy (catalog_mutation_policy_name a) ≡ some a
unfolding parse_catalog_mutation_policy catalog_mutation_policy_name
read-catalog_mutation_policy CatalogMutationPolicy.preserve_visible_until_stable_grouping = refl

pub catalog_mutation_policy-Inverts :
    Inverts catalog_mutation_policy_name parse_catalog_mutation_policy
unfolding parse_catalog_mutation_policy catalog_mutation_policy_name
catalog_mutation_policy-Inverts =
    matched-Inverts catalog_mutation_policy_name catalog_mutation_policy_arms (refl, tt)
      read-catalog_mutation_policy

read-import_job_source :
    (a : ImportJobSource) → parse_import_job_source (import_job_source_name a) ≡ some a
unfolding parse_import_job_source import_job_source_name
read-import_job_source ImportJobSource.startup_initial_scan = refl
read-import_job_source ImportJobSource.dropbox_watcher = refl
read-import_job_source ImportJobSource.admin_initial_scan = refl
read-import_job_source ImportJobSource.admin_dropbox_ingest = refl
read-import_job_source ImportJobSource.admin_full_rescan = refl
read-import_job_source ImportJobSource.admin_subtree_rescan = refl
read-import_job_source ImportJobSource.admin_provider_repair = refl
read-import_job_source ImportJobSource.quarantine_retry = refl

pub import_job_source-Inverts : Inverts import_job_source_name parse_import_job_source
unfolding parse_import_job_source import_job_source_name
import_job_source-Inverts =
    matched-Inverts import_job_source_name import_job_source_arms
      (refl, (refl, (refl, (refl, (refl, (refl, (refl, (refl, tt)))))))) read-import_job_source

read-quarantine_reason :
    (a : QuarantineReason) → parse_quarantine_reason (quarantine_reason_name a) ≡ some a
unfolding parse_quarantine_reason quarantine_reason_name
read-quarantine_reason QuarantineReason.duplicate = refl
read-quarantine_reason QuarantineReason.metadata_failure = refl
read-quarantine_reason QuarantineReason.file_error = refl
read-quarantine_reason QuarantineReason.unsupported_format = refl
read-quarantine_reason QuarantineReason.conflicting_metadata = refl

pub quarantine_reason-Inverts : Inverts quarantine_reason_name parse_quarantine_reason
unfolding parse_quarantine_reason quarantine_reason_name
quarantine_reason-Inverts =
    matched-Inverts quarantine_reason_name quarantine_reason_arms
      (refl, (refl, (refl, (refl, (refl, tt))))) read-quarantine_reason

read-quarantine_status :
    (a : QuarantineStatus) → parse_quarantine_status (quarantine_status_name a) ≡ some a
unfolding parse_quarantine_status quarantine_status_name
read-quarantine_status QuarantineStatus.«open» = refl
read-quarantine_status QuarantineStatus.retrying = refl
read-quarantine_status QuarantineStatus.resolved = refl
read-quarantine_status QuarantineStatus.deleted = refl

pub quarantine_status-Inverts : Inverts quarantine_status_name parse_quarantine_status
unfolding parse_quarantine_status quarantine_status_name
quarantine_status-Inverts =
    matched-Inverts quarantine_status_name quarantine_status_arms (refl, (refl, (refl, (refl, tt))))
      read-quarantine_status
