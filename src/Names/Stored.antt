-- ===== src/Names/Stored.antt =====
-- src/storage.rs: how enumerations are written to the database and read back.
-- A text is the list of its characters; `none` is `InvalidStoredValue`.
use harmonixia_server.Prelude.{ℕ, Option, List, [], ◌∷◌}
use harmonixia_server.Prelude.Text.{codes}
use harmonixia_server.Playback.Types.{PlaybackItemType, PlaybackContextType}
use harmonixia_server.Providers.Backoff.{ProviderStatus}
use harmonixia_server.Names.{
  AccountRole, PlaylistScope, ImportJobKind, ImportJobStatus, CatalogMutationPolicy,
  ImportJobSource, QuarantineReason, QuarantineStatus,
}
use harmonixia_server.Names.Matched.{matched}

unfoldable pub account_role_name : AccountRole → List ℕ
account_role_name AccountRole.admin = codes "admin"
account_role_name AccountRole.user = codes "user"

abbrev pub account_role_arms : List (List ℕ × AccountRole)
account_role_arms = (codes "admin", AccountRole.admin) ∷ (codes "user", AccountRole.user) ∷ []

unfoldable pub parse_account_role : List ℕ → Option AccountRole
parse_account_role value = matched value account_role_arms

unfoldable pub playlist_scope_name : PlaylistScope → List ℕ
playlist_scope_name PlaylistScope.personal = codes "personal"
playlist_scope_name PlaylistScope.shared = codes "shared"

abbrev pub playlist_scope_arms : List (List ℕ × PlaylistScope)
playlist_scope_arms =
    (codes "personal", PlaylistScope.personal) ∷ (codes "shared", PlaylistScope.shared) ∷ []

unfoldable pub parse_playlist_scope : List ℕ → Option PlaylistScope
parse_playlist_scope value = matched value playlist_scope_arms

unfoldable pub playback_item_type_name : PlaybackItemType → List ℕ
playback_item_type_name PlaybackItemType.track = codes "track"
playback_item_type_name PlaybackItemType.episode = codes "episode"

abbrev pub playback_item_type_arms : List (List ℕ × PlaybackItemType)
playback_item_type_arms =
    (codes "track", PlaybackItemType.track) ∷ (codes "episode", PlaybackItemType.episode) ∷ []

unfoldable pub parse_playback_item_type : List ℕ → Option PlaybackItemType
parse_playback_item_type value = matched value playback_item_type_arms

unfoldable pub playback_context_type_name : PlaybackContextType → List ℕ
playback_context_type_name PlaybackContextType.album = codes "album"
playback_context_type_name PlaybackContextType.playlist = codes "playlist"
playback_context_type_name PlaybackContextType.podcast = codes "podcast"

abbrev pub playback_context_type_arms : List (List ℕ × PlaybackContextType)
playback_context_type_arms =
    (codes "album", PlaybackContextType.album)
    ∷ (codes "playlist", PlaybackContextType.playlist)
    ∷ (codes "podcast", PlaybackContextType.podcast)
    ∷ []

unfoldable pub parse_playback_context_type : List ℕ → Option PlaybackContextType
parse_playback_context_type value = matched value playback_context_type_arms

unfoldable pub import_job_kind_name : ImportJobKind → List ℕ
import_job_kind_name ImportJobKind.initial_scan = codes "initial_scan"
import_job_kind_name ImportJobKind.dropbox_ingest = codes "dropbox_ingest"
import_job_kind_name ImportJobKind.full_rescan = codes "full_rescan"
import_job_kind_name ImportJobKind.subtree_rescan = codes "subtree_rescan"
import_job_kind_name ImportJobKind.provider_repair = codes "provider_repair"
import_job_kind_name ImportJobKind.quarantine_retry = codes "quarantine_retry"

abbrev pub import_job_kind_arms : List (List ℕ × ImportJobKind)
import_job_kind_arms =
    (codes "initial_scan", ImportJobKind.initial_scan)
    ∷ (codes "dropbox_ingest", ImportJobKind.dropbox_ingest)
    ∷ (codes "full_rescan", ImportJobKind.full_rescan)
    ∷ (codes "subtree_rescan", ImportJobKind.subtree_rescan)
    ∷ (codes "provider_repair", ImportJobKind.provider_repair)
    ∷ (codes "quarantine_retry", ImportJobKind.quarantine_retry)
    ∷ []

unfoldable pub parse_import_job_kind : List ℕ → Option ImportJobKind
parse_import_job_kind value = matched value import_job_kind_arms

unfoldable pub import_job_status_name : ImportJobStatus → List ℕ
import_job_status_name ImportJobStatus.queued = codes "queued"
import_job_status_name ImportJobStatus.running = codes "running"
import_job_status_name ImportJobStatus.completed = codes "completed"
import_job_status_name ImportJobStatus.failed = codes "failed"
import_job_status_name ImportJobStatus.quarantined = codes "quarantined"
import_job_status_name ImportJobStatus.retrying = codes "retrying"

abbrev pub import_job_status_arms : List (List ℕ × ImportJobStatus)
import_job_status_arms =
    (codes "queued", ImportJobStatus.queued)
    ∷ (codes "running", ImportJobStatus.running)
    ∷ (codes "completed", ImportJobStatus.completed)
    ∷ (codes "failed", ImportJobStatus.failed)
    ∷ (codes "quarantined", ImportJobStatus.quarantined)
    ∷ (codes "retrying", ImportJobStatus.retrying)
    ∷ []

unfoldable pub parse_import_job_status : List ℕ → Option ImportJobStatus
parse_import_job_status value = matched value import_job_status_arms

unfoldable pub provider_status_name : ProviderStatus → List ℕ
provider_status_name ProviderStatus.healthy = codes "healthy"
provider_status_name ProviderStatus.degraded = codes "degraded"
provider_status_name ProviderStatus.backing_off = codes "backing_off"
provider_status_name ProviderStatus.disabled = codes "disabled"
provider_status_name ProviderStatus.unconfigured = codes "unconfigured"

abbrev pub provider_status_arms : List (List ℕ × ProviderStatus)
provider_status_arms =
    (codes "healthy", ProviderStatus.healthy)
    ∷ (codes "degraded", ProviderStatus.degraded)
    ∷ (codes "backing_off", ProviderStatus.backing_off)
    ∷ (codes "disabled", ProviderStatus.disabled)
    ∷ (codes "unconfigured", ProviderStatus.unconfigured)
    ∷ []

unfoldable pub parse_provider_status : List ℕ → Option ProviderStatus
parse_provider_status value = matched value provider_status_arms

unfoldable pub catalog_mutation_policy_name : CatalogMutationPolicy → List ℕ
catalog_mutation_policy_name CatalogMutationPolicy.preserve_visible_until_stable_grouping =
    codes "preserve_visible_until_stable_grouping"

abbrev pub catalog_mutation_policy_arms : List (List ℕ × CatalogMutationPolicy)
catalog_mutation_policy_arms =
    (
      codes "preserve_visible_until_stable_grouping",
      CatalogMutationPolicy.preserve_visible_until_stable_grouping,
    )
    ∷ []

unfoldable pub parse_catalog_mutation_policy : List ℕ → Option CatalogMutationPolicy
parse_catalog_mutation_policy value = matched value catalog_mutation_policy_arms

unfoldable pub import_job_source_name : ImportJobSource → List ℕ
import_job_source_name ImportJobSource.startup_initial_scan = codes "startup_initial_scan"
import_job_source_name ImportJobSource.dropbox_watcher = codes "dropbox_watcher"
import_job_source_name ImportJobSource.admin_initial_scan = codes "admin_initial_scan"
import_job_source_name ImportJobSource.admin_dropbox_ingest = codes "admin_dropbox_ingest"
import_job_source_name ImportJobSource.admin_full_rescan = codes "admin_full_rescan"
import_job_source_name ImportJobSource.admin_subtree_rescan = codes "admin_subtree_rescan"
import_job_source_name ImportJobSource.admin_provider_repair = codes "admin_provider_repair"
import_job_source_name ImportJobSource.quarantine_retry = codes "quarantine_retry"

abbrev pub import_job_source_arms : List (List ℕ × ImportJobSource)
import_job_source_arms =
    (codes "startup_initial_scan", ImportJobSource.startup_initial_scan)
    ∷ (codes "dropbox_watcher", ImportJobSource.dropbox_watcher)
    ∷ (codes "admin_initial_scan", ImportJobSource.admin_initial_scan)
    ∷ (codes "admin_dropbox_ingest", ImportJobSource.admin_dropbox_ingest)
    ∷ (codes "admin_full_rescan", ImportJobSource.admin_full_rescan)
    ∷ (codes "admin_subtree_rescan", ImportJobSource.admin_subtree_rescan)
    ∷ (codes "admin_provider_repair", ImportJobSource.admin_provider_repair)
    ∷ (codes "quarantine_retry", ImportJobSource.quarantine_retry)
    ∷ []

unfoldable pub parse_import_job_source : List ℕ → Option ImportJobSource
parse_import_job_source value = matched value import_job_source_arms

unfoldable pub quarantine_reason_name : QuarantineReason → List ℕ
quarantine_reason_name QuarantineReason.duplicate = codes "duplicate"
quarantine_reason_name QuarantineReason.metadata_failure = codes "metadata_failure"
quarantine_reason_name QuarantineReason.file_error = codes "file_error"
quarantine_reason_name QuarantineReason.unsupported_format = codes "unsupported_format"
quarantine_reason_name QuarantineReason.conflicting_metadata = codes "conflicting_metadata"

abbrev pub quarantine_reason_arms : List (List ℕ × QuarantineReason)
quarantine_reason_arms =
    (codes "duplicate", QuarantineReason.duplicate)
    ∷ (codes "metadata_failure", QuarantineReason.metadata_failure)
    ∷ (codes "file_error", QuarantineReason.file_error)
    ∷ (codes "unsupported_format", QuarantineReason.unsupported_format)
    ∷ (codes "conflicting_metadata", QuarantineReason.conflicting_metadata)
    ∷ []

unfoldable pub parse_quarantine_reason : List ℕ → Option QuarantineReason
parse_quarantine_reason value = matched value quarantine_reason_arms

unfoldable pub quarantine_status_name : QuarantineStatus → List ℕ
quarantine_status_name QuarantineStatus.«open» = codes "open"
quarantine_status_name QuarantineStatus.retrying = codes "retrying"
quarantine_status_name QuarantineStatus.resolved = codes "resolved"
quarantine_status_name QuarantineStatus.deleted = codes "deleted"

abbrev pub quarantine_status_arms : List (List ℕ × QuarantineStatus)
quarantine_status_arms =
    (codes "open", QuarantineStatus.«open»)
    ∷ (codes "retrying", QuarantineStatus.retrying)
    ∷ (codes "resolved", QuarantineStatus.resolved)
    ∷ (codes "deleted", QuarantineStatus.deleted)
    ∷ []

unfoldable pub parse_quarantine_status : List ℕ → Option QuarantineStatus
parse_quarantine_status value = matched value quarantine_status_arms
