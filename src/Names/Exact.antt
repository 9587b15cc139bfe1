-- ===== src/Names/Exact.antt =====
-- How the enumerations that src/storage.rs and src/catalog.rs store are read back.
use harmonixia_server.Prelude.{ℕ, List, length, ap, ◌≡◌, refl, some, arith}
use harmonixia_server.Prelude.Text.{codes}
use harmonixia_server.Providers.Backoff.{
  ProviderKind, music_brainz, cover_art_archive, discogs, fanart_tv, the_audio_db, local_sidecars,
}
use harmonixia_server.Names.Api.{provider_api_name, parse_provider_kind}
use harmonixia_server.Names.Matched.{Inverts}
use harmonixia_server.Names.Stored.{
  account_role_name, parse_account_role, playlist_scope_name, parse_playlist_scope,
  playback_item_type_name, parse_playback_item_type, playback_context_type_name,
  parse_playback_context_type, import_job_kind_name, parse_import_job_kind, import_job_status_name,
  parse_import_job_status, provider_status_name, parse_provider_status,
  catalog_mutation_policy_name, parse_catalog_mutation_policy, import_job_source_name,
  parse_import_job_source, quarantine_reason_name, parse_quarantine_reason, quarantine_status_name,
  parse_quarantine_status,
}
use harmonixia_server.Names.StoredExact.{
  account_role-Inverts, playlist_scope-Inverts, playback_item_type-Inverts,
  playback_context_type-Inverts, import_job_kind-Inverts, import_job_status-Inverts,
  provider_status-Inverts, catalog_mutation_policy-Inverts, import_job_source-Inverts,
  quarantine_reason-Inverts, quarantine_status-Inverts,
}
use harmonixia_server.Names.Catalog.{
  album_kind_name, parse_album_kind, media_kind_name, parse_media_kind, media_file_status_name,
  parse_media_file_status, entity_type_name, parse_entity_type, artwork_kind_name,
  parse_artwork_kind, metadata_match_kind_name, parse_metadata_match_kind,
}
use harmonixia_server.Names.CatalogExact.{
  album_kind-Inverts, media_kind-Inverts, media_file_status-Inverts, entity_type-Inverts,
  artwork_kind-Inverts, metadata_match_kind-Inverts,
}

-- The provider kind is the one stored enumeration that is read by its `FromStr`.
read-provider_kind : (p : ProviderKind) → parse_provider_kind (provider_api_name p) ≡ some p
unfolding parse_provider_kind provider_api_name
read-provider_kind music_brainz = refl
read-provider_kind cover_art_archive = refl
read-provider_kind discogs = refl
read-provider_kind fanart_tv = refl
read-provider_kind the_audio_db = refl
read-provider_kind local_sidecars = refl

not-Inverts-provider_kind : ¬ Inverts provider_api_name parse_provider_kind
unfolding parse_provider_kind provider_api_name
not-Inverts-provider_kind inverts =
    absurd
      (omega (arith, ap (λ (s : List ℕ). length s) ((inverts (codes "mb") music_brainz).0 refl)))

-- Each of the seventeen enumerations that are stored under names of their own is read back exactly: a
-- text is read as a value exactly when it is the name under which that value is written. The
-- eighteenth, the provider kind, is written under its name of the API: every provider is read back
-- from its name, but not from its name only.
pub stored_names :
    Inverts account_role_name parse_account_role
    × Inverts playlist_scope_name parse_playlist_scope
    × Inverts playback_item_type_name parse_playback_item_type
    × Inverts playback_context_type_name parse_playback_context_type
    × Inverts import_job_kind_name parse_import_job_kind
    × Inverts import_job_status_name parse_import_job_status
    × Inverts provider_status_name parse_provider_status
    × Inverts catalog_mutation_policy_name parse_catalog_mutation_policy
    × Inverts import_job_source_name parse_import_job_source
    × Inverts quarantine_reason_name parse_quarantine_reason
    × Inverts quarantine_status_name parse_quarantine_status
    × Inverts album_kind_name parse_album_kind
    × Inverts media_kind_name parse_media_kind
    × Inverts media_file_status_name parse_media_file_status
    × Inverts entity_type_name parse_entity_type
    × Inverts artwork_kind_name parse_artwork_kind
    × Inverts metadata_match_kind_name parse_metadata_match_kind
    × ((p : ProviderKind) → parse_provider_kind (provider_api_name p) ≡ some p)
    × (¬ Inverts provider_api_name parse_provider_kind)
stored_names = (
  account_role-Inverts, playlist_scope-Inverts, playback_item_type-Inverts,
  playback_context_type-Inverts, import_job_kind-Inverts, import_job_status-Inverts,
  provider_status-Inverts, catalog_mutation_policy-Inverts, import_job_source-Inverts,
  quarantine_reason-Inverts, quarantine_status-Inverts, album_kind-Inverts, media_kind-Inverts,
  media_file_status-Inverts, entity_type-Inverts, artwork_kind-Inverts, metadata_match_kind-Inverts,
  read-provider_kind, not-Inverts-provider_kind,
)
