-- ===== src/Providers/Backoff.antt =====
-- src/pipeline.rs, `apply_provider_execution_outcome`, and src/providers.rs,
-- `reconcile_provider_readiness`: how long a provider that failed is left alone. Times are seconds;
-- a status is compared, never ordered.
pub mod Waiting
use harmonixia_server.Prelude.{
  ℕ, suc, String, ◌+◌, ◌-◌, ◌^◌, min, Bool, true, false, not, ◌&&◌, ◌||◌, ◌==◌, str_eq, Option,
  none, some, List, [], ◌∷◌, ltb, is_empty, if◌then◌else◌,
}

pub data ProviderKind : Type 0 where
  music_brainz cover_art_archive discogs fanart_tv the_audio_db local_sidecars : ProviderKind

pub data ProviderStatus : Type 0 where
  healthy degraded backing_off disabled unconfigured : ProviderStatus

pub record ProviderHealth : Type 0 where
  pub provider : ProviderKind
  pub display_name : String
  pub enabled : Bool
  pub status : ProviderStatus
  pub api_key_configured : Bool
  pub maintenance_ready : Bool
  pub failure_count : ℕ  -- u32
  pub retry_after : Option ℕ
  pub last_success_at : Option ℕ
  pub last_failure_at : Option ℕ
  pub message : Option String
  pub updated_at : ℕ

pub record ProviderExecutionOutcome : Type 0 where
  pub provider : ProviderKind
  pub attempted : Bool
  pub attempts : ℕ
  pub successful_requests : ℕ
  pub failures : List String

unfoldable pub has_failures : ProviderExecutionOutcome → Bool
has_failures o = not (is_empty o.failures)

unfoldable pub provider_backoff_duration : ℕ → ℕ
provider_backoff_duration failure_count =
    if ltb failure_count 2
    then 60
    else if ltb failure_count 3
    then 300
    else if ltb failure_count 4
    then 900
    else 3600

abbrev pub is_backing_off : ProviderStatus → Bool
is_backing_off backing_off = true
is_backing_off _ = false

abbrev pub is_later : Option ℕ → ℕ → Bool
is_later none now = false
is_later (some t) now = ltb now t

unfoldable pub provider_backoff_active_at : ProviderHealth → ℕ → Bool
provider_backoff_active_at h now =
    h.enabled && (is_backing_off h.status && is_later h.retry_after now)

-- `u32::saturating_add(1)`.
abbrev pub next_count : ℕ → ℕ
next_count n = min (n + 1) (2 ^ 32 - 1)

-- The text that `provider_failure_message` makes of an outcome is an argument.
module _ (provider_failure_message : ProviderExecutionOutcome → String) where
  unfoldable pub apply_provider_execution_outcome :
      ℕ → ProviderExecutionOutcome → ProviderHealth → ProviderHealth
  apply_provider_execution_outcome now o h =
      if has_failures o
      then record h {
        updated_at = now;
        failure_count = next_count h.failure_count;
        status = backing_off;
        maintenance_ready = false;
        last_failure_at = some now;
        retry_after = some (now + provider_backoff_duration (next_count h.failure_count));
        message = some (provider_failure_message o);
      }
      else if ltb 0 o.successful_requests
      then record h {
        updated_at = now;
        failure_count = 0;
        status = healthy;
        maintenance_ready = true;
        retry_after = none;
        last_success_at = some now;
        message = none;
      }
      else record h { updated_at = now }

abbrev pub elapsed_message : String
elapsed_message = "Provider retry backoff has elapsed; maintenance can retry this provider."

-- The branch of a provider that is backing off.
unfoldable pub retried : Option ℕ → Bool → ProviderHealth → ProviderHealth
retried retry_after true h = record h { maintenance_ready = false }
retried none false h = record h { maintenance_ready = false }
retried (some t) false h = record h {
  status = degraded;
  maintenance_ready = true;
  retry_after = none;
  message = some elapsed_message;
}

unfoldable pub readiness_of : ProviderStatus → ProviderHealth → ℕ → ProviderHealth
readiness_of disabled h now = record h { maintenance_ready = false }
readiness_of unconfigured h now = record h { maintenance_ready = false }
readiness_of backing_off h now = retried h.retry_after (provider_backoff_active_at h now) h
readiness_of healthy h now = h
readiness_of degraded h now = h

unfoldable pub readied : ProviderHealth → ℕ → ProviderHealth
readied h now =
    if h.enabled then readiness_of h.status h now else record h { maintenance_ready = false }

abbrev same_status : ProviderStatus → ProviderStatus → Bool
same_status healthy healthy = true
same_status degraded degraded = true
same_status backing_off backing_off = true
same_status disabled disabled = true
same_status unconfigured unconfigured = true
same_status _ _ = false

abbrev same_flag : Bool → Bool → Bool
same_flag true b = b
same_flag false b = not b

abbrev same_option {ℓ} : {A : Type ℓ} → (A → A → Bool) → Option A → Option A → Bool
same_option eq none none = true
same_option eq (some a) (some b) = eq a b
same_option eq _ _ = false

unfoldable pub is_changed : ProviderHealth → ProviderHealth → Bool
is_changed h h' =
    not (same_status h'.status h.status)
    || not (same_flag h'.maintenance_ready h.maintenance_ready)
    || not (same_option (λ a b. a == b) h'.retry_after h.retry_after)
    || not (same_option (λ a b. str_eq a b) h'.message h.message)

-- The health that is left, and whether it changed.
unfoldable pub reconcile_provider_readiness : ProviderHealth → ℕ → ProviderHealth × Bool
reconcile_provider_readiness h now =
    let h' : ProviderHealth = readied h now in
    let changed : Bool = is_changed h h' in
    (record h' { updated_at = if changed then now else h'.updated_at }, changed)
