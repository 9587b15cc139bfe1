-- ===== src/Providers/Tests.antt =====
-- A provider that fails three times in a row.
use harmonixia_server.Prelude.{
  ℕ, suc, String, ◌+◌, ◌≡◌, refl, arith, Bool, true, false, not, none, List, [], ◌∷◌, length, ltb,
}
use harmonixia_server.Providers.Backoff.{
  music_brainz, healthy, ProviderHealth, ProviderExecutionOutcome, has_failures,
  provider_backoff_duration, provider_backoff_active_at, apply_provider_execution_outcome,
  reconcile_provider_readiness,
}
use harmonixia_server.Providers.Backoff.Waiting.{outcomes, fails-Waits}

abbrev fresh : ProviderHealth
fresh = record {
  provider = music_brainz;
  display_name = "MusicBrainz";
  enabled = true;
  status = healthy;
  api_key_configured = false;
  maintenance_ready = true;
  failure_count = 0;
  retry_after = none;
  last_success_at = none;
  last_failure_at = none;
  message = none;
  updated_at = 0;
}

abbrev timed_out : ProviderExecutionOutcome
timed_out = record {
  provider = music_brainz;
  attempted = true;
  attempts = 3;
  successful_requests = 0;
  failures = "timed out" ∷ [];
}

abbrev first_message : ProviderExecutionOutcome → String
first_message o = elim o.failures [ [] ↦ "provider request failed" | message ∷ _ ↦ message ]

abbrev two_failures : List (ℕ × ProviderExecutionOutcome)
two_failures = (0, timed_out) ∷ (70, timed_out) ∷ []

fails-Waits_example :
    let h' : ProviderHealth =
      apply_provider_execution_outcome first_message 400 timed_out
        (outcomes first_message two_failures fresh) in
    let waits : Bool = ltb 1299 (400 + provider_backoff_duration (suc (0 + length two_failures))) in
    (provider_backoff_active_at h' 1299 ≡ waits)
    × ((reconcile_provider_readiness h' 1299).0.maintenance_ready ≡ not waits)
unfolding has_failures
fails-Waits_example =
    fails-Waits first_message two_failures 400 1299 timed_out fresh (refl, (refl, tt)) refl refl
      (omega arith)

waits_a_quarter : ltb 1299 (400 + provider_backoff_duration 3) ≡ true
unfolding provider_backoff_duration
waits_a_quarter = refl
