-- ===== src/Providers/Backoff/Waiting.antt =====
-- How long a provider is left alone after failures in a row.
use harmonixia_server.Prelude.{
  ℕ, suc, String, ◌+◌, ◌-◌, ◌^◌, ◌≤◌, ◌<◌, ◌≡◌, refl, subst, ◌∙◌, arith, Bool, true, not, List, [],
  ◌∷◌, length, ltb, Bool-cases, inl, inr, All,
}
use harmonixia_server.Providers.Backoff.{
  ProviderHealth, ProviderExecutionOutcome, has_failures, provider_backoff_duration,
  provider_backoff_active_at, next_count, apply_provider_execution_outcome, retried, readiness_of,
  readied, reconcile_provider_readiness,
}

module _ (provider_failure_message : ProviderExecutionOutcome → String) where
  -- Outcomes one after another, each with its time.
  unfoldable pub outcomes : List (ℕ × ProviderExecutionOutcome) → ProviderHealth → ProviderHealth
  outcomes [] h = h
  outcomes ((now, o) ∷ os) h =
      outcomes os (apply_provider_execution_outcome provider_failure_message now o h)

  abbrev pub Failed : (ℕ × ProviderExecutionOutcome) → Type 0
  Failed (now, o) = has_failures o ≡ true

  failed :
      (now : ℕ) (o : ProviderExecutionOutcome) (h : ProviderHealth)
      → has_failures o ≡ true
      → let h' : ProviderHealth =
          apply_provider_execution_outcome provider_failure_message now o h in
        (h'.failure_count ≡ next_count h.failure_count) × (h'.enabled ≡ h.enabled)
  unfolding apply_provider_execution_outcome
  failed now o h f = (rw f refl, rw f refl)

  counted :
      (os : List (ℕ × ProviderExecutionOutcome)) (h : ProviderHealth)
      → All Failed os
      → h.failure_count + length os ≤ 2 ^ 32 - 1
      → ((outcomes os h).failure_count ≡ h.failure_count + length os)
        × ((outcomes os h).enabled ≡ h.enabled)
  unfolding outcomes
  counted [] h f b = (omega arith, refl)
  counted ((now, o) ∷ os) h (f, fs) b =
      let (count, enabled) = failed now o h f in
      let h' : ProviderHealth = apply_provider_execution_outcome provider_failure_message now o h in
      let (counts, enables) = counted os h' fs (omega (arith, count)) in
      (omega (arith, count, counts), enables ∙ enabled)

  one_more :
      (t now : ℕ) (o : ProviderExecutionOutcome) (h : ProviderHealth)
      → has_failures o ≡ true
      → h.enabled ≡ true
      → let h' : ProviderHealth = apply_provider_execution_outcome provider_failure_message t o h in
        let waits : Bool = ltb now (t + provider_backoff_duration (next_count h.failure_count)) in
        (provider_backoff_active_at h' now ≡ waits)
        × ((reconcile_provider_readiness h' now).0.maintenance_ready ≡ not waits)
  unfolding apply_provider_execution_outcome provider_backoff_active_at reconcile_provider_readiness
      readied readiness_of retried
  one_more t now o h f e =
      let waits : Bool = ltb now (t + provider_backoff_duration (next_count h.failure_count)) in
      (
        rw (f, e) refl,
        elim (Bool-cases waits) [ inl w ↦ rw (f, e, w) refl | inr w ↦ rw (f, e, w) refl ],
      )

  -- After failures in a row of an enabled provider, the first of them on a count that the others do
  -- not overflow, and one more at `t`: until the time of the schedule for their number has passed
  -- since `t`, the provider backs off and a reconciliation leaves it out; from then on neither.
  pub fails-Waits :
      (os : List (ℕ × ProviderExecutionOutcome)) (t now : ℕ) (o : ProviderExecutionOutcome)
      (h : ProviderHealth)
      → All Failed os
      → has_failures o ≡ true
      → h.enabled ≡ true
      → h.failure_count + length os < 2 ^ 32 - 1
      → let h' : ProviderHealth =
          apply_provider_execution_outcome provider_failure_message t o (outcomes os h) in
        let waits : Bool =
          ltb now (t + provider_backoff_duration (suc (h.failure_count + length os))) in
        (provider_backoff_active_at h' now ≡ waits)
        × ((reconcile_provider_readiness h' now).0.maintenance_ready ≡ not waits)
  fails-Waits os t now o h fs f e b =
      let (counts, enables) = counted os h fs (omega arith) in
      let count : next_count (outcomes os h).failure_count ≡ suc (h.failure_count + length os) =
        omega (arith, counts) in
      subst
        (λ n.
          (provider_backoff_active_at
              (apply_provider_execution_outcome provider_failure_message t o (outcomes os h)) now
            ≡ ltb now (t + provider_backoff_duration n))
          × ((reconcile_provider_readiness
                (apply_provider_execution_outcome provider_failure_message t o (outcomes os h))
                now).0.maintenance_ready
              ≡ not (ltb now (t + provider_backoff_duration n))))
        count (one_more t now o (outcomes os h) f (enables ∙ e))
