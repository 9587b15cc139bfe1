-- ===== src/Sonos/System/Closures.antt =====
-- What each closure over one session keeps of the invariant.
use harmonixia_server.Prelude.{
  ℕ, ◌<◌, ◌≡◌, refl, ap, subst, sym, ◌∙◌, ◌-◌, or_option, get_elem?-lt, Bool, true, not, ◌&&◌, ◌||◌,
  Option, none, some, List, length, ltb, is_some, Bool-cases, inl, inr,
}
use harmonixia_server.Errors.{ok}
use harmonixia_server.Sonos.Types.{
  SonosSessionStatus, active, reconnecting, SonosPlaybackTarget, SonosResolvedTarget,
  SonosQueueEntry, ManagedSonosSession, ManagedSonosSessionSnapshot, ManagedSonosSessionRollback,
}
use harmonixia_server.Sonos.Session.{
  as_secs, advance_position, update_position_advancement, cache_control_target, missed,
  record_active_verification_miss, verified, heartbeat, is_active, not_due,
}
use harmonixia_server.Sonos.Changes.{
  SonosControlCommand, pause, resume, seek, commanded, commanded_clock, restore, capture,
  ItemChange, with_item, captured, changed_item, resumed, reconnected, item_started,
}
use harmonixia_server.Sonos.System.Invariant.{LinkOk, SessionGood, RollbackGood}

doubted-LinkOk :
    (status : SonosSessionStatus) (advancing : Bool) (deadline loss loss' : Option ℕ) (b : Bool)
    → is_active status && b ≡ true
    → LinkOk status advancing deadline loss
    → LinkOk status advancing deadline loss'
doubted-LinkOk active advancing deadline loss loss' b e h = h
doubted-LinkOk reconnecting advancing deadline loss loss' b e h = absurd cc

is_some-or_option : (o : Option ℕ) (n : ℕ) → is_some (or_option o (some n)) ≡ true
is_some-or_option none n = refl
is_some-or_option (some m) n = refl

module _ (queue_of : ℕ → List SonosQueueEntry) where
  pub advance_position-Good :
      (now : ℕ) (s : ManagedSonosSession)
      → SessionGood queue_of s
      → SessionGood queue_of (advance_position now s)
  unfolding advance_position
  advance_position-Good now s h =
      elim (Bool-cases (not (is_active s.status) || not s.position_advancing)) [
        | inl e ↦ rw e (record { queued = h.queued; indexed = h.indexed; link = h.link })
        | inr e ↦ rw e (elim (Bool-cases (ltb 0 (as_secs (now - s.last_position_tick)))) [
          | inl t ↦ rw t (record { queued = h.queued; indexed = h.indexed; link = h.link })
          | inr t ↦ rw t h
        ])
      ]

  pub verified-Good :
      (seen : ManagedSonosSessionSnapshot) (target : SonosResolvedTarget) (now : ℕ)
      (s : ManagedSonosSession)
      → SessionGood queue_of s
      → SessionGood queue_of (verified seen target now s)
  unfolding verified update_position_advancement cache_control_target
  verified-Good seen target now s h =
      let a = advance_position-Good now s h in
      record { queued = a.queued; indexed = a.indexed; link = refl }

  pub heartbeat-Good :
      (now : ℕ) (s : ManagedSonosSession)
      → SessionGood queue_of s
      → SessionGood queue_of (heartbeat now s).0
  unfolding heartbeat
  heartbeat-Good now s h = elim (Bool-cases (not_due now s)) [
    | inl e ↦ rw e h
    | inr e ↦ rw e (record { queued = h.queued; indexed = h.indexed; link = h.link })
  ]

  pub commanded-Good :
      (c : SonosControlCommand) (latest : SonosPlaybackTarget) (target : SonosResolvedTarget)
      (now : ℕ) (s : ManagedSonosSession)
      → SessionGood queue_of s
      → SessionGood queue_of (commanded c latest target now s)
  unfolding commanded commanded_clock cache_control_target
  commanded-Good pause latest target now s h =
      let a = advance_position-Good now s h in
      record { queued = a.queued; indexed = a.indexed; link = refl }
  commanded-Good resume latest target now s h =
      let a = advance_position-Good now s h in
      record { queued = a.queued; indexed = a.indexed; link = refl }
  commanded-Good (seek position) latest target now s h =
      let a = advance_position-Good now s h in
      record { queued = a.queued; indexed = a.indexed; link = refl }

  pub item_started-Good :
      (latest : SonosPlaybackTarget) (target : SonosResolvedTarget) (now : ℕ)
      (s : ManagedSonosSession)
      → SessionGood queue_of s
      → SessionGood queue_of (item_started latest target now s)
  unfolding item_started cache_control_target
  item_started-Good latest target now s h = record {
    queued = h.queued;
    indexed = h.indexed;
    link = refl;
  }

  pub resumed-Good :
      (seen : ManagedSonosSessionSnapshot) (c : ItemChange) (s : ManagedSonosSession)
      → SessionGood queue_of s
      → SessionGood queue_of (resumed seen c s)
  unfolding resumed cache_control_target captured
  resumed-Good seen c s h = record { queued = h.queued; indexed = h.indexed; link = refl }

  pub reconnected-Good :
      (seen : ManagedSonosSessionSnapshot) (latest : SonosPlaybackTarget)
      (target : SonosResolvedTarget) (now : ℕ) (s : ManagedSonosSession)
      → SessionGood queue_of s
      → SessionGood queue_of (reconnected seen latest target now s)
  unfolding reconnected cache_control_target
  reconnected-Good seen latest target now s h = record {
    queued = h.queued;
    indexed = h.indexed;
    link = refl;
  }

  missed-Good :
      (now : ℕ) (s : ManagedSonosSession)
      → SessionGood queue_of s
      → SessionGood queue_of (missed now s)
  unfolding missed
  missed-Good now s h =
      elim (Bool-cases (is_active s.status && not (is_some s.transient_loss_observed_at))) [
        | inl e ↦ rw e (record {
          queued = h.queued;
          indexed = h.indexed;
          link =
              doubted-LinkOk s.status s.position_advancing s.reconnect_deadline _ (some now) _ e
                h.link;
        })
        | inr e ↦ rw e (record {
          queued = h.queued;
          indexed = h.indexed;
          link = (is_some-or_option s.reconnect_deadline _, refl, refl);
        })
      ]

  pub miss-Good :
      (now : ℕ) (s : ManagedSonosSession)
      → SessionGood queue_of s
      → SessionGood queue_of (record_active_verification_miss now s)
  unfolding record_active_verification_miss
  miss-Good now s h = missed-Good now _ (advance_position-Good now s h)

  pub restore-Good :
      (seen : ManagedSonosSessionSnapshot) (r : ManagedSonosSessionRollback)
      (s : ManagedSonosSession)
      → RollbackGood queue_of (seen, r)
      → s.session_id ≡ seen.session_id
      → SessionGood queue_of s
      → SessionGood queue_of (restore r s)
  unfolding restore
  restore-Good seen r s g e h = record {
    queued = h.queued;
    indexed = subst (λ q. r.queue_index < length q) (sym (h.queued ∙ ap queue_of e)) g.indexed;
    link = g.link;
  }

  pub capture-Good :
      (seen : ManagedSonosSessionSnapshot) (s : ManagedSonosSession)
      → s.session_id ≡ seen.session_id
      → SessionGood queue_of s
      → RollbackGood queue_of (seen, capture s)
  unfolding capture
  capture-Good seen s e h = record {
    indexed = subst (λ q. s.queue_index < length q) (h.queued ∙ ap queue_of e) h.indexed;
    link = h.link;
  }

  pub changed_item-Good :
      (c : ItemChange) (s : ManagedSonosSession)
      → c.index < length s.queue
      → SessionGood queue_of s
      → (s' : ManagedSonosSession) × (changed_item c s ≡ ok s') × SessionGood queue_of s'
  unfolding changed_item with_item captured cache_control_target
  changed_item-Good c s b h =
      let (entry, e) = get_elem?-lt s.queue c.index b in
      (
        with_item c entry.duration_seconds (captured s),
        rw (e, changed_item) refl,
        record { queued = h.queued; indexed = b; link = refl },
      )
