-- ===== src/Sonos/Changes/Rollback.antt =====
-- Taking back a change of the current item.
use harmonixia_server.Prelude.{
  ℕ, String, ◌-◌, ◌≡◌, refl, sym, ◌∙◌, ap, Bool-cases, Option-cases, inl, inr, not, ◌&&◌, ◌||◌, ltb,
  is_some, Option, List, [], ◌∷◌, get_elem?,
}
use harmonixia_server.Errors.{Outcome, ok, err, panic}
use harmonixia_server.Playback.Types.{PlaybackContextType}
use harmonixia_server.Sonos.Types.{
  SonosResolvedTarget, SonosQueueEntry, ManagedSonosSession, ManagedSonosSessionSnapshot,
  ManagedSonosSessionRollback,
}
use harmonixia_server.Sonos.Session.{
  as_secs, is_active, advance_position, update_position_advancement, cache_control_target, missed,
  record_active_verification_miss, verified, heartbeat, not_due,
}
use harmonixia_server.Sonos.Rounds.{Round, answers, misses, resumes, round, rounds}
use harmonixia_server.Sonos.Changes.{
  ItemChange, capture, captured, restore, with_item, changed_item, resumed, reconnected,
}

-- What a rollback does not carry, since nothing that a task does changes it.
record Identity : Type 0 where
  target_id : String
  owner_account_id : ℕ
  owner_username : String
  context_type : Option PlaybackContextType
  context_id : Option ℕ
  session_id : ℕ
  session_generation : ℕ
  queue : List SonosQueueEntry

unfoldable identity : ManagedSonosSession → Identity
identity s = record {
  target_id = s.target_id;
  owner_account_id = s.owner_account_id;
  owner_username = s.owner_username;
  context_type = s.context_type;
  context_id = s.context_id;
  session_id = s.session_id;
  session_generation = s.session_generation;
  queue = s.queue;
}

rebuild : ManagedSonosSessionRollback → Identity → ManagedSonosSession
rebuild r i = record {
  target_id = i.target_id;
  target_kind = r.target_kind;
  control_location = r.control_location;
  coordinator_location = r.coordinator_location;
  grouped_coordinator_id = r.grouped_coordinator_id;
  owner_account_id = i.owner_account_id;
  owner_username = i.owner_username;
  context_type = i.context_type;
  context_id = i.context_id;
  session_id = i.session_id;
  session_generation = i.session_generation;
  item_generation = r.item_generation;
  queue = i.queue;
  queue_index = r.queue_index;
  current_position_seconds = r.current_position_seconds;
  current_duration_seconds = r.current_duration_seconds;
  status = r.status;
  position_advancing = r.position_advancing;
  reconnect_deadline = r.reconnect_deadline;
  transient_loss_observed_at = r.transient_loss_observed_at;
  latest_target = r.latest_target;
  prepared_item = r.prepared_item;
  last_progress_write = r.last_progress_write;
  last_position_tick = r.last_position_tick;
}

restore-capture :
    (s s' : ManagedSonosSession) → identity s' ≡ identity s → restore (capture s) s' ≡ s
unfolding restore capture identity rebuild
restore-capture s s' e = ap (rebuild (capture s)) e

identity-advance :
    (now : ℕ) (s : ManagedSonosSession) → identity (advance_position now s) ≡ identity s
unfolding identity advance_position
identity-advance now s = elim (Bool-cases (not (is_active s.status) || not s.position_advancing)) [
  | inl e ↦ rw e refl
  | inr e ↦ rw e (elim (Bool-cases (ltb 0 (as_secs (now - s.last_position_tick)))) [
    | inl t ↦ rw t refl
    | inr t ↦ rw t refl
  ])
]

identity-missed : (now : ℕ) (s : ManagedSonosSession) → identity (missed now s) ≡ identity s
unfolding identity missed
identity-missed now s =
    elim (Bool-cases (is_active s.status && not (is_some s.transient_loss_observed_at))) [
      | inl e ↦ rw e refl
      | inr e ↦ rw e refl
    ]

identity-heartbeat : (now : ℕ) (s : ManagedSonosSession) → identity (heartbeat now s).0 ≡ identity s
unfolding identity heartbeat
identity-heartbeat now s = elim (Bool-cases (not_due now s)) [
  | inl e ↦ rw e refl
  | inr e ↦ rw e refl
]

identity-verified :
    (seen : ManagedSonosSessionSnapshot) (target : SonosResolvedTarget) (now : ℕ)
    (s : ManagedSonosSession)
    → identity (verified seen target now s) ≡ identity (advance_position now s)
unfolding identity verified update_position_advancement cache_control_target
identity-verified seen target now s = refl

identity-round : (r : Round) (s : ManagedSonosSession) → identity (round r s) ≡ identity s
unfolding round record_active_verification_miss resumed reconnected captured cache_control_target
    identity
identity-round (answers seen target now) s =
    identity-heartbeat now _ ∙ identity-verified seen target now s ∙ identity-advance now s
identity-round (misses now) s =
    identity-missed now (advance_position now s) ∙ identity-advance now s
identity-round (resumes seen c latest now) s = refl

identity-rounds : (rs : List Round) (s : ManagedSonosSession) → identity (rounds rs s) ≡ identity s
unfolding rounds
identity-rounds [] s = refl
identity-rounds (r ∷ rs) s = identity-rounds rs (round r s) ∙ identity-round r s

identity_or : Identity → Outcome ManagedSonosSession → Identity
identity_or i (ok s) = identity s
identity_or i (err e) = i
identity_or i panic = i

identity_or-changed_item :
    (c : ItemChange) (s : ManagedSonosSession)
    → identity_or (identity s) (changed_item c s) ≡ identity s
unfolding identity_or identity changed_item with_item captured cache_control_target
identity_or-changed_item c s = elim (Option-cases (get_elem? s.queue c.index)) [
  | inl e ↦ rw (e, identity_or) refl
  | inr (entry, e) ↦ rw (e, identity_or) refl
]

identity-changed_item :
    (c : ItemChange) (s s' : ManagedSonosSession)
    → changed_item c s ≡ ok s'
    → identity s' ≡ identity s
unfolding identity_or
identity-changed_item c s s' h =
    sym (ap (identity_or (identity s)) h) ∙ identity_or-changed_item c s

-- A change of the item that was installed is undone by its rollback without a trace, the prepared
-- item that the capture took out included, and so is all that any rounds of the loop did to the
-- session between the change and the rollback.
pub restore-changed_item :
    (c : ItemChange) (s s' : ManagedSonosSession) (rs : List Round)
    → changed_item c s ≡ ok s'
    → restore (capture s) (rounds rs s') ≡ s
restore-changed_item c s s' rs h =
    restore-capture s (rounds rs s') (identity-rounds rs s' ∙ identity-changed_item c s s' h)
