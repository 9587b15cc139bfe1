-- ===== src/Sonos/System/Invariant.antt =====
-- What holds of the managed sessions, and of what the tasks keep, between any two steps.
use harmonixia_server.Prelude.{
  ℕ, ◌<◌, ◌≡◌, refl, ◌⊎◌, inl, inr, Bool, true, false, Option, none, some, List, All, length,
  Bool-cases, is_some, arith,
}
use harmonixia_server.Sonos.Types.{
  SonosSessionStatus, active, reconnecting, SonosQueueEntry, ManagedSonosSession,
  ManagedSonosSessionSnapshot, ManagedSonosSessionRollback,
}
use harmonixia_server.Sonos.Sessions.{Sessions, session_matches_snapshot, matching}
use harmonixia_server.Sonos.Sessions.Table.{get, Each, Held, get-Held}
use harmonixia_server.Sonos.System.{System}

-- Status, whether the position advances, deadline, first loss: a session has a deadline exactly while
-- its player is lost; then it stands still and no loss is in doubt.
abbrev pub LinkOk : SonosSessionStatus → Bool → Option ℕ → Option ℕ → Type 0
LinkOk active advancing deadline loss = deadline ≡ none
LinkOk reconnecting advancing deadline loss =
    (is_some deadline ≡ true) × (loss ≡ none) × (advancing ≡ false)

matches-id :
    (s : ManagedSonosSession) (seen : ManagedSonosSessionSnapshot)
    → session_matches_snapshot s seen ≡ true
    → s.session_id ≡ seen.session_id
unfolding session_matches_snapshot
matches-id s seen h = ground arith

-- The queue that each session was started with: a UUID is drawn once.
module _ (queue_of : ℕ → List SonosQueueEntry) where
  pub record SessionGood (s : ManagedSonosSession) : Type 0 where
    pub queued : s.queue ≡ queue_of s.session_id
    pub indexed : s.queue_index < length s.queue
    pub link :
        LinkOk s.status s.position_advancing s.reconnect_deadline s.transient_loss_observed_at

  pub record SnapshotGood (seen : ManagedSonosSessionSnapshot) : Type 0 where
    pub queued : seen.queue ≡ queue_of seen.session_id
    pub indexed : seen.queue_index < length seen.queue

  pub record RollbackGood (kept : ManagedSonosSessionSnapshot × ManagedSonosSessionRollback)
      : Type 0 where
    pub indexed : kept.1.queue_index < length (queue_of kept.0.session_id)
    pub link :
        LinkOk kept.1.status kept.1.position_advancing kept.1.reconnect_deadline
          kept.1.transient_loss_observed_at

  pub record SystemGood (st : System) : Type 0 where
    pub sessions : Each SessionGood st.sessions
    pub seen : All SnapshotGood st.seen
    pub rollbacks : All RollbackGood st.rollbacks
    pub replaced : All SessionGood st.replaced

  -- A snapshot finds no session, or a good one with its identifier.
  pub record Found (seen : ManagedSonosSessionSnapshot) (table : Sessions) : Type 0 where
    pub session : ManagedSonosSession
    pub found : matching seen table ≡ some session
    pub good : SessionGood session
    pub named : session.session_id ≡ seen.session_id

  matching_cases :
      (seen : ManagedSonosSessionSnapshot) (table : Sessions) (o : Option ManagedSonosSession)
      → get seen.target_id table ≡ o
      → Held SessionGood o
      → (matching seen table ≡ none) ⊎ Found seen table
  unfolding matching
  matching_cases seen table none e h = inl (rw (e, matching) refl)
  matching_cases seen table (some s) e h = elim (Bool-cases (session_matches_snapshot s seen)) [
    | inl m ↦ inr (record {
      session = s;
      found = rw (e, matching) (rw m refl);
      good = h;
      named = matches-id s seen m;
    })
    | inr m ↦ inl (rw (e, matching) (rw m refl))
  ]

  pub matching-Found :
      (seen : ManagedSonosSessionSnapshot) (table : Sessions)
      → Each SessionGood table
      → (matching seen table ≡ none) ⊎ Found seen table
  matching-Found seen table h = matching_cases seen table _ refl (get-Held SessionGood _ table h)
