-- ===== src/Sonos/System.antt =====
-- src/sonos.rs: the tasks of the server on the managed sessions, interleaved. A task takes a
-- snapshot of a session, waits for the network, and then changes the session if it still is the one
-- of the snapshot. The model keeps every snapshot ever taken and every rollback ever captured, so a
-- task may go on at any later moment, after any steps of the others.
pub mod Steps
pub mod Invariant
pub mod Closures
pub mod Preservation
pub mod Soundness
use harmonixia_server.Prelude.{
  ℕ, String, Bool, true, false, ◌||◌, Option, none, some, List, [], ◌∷◌, ltb, leb, is_empty, length,
  get_elem?, if◌then◌else◌,
}
use harmonixia_server.Errors.{Outcome, ok, err, panic, ◌>>=◌, bad_request}
use harmonixia_server.Playback.Types.{PlaybackContextType}
use harmonixia_server.Sonos.Types.{
  active, SonosPlaybackTarget, SonosResolvedTarget, SonosPreparedItem, SonosQueueEntry,
  ManagedSonosSession, ManagedSonosSessionSnapshot, ManagedSonosSessionRollback,
}
use harmonixia_server.Sonos.Session.{
  snapshot, is_active, verified, record_active_verification_miss, heartbeat,
  reconnect_deadline_elapsed, advance_position,
}
use harmonixia_server.Sonos.Changes.{
  SonosControlCommand, command_refused, commanded, Direction, target_index, ItemChange,
  changed_item, capture, restore, resumed, item_started,
}
use harmonixia_server.Sonos.Sessions.{
  Sessions, insert, remove, remove_snapshot, update_snapshot, snapshot_of, matching,
}
use harmonixia_server.Sonos.Sessions.Table.{put}

pub record SonosStart : Type 0 where
  pub target_id : String
  pub resolved_target : SonosResolvedTarget
  pub owner_id : ℕ
  pub owner_username : String
  pub queue : List SonosQueueEntry
  pub context_type : Option PlaybackContextType
  pub context_id : Option ℕ
  pub queue_index : ℕ
  pub position_seconds : ℕ
  pub session_id : ℕ
  pub session_generation : ℕ
  pub prepared_item : SonosPreparedItem
  pub now : ℕ

abbrev pub past_end : ℕ → Option ℕ → Bool
past_end position none = false
past_end position (some duration) = ltb duration position

-- The session that `start_managed_sonos_session` makes of the entry at the index.
unfoldable pub new_session : SonosStart → Option ℕ → ManagedSonosSession
new_session r duration = record {
  target_id = r.target_id;
  target_kind = r.resolved_target.kind;
  control_location = r.resolved_target.control_location;
  coordinator_location = r.resolved_target.coordinator_location;
  grouped_coordinator_id = r.resolved_target.grouped_coordinator_id;
  owner_account_id = r.owner_id;
  owner_username = r.owner_username;
  context_type = r.context_type;
  context_id = r.context_id;
  session_id = r.session_id;
  session_generation = r.session_generation;
  item_generation = 1;
  queue = r.queue;
  queue_index = r.queue_index;
  current_position_seconds = r.position_seconds;
  current_duration_seconds = duration;
  status = active;
  position_advancing = true;
  reconnect_deadline = none;
  transient_loss_observed_at = none;
  latest_target = r.resolved_target.public_target;
  prepared_item = some r.prepared_item;
  last_progress_write = some r.now;
  last_position_tick = r.now;
}

-- `start_managed_sonos_session` up to the insertion: the checks of the queue and of the position.
-- Indexing the queue panics out of range.
unfoldable pub start_managed_sonos_session : SonosStart → Outcome ManagedSonosSession
start_managed_sonos_session r =
    if is_empty r.queue || leb (length r.queue) r.queue_index
    then err (bad_request "Sonos playback snapshot has an invalid queue index")
    else elim (get_elem? r.queue r.queue_index) [
      | none ↦ panic
      | some entry ↦
          if past_end r.position_seconds entry.duration_seconds
          then err (bad_request "position_seconds exceeds current item duration")
          else ok (new_session r entry.duration_seconds)
    ]

pub record System : Type 0 where
  pub sessions : Sessions
  pub seen : List ManagedSonosSessionSnapshot
  pub rollbacks : List (ManagedSonosSessionSnapshot × ManagedSonosSessionRollback)
  pub replaced : List ManagedSonosSession

unfoldable pub empty : System
empty = record { sessions = []; seen = []; rollbacks = []; replaced = [] }
