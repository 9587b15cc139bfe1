-- ===== src/Sonos/Changes.antt =====
-- src/sonos.rs: the commands of a user on a `ManagedSonosSession`, the change of the current item and
-- its rollback. Each function is a closure that runs under the write lock of the session table.
pub mod Rollback
use harmonixia_server.Prelude.{
  ℕ, ◌+◌, ◌-◌, Bool, true, false, Option, none, some, List, length, get_elem?, ltb, leb,
  if◌then◌else◌,
}
use harmonixia_server.Errors.{ApiError, bad_request, Outcome, ok, err, panic}
use harmonixia_server.Sonos.Types.{
  active, SonosPlaybackTarget, SonosResolvedTarget, SonosPreparedItem, SonosQueueEntry,
  ManagedSonosSession, ManagedSonosSessionSnapshot, ManagedSonosSessionRollback,
}
use harmonixia_server.Sonos.Session.{advance_position, cache_control_target}

pub data SonosControlCommand : Type 0 where
  pause resume : SonosControlCommand
  seek : ℕ → SonosControlCommand

abbrev exceeds : ℕ → Option ℕ → Bool
exceeds position none = false
exceeds position (some duration) = ltb duration position

-- The check that `command_current_session` makes of its snapshot, before it waits for the player.
unfoldable pub command_refused : SonosControlCommand → ManagedSonosSessionSnapshot → Bool
command_refused (seek position) seen = exceeds position seen.current_duration_seconds
command_refused _ seen = false

unfoldable pub commanded_clock : SonosControlCommand → ManagedSonosSession → ManagedSonosSession
commanded_clock pause s = record s { position_advancing = false }
commanded_clock resume s = record s { position_advancing = true }
commanded_clock (seek position) s = record s { current_position_seconds = position }

-- The closure of `command_current_session`, once the player has obeyed.
unfoldable pub commanded :
    SonosControlCommand
    → SonosPlaybackTarget
    → SonosResolvedTarget
    → ℕ
    → ManagedSonosSession
    → ManagedSonosSession
commanded c latest target now s =
    record (cache_control_target target (commanded_clock c (advance_position now s))) {
      status = active;
      reconnect_deadline = none;
      transient_loss_observed_at = none;
      latest_target = latest;
      last_progress_write = some now;
      last_position_tick = now;
    }

pub data Direction : Type 0 where
  next previous : Direction

-- The index that `item_change_current_session` goes to: `next_target` passes 1, `previous_target` -1.
unfoldable pub target_index : Direction → ManagedSonosSessionSnapshot → Outcome ℕ
target_index previous seen =
    if ltb seen.queue_index 1
    then err (bad_request "already at the first Sonos queue item")
    else if leb (length seen.queue) (seen.queue_index - 1)
    then err (bad_request "already at the last Sonos queue item")
    else ok (seen.queue_index - 1)
target_index next seen =
    if leb (length seen.queue) (seen.queue_index + 1)
    then err (bad_request "already at the last Sonos queue item")
    else ok (seen.queue_index + 1)

-- `ManagedSonosSessionRollback::capture` takes the prepared item out of the session.
unfoldable pub capture : ManagedSonosSession → ManagedSonosSessionRollback
capture s = record {
  target_kind = s.target_kind;
  control_location = s.control_location;
  coordinator_location = s.coordinator_location;
  grouped_coordinator_id = s.grouped_coordinator_id;
  queue_index = s.queue_index;
  item_generation = s.item_generation;
  current_position_seconds = s.current_position_seconds;
  current_duration_seconds = s.current_duration_seconds;
  status = s.status;
  position_advancing = s.position_advancing;
  reconnect_deadline = s.reconnect_deadline;
  transient_loss_observed_at = s.transient_loss_observed_at;
  latest_target = s.latest_target;
  prepared_item = s.prepared_item;
  last_progress_write = s.last_progress_write;
  last_position_tick = s.last_position_tick;
}

unfoldable pub captured : ManagedSonosSession → ManagedSonosSession
captured s = record s { prepared_item = none }

unfoldable pub restore : ManagedSonosSessionRollback → ManagedSonosSession → ManagedSonosSession
restore r s = record s {
  target_kind = r.target_kind;
  control_location = r.control_location;
  coordinator_location = r.coordinator_location;
  grouped_coordinator_id = r.grouped_coordinator_id;
  queue_index = r.queue_index;
  item_generation = r.item_generation;
  current_position_seconds = r.current_position_seconds;
  current_duration_seconds = r.current_duration_seconds;
  status = r.status;
  position_advancing = r.position_advancing;
  reconnect_deadline = r.reconnect_deadline;
  transient_loss_observed_at = r.transient_loss_observed_at;
  latest_target = r.latest_target;
  prepared_item = r.prepared_item;
  last_progress_write = r.last_progress_write;
  last_position_tick = r.last_position_tick;
}

-- The item and the target that a change of the current item installs.
pub record ItemChange : Type 0 where
  pub index : ℕ
  pub item_generation : ℕ
  pub prepared : SonosPreparedItem
  pub target : SonosResolvedTarget
  pub at_time : ℕ

-- The assignments of `item_change_current_session` after the capture.
unfoldable pub with_item : ItemChange → Option ℕ → ManagedSonosSession → ManagedSonosSession
with_item c duration s = record (cache_control_target c.target s) {
  queue_index = c.index;
  item_generation = c.item_generation;
  current_position_seconds = 0;
  current_duration_seconds = duration;
  status = active;
  position_advancing = true;
  reconnect_deadline = none;
  transient_loss_observed_at = none;
  latest_target = c.target.public_target;
  prepared_item = some c.prepared;
  last_progress_write = some c.at_time;
  last_position_tick = c.at_time;
}

-- `session.queue[new_index]` panics out of range.
unfoldable pub changed_item : ItemChange → ManagedSonosSession → Outcome ManagedSonosSession
changed_item c s = elim (get_elem? s.queue c.index) [
  | none ↦ panic
  | some entry ↦ ok (with_item c entry.duration_seconds (captured s))
]

-- The closure of `resume_reconnected_session` that installs the current item again; `seen` is the
-- snapshot that the round began with.
unfoldable pub resumed :
    ManagedSonosSessionSnapshot → ItemChange → ManagedSonosSession → ManagedSonosSession
resumed seen c s = record (cache_control_target c.target (captured s)) {
  item_generation = c.item_generation;
  current_position_seconds = seen.current_position_seconds;
  status = active;
  position_advancing = true;
  reconnect_deadline = none;
  transient_loss_observed_at = none;
  latest_target = c.target.public_target;
  prepared_item = some c.prepared;
  last_position_tick = c.at_time;
  last_progress_write = some c.at_time;
}

-- The closure that ends `resume_reconnected_session`, once the player has started the item again.
unfoldable pub reconnected :
    ManagedSonosSessionSnapshot
    → SonosPlaybackTarget
    → SonosResolvedTarget
    → ℕ
    → ManagedSonosSession
    → ManagedSonosSession
reconnected seen latest target now s = record (cache_control_target target s) {
  current_position_seconds = seen.current_position_seconds;
  status = active;
  position_advancing = true;
  reconnect_deadline = none;
  transient_loss_observed_at = none;
  latest_target = latest;
  last_position_tick = now;
  last_progress_write = some now;
}

-- The closure of `item_change_current_session` after the player has started the item.
unfoldable pub item_started :
    SonosPlaybackTarget → SonosResolvedTarget → ℕ → ManagedSonosSession → ManagedSonosSession
item_started latest target now s = record (cache_control_target target s) {
  status = active;
  reconnect_deadline = none;
  transient_loss_observed_at = none;
  latest_target = latest;
  last_position_tick = now;
}
