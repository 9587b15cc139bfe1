-- ===== src/Sonos/Session.antt =====
-- src/sonos.rs: the clock of a `ManagedSonosSession`, and its life between losing its player and
-- finding it again. Each function is a closure that runs under the write lock of the session table.
use harmonixia_server.Prelude.{
  ℕ, ◌+◌, ◌-◌, ◌*◌, ◌/◌, ◌%◌, ◌^◌, min, Bool, true, false, not, ◌&&◌, ◌||◌, Option, none, some, ltb,
  leb, if◌then◌else◌, is_some, unwrap_or, or_option,
}
use harmonixia_server.Sonos.Types.{
  SonosSessionStatus, active, reconnecting, SonosTransportState, transport_playing,
  SonosPlaybackTarget, speaker, group, SonosResolvedTarget, ManagedSonosSession,
  ManagedSonosSessionSnapshot,
}

abbrev pub second : ℕ
second = 1000000000

-- The constants `RECONNECT_WINDOW` and `HEARTBEAT_INTERVAL`.
abbrev pub reconnect_window : ℕ
reconnect_window = 15 * second

abbrev pub heartbeat_interval : ℕ
heartbeat_interval = 30 * second

abbrev pub is_active : SonosSessionStatus → Bool
is_active active = true
is_active reconnecting = false

-- `u32::saturating_add`.
abbrev pub saturating_add : ℕ → ℕ → ℕ
saturating_add a b = min (a + b) (2 ^ 32 - 1)

-- `duration.as_secs()`; `saturating_duration_since` is `-`, which stops at 0.
abbrev pub as_secs : ℕ → ℕ
as_secs d = d / second

unfoldable pub snapshot : ManagedSonosSession → ManagedSonosSessionSnapshot
snapshot s = record {
  target_id = s.target_id;
  target_kind = s.target_kind;
  latest_target = s.latest_target;
  control_location = s.control_location;
  coordinator_location = s.coordinator_location;
  grouped_coordinator_id = s.grouped_coordinator_id;
  owner_account_id = s.owner_account_id;
  context_type = s.context_type;
  context_id = s.context_id;
  session_id = s.session_id;
  session_generation = s.session_generation;
  item_generation = s.item_generation;
  queue = s.queue;
  queue_index = s.queue_index;
  current_position_seconds = s.current_position_seconds;
  current_duration_seconds = s.current_duration_seconds;
  status = s.status;
  position_advancing = s.position_advancing;
  reconnect_deadline = s.reconnect_deadline;
  transient_loss_observed_at = s.transient_loss_observed_at;
}

unfoldable pub cache_control_target :
    SonosResolvedTarget → ManagedSonosSession → ManagedSonosSession
cache_control_target t s = record s {
  target_kind = t.kind;
  control_location = t.control_location;
  coordinator_location = t.coordinator_location;
  grouped_coordinator_id = t.grouped_coordinator_id;
}

-- The position `seconds` later, held at the duration; `as u32` wraps.
unfoldable pub next_position : ℕ → ℕ → Option ℕ → ℕ
next_position position seconds none = saturating_add position (seconds % 2 ^ 32)
next_position position seconds (some duration) =
    min (saturating_add position (seconds % 2 ^ 32)) duration

unfoldable pub advance_position : ℕ → ManagedSonosSession → ManagedSonosSession
advance_position now s =
    if not (is_active s.status) || not s.position_advancing
    then record s { last_position_tick = now }
    else if ltb 0 (as_secs (now - s.last_position_tick))
    then record s {
      current_position_seconds =
          next_position s.current_position_seconds (as_secs (now - s.last_position_tick))
            s.current_duration_seconds;
      last_position_tick = now;
    }
    else s

unfoldable pub update_position_advancement : ℕ → Bool → ManagedSonosSession → ManagedSonosSession
update_position_advancement now advancing s = record (advance_position now s) {
  position_advancing = advancing;
  last_position_tick = now;
}

-- What `record_active_verification_miss` does after the clock was advanced.
unfoldable pub missed : ℕ → ManagedSonosSession → ManagedSonosSession
missed now s =
    if is_active s.status && not (is_some s.transient_loss_observed_at)
    then record s { transient_loss_observed_at = some now; last_position_tick = now }
    else record s {
      status = reconnecting;
      position_advancing = false;
      reconnect_deadline =
          or_option s.reconnect_deadline
            (some (unwrap_or s.transient_loss_observed_at now + reconnect_window));
      transient_loss_observed_at = none;
      last_position_tick = now;
    }

unfoldable pub record_active_verification_miss : ℕ → ManagedSonosSession → ManagedSonosSession
record_active_verification_miss now s = missed now (advance_position now s)

unfoldable pub target_transport_state : SonosPlaybackTarget → Option SonosTransportState
target_transport_state (speaker t) = t.transport_state
target_transport_state (group t) = t.transport_state

abbrev is_playing : SonosTransportState → Bool
is_playing transport_playing = true
is_playing _ = false

unfoldable pub position_advancing_for_transport : Option SonosTransportState → Option Bool
position_advancing_for_transport none = none
position_advancing_for_transport (some t) = some (is_playing t)

-- The branch of `reconcile_active_sessions` for a player that answers and was not being reconnected;
-- `seen` is the snapshot that the round began with.
unfoldable pub verified :
    ManagedSonosSessionSnapshot
    → SonosResolvedTarget
    → ℕ
    → ManagedSonosSession
    → ManagedSonosSession
verified seen target now s =
    let advancing : Bool =
      unwrap_or (position_advancing_for_transport (target_transport_state target.public_target))
        seen.position_advancing in
    record (cache_control_target target (update_position_advancement now advancing s)) {
      latest_target = target.public_target;
      status = active;
      reconnect_deadline = none;
      transient_loss_observed_at = none;
    }

abbrev passed : ℕ → Option ℕ → Bool
passed now none = false
passed now (some deadline) = leb deadline now

unfoldable pub reconnect_deadline_elapsed : ManagedSonosSessionSnapshot → ℕ → Bool
reconnect_deadline_elapsed s now = not (is_active s.status) && passed now s.reconnect_deadline

abbrev fresh_write : ℕ → Option ℕ → Bool
fresh_write now none = false
fresh_write now (some last) = ltb (now - last) heartbeat_interval

abbrev pub not_due : ℕ → ManagedSonosSession → Bool
not_due now s =
    not (is_active s.status) || not s.position_advancing || fresh_write now s.last_progress_write

-- The closure of `maybe_write_heartbeat`: the session it leaves, and what is to be written.
unfoldable pub heartbeat :
    ℕ → ManagedSonosSession → ManagedSonosSession × Option ManagedSonosSessionSnapshot
heartbeat now s = if not_due now s then (s, none) else (
  record s { last_progress_write = some now },
  some (snapshot (record s { last_progress_write = some now })),
)
