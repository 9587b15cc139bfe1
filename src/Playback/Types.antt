-- ===== src/Playback/Types.antt =====
-- src/state.rs and src/domain.rs: the data of a playback session. Identifiers, times and durations are
-- numbers (times in seconds from some origin); identifiers are only compared.
use harmonixia_server.Prelude.{ℕ, String, ◌%◌, ◌^◌, Bool, true, false, Option, none, some, List, []}

pub data PlaybackItemType : Type 0 where
  track episode : PlaybackItemType

pub data PlaybackContextType : Type 0 where
  album playlist podcast : PlaybackContextType

pub data PlaybackRepeatMode : Type 0 where
  off one all : PlaybackRepeatMode

pub data PlaybackSessionState : Type 0 where
  stopped playing paused buffering : PlaybackSessionState

pub data PlaybackTransferState : Type 0 where
  pending confirmed failed : PlaybackTransferState

pub data PlaybackSessionTarget : Type 0 where
  local_android : Option ℕ → PlaybackSessionTarget
  sonos : String → PlaybackSessionTarget

pub record PlaybackSessionQueueItem : Type 0 where
  pub item_type : PlaybackItemType
  pub item_id : ℕ
  pub duration_seconds : Option ℕ

pub record PlaybackSessionAttachment : Type 0 where
  pub attachment_id : ℕ
  pub device_id : Option String
  pub device_name : Option String
  pub app_instance_id : Option String
  pub attached_at : ℕ

pub record PlaybackSessionTransfer : Type 0 where
  pub transfer_id : ℕ
  pub state : PlaybackTransferState
  pub requested_target : PlaybackSessionTarget
  pub confirmed_target : Option PlaybackSessionTarget
  pub requested_at : ℕ
  pub confirmed_at : Option ℕ
  pub failure_reason : Option String

pub record PlaybackSessionRuntime : Type 0 where
  pub session_id : ℕ
  pub queue : List PlaybackSessionQueueItem
  pub context_type : Option PlaybackContextType
  pub context_id : Option ℕ
  pub current_index : Option ℕ  -- usize
  pub playback_state : PlaybackSessionState
  pub position_seconds : ℕ
  pub duration_seconds : Option ℕ
  pub repeat_mode : PlaybackRepeatMode
  pub shuffle : Bool
  pub active_target : PlaybackSessionTarget
  pub attachment : Option PlaybackSessionAttachment
  pub transfer : Option PlaybackSessionTransfer
  pub revision : ℕ
  pub snapshot_at : ℕ

pub record PlaybackSessionReadModel : Type 0 where
  pub session_id : ℕ
  pub queue : List PlaybackSessionQueueItem
  pub context_type : Option PlaybackContextType
  pub context_id : Option ℕ
  pub current_index : Option ℕ  -- u32
  pub playback_state : PlaybackSessionState
  pub position_seconds : ℕ
  pub duration_seconds : Option ℕ
  pub repeat_mode : PlaybackRepeatMode
  pub shuffle : Bool
  pub active_target : PlaybackSessionTarget
  pub attachment : Option PlaybackSessionAttachment
  pub transfer : Option PlaybackSessionTransfer
  pub revision : ℕ
  pub snapshot_at : ℕ

pub record PlaybackSessionQueueReplacement : Type 0 where
  pub queue : List PlaybackSessionQueueItem
  pub context_type : Option PlaybackContextType
  pub context_id : Option ℕ
  pub current_index : Option ℕ
  pub playback_state : Option PlaybackSessionState
  pub position_seconds : Option ℕ
  pub duration_seconds : Option ℕ

pub record PlaybackSessionStateMutation : Type 0 where
  pub playback_state : Option PlaybackSessionState
  pub current_index : Option ℕ
  pub position_seconds : Option ℕ
  pub duration_seconds : Option ℕ
  pub repeat_mode : Option PlaybackRepeatMode
  pub shuffle : Option Bool

-- `PlaybackSessionRuntime::new`, with the `Uuid` that it draws.
unfoldable pub new : ℕ → ℕ → ℕ → PlaybackSessionRuntime
new session_id revision snapshot_at = record {
  session_id = session_id;
  queue = [];
  context_type = none;
  context_id = none;
  current_index = none;
  playback_state = stopped;
  position_seconds = 0;
  duration_seconds = none;
  repeat_mode = off;
  shuffle = false;
  active_target = local_android none;
  attachment = none;
  transfer = none;
  revision = revision;
  snapshot_at = snapshot_at;
}

-- `index as u32` under `Option::map`.
abbrev pub index_u32 : Option ℕ → Option ℕ
index_u32 none = none
index_u32 (some i) = some (i % 2 ^ 32)

-- `to_read_model`; the index is cast to 32 bits.
unfoldable pub to_read_model : PlaybackSessionRuntime → PlaybackSessionReadModel
to_read_model s = record {
  session_id = s.session_id;
  queue = s.queue;
  context_type = s.context_type;
  context_id = s.context_id;
  current_index = index_u32 s.current_index;
  playback_state = s.playback_state;
  position_seconds = s.position_seconds;
  duration_seconds = s.duration_seconds;
  repeat_mode = s.repeat_mode;
  shuffle = s.shuffle;
  active_target = s.active_target;
  attachment = s.attachment;
  transfer = s.transfer;
  revision = s.revision;
  snapshot_at = s.snapshot_at;
}

-- `matches!(target, PlaybackSessionTarget::LocalAndroid { .. })`.
abbrev pub is_local : PlaybackSessionTarget → Bool
is_local (local_android _) = true
is_local (sonos _) = false

abbrev pub is_pending : PlaybackTransferState → Bool
is_pending pending = true
is_pending confirmed = false
is_pending failed = false
