-- ===== src/Sonos/Types.antt =====
-- src/sonos.rs, src/domain.rs and src/state.rs: the data of a managed Sonos session. An `Instant` is a
-- number of nanoseconds from some origin; a reserved `TranscodeSlot` is the number of its holder.
use harmonixia_server.Prelude.{ℕ, String, Bool, Option, List}
use harmonixia_server.Playback.Types.{PlaybackItemType, PlaybackContextType}

pub data SonosTargetKind : Type 0 where
  speaker_kind group_kind : SonosTargetKind

pub data SonosTransportState : Type 0 where
  transport_stopped transport_buffering transport_paused transport_playing : SonosTransportState

pub data SonosSessionStatus : Type 0 where
  active reconnecting : SonosSessionStatus

pub data SonosDeliveryKind : Type 0 where
  original transcode_aac_high : SonosDeliveryKind

pub record SonosSpeakerTarget : Type 0 where
  pub id : String
  pub display_name : String
  pub room_name : Option String
  pub available : Bool
  pub volume_percent : Option ℕ
  pub muted : Option Bool
  pub transport_state : Option SonosTransportState

pub record SonosGroupTarget : Type 0 where
  pub id : String
  pub display_name : String
  pub available : Bool
  pub volume_percent : Option ℕ
  pub muted : Option Bool
  pub transport_state : Option SonosTransportState

pub data SonosPlaybackTarget : Type 0 where
  speaker : SonosSpeakerTarget → SonosPlaybackTarget
  group : SonosGroupTarget → SonosPlaybackTarget

pub record SonosResolvedTarget : Type 0 where
  pub id : String
  pub kind : SonosTargetKind
  pub public_target : SonosPlaybackTarget
  pub control_location : Option String
  pub coordinator_location : Option String
  pub grouped_coordinator_id : Option String

pub record SonosQueueEntry : Type 0 where
  pub item_type : PlaybackItemType
  pub item_id : ℕ
  pub duration_seconds : Option ℕ

pub record SonosMediaAuthorizationContext : Type 0 where
  pub session_id : ℕ
  pub session_generation : ℕ
  pub item_generation : ℕ
  pub target_id : String
  pub item_type : PlaybackItemType
  pub item_id : ℕ
  pub delivery_kind : SonosDeliveryKind

pub record SonosPreparedItem : Type 0 where
  pub context : SonosMediaAuthorizationContext
  pub media_url : Option String
  pub reserved_transcode_slot : Option ℕ

pub record ManagedSonosSession : Type 0 where
  pub target_id : String
  pub target_kind : SonosTargetKind
  pub control_location : Option String
  pub coordinator_location : Option String
  pub grouped_coordinator_id : Option String
  pub owner_account_id : ℕ
  pub owner_username : String
  pub context_type : Option PlaybackContextType
  pub context_id : Option ℕ
  pub session_id : ℕ
  pub session_generation : ℕ
  pub item_generation : ℕ
  pub queue : List SonosQueueEntry
  pub queue_index : ℕ
  pub current_position_seconds : ℕ
  pub current_duration_seconds : Option ℕ
  pub status : SonosSessionStatus
  pub position_advancing : Bool
  pub reconnect_deadline : Option ℕ
  pub transient_loss_observed_at : Option ℕ
  pub latest_target : SonosPlaybackTarget
  pub prepared_item : Option SonosPreparedItem
  pub last_progress_write : Option ℕ
  pub last_position_tick : ℕ

pub record ManagedSonosSessionSnapshot : Type 0 where
  pub target_id : String
  pub target_kind : SonosTargetKind
  pub latest_target : SonosPlaybackTarget
  pub control_location : Option String
  pub coordinator_location : Option String
  pub grouped_coordinator_id : Option String
  pub owner_account_id : ℕ
  pub context_type : Option PlaybackContextType
  pub context_id : Option ℕ
  pub session_id : ℕ
  pub session_generation : ℕ
  pub item_generation : ℕ
  pub queue : List SonosQueueEntry
  pub queue_index : ℕ
  pub current_position_seconds : ℕ
  pub current_duration_seconds : Option ℕ
  pub status : SonosSessionStatus
  pub position_advancing : Bool
  pub reconnect_deadline : Option ℕ
  pub transient_loss_observed_at : Option ℕ

pub record ManagedSonosSessionRollback : Type 0 where
  pub target_kind : SonosTargetKind
  pub control_location : Option String
  pub coordinator_location : Option String
  pub grouped_coordinator_id : Option String
  pub queue_index : ℕ
  pub item_generation : ℕ
  pub current_position_seconds : ℕ
  pub current_duration_seconds : Option ℕ
  pub status : SonosSessionStatus
  pub position_advancing : Bool
  pub reconnect_deadline : Option ℕ
  pub transient_loss_observed_at : Option ℕ
  pub latest_target : SonosPlaybackTarget
  pub prepared_item : Option SonosPreparedItem
  pub last_progress_write : Option ℕ
  pub last_position_tick : ℕ
