-- ===== src/Sonos/Report.antt =====
-- src/sonos.rs, `sync_shared_session_snapshot`: what the account's playback session is told of a Sonos
-- session, and that it takes it.
pub mod Accepted
use harmonixia_server.Prelude.{ℕ, ◌%◌, ◌^◌, Option, none, some, List, [], ◌∷◌, map}
use harmonixia_server.Playback.Types.{
  PlaybackSessionQueueItem, PlaybackSessionState, stopped, playing, paused, buffering,
}
use harmonixia_server.Playback.Operations.{SonosReport}
use harmonixia_server.Sonos.Types.{
  SonosSessionStatus, active, reconnecting, SonosTransportState, transport_stopped,
  transport_buffering, transport_paused, transport_playing, SonosQueueEntry,
  ManagedSonosSessionSnapshot,
}
use harmonixia_server.Sonos.Session.{target_transport_state}

unfoldable pub playback_state_for_sonos_status :
    SonosSessionStatus → Option SonosTransportState → PlaybackSessionState
playback_state_for_sonos_status reconnecting transport = buffering
playback_state_for_sonos_status active (some transport_playing) = playing
playback_state_for_sonos_status active (some transport_buffering) = buffering
playback_state_for_sonos_status active (some transport_paused) = paused
playback_state_for_sonos_status active (some transport_stopped) = stopped
playback_state_for_sonos_status active none = playing

unfoldable pub playback_queue_from_sonos_queue :
    List SonosQueueEntry → List PlaybackSessionQueueItem
playback_queue_from_sonos_queue [] = []
playback_queue_from_sonos_queue (entry ∷ entries) =
    record {
      item_type = entry.item_type;
      item_id = entry.item_id;
      duration_seconds = entry.duration_seconds;
    }
    ∷ playback_queue_from_sonos_queue entries

unfoldable pub sonos_queue_from_playback_queue :
    List PlaybackSessionQueueItem → List SonosQueueEntry
sonos_queue_from_playback_queue [] = []
sonos_queue_from_playback_queue (entry ∷ entries) =
    record {
      item_type = entry.item_type;
      item_id = entry.item_id;
      duration_seconds = entry.duration_seconds;
    }
    ∷ sonos_queue_from_playback_queue entries

-- The arguments of `sync_playback_session_from_sonos`; `as u32` wraps.
unfoldable pub report : ManagedSonosSessionSnapshot → SonosReport
report seen = record {
  target_id = seen.target_id;
  queue = playback_queue_from_sonos_queue seen.queue;
  context_type = seen.context_type;
  context_id = seen.context_id;
  current_index = seen.queue_index % 2 ^ 32;
  position_seconds = seen.current_position_seconds;
  duration_seconds = seen.current_duration_seconds;
  playback_state =
      playback_state_for_sonos_status seen.status (target_transport_state seen.latest_target);
}
