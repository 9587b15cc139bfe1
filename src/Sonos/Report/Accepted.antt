-- ===== src/Sonos/Report/Accepted.antt =====
-- The reports of good Sonos sessions, and the playback session that they reach.
use harmonixia_server.Prelude.{◌≡◌, refl, ap, List, [], ◌∷◌}
use harmonixia_server.Playback.Types.{PlaybackSessionQueueItem}
use harmonixia_server.Sonos.Types.{SonosQueueEntry}
use harmonixia_server.Sonos.Report.{
  playback_queue_from_sonos_queue, sonos_queue_from_playback_queue,
}

-- The two conversions of a queue undo each other.
pub queue-round_trip :
    (q : List SonosQueueEntry) (p : List PlaybackSessionQueueItem)
    → (sonos_queue_from_playback_queue (playback_queue_from_sonos_queue q) ≡ q)
      × (playback_queue_from_sonos_queue (sonos_queue_from_playback_queue p) ≡ p)
unfolding sonos_queue_from_playback_queue playback_queue_from_sonos_queue
queue-round_trip [] [] = (refl, refl)
queue-round_trip (e ∷ q) p = (ap (λ q. e ∷ q) (queue-round_trip q p).0, (queue-round_trip q p).1)
queue-round_trip [] (e ∷ p) = (refl, ap (λ p. e ∷ p) (queue-round_trip [] p).1)
