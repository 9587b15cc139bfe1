-- ===== src/Sonos/Summary.antt =====
-- src/sonos.rs, `session_summary_from_parts` and `reconnect_seconds_remaining`: what clients are
-- shown of a Sonos session.
pub mod Shown
use harmonixia_server.Prelude.{
  ℕ, suc, String, ◌+◌, ◌-◌, ◌*◌, ◌/◌, ◌%◌, ◌^◌, ◌≤◌, ◌<◌, ◌≡◌, ◌↔◌, refl, arith, min, Option, none,
  some, List, [], ◌∷◌, length, get_elem?, get_elem?-lt, Option-cases, inl, inr,
}
use harmonixia_server.Playback.Types.{PlaybackItemType}
use harmonixia_server.Sonos.Types.{
  SonosSessionStatus, active, reconnecting, SonosQueueEntry, ManagedSonosSession,
}
use harmonixia_server.Sonos.Session.{second, reconnect_window}

pub record SonosNextItemSummary : Type 0 where
  pub item_type : PlaybackItemType
  pub item_id : ℕ

pub record SonosSessionSummary : Type 0 where
  pub status : SonosSessionStatus
  pub owner_username : String
  pub current_item_type : PlaybackItemType
  pub current_item_id : ℕ
  pub queue_index : ℕ
  pub queue_position : ℕ
  pub queue_length : ℕ
  pub current_position_seconds : ℕ
  pub current_duration_seconds : Option ℕ
  pub reconnect_seconds_remaining : Option ℕ
  pub next_item : Option SonosNextItemSummary

-- `((remaining.as_millis() + 999) / 1000) as u32`.
unfoldable pub reconnect_seconds_remaining : Option ℕ → ℕ → ℕ
reconnect_seconds_remaining none now = 0
reconnect_seconds_remaining (some deadline) now =
    (((deadline - now) / 1000000 + 999) / 1000) % 2 ^ 32

-- `queue.get(index).map(…)`.
unfoldable pub next_summary : Option SonosQueueEntry → Option SonosNextItemSummary
next_summary none = none
next_summary (some entry) = some (record { item_type = entry.item_type; item_id = entry.item_id })

unfoldable pub remaining_for : SonosSessionStatus → Option ℕ → ℕ → Option ℕ
remaining_for active deadline now = none
remaining_for reconnecting deadline now = some (reconnect_seconds_remaining deadline now)

-- `saturating_add(1)` on `usize`, and `as u32`.
unfoldable pub summary_of : ManagedSonosSession → ℕ → SonosQueueEntry → SonosSessionSummary
summary_of s now entry = record {
  status = s.status;
  owner_username = s.owner_username;
  current_item_type = entry.item_type;
  current_item_id = entry.item_id;
  queue_index = s.queue_index % 2 ^ 32;
  queue_position = min (s.queue_index + 1) (2 ^ 64 - 1) % 2 ^ 32;
  queue_length = length s.queue % 2 ^ 32;
  current_position_seconds = s.current_position_seconds;
  current_duration_seconds = s.current_duration_seconds;
  reconnect_seconds_remaining = remaining_for s.status s.reconnect_deadline now;
  next_item = next_summary (get_elem? s.queue (min (s.queue_index + 1) (2 ^ 64 - 1)));
}

unfoldable pub summary : ManagedSonosSession → ℕ → Option SonosSessionSummary
summary s now = elim (get_elem? s.queue s.queue_index) [
  | none ↦ none
  | some entry ↦ some (summary_of s now entry)
]
