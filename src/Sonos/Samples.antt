-- ===== src/Sonos/Samples.antt =====
-- Concrete Sonos sessions, requests and histories for the tests.
use harmonixia_server.Prelude.{ℕ, ◌*◌, true, false, none, some, List, [], ◌∷◌}
use harmonixia_server.Playback.Types.{track}
use harmonixia_server.Sonos.Types.{
  speaker_kind, original, transport_playing, speaker, SonosPlaybackTarget, SonosResolvedTarget,
  SonosQueueEntry, SonosPreparedItem, ManagedSonosSession,
}
use harmonixia_server.Sonos.Session.{second, snapshot}
use harmonixia_server.Sonos.Changes.{seek, next, ItemChange, captured, with_item}
use harmonixia_server.Sonos.Sessions.{Sessions}
use harmonixia_server.Sonos.System.{SonosStart, new_session}
use harmonixia_server.Sonos.System.Steps.{Event, reads, starts, goes_on, obeys, changes}
use harmonixia_server.Sonos.Rounds
use harmonixia_server.Sonos.Rounds.{Round, answers, round, rounds, last_time}
use harmonixia_server.Playback.Types.{PlaybackSessionRuntime, new, sonos}

abbrev pub den : SonosPlaybackTarget
den = speaker (record {
  id = "den";
  display_name = "Den";
  room_name = none;
  available = true;
  volume_percent = some 30;
  muted = some false;
  transport_state = some transport_playing;
})

abbrev pub den_target : SonosResolvedTarget
den_target = record {
  id = "den";
  kind = speaker_kind;
  public_target = den;
  control_location = some "http://10.0.0.5:1400";
  coordinator_location = none;
  grouped_coordinator_id = none;
}

abbrev pub queue : List SonosQueueEntry
queue =
    record { item_type = track; item_id = 71; duration_seconds = some 300 }
    ∷ record { item_type = track; item_id = 72; duration_seconds = some 100 }
    ∷ []

abbrev pub prepared : SonosPreparedItem
prepared = record {
  context = record {
    session_id = 5;
    session_generation = 1;
    item_generation = 1;
    target_id = "den";
    item_type = track;
    item_id = 71;
    delivery_kind = original;
  };
  media_url = none;
  reserved_transcode_slot = none;
}

abbrev pub request : SonosStart
request = record {
  target_id = "den";
  resolved_target = den_target;
  owner_id = 1;
  owner_username = "ada";
  queue = queue;
  context_type = none;
  context_id = none;
  queue_index = 0;
  position_seconds = 10;
  session_id = 5;
  session_generation = 1;
  prepared_item = prepared;
  now = 0;
}

abbrev pub change : ItemChange
change = record {
  index = 0;
  item_generation = 0;
  prepared = prepared;
  target = den_target;
  at_time = second;
}

abbrev pub playing : ManagedSonosSession
playing = new_session request (some 300)

-- A seek to 250 seconds is checked against the first item and obeyed after the change to the second,
-- which is 100 seconds long.
abbrev pub late_seek : List Event
late_seek =
    starts request
    ∷ reads "den"
    ∷ goes_on 0 (changes next change)
    ∷ goes_on 0 (obeys (seek 250) den den_target (2 * second))
    ∷ []

-- Three rounds 2.4 seconds apart.
abbrev pub three_rounds : List ℕ
three_rounds = 2400000000 ∷ 4800000000 ∷ 7200000000 ∷ []

abbrev pub endless : ManagedSonosSession
endless = new_session request none

abbrev pub new_request : SonosStart
new_request = record request { session_id = 6; session_generation = 2 }

abbrev pub newer : ManagedSonosSession
newer = new_session new_request (some 300)

abbrev pub table : Sessions
table = ("den", playing) ∷ []

abbrev pub changed : ManagedSonosSession
changed = with_item change (some 300) (captured playing)

abbrev pub two_rounds : List Round
two_rounds = answers (snapshot playing) den_target (5 * second) ∷ Rounds.misses (7 * second) ∷ []

abbrev pub found_nothing : List ℕ
found_nothing = []

abbrev pub history : List (List ℕ)
history = [] ∷ [] ∷ (7 ∷ []) ∷ []

abbrev pub shared : PlaybackSessionRuntime
shared = record (new 4 1 0) { active_target = sonos "den" }
