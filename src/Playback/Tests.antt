-- ===== src/Playback/Tests.antt =====
-- A household session: a phone queues two items and moves playback to a Sonos player.
use harmonixia_server.Prelude.{◌≡◌, refl, ◌↔◌, none, some, List, [], ◌∷◌, All, map, arith}
use harmonixia_server.Errors.{ok, err}
use harmonixia_server.Playback.Types.{
  track, episode, pending, PlaybackSessionTarget, album, playing, sonos, PlaybackSessionQueueItem,
  PlaybackSessionQueueReplacement, PlaybackSessionStateMutation, PlaybackSessionRuntime,
  PlaybackSessionReadModel, to_read_model, new,
}
use harmonixia_server.Playback.Session.{
  apply_playback_session_queue_replacement, apply_playback_session_state_mutation,
  apply_playback_session_snapshot, replaced_session, with_queue, validate_playback_context,
  validate_session_queue_index, or_item_duration, item_duration, validate_progress_seconds,
  mutated_session, next_index_of, outside_queue,
}
use harmonixia_server.Playback.Operations.{
  request_transfer, confirm_transfer, confirm_transfer_to_sonos, fail_transfer, retarget,
}
use harmonixia_server.Playback.Preservation.{apply_playback_session_queue_replacement-Preserves}
use harmonixia_server.Playback.Store.{
  Store, empty, entry, stamped, settle, announce, mutate_playback_session, preview, publish_event,
  send,
}
use harmonixia_server.Prelude.Dict.{lookup}
use harmonixia_server.Playback.Calls.{
  Caller, replaces_queue, updates_state, requests_transfer, confirms_transfer, perform, Action,
  call, publish, sends, step, run,
}
use harmonixia_server.Playback.Safety.{Survives, perform-run-Survives}
use harmonixia_server.Playback.Effects.{Untouched, refused-Untouched}
use harmonixia_server.Playback.Answers.{Announces, Shown, answered-Announces}
use harmonixia_server.Playback.Preview.{commit-preview}
use harmonixia_server.Playback.Events.{account_stream}
use harmonixia_server.Playback.Stream.{
  StreamOk, OwnSession, run-empty-StreamOk, account_stream-OwnSession,
}
use harmonixia_server.Playback.Transfers.{
  Awaits, stale, no_transfer, confirm-request, confirm_transfer-ok_iff,
  confirm_transfer_to_sonos-ok_iff, called_off,
}

abbrev song : PlaybackSessionQueueItem
song = record { item_type = track; item_id = 11; duration_seconds = some 200 }

abbrev talk : PlaybackSessionQueueItem
talk = record { item_type = episode; item_id = 12; duration_seconds = none }

abbrev evening : PlaybackSessionQueueReplacement
evening = record {
  queue = song ∷ talk ∷ [];
  context_type = some album;
  context_id = some 5;
  current_index = none;
  playback_state = some playing;
  position_seconds = some 30;
  duration_seconds = none;
}

abbrev past_the_end : PlaybackSessionStateMutation
past_the_end = record {
  playback_state = none;
  current_index = some 2;
  position_seconds = none;
  duration_seconds = none;
  repeat_mode = none;
  shuffle = none;
}

abbrev alice : Caller
alice = record { fresh = 100; now = 1000; account_id = 1 }

abbrev bob : Caller
bob = record { fresh = 200; now = 1001; account_id = 2 }

abbrev history : List Action
history =
    call alice (replaces_queue evening)
    ∷ publish 1000 "library_updated" "library" "updated" none
    ∷ call bob (replaces_queue evening)
    ∷ sends 1
    ∷ call alice (requests_transfer 77 (sonos "kitchen"))
    ∷ sends 0
    ∷ sends 0
    ∷ []

perform-run-Survives_example :
    Survives (perform alice (confirms_transfer 77) (run (empty 9) history))
perform-run-Survives_example =
    perform-run-Survives 9 history alice (confirms_transfer 77) (tt, (tt, (tt, tt))) tt

-- All that the replacement calls, for evaluation.
abbrev evening_session : PlaybackSessionRuntime
evening_session = (apply_playback_session_queue_replacement evening (new 100 0 1000)).0

-- The session that the replacement leaves, and the index check that it passes.
evening_index :
    (apply_playback_session_queue_replacement evening (new 100 0 1000)).0.current_index ≡ some 0
unfolding apply_playback_session_queue_replacement replaced_session with_queue
    validate_playback_context validate_session_queue_index or_item_duration item_duration
    validate_progress_seconds
evening_index = refl

-- What Alice is answered by the replacement.
abbrev evening_view : PlaybackSessionReadModel
evening_view = to_read_model (stamped 1 1000 evening_session)

answered-Announces_example :
    let st' : Store = (perform alice (replaces_queue evening) (empty 9)).0 in
    Announces (replaces_queue evening) alice (empty 9) evening_view st'
    × Shown alice (empty 9) evening_view st'
unfolding perform mutate_playback_session empty entry new apply_playback_session_queue_replacement
    replaced_session with_queue validate_playback_context validate_session_queue_index
    or_item_duration item_duration validate_progress_seconds settle announce lookup
answered-Announces_example =
    answered-Announces alice (replaces_queue evening) (empty 9) evening_view refl

-- An index past the end of a queue that is empty.
refused-Untouched_example :
    Untouched alice (empty 9) (perform alice (updates_state past_the_end) (empty 9)).0
unfolding perform mutate_playback_session empty entry new apply_playback_session_state_mutation
    mutated_session next_index_of validate_session_queue_index settle lookup
refused-Untouched_example =
    refused-Untouched alice (updates_state past_the_end) (empty 9) outside_queue refl

commit-preview_example :
    mutate_playback_session 300 1000 1 "queue_replaced" none
      (apply_playback_session_snapshot (to_read_model evening_session))
      (empty 9)
    ≡ mutate_playback_session 100 1000 1 "queue_replaced" none
        (apply_playback_session_queue_replacement evening)
        (empty 9)
unfolding empty entry new preview to_read_model apply_playback_session_queue_replacement
    replaced_session with_queue validate_playback_context validate_session_queue_index
    or_item_duration item_duration validate_progress_seconds
commit-preview_example =
    commit-preview 100 300 1000 1 "queue_replaced" none
      (apply_playback_session_queue_replacement evening) (empty 9) (to_read_model evening_session)
      (record { sound = refl; good = tt })
      (apply_playback_session_queue_replacement-Preserves evening) (omega arith) refl

-- The event with the later number is sent first.
out_of_order :
    map
      (λ e. e.sequence)
      (run (empty 9) (
        publish 1000 "library_updated" "library" "updated" none
        ∷ publish 1001 "library_updated" "library" "updated" none
        ∷ sends 1
        ∷ sends 0
        ∷ [])).sent
    ≡ 2 ∷ 1 ∷ []
unfolding run step publish_event send empty
out_of_order = refl

run-empty-StreamOk_example : StreamOk (run (empty 9) history)
run-empty-StreamOk_example = run-empty-StreamOk 9 history (omega arith)

account_stream-OwnSession_example :
    All (λ e. OwnSession 2 e.patch) (account_stream 2 (run (empty 9) history).sent)
account_stream-OwnSession_example = account_stream-OwnSession 9 2 history (omega arith)

abbrev asked_session : PlaybackSessionRuntime
asked_session = (request_transfer 77 (sonos "kitchen") 1010 evening_session).0

confirm-request_example :
    (confirm_transfer 77 asked_session ≡ (retarget (sonos "kitchen") asked_session, ok tt))
    × ((confirm_transfer 77 asked_session).0.active_target ≡ sonos "kitchen")
    × ((confirm_transfer 77 (confirm_transfer 77 asked_session).0).1 ≡ err no_transfer)
unfolding new apply_playback_session_queue_replacement replaced_session with_queue
    validate_playback_context validate_session_queue_index or_item_duration item_duration
    validate_progress_seconds
confirm-request_example = confirm-request evening_session 77 1010 (sonos "kitchen") 77 refl

asked-Awaits : Awaits asked_session 77 (sonos "kitchen")
unfolding request_transfer new apply_playback_session_queue_replacement replaced_session with_queue
    validate_playback_context validate_session_queue_index or_item_duration item_duration
    validate_progress_seconds
asked-Awaits = record {
  transfer = record {
    transfer_id = 77;
    state = pending;
    requested_target = sonos "kitchen";
    confirmed_target = none;
    requested_at = 1010;
    confirmed_at = none;
    failure_reason = none;
  };
  held = refl;
  named = refl;
  undecided = refl;
  destination = refl;
}

confirm_transfer-ok_iff_example :
    ((confirm_transfer 77 asked_session).1 ≡ ok tt)
    ↔ ((target : PlaybackSessionTarget) × Awaits asked_session 77 target)
confirm_transfer-ok_iff_example = confirm_transfer-ok_iff asked_session 77

confirm_transfer_to_sonos-ok_iff_example :
    ((confirm_transfer_to_sonos 77 "kitchen" asked_session).1 ≡ ok tt)
    ↔ Awaits asked_session 77 (sonos "kitchen")
confirm_transfer_to_sonos-ok_iff_example =
    confirm_transfer_to_sonos-ok_iff asked_session 77 "kitchen"

called_off_example :
    ((confirm_transfer 77 (fail_transfer 77 "offline" 1020 asked_session).0).1 ≡ err stale)
    × ((confirm_transfer 77 (apply_playback_session_queue_replacement evening asked_session).0).1
        ≡ err no_transfer)
unfolding request_transfer apply_playback_session_queue_replacement replaced_session with_queue
    validate_playback_context validate_session_queue_index or_item_duration item_duration
    validate_progress_seconds
called_off_example =
    called_off asked_session 77 1020 "offline" (sonos "kitchen") evening asked-Awaits refl
