-- ===== src/Sonos/Tests.antt =====
-- The definitions run on concrete Sonos sessions, and the theorems applied to them.
use harmonixia_server.Prelude.{
  ℕ, ◌+◌, ◌*◌, ◌≤◌, ◌≡◌, ◌↔◌, ◌⊎◌, is_empty, refl, arith, true, false, Option, none, some, List, [],
  ◌∷◌, map, leb,
}
use harmonixia_server.Errors.{Outcome, ok, err, panic}
use harmonixia_server.Sonos.Types.{
  SonosResolvedTarget, ManagedSonosSession, ManagedSonosSessionSnapshot,
}
use harmonixia_server.Sonos.Session.{
  advance_position, cache_control_target, next_position, target_transport_state, second, snapshot,
  reconnect_window, reconnect_deadline_elapsed, position_advancing_for_transport, verified,
  update_position_advancement, heartbeat, record_active_verification_miss, missed,
}
use harmonixia_server.Sonos.Changes.{
  target_index, changed_item, command_refused, capture, captured, commanded, commanded_clock,
  with_item,
}
use harmonixia_server.Sonos.Sessions.{
  insert, snapshot_of, matching, session_matches_snapshot, update_snapshot, remove_snapshot,
  Sessions,
}
use harmonixia_server.Sonos.Sessions.Table.{get, put}
use harmonixia_server.Sonos.System.{start_managed_sonos_session, new_session, System, empty}
use harmonixia_server.Sonos.System.Steps.{
  run, step, insert_started, go_on, change_item, commit_item, amend, install_item,
}
use harmonixia_server.Sonos.System.Invariant.{SystemGood}
use harmonixia_server.Sonos.System.Soundness.{Proper, run-empty-Good}
use harmonixia_server.Sonos.Rounds
use harmonixia_server.Sonos.Rounds.{Round, answers, round, rounds, last_time}
use harmonixia_server.Sonos.Rounds.Clock.{Moved, rounds-Moved}
use harmonixia_server.Sonos.Rounds.Reconnect.{Connected, Doubted, Lost, misses-Lost}
use harmonixia_server.Sonos.Rounds.Lag.{answers-Gain, Heard}
use harmonixia_server.Sonos.Sessions.Stale.{insert-Stale}
use harmonixia_server.Sonos.Changes.{restore}
use harmonixia_server.Sonos.Changes.Rollback.{restore-changed_item}
use harmonixia_server.Sonos.Refresh.{
  publishable_snapshot, tracked, empty_run, publishable_snapshot_iff,
}
use harmonixia_server.Sonos.Claims.{
  to_claim, validate_claim, take_reserved_transcode_slot, matches_claim, context_matches_claim,
}
use harmonixia_server.Sonos.Claims.Bound.{prepared_context, validate_claim_iff}
use harmonixia_server.Sonos.Claims.Slots.{take-once}
use harmonixia_server.Sonos.Samples.{
  den, den_target, queue, prepared, change, playing, late_seek, three_rounds, endless, newer, table,
  changed, two_rounds, found_nothing, history,
}
use harmonixia_server.Prelude.{◌+◌, ◌-◌, ◌<◌}
use harmonixia_server.Sonos.Summary.{SonosSessionSummary, summary, reconnect_seconds_remaining}
use harmonixia_server.Sonos.Summary.Shown.{
  Placed, summary-Placed, reconnect_seconds_remaining-bounds,
}

abbrev positions : Outcome System → List (ℕ × Option ℕ)
positions (ok st) =
    map (λ (name, s). (s.current_position_seconds, s.current_duration_seconds)) st.sessions
positions (err e) = []
positions panic = []

seeks_past_end : positions (run late_seek empty) ≡ (250, some 100) ∷ []
unfolding run empty step insert_started start_managed_sonos_session insert get snapshot_of put
    new_session go_on snapshot change_item target_index commit_item matching
    session_matches_snapshot changed_item command_refused capture captured commanded commanded_clock
    with_item advance_position cache_control_target next_position update_snapshot amend install_item
seeks_past_end = refl

run-empty-Good_example : (st : System) × (run late_seek empty ≡ ok st) × SystemGood (λ id. queue) st
unfolding Proper
run-empty-Good_example = run-empty-Good (λ id. queue) late_seek (refl, (tt, (tt, (tt, tt))))

-- After 7.2 seconds the position has moved by 6.
answers-Gain_example :
    let s : ManagedSonosSession =
      rounds (map (answers (snapshot playing) den_target) three_rounds) endless in
    s.current_position_seconds ≡ 16
unfolding new_session target_transport_state Heard
answers-Gain_example =
    answers-Gain (snapshot playing) den_target three_rounds endless refl
      (record { status = refl; advancing = refl; endless = refl }) (omega arith)

-- The player answers, is lost over two rounds, and answers again.
abbrev until_lost : List Round
until_lost =
    answers (snapshot playing) den_target (3 * second)
    ∷ Rounds.misses (5 * second)
    ∷ Rounds.misses (7 * second)
    ∷ []

abbrev lost_and_found : List Round
lost_and_found =
    answers (snapshot playing) den_target (3 * second)
    ∷ Rounds.misses (5 * second)
    ∷ Rounds.misses (7 * second)
    ∷ Rounds.resumes (snapshot (rounds until_lost playing)) change den (9 * second)
    ∷ []

rounds-Moved_example :
    Moved playing (rounds lost_and_found playing)
    × ((rounds lost_and_found playing).last_position_tick
        ≡ last_time playing.last_position_tick lost_and_found)
unfolding new_session snapshot rounds round verified update_position_advancement advance_position
    next_position cache_control_target heartbeat record_active_verification_miss missed
    position_advancing_for_transport target_transport_state
rounds-Moved_example =
    rounds-Moved lost_and_found playing (record { progress = omega arith; fits = omega arith })
      (omega arith, (omega arith, (omega arith, (omega arith, tt))))
      ((refl, refl), (tt, (tt, ((refl, refl), tt))))

misses-Lost_example :
    let lost : ManagedSonosSession =
      rounds
        (Rounds.misses (3 * second)
          ∷ Rounds.misses (5 * second)
          ∷ map Rounds.misses (7 * second ∷ 9 * second ∷ []))
        playing in
    Doubted (3 * second) (rounds (Rounds.misses (3 * second) ∷ []) playing)
    × ((seen : ManagedSonosSessionSnapshot) (target : SonosResolvedTarget) (now : ℕ)
        → Connected (rounds (Rounds.misses (3 * second) ∷ answers seen target now ∷ []) playing))
    × Lost (3 * second + reconnect_window) lost
    × ((now : ℕ)
        → reconnect_deadline_elapsed (snapshot lost) now ≡ leb (3 * second + reconnect_window) now)
unfolding new_session
misses-Lost_example =
    misses-Lost playing (3 * second) (5 * second) (7 * second ∷ 9 * second ∷ [])
      (record { status = refl; deadline = refl; loss = refl })

insert-Stale_example :
    (update_snapshot
        (snapshot playing)
        (λ s. (record s { queue_index = 1 }, s.session_id))
        (insert newer table).0
      ≡ ((insert newer table).0, none))
    × (remove_snapshot (snapshot playing) (insert newer table).0 ≡ ((insert newer table).0, none))
unfolding new_session snapshot
insert-Stale_example =
    insert-Stale newer (snapshot playing) table (λ s. (record s { queue_index = 1 }, s.session_id))
      refl (λ e. omega (arith, e))

restore-changed_item_example : restore (capture playing) (rounds two_rounds changed) ≡ playing
unfolding changed_item new_session
restore-changed_item_example = restore-changed_item change playing changed two_rounds refl

publishable_snapshot_iff_example :
    ((publishable_snapshot is_empty (tracked is_empty history) found_nothing).1
      ≡ some found_nothing)
    ↔ ((is_empty found_nothing ≡ false) ⊎ (3 ≤ empty_run is_empty (found_nothing ∷ history)))
publishable_snapshot_iff_example =
    publishable_snapshot_iff is_empty history found_nothing (omega arith)

validate_claim_iff_example :
    (validate_claim (to_claim 99 prepared.context) table ≡ true)
    ↔ (prepared_context (get prepared.context.target_id table) ≡ some prepared.context)
validate_claim_iff_example = validate_claim_iff prepared.context 99 table

-- The prepared item of the playing session has a slot that was reserved for it.
abbrev with_slot : Sessions
with_slot =
    (
      "den",
      record playing {
        prepared_item = some (record prepared { reserved_transcode_slot = some 8 });
      },
    )
    ∷ []

-- The first request gets the slot 8, the second none.
take-once_example :
    let (table', slot) = take_reserved_transcode_slot (to_claim 99 prepared.context) with_slot in
    (slot ≡ some 8)
    × ((take_reserved_transcode_slot (to_claim 99 prepared.context) table').1 ≡ none)
    × (validate_claim (to_claim 99 prepared.context) table'
        ≡ validate_claim (to_claim 99 prepared.context) with_slot)
unfolding validate_claim matches_claim to_claim context_matches_claim get new_session
take-once_example = take-once (to_claim 99 prepared.context) with_slot

summary-Placed_example :
    (v : SonosSessionSummary) × (summary playing (3 * second) ≡ some v) × Placed playing v
unfolding new_session
summary-Placed_example = summary-Placed playing (3 * second) (omega arith) (omega arith)

reconnect_seconds_remaining-bounds_example :
    let shown : ℕ = reconnect_seconds_remaining (some (18 * second)) (4 * second) in
    (shown ≤ 15)
    × (18 * second < 4 * second + shown * second + 1000000)
    × (shown * second < (18 * second - 4 * second) + second)
    × ((shown ≡ 0) ↔ (18 * second < 4 * second + 1000000))
reconnect_seconds_remaining-bounds_example =
    reconnect_seconds_remaining-bounds (18 * second) (4 * second) (omega arith)
