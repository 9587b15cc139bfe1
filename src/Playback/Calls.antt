-- ===== src/Playback/Calls.antt =====
-- src/state.rs: the methods of `AppState` on playback sessions, each as one call, and histories of
-- calls. Every method holds the write lock for its whole change, so calls of several threads form a
-- sequence.
use harmonixia_server.Prelude.{ℕ, String, Option, none, some, List, [], ◌∷◌}
use harmonixia_server.Errors.{Outcome, ok, err, panic}
use harmonixia_server.Playback.Types.{
  PlaybackSessionReadModel, PlaybackSessionQueueReplacement, PlaybackSessionStateMutation,
  PlaybackSessionTarget,
}
use harmonixia_server.Playback.Session.{
  apply_playback_session_queue_replacement, apply_playback_session_state_mutation,
  apply_playback_session_snapshot,
}
use harmonixia_server.Playback.Operations.{
  attach, detach, request_transfer, confirm_transfer, confirm_transfer_to_sonos, fail_transfer,
  SonosReport, checked_sonos_start, sonos_start, sync, stop_sonos_target,
}
use harmonixia_server.Playback.Store.{
  Store, mutate_playback_session, playback_session_for_account, publish_event, send,
}

-- Who calls and when, and the identifier that the call draws if it needs one.
pub record Caller : Type 0 where
  pub fresh : ℕ
  pub now : ℕ
  pub account_id : ℕ

pub data Call : Type 0 where
  reads : Call
  attaches : Option ℕ → Option String → Option String → Option String → Call
  detaches : Call
  replaces_queue : PlaybackSessionQueueReplacement → Call
  updates_state : PlaybackSessionStateMutation → Call
  commits : PlaybackSessionReadModel → String → Call
  requests_transfer : ℕ → PlaybackSessionTarget → Call
  confirms_transfer : ℕ → Call
  confirms_to_sonos : ℕ → String → Call
  fails_transfer : ℕ → String → Call
  starts_sonos : SonosReport → Call
  syncs_sonos : SonosReport → String → Call
  stops_sonos : String → Call

-- The session started from Sonos: the checks run before the lock is taken.
unfoldable pub start_from_sonos :
    Caller → SonosReport → Outcome ℕ → Store → Store × Outcome PlaybackSessionReadModel
start_from_sonos c r panic st = (st, panic)
start_from_sonos c r (err e) st = (st, err e)
start_from_sonos c r (ok index) st =
    mutate_playback_session c.fresh c.now c.account_id "target_updated" none (sonos_start r index)
      st

-- What a call answers, and the store that it leaves.
unfoldable pub perform : Caller → Call → Store → Store × Outcome PlaybackSessionReadModel
unfolding start_from_sonos
perform c reads st = playback_session_for_account c.fresh c.now c.account_id st
perform c (attaches id device name app) st =
    mutate_playback_session c.fresh c.now c.account_id "attached" none
      (attach c.fresh id device name app c.now) st
perform c detaches st = mutate_playback_session c.fresh c.now c.account_id "detached" none detach st
perform c (replaces_queue r) st =
    mutate_playback_session c.fresh c.now c.account_id "queue_replaced" none
      (apply_playback_session_queue_replacement r) st
perform c (updates_state m) st =
    mutate_playback_session c.fresh c.now c.account_id "state_updated" none
      (apply_playback_session_state_mutation m) st
perform c (commits snapshot action) st =
    mutate_playback_session c.fresh c.now c.account_id action none
      (apply_playback_session_snapshot snapshot) st
perform c (requests_transfer id target) st =
    mutate_playback_session c.fresh c.now c.account_id "transfer_requested" (some id)
      (request_transfer id target c.now) st
perform c (confirms_transfer id) st =
    mutate_playback_session c.fresh c.now c.account_id "transfer_confirmed" (some id)
      (confirm_transfer id) st
perform c (confirms_to_sonos id target) st =
    mutate_playback_session c.fresh c.now c.account_id "transfer_confirmed" (some id)
      (confirm_transfer_to_sonos id target) st
perform c (fails_transfer id reason) st =
    mutate_playback_session c.fresh c.now c.account_id "transfer_failed" (some id)
      (fail_transfer id reason c.now) st
perform c (starts_sonos r) st = start_from_sonos c r (checked_sonos_start r) st
perform c (syncs_sonos r action) st =
    mutate_playback_session c.fresh c.now c.account_id action none (sync r) st
perform c (stops_sonos target) st =
    mutate_playback_session c.fresh c.now c.account_id "target_stopped" none
      (stop_sonos_target target) st

-- What changes the store: a call, another event that the server publishes, or the sending of an event
-- that is pending, which may come at any later moment and in any order.
pub data Action : Type 0 where
  call : Caller → Call → Action
  publish : ℕ → String → String → String → Option ℕ → Action
  sends : ℕ → Action

unfoldable pub step : Store → Action → Store
step st (call c k) = (perform c k st).0
step st (publish now event resource action entity) =
    publish_event now event resource action entity st
step st (sends i) = send i st

unfoldable pub run : Store → List Action → Store
run st [] = st
run st (a ∷ as') = run (step st a) as'
