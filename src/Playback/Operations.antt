-- ===== src/Playback/Operations.antt =====
-- src/state.rs: the closures that the methods of `AppState` hand to `mutate_playback_session`. `now` is
-- the time that the method reads; a `Uuid` that it draws is an argument.
use harmonixia_server.Prelude.{
  ℕ, String, Bool, false, ◌&&◌, Option, none, some, List, ◌==◌, str_eq, if◌then◌else◌, unwrap_or,
  is_empty,
}
use harmonixia_server.Errors.{ApiError, bad_request, conflict, Outcome, ok, err, panic, ◌>>=◌, ◌>>◌}
use harmonixia_server.Playback.Types.{
  PlaybackContextType, PlaybackSessionState, PlaybackSessionTarget, PlaybackSessionQueueItem,
  PlaybackSessionAttachment, PlaybackSessionTransfer, PlaybackSessionRuntime, stopped, pending,
  failed, local_android, sonos, is_pending,
}
use harmonixia_server.Playback.Session.{
  Mutation, attempt, validate_session_queue_index, validate_progress_seconds,
  validate_playback_context,
}

-- A target bound to this device, where the target is local.
abbrev pub rebind : Option ℕ → PlaybackSessionTarget → PlaybackSessionTarget
rebind id (local_android _) = local_android id
rebind id (sonos t) = sonos t

-- `attach_playback_session`: `fresh` is the identifier drawn when the caller gives none.
unfoldable pub attach : ℕ → Option ℕ → Option String → Option String → Option String → ℕ → Mutation
attach fresh attachment_id device_id device_name app_instance_id now s =
    let id : ℕ = unwrap_or attachment_id fresh in
    (
      record s {
        attachment = some (record {
          attachment_id = id;
          device_id = device_id;
          device_name = device_name;
          app_instance_id = app_instance_id;
          attached_at = now;
        });
        active_target = rebind (some id) s.active_target;
      },
      ok tt,
    )

-- `detach_playback_session`.
unfoldable pub detach : Mutation
detach s = (record s { attachment = none; active_target = rebind none s.active_target }, ok tt)

-- `request_playback_session_transfer`.
unfoldable pub request_transfer : ℕ → PlaybackSessionTarget → ℕ → Mutation
request_transfer transfer_id target now s =
    if is_empty s.queue then (s, err (conflict "cannot transfer an empty playback session")) else (
      record s {
        transfer = some (record {
          transfer_id = transfer_id;
          state = pending;
          requested_target = target;
          confirmed_target = none;
          requested_at = now;
          confirmed_at = none;
          failure_reason = none;
        });
      },
      ok tt,
    )

-- The transfer of a session, if it is the one named and still pending.
unfoldable pub pending_transfer :
    ℕ → Option PlaybackSessionTransfer → Outcome PlaybackSessionTransfer
pending_transfer transfer_id none = err (conflict "no pending playback transfer")
pending_transfer transfer_id (some t) =
    if t.transfer_id == transfer_id && is_pending t.state
    then ok t
    else err (conflict "stale playback transfer confirmation")

-- The session plays on another target, and no transfer is under way.
unfoldable pub retarget : PlaybackSessionTarget → PlaybackSessionRuntime → PlaybackSessionRuntime
retarget target s = record s { active_target = target; transfer = none }

-- `confirm_playback_session_transfer`.
unfoldable pub confirm_transfer : ℕ → Mutation
confirm_transfer transfer_id s =
    attempt s do t ← pending_transfer transfer_id s.transfer; ok (retarget t.requested_target s)

-- The target is that Sonos player.
abbrev pub is_sonos : String → PlaybackSessionTarget → Bool
is_sonos target_id (local_android _) = false
is_sonos target_id (sonos t) = str_eq t target_id

-- The destination of a pending transfer must be the player that confirms it.
unfoldable pub confirmed_by :
    String → PlaybackSessionRuntime → PlaybackSessionTransfer → Outcome PlaybackSessionRuntime
confirmed_by target_id s t =
    if is_sonos target_id t.requested_target
    then ok (retarget (sonos target_id) s)
    else err (conflict "playback transfer destination did not match")

-- `confirm_playback_session_transfer_to_sonos`.
unfoldable pub confirm_transfer_to_sonos : ℕ → String → Mutation
unfolding confirmed_by
confirm_transfer_to_sonos transfer_id target_id s =
    attempt s do t ← pending_transfer transfer_id s.transfer; confirmed_by target_id s t

unfoldable pub failed_transfer :
    ℕ → String → ℕ → Option PlaybackSessionTransfer → Option PlaybackSessionTransfer
failed_transfer transfer_id reason now none = none
failed_transfer transfer_id reason now (some t) =
    if t.transfer_id == transfer_id
    then some (record t { state = failed; confirmed_at = some now; failure_reason = some reason })
    else some t

-- `fail_playback_session_transfer`: it accepts also where there is nothing to fail.
unfoldable pub fail_transfer : ℕ → String → ℕ → Mutation
fail_transfer transfer_id reason now s =
    (record s { transfer = failed_transfer transfer_id reason now s.transfer }, ok tt)

-- What a Sonos session says of the shared one.
pub record SonosReport : Type 0 where
  pub target_id : String
  pub queue : List PlaybackSessionQueueItem
  pub context_type : Option PlaybackContextType
  pub context_id : Option ℕ
  pub current_index : ℕ
  pub position_seconds : ℕ
  pub duration_seconds : Option ℕ
  pub playback_state : PlaybackSessionState

-- The assignments that the two methods below share.
unfoldable pub adopt : SonosReport → Option ℕ → PlaybackSessionRuntime → PlaybackSessionRuntime
adopt r index s = record s {
  queue = r.queue;
  context_type = r.context_type;
  context_id = r.context_id;
  current_index = index;
  position_seconds = r.position_seconds;
  duration_seconds = r.duration_seconds;
  playback_state = r.playback_state;
}

abbrev pub ok_or {ℓ} : {A : Type ℓ} → Option A → ApiError → Outcome A
ok_or none e = err e
ok_or (some a) e = ok a

-- `replace_playback_session_from_sonos_start`: the three checks come before the session is touched, and
-- give the index or refuse.
unfoldable pub checked_sonos_start : SonosReport → Outcome ℕ
checked_sonos_start r = do
  validate_playback_context r.context_type r.context_id
  checked ← validate_session_queue_index r.queue (some r.current_index)
  index ← ok_or checked (bad_request "Sonos session queue cannot be empty")
  validate_progress_seconds r.position_seconds r.duration_seconds
  ok index

unfoldable pub sonos_start : SonosReport → ℕ → Mutation
sonos_start r index s = (retarget (sonos r.target_id) (adopt r (some index) s), ok tt)

-- The body of `sync_playback_session_from_sonos` for the player that is active.
unfoldable pub synced_session :
    SonosReport → PlaybackSessionRuntime → Outcome (Option ℕ) → Outcome PlaybackSessionRuntime
synced_session r s panic = panic
synced_session r s (err e) = err e
synced_session r s (ok none) = ok s
synced_session r s (ok (some index)) = do
  validate_progress_seconds r.position_seconds r.duration_seconds
  ok (adopt r (some index) s)

-- `sync_playback_session_from_sonos`: a report from any other player is accepted and ignored.
unfoldable pub sync : SonosReport → Mutation
sync r s =
    if is_sonos r.target_id s.active_target
    then attempt s
        (synced_session r s (validate_session_queue_index r.queue (some r.current_index)))
    else (s, ok tt)

abbrev pub attached_id : Option PlaybackSessionAttachment → Option ℕ
attached_id none = none
attached_id (some a) = some a.attachment_id

-- `stop_playback_session_sonos_target`.
unfoldable pub stop_sonos_target : String → Mutation
stop_sonos_target target_id s =
    if is_sonos target_id s.active_target
    then (
      record s {
        active_target = local_android (attached_id s.attachment);
        playback_state = stopped;
        transfer = none;
      },
      ok tt,
    )
    else (s, ok tt)
