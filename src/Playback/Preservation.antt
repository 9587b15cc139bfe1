-- ===== src/Playback/Preservation.antt =====
-- Every operation on a playback session keeps it good and cannot panic.
use harmonixia_server.Prelude.{
  ℕ, String, ◌≡◌, Bool-cases, inl, inr, Option, none, some, List, arith, is_some, unwrap_or,
  or_option,
}
use harmonixia_server.Errors.{ok, Ensures, Ensures-bind}
use harmonixia_server.Playback.Types.{
  PlaybackSessionTarget, PlaybackSessionQueueItem, PlaybackSessionTransfer, PlaybackSessionRuntime,
  PlaybackSessionQueueReplacement, PlaybackSessionStateMutation, sonos,
}
use harmonixia_server.Playback.Session.{
  with_queue, with_state, replaced_session, apply_playback_session_queue_replacement, next_index_of,
  mutated_session, apply_playback_session_state_mutation,
}
use harmonixia_server.Playback.Operations.{
  attach, detach, request_transfer, pending_transfer, confirm_transfer, confirm_transfer_to_sonos,
  confirmed_by, failed_transfer, fail_transfer, is_sonos, retarget,
}
use harmonixia_server.Playback.Invariant.{
  IndexOk, ProgressOk, TransferOk, SessionOk, Preserves, Ensures-validate_session_queue_index,
  Ensures-validate_playback_context, Ensures-validate_progress_seconds, Ensures-or_item_duration,
  attempt-Preserves,
}

with_queue-SessionOk :
    (s : PlaybackSessionRuntime) (r : PlaybackSessionQueueReplacement) (i d : Option ℕ)
    → is_some r.context_type ≡ is_some r.context_id
    → IndexOk r.queue i
    → ProgressOk (unwrap_or r.position_seconds 0) d
    → SessionOk (with_queue s r i d)
unfolding with_queue
with_queue-SessionOk s r i d c x p = record {
  indexed = x;
  context = c;
  progress = p;
  transferred = tt;
}

replaced_session-SessionOk :
    (s : PlaybackSessionRuntime) (r : PlaybackSessionQueueReplacement)
    → Ensures SessionOk (replaced_session s r)
unfolding replaced_session
replaced_session-SessionOk s r =
    Ensures-bind SessionOk _ _ _ (Ensures-validate_playback_context r.context_type r.context_id)
      λ _ c.
        Ensures-bind SessionOk _ _ _ (Ensures-validate_session_queue_index r.queue r.current_index)
          λ i x.
            Ensures-bind SessionOk _ _ _ (Ensures-or_item_duration r.duration_seconds r.queue i x)
              λ d _.
                Ensures-bind SessionOk _ _ (λ _. ok (with_queue s r i d))
                  (Ensures-validate_progress_seconds (unwrap_or r.position_seconds 0) d)
                  λ _ p. with_queue-SessionOk s r i d c x p

pub apply_playback_session_queue_replacement-Preserves :
    (r : PlaybackSessionQueueReplacement) → Preserves (apply_playback_session_queue_replacement r)
unfolding apply_playback_session_queue_replacement
apply_playback_session_queue_replacement-Preserves r s v =
    attempt-Preserves s _ v (replaced_session-SessionOk s r)

Ensures-next_index_of :
    (queue : List PlaybackSessionQueueItem) (asked current : Option ℕ)
    → IndexOk queue current
    → Ensures (IndexOk queue) (next_index_of queue asked current)
unfolding next_index_of
Ensures-next_index_of queue none current h = h
Ensures-next_index_of queue (some i) current h = Ensures-validate_session_queue_index queue (some i)

with_state-SessionOk :
    (s : PlaybackSessionRuntime) (m : PlaybackSessionStateMutation) (i d : Option ℕ)
    → SessionOk s
    → IndexOk s.queue i
    → ProgressOk (unwrap_or m.position_seconds s.position_seconds) d
    → SessionOk (with_state s m i d)
unfolding with_state
with_state-SessionOk s m i d v x p = record {
  indexed = x;
  context = v.context;
  progress = p;
  transferred = v.transferred;
}

mutated_session-SessionOk :
    (s : PlaybackSessionRuntime) (m : PlaybackSessionStateMutation)
    → SessionOk s
    → Ensures SessionOk (mutated_session s m)
unfolding mutated_session
mutated_session-SessionOk s m v =
    Ensures-bind SessionOk _ _ _
      (Ensures-next_index_of s.queue m.current_index s.current_index v.indexed)
      λ i x.
        Ensures-bind SessionOk _ _ _ (Ensures-or_item_duration m.duration_seconds s.queue i x)
          λ d _.
            Ensures-bind SessionOk _ _ (λ _. ok (with_state s m i (or_option d s.duration_seconds)))
              (Ensures-validate_progress_seconds (unwrap_or m.position_seconds s.position_seconds)
                (or_option d s.duration_seconds))
              λ _ p. with_state-SessionOk s m i (or_option d s.duration_seconds) v x p

pub apply_playback_session_state_mutation-Preserves :
    (m : PlaybackSessionStateMutation) → Preserves (apply_playback_session_state_mutation m)
unfolding apply_playback_session_state_mutation
apply_playback_session_state_mutation-Preserves m s v =
    attempt-Preserves s _ v (mutated_session-SessionOk s m v)

pub attach-Preserves :
    (fresh : ℕ) (id : Option ℕ) (device name app : Option String) (now : ℕ)
    → Preserves (attach fresh id device name app now)
unfolding attach
attach-Preserves fresh id device name app now s v = (
  record {
    indexed = v.indexed;
    context = v.context;
    progress = v.progress;
    transferred = v.transferred;
  },
  λ e. cc,
)

pub detach-Preserves : Preserves detach
unfolding detach
detach-Preserves s v = (
  record {
    indexed = v.indexed;
    context = v.context;
    progress = v.progress;
    transferred = v.transferred;
  },
  λ e. cc,
)

pub request_transfer-Preserves :
    (id : ℕ) (target : PlaybackSessionTarget) (now : ℕ) → Preserves (request_transfer id target now)
unfolding request_transfer
request_transfer-Preserves id target now s v = (ground arith, ground arith)

Ensures-pending_transfer :
    (id : ℕ) (o : Option PlaybackSessionTransfer)
    → Ensures (λ t. o ≡ some t) (pending_transfer id o)
unfolding pending_transfer
Ensures-pending_transfer id none = tt
Ensures-pending_transfer id (some t) = ground arith

pub retarget-SessionOk :
    (target : PlaybackSessionTarget) (s : PlaybackSessionRuntime)
    → SessionOk s
    → SessionOk (retarget target s)
unfolding retarget
retarget-SessionOk target s v = record {
  indexed = v.indexed;
  context = v.context;
  progress = v.progress;
  transferred = tt;
}

pub confirm_transfer-Preserves : (id : ℕ) → Preserves (confirm_transfer id)
unfolding confirm_transfer
confirm_transfer-Preserves id s v = attempt-Preserves s _ v (
    Ensures-bind SessionOk _ _ (λ t. ok (retarget t.requested_target s))
      (Ensures-pending_transfer id s.transfer) λ t _. retarget-SessionOk t.requested_target s v)

confirmed_by-SessionOk :
    (target : String) (s : PlaybackSessionRuntime) (t : PlaybackSessionTransfer)
    → SessionOk s
    → Ensures SessionOk (confirmed_by target s t)
unfolding confirmed_by
confirmed_by-SessionOk target s t v = elim (Bool-cases (is_sonos target t.requested_target)) [
  | inl e ↦ rw e (retarget-SessionOk (sonos target) s v)
  | inr e ↦ rw e tt
]

pub confirm_transfer_to_sonos-Preserves :
    (id : ℕ) (target : String) → Preserves (confirm_transfer_to_sonos id target)
unfolding confirm_transfer_to_sonos
confirm_transfer_to_sonos-Preserves id target s v = attempt-Preserves s _ v (
    Ensures-bind SessionOk _ _ (confirmed_by target s) (Ensures-pending_transfer id s.transfer)
      λ t _. confirmed_by-SessionOk target s t v)

failed_transfer-TransferOk :
    (id : ℕ) (reason : String) (now : ℕ) (queue : List PlaybackSessionQueueItem)
    (o : Option PlaybackSessionTransfer)
    → TransferOk queue o
    → TransferOk queue (failed_transfer id reason now o)
unfolding failed_transfer
failed_transfer-TransferOk id reason now queue none h = tt
failed_transfer-TransferOk id reason now queue (some t) h = ground arith

pub fail_transfer-Preserves :
    (id : ℕ) (reason : String) (now : ℕ) → Preserves (fail_transfer id reason now)
unfolding fail_transfer
fail_transfer-Preserves id reason now s v = (
  record {
    indexed = v.indexed;
    context = v.context;
    progress = v.progress;
    transferred = failed_transfer-TransferOk id reason now s.queue s.transfer v.transferred;
  },
  λ e. cc,
)
