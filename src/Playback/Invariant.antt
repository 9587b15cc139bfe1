-- ===== src/Playback/Invariant.antt =====
-- What holds of every playback session between two calls.
use harmonixia_server.Prelude.{
  ℕ, ◌≤◌, ◌<◌, ◌≡◌, refl, ◌⊎◌, true, false, Option, none, some, List, [], ◌∷◌, arith, length,
  get_elem?-lt, is_some, is_empty,
}
use harmonixia_server.Errors.{Outcome, ok, err, panic, Ensures}
use harmonixia_server.Playback.Types.{
  PlaybackContextType, PlaybackSessionQueueItem, PlaybackSessionTransfer, PlaybackSessionRuntime,
  pending, failed, new,
}
use harmonixia_server.Playback.Session.{
  Mutation, attempt, validate_session_queue_index, validate_progress_seconds,
  validate_playback_context, item_duration, or_item_duration,
}

-- There is a current item exactly when the queue has one, and the index points into the queue.
abbrev pub IndexOk : List PlaybackSessionQueueItem → Option ℕ → Type 0
IndexOk queue none = queue ≡ []
IndexOk queue (some i) = i < length queue

abbrev pub ProgressOk : ℕ → Option ℕ → Type 0
ProgressOk position none = Unit {0}
ProgressOk position (some duration) = position ≤ duration

-- A transfer was asked of a session with a queue; it is pending with no result, or failed with a
-- reason and a time, and never confirmed (a confirmed transfer is dropped).
abbrev pub TransferStateOk : PlaybackSessionTransfer → Type 0
TransferStateOk t =
    ((t.state ≡ pending) × (t.confirmed_at ≡ none) × (t.failure_reason ≡ none))
    ⊎ ((t.state ≡ failed) × (is_some t.confirmed_at ≡ true) × (is_some t.failure_reason ≡ true))

abbrev pub TransferOk : List PlaybackSessionQueueItem → Option PlaybackSessionTransfer → Type 0
TransferOk queue none = Unit {0}
TransferOk queue (some t) =
    (is_empty queue ≡ false) × (t.confirmed_target ≡ none) × TransferStateOk t

pub record SessionOk (s : PlaybackSessionRuntime) : Type 0 where
  pub indexed : IndexOk s.queue s.current_index
  pub context : is_some s.context_type ≡ is_some s.context_id
  pub progress : ProgressOk s.position_seconds s.duration_seconds
  pub transferred : TransferOk s.queue s.transfer

-- A mutation leaves a good session, whatever it returns, and does not panic.
abbrev pub Preserves : Mutation → Type 0
Preserves m = (s : PlaybackSessionRuntime) → SessionOk s → SessionOk (m s).0 × ((m s).1 ≡ panic → ⊥)

pub new-SessionOk : (id revision now : ℕ) → SessionOk (new id revision now)
unfolding new
new-SessionOk id revision now = record {
  indexed = refl;
  context = refl;
  progress = tt;
  transferred = tt;
}

-- A checked index points into the queue, and is there unless the queue is empty.
pub Ensures-validate_session_queue_index :
    (queue : List PlaybackSessionQueueItem) (o : Option ℕ)
    → Ensures (IndexOk queue) (validate_session_queue_index queue o)
unfolding validate_session_queue_index
Ensures-validate_session_queue_index [] none = refl
Ensures-validate_session_queue_index [] (some i) = ground arith
Ensures-validate_session_queue_index (x ∷ xs) none = ground arith
Ensures-validate_session_queue_index (x ∷ xs) (some i) = ground arith

pub Ensures-validate_playback_context :
    (t : Option PlaybackContextType) (i : Option ℕ)
    → Ensures (λ _. is_some t ≡ is_some i) (validate_playback_context t i)
unfolding validate_playback_context
Ensures-validate_playback_context none none = refl
Ensures-validate_playback_context none (some i) = tt
Ensures-validate_playback_context (some t) none = tt
Ensures-validate_playback_context (some t) (some i) = refl

pub Ensures-validate_progress_seconds :
    (position : ℕ) (d : Option ℕ)
    → Ensures (λ _. ProgressOk position d) (validate_progress_seconds position d)
unfolding validate_progress_seconds
Ensures-validate_progress_seconds position none = tt
Ensures-validate_progress_seconds position (some d) = ground arith

-- No lookup at a checked index panics.
pub Ensures-or_item_duration :
    (d : Option ℕ) (queue : List PlaybackSessionQueueItem) (i : Option ℕ)
    → IndexOk queue i
    → Ensures (λ _. Unit {0}) (or_item_duration d queue i)
unfolding or_item_duration item_duration
Ensures-or_item_duration (some d) queue i h = tt
Ensures-or_item_duration none queue none h = tt
Ensures-or_item_duration none queue (some i) h =
    let (item, e) = get_elem?-lt queue i h in rw (e, or_item_duration, item_duration) tt

pub attempt-Preserves :
    (s : PlaybackSessionRuntime) (o : Outcome PlaybackSessionRuntime)
    → SessionOk s
    → Ensures SessionOk o
    → SessionOk (attempt s o).0 × ((attempt s o).1 ≡ panic → ⊥)
attempt-Preserves s (ok t) v r = (r, λ e. cc)
attempt-Preserves s (err e) v r = (v, λ e. cc)
attempt-Preserves s panic v r = absurd r
