-- ===== src/Playback/Session.antt =====
-- src/state.rs: the functions that validate and change one playback session. Each takes the session by
-- `&mut` and writes only after its last `?`, so a refused call leaves it as it was (`attempt`).
use harmonixia_server.Prelude.{
  ℕ, Bool, true, false, not, Option, none, some, List, [], ◌∷◌, ltb, leb, ◌==◌, if◌then◌else◌,
  is_some, or_option, unwrap_or, length, get_elem?,
}
use harmonixia_server.Errors.{ApiError, bad_request, Outcome, ok, err, panic, guard, ◌>>=◌, ◌>>◌}
use harmonixia_server.Playback.Types.{
  PlaybackContextType, PlaybackSessionQueueItem, PlaybackSessionRuntime, PlaybackSessionReadModel,
  PlaybackSessionQueueReplacement, PlaybackSessionStateMutation, stopped,
}

-- What a closure over `&mut PlaybackSessionRuntime` leaves and returns.
abbrev pub Mutation : Type 0
Mutation = PlaybackSessionRuntime → PlaybackSessionRuntime × Outcome (Unit {0})

abbrev pub attempt :
    PlaybackSessionRuntime
    → Outcome PlaybackSessionRuntime
    → PlaybackSessionRuntime × Outcome (Unit {0})
attempt s (ok s') = (s', ok tt)
attempt s (err e) = (s, err e)
attempt s panic = (s, panic)

abbrev pub outside_queue : ApiError
outside_queue = bad_request "current_index cannot point outside the playback queue"

unfoldable pub validate_session_queue_index :
    List PlaybackSessionQueueItem → Option ℕ → Outcome (Option ℕ)
validate_session_queue_index [] none = ok none
validate_session_queue_index [] (some index) = if index == 0 then ok none else err outside_queue
validate_session_queue_index (item ∷ items) current_index =
    let index : ℕ = unwrap_or current_index 0 in
    if leb (length (item ∷ items)) index then err outside_queue else ok (some index)

unfoldable pub validate_progress_seconds : ℕ → Option ℕ → Outcome (Unit {0})
validate_progress_seconds position none = ok tt
validate_progress_seconds position (some duration) =
    if ltb duration position
    then err (bad_request "position_seconds cannot exceed duration_seconds")
    else ok tt

abbrev bool_eq : Bool → Bool → Bool
bool_eq true b = b
bool_eq false b = not b

unfoldable pub validate_playback_context :
    Option PlaybackContextType → Option ℕ → Outcome (Unit {0})
validate_playback_context context_type context_id =
    guard (bool_eq (is_some context_type) (is_some context_id))
      (bad_request "context_type and context_id must be supplied together")

-- `index.and_then(|index| queue[index].duration_seconds)`: indexing out of bounds panics.
unfoldable pub item_duration : List PlaybackSessionQueueItem → Option ℕ → Outcome (Option ℕ)
item_duration queue none = ok none
item_duration queue (some index) = elim (get_elem? queue index) [
  | none ↦ panic
  | some item ↦ ok item.duration_seconds
]

-- `duration.or_else(|| …)`: the second is computed only without the first.
unfoldable pub or_item_duration :
    Option ℕ → List PlaybackSessionQueueItem → Option ℕ → Outcome (Option ℕ)
or_item_duration (some d) queue index = ok (some d)
or_item_duration none queue index = item_duration queue index

-- The assignments of a queue replacement.
unfoldable pub with_queue :
    PlaybackSessionRuntime
    → PlaybackSessionQueueReplacement
    → Option ℕ
    → Option ℕ
    → PlaybackSessionRuntime
with_queue s r index duration = record s {
  queue = r.queue;
  context_type = r.context_type;
  context_id = r.context_id;
  current_index = index;
  playback_state = unwrap_or r.playback_state stopped;
  position_seconds = unwrap_or r.position_seconds 0;
  duration_seconds = duration;
  transfer = none;
}

unfoldable pub replaced_session :
    PlaybackSessionRuntime → PlaybackSessionQueueReplacement → Outcome PlaybackSessionRuntime
replaced_session s r = do
  validate_playback_context r.context_type r.context_id
  next_index ← validate_session_queue_index r.queue r.current_index
  next_duration ← or_item_duration r.duration_seconds r.queue next_index
  validate_progress_seconds (unwrap_or r.position_seconds 0) next_duration
  ok (with_queue s r next_index next_duration)

unfoldable pub apply_playback_session_queue_replacement : PlaybackSessionQueueReplacement → Mutation
apply_playback_session_queue_replacement r s = attempt s (replaced_session s r)

-- The index that a state mutation asks for, or the one at hand.
unfoldable pub next_index_of :
    List PlaybackSessionQueueItem → Option ℕ → Option ℕ → Outcome (Option ℕ)
next_index_of queue (some index) current = validate_session_queue_index queue (some index)
next_index_of queue none current = ok current

-- The assignments of a state mutation.
unfoldable pub with_state :
    PlaybackSessionRuntime
    → PlaybackSessionStateMutation
    → Option ℕ
    → Option ℕ
    → PlaybackSessionRuntime
with_state s m index duration = record s {
  current_index = index;
  duration_seconds = duration;
  position_seconds = unwrap_or m.position_seconds s.position_seconds;
  playback_state = unwrap_or m.playback_state s.playback_state;
  repeat_mode = unwrap_or m.repeat_mode s.repeat_mode;
  shuffle = unwrap_or m.shuffle s.shuffle;
}

unfoldable pub mutated_session :
    PlaybackSessionRuntime → PlaybackSessionStateMutation → Outcome PlaybackSessionRuntime
mutated_session s m = do
  next_index ← next_index_of s.queue m.current_index s.current_index
  from_item ← or_item_duration m.duration_seconds s.queue next_index
  let next_duration = or_option from_item s.duration_seconds
  validate_progress_seconds (unwrap_or m.position_seconds s.position_seconds) next_duration
  ok (with_state s m next_index next_duration)

unfoldable pub apply_playback_session_state_mutation : PlaybackSessionStateMutation → Mutation
apply_playback_session_state_mutation m s = attempt s (mutated_session s m)

-- The revision and the time stay those of the session; `u32 as usize` keeps the index.
unfoldable pub apply_playback_session_snapshot : PlaybackSessionReadModel → Mutation
apply_playback_session_snapshot r s = (
  record s {
    session_id = r.session_id;
    queue = r.queue;
    context_type = r.context_type;
    context_id = r.context_id;
    current_index = r.current_index;
    playback_state = r.playback_state;
    position_seconds = r.position_seconds;
    duration_seconds = r.duration_seconds;
    repeat_mode = r.repeat_mode;
    shuffle = r.shuffle;
    active_target = r.active_target;
    attachment = r.attachment;
    transfer = r.transfer;
  },
  ok tt,
)
