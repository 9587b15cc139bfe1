-- ===== src/Playback/Store.antt =====
-- src/state.rs: the part of `AppStateInner` that the playback sessions use, the locked section of
-- `mutate_playback_session`, and the events that are broadcast. A panic under the write lock
-- poisons it, and every later use of it panics.
use harmonixia_server.Prelude.{
  ℕ, zero, suc, String, ◌+◌, ◌%◌, ◌^◌, Bool, true, false, Option, none, some, List, [], ◌∷◌, ◌++◌,
  unwrap_or, ◌≡◌, refl,
}
use harmonixia_server.Prelude.Dict.{lookup, insert}
use harmonixia_server.Errors.{Outcome, ok, err, panic, conflict, ◌>>=◌}
use harmonixia_server.Playback.Types.{
  PlaybackSessionRuntime, PlaybackSessionReadModel, PlaybackSessionTarget, local_android, sonos,
  new, to_read_model,
}
use harmonixia_server.Playback.Session.{Mutation}
use harmonixia_server.Playback.Operations.{pending_transfer}

-- Who sees an event: every account, or one.
pub data AppEventAudience : Type 0 where
  everyone : AppEventAudience
  account : ℕ → AppEventAudience

pub data ScreenPatch : Type 0 where
  playback_session_replaced : ℕ → PlaybackSessionReadModel → ScreenPatch
  recovery_requested : String → String → ScreenPatch

pub data ScreenSurface : Type 0 where
  home favorites playlist_list playlist_detail playback catalog recovery : ScreenSurface

pub record AppEvent : Type 0 where
  pub stream_epoch : ℕ
  pub sequence : ℕ
  pub surface : ScreenSurface
  pub revision : ℕ
  pub snapshot_at : ℕ
  pub patch : ScreenPatch
  pub event : String
  pub resource : String
  pub action : String
  pub entity_id : Option ℕ
  pub timestamp : ℕ
  pub audience : AppEventAudience

-- `pending` are the events that have their number and that the thread which drew it has yet to give to
-- `event_tx`, after it released the lock; `sent` is what `event_tx` was given, oldest first.
pub record Store : Type 0 where
  pub event_stream_epoch : ℕ
  pub sessions : List (ℕ × PlaybackSessionRuntime)
  pub event_sequence : ℕ  -- u64
  pub poisoned : Bool
  pub pending : List AppEvent
  pub sent : List AppEvent

unfoldable pub empty : ℕ → Store
empty epoch = record {
  event_stream_epoch = epoch;
  sessions = [];
  event_sequence = 0;
  poisoned = false;
  pending = [];
  sent = [];
}

-- `fetch_add(1) + 1` on a 64-bit counter.
abbrev pub next_sequence : Store → ℕ
next_sequence st = (st.event_sequence + 1) % 2 ^ 64

-- `entry(account).or_insert_with(…)`, with the identifier and the time that a new session gets.
unfoldable pub entry : Store → ℕ → ℕ → ℕ → PlaybackSessionRuntime
unfolding lookup
entry st fresh now account_id =
    unwrap_or (lookup account_id st.sessions) (new fresh st.event_sequence now)

-- The session as it is stored after a mutation that succeeded.
abbrev pub stamped : ℕ → ℕ → PlaybackSessionRuntime → PlaybackSessionRuntime
stamped sequence now s = record s { revision = sequence; snapshot_at = now }

unfoldable pub session_event :
    ℕ → ℕ → String → Option ℕ → ℕ → ℕ → PlaybackSessionReadModel → AppEvent
session_event epoch account_id action entity_id now sequence snapshot = record {
  stream_epoch = epoch;
  sequence = sequence;
  surface = playback;
  revision = sequence;
  snapshot_at = now;
  patch = playback_session_replaced account_id snapshot;
  event = "playback_session_replaced";
  resource = "playback_session";
  action = action;
  entity_id = entity_id;
  timestamp = now;
  audience = account account_id;
}

-- A mutated session, stamped with the next sequence number: stored and answered, its event ready to
-- be sent.
unfoldable pub announce :
    Store
    → ℕ
    → String
    → Option ℕ
    → ℕ
    → PlaybackSessionRuntime
    → Store × Outcome PlaybackSessionReadModel
announce st account_id action entity_id now done =
    let snapshot = to_read_model done in
    (
      record st {
        sessions = insert account_id done st.sessions;
        event_sequence = next_sequence st;
        pending =
            st.pending
            ++ session_event st.event_stream_epoch account_id action entity_id now
                (next_sequence st) snapshot
              ∷ [];
      },
      ok snapshot,
    )

-- The end of `mutate_playback_session`, once the closure has returned.
unfoldable pub settle :
    Store
    → ℕ
    → String
    → Option ℕ
    → ℕ
    → PlaybackSessionRuntime × Outcome (Unit {0})
    → Store × Outcome PlaybackSessionReadModel
unfolding announce
settle st account_id action entity_id now (s, panic) =
    (record st { sessions = insert account_id s st.sessions; poisoned = true }, panic)
settle st account_id action entity_id now (s, err e) =
    (record st { sessions = insert account_id s st.sessions }, err e)
settle st account_id action entity_id now (s, ok _) =
    announce st account_id action entity_id now (stamped (next_sequence st) now s)

-- `.expect("playback sessions lock poisoned")`.
abbrev pub guarded {ℓ} : {A : Type ℓ} → Bool → A → A → A
guarded true refused done = refused
guarded false refused done = done

-- A lock that is not poisoned opens.
pub guarded_sound {ℓ} : {A : Type ℓ} (b : Bool) (x y : A) → b ≡ false → guarded b x y ≡ y
guarded_sound true x y e = cc
guarded_sound false x y e = refl

-- What holds of both outcomes holds of a locked section.
pub guarded_cases {ℓ κ} :
    {A : Type ℓ} (P : A → Type κ) (b : Bool) (x y : A) → P x → P y → P (guarded b x y)
guarded_cases P true x y p q = p
guarded_cases P false x y p q = q

-- `mutate_playback_session`, with the identifier that a new session would draw and the time.
unfoldable pub mutate_playback_session :
    ℕ → ℕ → ℕ → String → Option ℕ → Mutation → Store → Store × Outcome PlaybackSessionReadModel
unfolding settle entry
mutate_playback_session fresh now account_id action entity_id mutation st =
    guarded st.poisoned (st, panic)
      (settle st account_id action entity_id now (mutation (entry st fresh now account_id)))

-- `playback_session_for_account`.
unfoldable pub playback_session_for_account :
    ℕ → ℕ → ℕ → Store → Store × Outcome PlaybackSessionReadModel
unfolding entry
playback_session_for_account fresh now account_id st =
    let s = entry st fresh now account_id in
    guarded st.poisoned (st, panic)
      (record st { sessions = insert account_id s st.sessions }, ok (to_read_model s))

-- `publish_event`: the recovery patch for everyone. Its reason joins the resource and the action.
unfoldable pub publish_event : ℕ → String → String → String → Option ℕ → Store → Store
publish_event now event resource action entity_id st = record st {
  event_sequence = next_sequence st;
  pending = st.pending ++ published ∷ [];
}
  where
    published : AppEvent
    published = record {
      stream_epoch = st.event_stream_epoch;
      sequence = next_sequence st;
      surface = recovery;
      revision = next_sequence st;
      snapshot_at = now;
      patch = recovery_requested resource action;
      event = event;
      resource = resource;
      action = action;
      entity_id = entity_id;
      timestamp = now;
      audience = everyone;
    }

-- An event taken out of a list, and the rest.
abbrev pub behind : AppEvent → Option (AppEvent × List AppEvent) → Option (AppEvent × List AppEvent)
behind x none = none
behind x (some (taken, rest)) = some (taken, x ∷ rest)

abbrev pub take_out : ℕ → List AppEvent → Option (AppEvent × List AppEvent)
take_out i [] = none
take_out zero (e ∷ es) = some (e, es)
take_out (suc i) (e ∷ es) = behind e (take_out i es)

abbrev pub sent_out : Option (AppEvent × List AppEvent) → Store → Store
sent_out none st = st
sent_out (some (e, rest)) st = record st { pending = rest; sent = st.sent ++ e ∷ [] }

-- `event_tx.send`, by any thread that has an event to send.
unfoldable pub send : ℕ → Store → Store
send i st = sent_out (take_out i st.pending) st

-- What a preview shows: the session after the mutation, which the store does not take over.
abbrev pub shown : PlaybackSessionRuntime × Outcome (Unit {0}) → Outcome PlaybackSessionReadModel
shown (s, ok _) = ok (to_read_model s)
shown (s, err e) = err e
shown (s, panic) = panic

-- `preview_playback_session_queue_replacement` and `preview_playback_session_state_update`, over
-- `playback_session_runtime_snapshot`.
unfoldable pub preview : ℕ → ℕ → ℕ → Mutation → Store → Outcome PlaybackSessionReadModel
unfolding entry
preview fresh now account_id mutation st =
    guarded st.poisoned panic (shown (mutation (entry st fresh now account_id)))

-- The Sonos player that a transfer back to the phone leaves.
abbrev pub target_to_stop : PlaybackSessionTarget → PlaybackSessionTarget → Option String
target_to_stop (local_android _) (sonos target_id) = some target_id
target_to_stop (local_android _) (local_android _) = none
target_to_stop (sonos _) active = none

unfoldable pub confirmation : ℕ → Option PlaybackSessionRuntime → Outcome (Option String)
confirmation transfer_id none = err (conflict "no pending playback transfer")
confirmation transfer_id (some s) = do
  t ← pending_transfer transfer_id s.transfer
  ok (target_to_stop t.requested_target s.active_target)

-- `playback_session_transfer_confirmation`.
unfoldable pub playback_session_transfer_confirmation : ℕ → ℕ → Store → Outcome (Option String)
unfolding confirmation
playback_session_transfer_confirmation account_id transfer_id st =
    guarded st.poisoned panic (confirmation transfer_id (lookup account_id st.sessions))
