-- ===== src/Playback/Events.antt =====
-- The events of src/state.rs and the stream of src/api/events.rs, `stream_events`: who is shown an event
-- (`AppEvent::visible_to`), and what each action adds to the events.
use harmonixia_server.Prelude.{
  ℕ, String, Bool, true, Option, List, [], ◌∷◌, ◌++◌, ◌≡◌, refl, ◌⊎◌, inl, inr, ◌==◌, if◌then◌else◌,
}
use harmonixia_server.Errors.{Outcome, ok, err, panic}
use harmonixia_server.Playback.Types.{PlaybackSessionRuntime, PlaybackSessionReadModel}
use harmonixia_server.Playback.Session.{Mutation}
use harmonixia_server.Playback.Operations.{SonosReport, checked_sonos_start}
use harmonixia_server.Playback.Store.{
  AppEventAudience, everyone, account, ScreenPatch, playback_session_replaced, recovery_requested,
  AppEvent, Store, next_sequence, session_event, settle, guarded_cases, mutate_playback_session,
  playback_session_for_account, publish_event,
}
use harmonixia_server.Playback.Calls.{Caller, Call, reads, starts_sonos, start_from_sonos, perform}

-- `AppEventAudience::visible_to`.
unfoldable pub visible_to : ℕ → AppEventAudience → Bool
visible_to account_id everyone = true
visible_to account_id (account a) = a == account_id

-- The events that `stream_events` passes on to one account.
unfoldable pub account_stream : ℕ → List AppEvent → List AppEvent
unfolding visible_to
account_stream account_id [] = []
account_stream account_id (e ∷ es) =
    let rest = account_stream account_id es in
    if visible_to account_id e.audience then e ∷ rest else rest

-- A session is shown to its own account only.
abbrev pub AddressedPatch : ScreenPatch → AppEventAudience → Type 0
AddressedPatch (playback_session_replaced a r) audience = audience ≡ account a
AddressedPatch (recovery_requested r x) audience = Unit {0}

abbrev pub Addressed : AppEvent → Type 0
Addressed e = AddressedPatch e.patch e.audience

-- What a call or another event does to the stream: nothing, or one more event with the next number.
abbrev pub Extends : Store → Store → Type 0
Extends st st' =
    (st'.sent ≡ st.sent)
    × (((st'.pending ≡ st.pending) × (st'.event_sequence ≡ st.event_sequence))
        ⊎ ((e : AppEvent) × (st'.pending ≡ st.pending ++ e ∷ [])
            × (st'.event_sequence ≡ next_sequence st)
            × (e.sequence ≡ next_sequence st)
            × Addressed e))

settle-Extends :
    (st : Store) (a : ℕ) (action : String) (entity : Option ℕ) (now : ℕ)
    (p : PlaybackSessionRuntime × Outcome (Unit {0}))
    → Extends st (settle st a action entity now p).0
unfolding settle session_event
settle-Extends st a action entity now (s, panic) = (refl, inl (refl, refl))
settle-Extends st a action entity now (s, err e) = (refl, inl (refl, refl))
settle-Extends st a action entity now (s, ok _) = (
  refl,
  inr (
    session_event st.event_stream_epoch a action entity now (next_sequence st) _,
    refl,
    refl,
    refl,
    refl,
  ),
)

abbrev ExtendsBy : Store → Store × Outcome PlaybackSessionReadModel → Type 0
ExtendsBy st (st', answer) = Extends st st'

mutate-Extends :
    (fresh now a : ℕ) (action : String) (entity : Option ℕ) (m : Mutation) (st : Store)
    → ExtendsBy st (mutate_playback_session fresh now a action entity m st)
unfolding mutate_playback_session
mutate-Extends fresh now a action entity m st =
    guarded_cases (ExtendsBy st) st.poisoned _ _ ((refl, inl (refl, refl)))
      (settle-Extends st a action entity now _)

read-Extends :
    (fresh now a : ℕ) (st : Store) → ExtendsBy st (playback_session_for_account fresh now a st)
unfolding playback_session_for_account
read-Extends fresh now a st =
    guarded_cases (ExtendsBy st) st.poisoned _ _ ((refl, inl (refl, refl)))
      ((refl, inl (refl, refl)))

start-Extends :
    (c : Caller) (r : SonosReport) (o : Outcome ℕ) (st : Store)
    → ExtendsBy st (start_from_sonos c r o st)
unfolding start_from_sonos
start-Extends c r panic st = (refl, inl (refl, refl))
start-Extends c r (err e) st = (refl, inl (refl, refl))
start-Extends c r (ok i) st = mutate-Extends c.fresh c.now c.account_id _ _ _ st

pub perform-Extends : (c : Caller) (k : Call) (st : Store) → ExtendsBy st (perform c k st)
unfolding perform
perform-Extends c reads st = read-Extends c.fresh c.now c.account_id st
perform-Extends c (starts_sonos r) st = start-Extends c r (checked_sonos_start r) st
perform-Extends c _ st = mutate-Extends c.fresh c.now c.account_id _ _ _ st

pub publish-Extends :
    (now : ℕ) (event resource action : String) (entity : Option ℕ) (st : Store)
    → Extends st (publish_event now event resource action entity st)
unfolding publish_event
publish-Extends now event resource action entity st = (refl, inr (_, refl, refl, refl, tt))
