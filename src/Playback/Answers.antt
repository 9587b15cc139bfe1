-- ===== src/Playback/Answers.antt =====
-- src/state.rs: what a call that is answered announces, and what a read that follows shows.
use harmonixia_server.Prelude.{
  ℕ, String, ◌+◌, ◌%◌, ◌^◌, Bool, true, false, Option, [], ◌∷◌, ◌++◌, ◌≡◌, refl, subst, ap, ◌==◌,
  ==_iff,
}
use harmonixia_server.Prelude.Dict.{lookup, insert, lookup-insert}
use harmonixia_server.Errors.{Outcome, ok, err, panic}
use harmonixia_server.Playback.Types.{
  PlaybackSessionRuntime, PlaybackSessionReadModel, to_read_model,
}
use harmonixia_server.Playback.Session.{Mutation}
use harmonixia_server.Playback.Operations.{SonosReport, checked_sonos_start}
use harmonixia_server.Playback.Store.{
  AppEvent, playback_session_replaced, Store, entry, stamped, next_sequence, session_event, settle,
  guarded, mutate_playback_session, playback_session_for_account,
}
use harmonixia_server.Playback.Calls.{
  Caller, Call, reads, attaches, detaches, replaces_queue, updates_state, commits,
  requests_transfer, confirms_transfer, confirms_to_sonos, fails_transfer, starts_sonos,
  syncs_sonos, stops_sonos, start_from_sonos, perform,
}
use harmonixia_server.Playback.Events.{visible_to}

-- What a call other than a read announces: one event with the next number, which shows the session that
-- was answered, to the caller's account and no other.
abbrev Announced : Caller → Store → PlaybackSessionReadModel → Store → Type 0
Announced c st view st' =
    (e : AppEvent) × (st'.pending ≡ st.pending ++ e ∷ [])
    × (e.sequence ≡ (st.event_sequence + 1) % 2 ^ 64)
    × (st'.event_sequence ≡ e.sequence)
    × (e.patch ≡ playback_session_replaced c.account_id view)
    × (e.revision ≡ view.revision)
    × (view.revision ≡ e.sequence)
    × (view.snapshot_at ≡ c.now)
    × ((viewer : ℕ) → visible_to viewer e.audience ≡ (c.account_id == viewer))

abbrev pub Announces : Call → Caller → Store → PlaybackSessionReadModel → Store → Type 0
Announces reads c st view st' =
    (st'.pending ≡ st.pending) × (st'.event_sequence ≡ st.event_sequence)
Announces _ c st view st' = Announced c st view st'

-- A read that follows shows the session that was answered, and the other accounts have what they had.
abbrev pub Shown : Caller → Store → PlaybackSessionReadModel → Store → Type 0
Shown c st view st' =
    ((fresh now : ℕ) → (playback_session_for_account fresh now c.account_id st').1 ≡ ok view)
    × ((j : ℕ) → (c.account_id == j) ≡ false → lookup j st'.sessions ≡ lookup j st.sessions)

stored-Shown :
    (c : Caller) (st st' : Store) (s : PlaybackSessionRuntime)
    → st'.poisoned ≡ false
    → st'.sessions ≡ insert c.account_id s st.sessions
    → Shown c st (to_read_model s) st'
unfolding playback_session_for_account entry
stored-Shown c st st' s sound e = (
  λ fresh now.
      rw (sound, e, lookup-insert c.account_id c.account_id s st.sessions)
        (rw (==_iff c.account_id c.account_id).1 refl),
  λ j other. rw (e, lookup-insert c.account_id j s st.sessions) (rw other refl),
)

abbrev ok_or_else {ℓ} : {A : Type ℓ} → A → Outcome A → A
ok_or_else d (ok a) = a
ok_or_else d (err e) = d
ok_or_else d panic = d

ok_injective {ℓ} : {A : Type ℓ} {a b : A} → ok a ≡ ok b → a ≡ b
ok_injective {a} h = ap (ok_or_else a) h

abbrev IsAnnounced : Caller → Store → Store × Outcome PlaybackSessionReadModel → Type 0
IsAnnounced c st (st', answer) =
    (view : PlaybackSessionReadModel)
    → answer ≡ ok view
    → Announced c st view st' × Shown c st view st'

settle-IsAnnounced :
    (c : Caller) (st : Store) (action : String) (entity : Option ℕ)
    (p : PlaybackSessionRuntime × Outcome (Unit {0}))
    → st.poisoned ≡ false
    → IsAnnounced c st (settle st c.account_id action entity c.now p)
unfolding settle session_event to_read_model visible_to
settle-IsAnnounced c st action entity (s, panic) sound view h = cc
settle-IsAnnounced c st action entity (s, err x) sound view h = cc
settle-IsAnnounced c st action entity (s, ok _) sound view h =
    let done = stamped (next_sequence st) c.now s in
    subst
      (λ v.
        Announced c st v (settle st c.account_id action entity c.now (s, ok tt)).0
        × Shown c st v (settle st c.account_id action entity c.now (s, ok tt)).0)
      (ok_injective h)
      (
        (
          session_event st.event_stream_epoch c.account_id action entity c.now (next_sequence st)
              (to_read_model done),
          refl,
          refl,
          refl,
          refl,
          refl,
          refl,
          refl,
          λ viewer. refl,
        ),
        stored-Shown c st _ done sound refl,
      )

-- A locked section whose outcomes differ by whether the lock is poisoned.
guarded_split {ℓ κ} :
    {A : Type ℓ} (P : A → Type κ) (b : Bool) (x y : A) → P x → (b ≡ false → P y) → P (guarded b x y)
guarded_split P true x y p q = p
guarded_split P false x y p q = q refl

mutate-IsAnnounced :
    (c : Caller) (action : String) (entity : Option ℕ) (m : Mutation) (st : Store)
    → IsAnnounced c st (mutate_playback_session c.fresh c.now c.account_id action entity m st)
unfolding mutate_playback_session
mutate-IsAnnounced c action entity m st =
    guarded_split (IsAnnounced c st) st.poisoned _ _ (λ view h. cc)
      (settle-IsAnnounced c st action entity (m (entry st c.fresh c.now c.account_id)))

start-IsAnnounced :
    (c : Caller) (r : SonosReport) (o : Outcome ℕ) (st : Store)
    → IsAnnounced c st (start_from_sonos c r o st)
unfolding start_from_sonos
start-IsAnnounced c r panic st view h = cc
start-IsAnnounced c r (err x) st view h = cc
start-IsAnnounced c r (ok i) st view h = mutate-IsAnnounced c _ _ _ st view h

abbrev ReadsBack : Caller → Store → Store × Outcome PlaybackSessionReadModel → Type 0
ReadsBack c st (st', answer) =
    (view : PlaybackSessionReadModel)
    → answer ≡ ok view
    → Announces reads c st view st' × Shown c st view st'

stored-ReadsBack :
    (c : Caller) (st : Store) (s : PlaybackSessionRuntime)
    → st.poisoned ≡ false
    → ReadsBack c st
        (record st { sessions = insert c.account_id s st.sessions }, ok (to_read_model s))
stored-ReadsBack c st s sound view h = (
  (refl, refl),
  subst (λ v. Shown c st v (record st { sessions = insert c.account_id s st.sessions }))
      (ok_injective h) (stored-Shown c st _ s sound refl),
)

read-ReadsBack :
    (c : Caller) (st : Store)
    → ReadsBack c st (playback_session_for_account c.fresh c.now c.account_id st)
unfolding playback_session_for_account
read-ReadsBack c st =
    guarded_split (ReadsBack c st) st.poisoned _ _ (λ view h. cc)
      (stored-ReadsBack c st (entry st c.fresh c.now c.account_id))

-- A call that is answered with a session, whichever of the calls it is: a read of the account that
-- follows shows that session, no other account's session changes, and a call that is not a read has
-- drawn the next number for one event, which shows that session to that account only.
pub answered-Announces :
    (c : Caller) (k : Call) (st : Store) (view : PlaybackSessionReadModel)
    → (perform c k st).1 ≡ ok view
    → Announces k c st view (perform c k st).0 × Shown c st view (perform c k st).0
unfolding perform
answered-Announces c reads st = read-ReadsBack c st
answered-Announces c (attaches id device name app) st = mutate-IsAnnounced c _ _ _ st
answered-Announces c detaches st = mutate-IsAnnounced c _ _ _ st
answered-Announces c (replaces_queue r) st = mutate-IsAnnounced c _ _ _ st
answered-Announces c (updates_state m) st = mutate-IsAnnounced c _ _ _ st
answered-Announces c (commits snapshot action) st = mutate-IsAnnounced c _ _ _ st
answered-Announces c (requests_transfer id target) st = mutate-IsAnnounced c _ _ _ st
answered-Announces c (confirms_transfer id) st = mutate-IsAnnounced c _ _ _ st
answered-Announces c (confirms_to_sonos id target) st = mutate-IsAnnounced c _ _ _ st
answered-Announces c (fails_transfer id reason) st = mutate-IsAnnounced c _ _ _ st
answered-Announces c (starts_sonos r) st = start-IsAnnounced c r (checked_sonos_start r) st
answered-Announces c (syncs_sonos r action) st = mutate-IsAnnounced c _ _ _ st
answered-Announces c (stops_sonos target) st = mutate-IsAnnounced c _ _ _ st
