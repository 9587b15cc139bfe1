-- ===== src/Playback/Effects.antt =====
-- src/state.rs: what a call that is refused leaves behind.
use harmonixia_server.Prelude.{
  ℕ, String, Option, none, some, ◌≡◌, refl, sym, subst, arith, ◌==◌, ◌⊎◌, inl, inr, Option-cases,
  Bool-cases, ==_iff,
}
use harmonixia_server.Prelude.Dict.{lookup, insert, lookup-insert}
use harmonixia_server.Errors.{ApiError, Outcome, ok, err, panic}
use harmonixia_server.Playback.Types.{
  PlaybackSessionRuntime, PlaybackSessionReadModel, PlaybackSessionTarget, new,
}
use harmonixia_server.Playback.Session.{
  Mutation, attempt, apply_playback_session_queue_replacement,
  apply_playback_session_state_mutation, apply_playback_session_snapshot,
}
use harmonixia_server.Playback.Operations.{
  attach, detach, request_transfer, confirm_transfer, confirm_transfer_to_sonos, fail_transfer,
  SonosReport, checked_sonos_start, sonos_start, sync, stop_sonos_target, is_sonos,
}
use harmonixia_server.Playback.Store.{
  Store, entry, settle, guarded_cases, mutate_playback_session, playback_session_for_account,
}
use harmonixia_server.Playback.Calls.{
  Caller, Call, reads, attaches, detaches, replaces_queue, updates_state, commits,
  requests_transfer, confirms_transfer, confirms_to_sonos, fails_transfer, starts_sonos,
  syncs_sonos, stops_sonos, start_from_sonos, perform,
}

-- A refused mutation leaves the session as it was.
abbrev Refuses : Mutation → Type 0
Refuses m = (s : PlaybackSessionRuntime) (e : ApiError) → (m s).1 ≡ err e → (m s).0 ≡ s

attempt-Refuses :
    (s : PlaybackSessionRuntime) (o : Outcome PlaybackSessionRuntime) (e : ApiError)
    → (attempt s o).1 ≡ err e
    → (attempt s o).0 ≡ s
attempt-Refuses s (ok t) e h = cc
attempt-Refuses s (err x) e h = refl
attempt-Refuses s panic e h = refl

queue_replacement-Refuses : (r : _) → Refuses (apply_playback_session_queue_replacement r)
unfolding apply_playback_session_queue_replacement
queue_replacement-Refuses r s e h = attempt-Refuses s _ e h

state_mutation-Refuses : (m : _) → Refuses (apply_playback_session_state_mutation m)
unfolding apply_playback_session_state_mutation
state_mutation-Refuses m s e h = attempt-Refuses s _ e h

request_transfer-Refuses :
    (id : ℕ) (target : PlaybackSessionTarget) (now : ℕ) → Refuses (request_transfer id target now)
unfolding request_transfer
request_transfer-Refuses id target now s e h = ground arith

confirm_transfer-Refuses : (id : ℕ) → Refuses (confirm_transfer id)
unfolding confirm_transfer
confirm_transfer-Refuses id s e h = attempt-Refuses s _ e h

confirm_transfer_to_sonos-Refuses :
    (id : ℕ) (target : String) → Refuses (confirm_transfer_to_sonos id target)
unfolding confirm_transfer_to_sonos
confirm_transfer_to_sonos-Refuses id target s e h = attempt-Refuses s _ e h

sync-Refuses : (r : SonosReport) → Refuses (sync r)
unfolding sync
sync-Refuses r s e h = elim (Bool-cases (is_sonos r.target_id s.active_target)) [
  | inl t ↦ rw t (attempt-Refuses s _ e (rw t at h))
  | inr t ↦ rw t refl
]

stop_sonos_target-Refuses : (target : String) → Refuses (stop_sonos_target target)
unfolding stop_sonos_target
stop_sonos_target-Refuses target s e h = ground arith

-- The sessions of the others, and the caller's own: as it was, or the fresh one that the call created.
abbrev pub KeepsSessions : Caller → Store → Store → Type 0
KeepsSessions c st st' =
    (j : ℕ)
    → (lookup j st'.sessions ≡ lookup j st.sessions)
      ⊎ ((j ≡ c.account_id)
          × (lookup j st.sessions ≡ none)
          × (lookup j st'.sessions ≡ some (new c.fresh st.event_sequence c.now)))

-- Nothing that a client can see has changed.
abbrev pub Untouched : Caller → Store → Store → Type 0
Untouched c st st' =
    (st'.event_sequence ≡ st.event_sequence)
    × (st'.pending ≡ st.pending)
    × (st'.sent ≡ st.sent)
    × (st'.poisoned ≡ st.poisoned)
    × KeepsSessions c st st'

-- Storing the session that `entry` gave changes at most whether it is there.
keeps-entry :
    (c : Caller) (st : Store) (j : ℕ)
    → (lookup j (insert c.account_id (entry st c.fresh c.now c.account_id) st.sessions)
        ≡ lookup j st.sessions)
      ⊎ ((j ≡ c.account_id)
          × (lookup j st.sessions ≡ none)
          × (lookup j (insert c.account_id (entry st c.fresh c.now c.account_id) st.sessions)
              ≡ some (new c.fresh st.event_sequence c.now)))
unfolding entry
keeps-entry c st j =
    rw (lookup-insert c.account_id j (entry st c.fresh c.now c.account_id) st.sessions)
      (elim (Bool-cases (c.account_id == j)) [
        | inr other ↦ rw other (inl refl)
        | inl own ↦
            let same : j ≡ c.account_id = sym ((==_iff c.account_id j).0 own) in
            rw (own, same)
              (elim (Option-cases (lookup c.account_id st.sessions)) [
                | inl e ↦ rw e (inr (refl, refl, refl))
                | inr (s, e) ↦ rw e (inl refl)
              ])
      ])

abbrev IsUntouched : Caller → ApiError → Store → Store × Outcome PlaybackSessionReadModel → Type 0
IsUntouched c e st (st', answer) = answer ≡ err e → Untouched c st st'

settle-IsUntouched :
    (c : Caller) (st : Store) (action : String) (entity : Option ℕ) (e : ApiError)
    (s : PlaybackSessionRuntime) (r : Outcome (Unit {0}))
    → ((x : ApiError) → r ≡ err x → s ≡ entry st c.fresh c.now c.account_id)
    → IsUntouched c e st (settle st c.account_id action entity c.now (s, r))
unfolding settle
settle-IsUntouched c st action entity e s panic kept h = cc
settle-IsUntouched c st action entity e s (ok _) kept h = cc
settle-IsUntouched c st action entity e s (err x) kept h = (
  refl,
  refl,
  refl,
  refl,
  subst (λ s'. KeepsSessions c st (record st { sessions = insert c.account_id s' st.sessions }))
      (sym (kept x refl)) (keeps-entry c st),
)

mutate-IsUntouched :
    (c : Caller) (action : String) (entity : Option ℕ) (e : ApiError) (m : Mutation) (st : Store)
    → Refuses m
    → IsUntouched c e st (mutate_playback_session c.fresh c.now c.account_id action entity m st)
unfolding mutate_playback_session
mutate-IsUntouched c action entity e m st refuses =
    let s = entry st c.fresh c.now c.account_id in
    guarded_cases (IsUntouched c e st) st.poisoned _ _ (λ h. cc)
      (settle-IsUntouched c st action entity e (m s).0 (m s).1 (refuses s))

read-IsUntouched :
    (c : Caller) (e : ApiError) (st : Store)
    → IsUntouched c e st (playback_session_for_account c.fresh c.now c.account_id st)
unfolding playback_session_for_account
read-IsUntouched c e st = guarded_cases (IsUntouched c e st) st.poisoned _ _ (λ h. cc) (λ h. cc)

start-IsUntouched :
    (c : Caller) (r : SonosReport) (o : Outcome ℕ) (e : ApiError) (st : Store)
    → IsUntouched c e st (start_from_sonos c r o st)
unfolding start_from_sonos
start-IsUntouched c r panic e st h = cc
start-IsUntouched c r (err x) e st h = (refl, refl, refl, refl, λ j. inl refl)
start-IsUntouched c r (ok i) e st h =
    mutate-IsUntouched c _ _ e _ st (unfold sonos_start in λ s x k. cc) h

-- A call that is refused with an error, whichever of the calls it is, leaves the counter, the events and
-- the lock as they were, and every account's session too, but that the caller may have got the fresh
-- session that any call creates for an account without one.
pub refused-Untouched :
    (c : Caller) (k : Call) (st : Store) (e : ApiError)
    → (perform c k st).1 ≡ err e
    → Untouched c st (perform c k st).0
unfolding perform
refused-Untouched c reads st e h = read-IsUntouched c e st h
refused-Untouched c (attaches id device name app) st e h =
    mutate-IsUntouched c _ _ e _ st (unfold attach in λ s x k. cc) h
refused-Untouched c detaches st e h =
    mutate-IsUntouched c _ _ e _ st (unfold detach in λ s x k. cc) h
refused-Untouched c (replaces_queue r) st e h =
    mutate-IsUntouched c _ _ e _ st (queue_replacement-Refuses r) h
refused-Untouched c (updates_state m) st e h =
    mutate-IsUntouched c _ _ e _ st (state_mutation-Refuses m) h
refused-Untouched c (commits snapshot action) st e h =
    mutate-IsUntouched c _ _ e _ st (unfold apply_playback_session_snapshot in λ s x k. cc) h
refused-Untouched c (requests_transfer id target) st e h =
    mutate-IsUntouched c _ _ e _ st (request_transfer-Refuses id target c.now) h
refused-Untouched c (confirms_transfer id) st e h =
    mutate-IsUntouched c _ _ e _ st (confirm_transfer-Refuses id) h
refused-Untouched c (confirms_to_sonos id target) st e h =
    mutate-IsUntouched c _ _ e _ st (confirm_transfer_to_sonos-Refuses id target) h
refused-Untouched c (fails_transfer id reason) st e h =
    mutate-IsUntouched c _ _ e _ st (unfold fail_transfer in λ s x k. cc) h
refused-Untouched c (starts_sonos r) st e h = start-IsUntouched c r (checked_sonos_start r) e st h
refused-Untouched c (syncs_sonos r action) st e h =
    mutate-IsUntouched c _ _ e _ st (sync-Refuses r) h
refused-Untouched c (stops_sonos target) st e h =
    mutate-IsUntouched c _ _ e _ st (stop_sonos_target-Refuses target) h
