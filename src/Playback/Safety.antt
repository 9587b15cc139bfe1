-- ===== src/Playback/Safety.antt =====
-- Every history of calls keeps every session good, and no call panics.
use harmonixia_server.Prelude.{
  ℕ, String, false, Option, none, some, List, [], ◌∷◌, All, is_some, ◌≡◌, ◌≢◌, refl, sym, subst,
  Bool-cases, inl, inr, unwrap_or, ◌==◌,
}
use harmonixia_server.Prelude.Dict.{lookup, insert}
use harmonixia_server.Errors.{Outcome, ok, err, panic, Ensures}
use harmonixia_server.Playback.Types.{PlaybackSessionRuntime, PlaybackSessionReadModel}
use harmonixia_server.Playback.Session.{Mutation}
use harmonixia_server.Playback.Operations.{SonosReport, checked_sonos_start}
use harmonixia_server.Playback.Invariant.{SessionOk, Preserves, new-SessionOk}
use harmonixia_server.Playback.Preservation.{
  apply_playback_session_queue_replacement-Preserves,
  apply_playback_session_state_mutation-Preserves, attach-Preserves, detach-Preserves,
  request_transfer-Preserves, confirm_transfer-Preserves, confirm_transfer_to_sonos-Preserves,
  fail_transfer-Preserves,
}
use harmonixia_server.Playback.SonosPreservation.{
  ReadModelOk, StartOk, checked_sonos_start-StartOk, sonos_start-Preserves, sync-Preserves,
  stop_sonos_target-Preserves, apply_playback_session_snapshot-Preserves,
}
use harmonixia_server.Playback.Store.{
  AppEvent, Store, empty, entry, take_out, sent_out, stamped, next_sequence, settle, guarded_sound,
  mutate_playback_session, playback_session_for_account, publish_event, send,
}
use harmonixia_server.Playback.Calls.{
  Caller, Call, reads, attaches, detaches, replaces_queue, updates_state, commits,
  requests_transfer, confirms_transfer, confirms_to_sonos, fails_transfer, starts_sonos,
  syncs_sonos, stops_sonos, start_from_sonos, perform, Action, call, publish, sends, step, run,
}

abbrev SessionsOk : List (ℕ × PlaybackSessionRuntime) → Type 0
SessionsOk = All (λ p. SessionOk p.1)

pub record StoreOk (st : Store) : Type 0 where
  pub sound : st.poisoned ≡ false
  pub good : All (λ p. SessionOk p.1) st.sessions

-- What the callers owe: a snapshot that a good session could have shown, and a context that is
-- complete in a report of the running Sonos session. All else is checked by the code.
abbrev pub IsProper : Call → Type 0
IsProper (commits snapshot action) = ReadModelOk snapshot
IsProper (syncs_sonos r action) = is_some r.context_type ≡ is_some r.context_id
IsProper _ = Unit {0}

abbrev pub AreProper : List Action → Type 0
AreProper [] = Unit {0}
AreProper (call c k ∷ as') = IsProper k × AreProper as'
AreProper (publish now event resource action entity ∷ as') = AreProper as'
AreProper (sends i ∷ as') = AreProper as'

insert-SessionsOk :
    (k : ℕ) (s : PlaybackSessionRuntime) (m : List (ℕ × PlaybackSessionRuntime))
    → SessionOk s
    → SessionsOk m
    → SessionsOk (insert k s m)
unfolding insert
insert-SessionsOk k s [] h g = (h, tt)
insert-SessionsOk k s ((j, t) ∷ m) h g = elim (Bool-cases (j == k)) [
  | inl e ↦ rw e (h, g.1)
  | inr e ↦ rw e (g.0, insert-SessionsOk k s m h g.1)
]

found-SessionOk :
    (k : ℕ) (d : PlaybackSessionRuntime) (m : List (ℕ × PlaybackSessionRuntime))
    → SessionOk d
    → SessionsOk m
    → SessionOk (unwrap_or (lookup k m) d)
unfolding lookup
found-SessionOk k d [] h g = h
found-SessionOk k d ((j, t) ∷ m) h g = elim (Bool-cases (j == k)) [
  | inl e ↦ rw e (g.0)
  | inr e ↦ rw e (found-SessionOk k d m h g.1)
]

pub entry-SessionOk :
    (st : Store) (fresh now account : ℕ) → StoreOk st → SessionOk (entry st fresh now account)
unfolding entry
entry-SessionOk st fresh now account v =
    found-SessionOk account _ st.sessions (new-SessionOk fresh st.event_sequence now) v.good

-- The store is good and the call did not panic.
abbrev pub Survives : Store × Outcome PlaybackSessionReadModel → Type 0
Survives (st, r) = StoreOk st × (r ≢ panic)

stamped-SessionOk :
    (n now : ℕ) (s : PlaybackSessionRuntime) → SessionOk s → SessionOk (stamped n now s)
stamped-SessionOk n now s v = record {
  indexed = v.indexed;
  context = v.context;
  progress = v.progress;
  transferred = v.transferred;
}

settle-Survives :
    (st : Store) (account : ℕ) (action : String) (entity : Option ℕ) (now : ℕ)
    (s : PlaybackSessionRuntime) (r : Outcome (Unit {0}))
    → StoreOk st
    → SessionOk s
    → (r ≡ panic → ⊥)
    → Survives (settle st account action entity now (s, r))
unfolding settle
settle-Survives st account action entity now s panic v h n = absurd (n refl)
settle-Survives st account action entity now s (err e) v h n =
    (record { sound = v.sound; good = insert-SessionsOk account s st.sessions h v.good }, λ p. cc)
settle-Survives st account action entity now s (ok _) v h n = (
  record {
    sound = v.sound;
    good =
        insert-SessionsOk account _ st.sessions (stamped-SessionOk (next_sequence st) now s h)
          v.good;
  },
  λ p. cc,
)

read-Survives :
    (fresh now account : ℕ) (st : Store)
    → StoreOk st
    → Survives (playback_session_for_account fresh now account st)
unfolding playback_session_for_account
read-Survives fresh now account st v =
    let s = entry st fresh now account in
    subst Survives (sym (guarded_sound st.poisoned _ _ v.sound)) (
      record {
        sound = v.sound;
        good =
            insert-SessionsOk account s st.sessions (entry-SessionOk st fresh now account v) v.good;
      },
      λ p. cc,
    )

mutate-Survives :
    (fresh now account : ℕ) (action : String) (entity : Option ℕ) (m : Mutation) (st : Store)
    → Preserves m
    → StoreOk st
    → Survives (mutate_playback_session fresh now account action entity m st)
unfolding mutate_playback_session
mutate-Survives fresh now account action entity m st p v =
    let s = entry st fresh now account in
    let kept = p s (entry-SessionOk st fresh now account v) in
    subst Survives (sym (guarded_sound st.poisoned _ _ v.sound))
      (settle-Survives st account action entity now (m s).0 (m s).1 v kept.0 kept.1)

start-Survives :
    (c : Caller) (r : SonosReport) (o : Outcome ℕ) (st : Store)
    → Ensures (StartOk r) o
    → StoreOk st
    → Survives (start_from_sonos c r o st)
unfolding start_from_sonos
start-Survives c r panic st h v = absurd h
start-Survives c r (err e) st h v = (v, λ p. cc)
start-Survives c r (ok i) st h v =
    mutate-Survives c.fresh c.now c.account_id _ _ _ st (sonos_start-Preserves r i h) v

-- Every proper call keeps every session good, answers or refuses, and never panics.
pub perform-Survives :
    (c : Caller) (k : Call) (st : Store) → IsProper k → StoreOk st → Survives (perform c k st)
unfolding perform
perform-Survives c reads st h v = read-Survives c.fresh c.now c.account_id st v
perform-Survives c (attaches id device name app) st h v =
    mutate-Survives c.fresh c.now c.account_id _ _ _ st
      (attach-Preserves c.fresh id device name app c.now) v
perform-Survives c detaches st h v =
    mutate-Survives c.fresh c.now c.account_id _ _ _ st detach-Preserves v
perform-Survives c (replaces_queue r) st h v =
    mutate-Survives c.fresh c.now c.account_id _ _ _ st
      (apply_playback_session_queue_replacement-Preserves r) v
perform-Survives c (updates_state m) st h v =
    mutate-Survives c.fresh c.now c.account_id _ _ _ st
      (apply_playback_session_state_mutation-Preserves m) v
perform-Survives c (commits snapshot action) st h v =
    mutate-Survives c.fresh c.now c.account_id _ _ _ st
      (apply_playback_session_snapshot-Preserves snapshot h) v
perform-Survives c (requests_transfer id target) st h v =
    mutate-Survives c.fresh c.now c.account_id _ _ _ st (request_transfer-Preserves id target c.now)
      v
perform-Survives c (confirms_transfer id) st h v =
    mutate-Survives c.fresh c.now c.account_id _ _ _ st (confirm_transfer-Preserves id) v
perform-Survives c (confirms_to_sonos id target) st h v =
    mutate-Survives c.fresh c.now c.account_id _ _ _ st
      (confirm_transfer_to_sonos-Preserves id target) v
perform-Survives c (fails_transfer id reason) st h v =
    mutate-Survives c.fresh c.now c.account_id _ _ _ st (fail_transfer-Preserves id reason c.now) v
perform-Survives c (starts_sonos r) st h v =
    start-Survives c r (checked_sonos_start r) st (checked_sonos_start-StartOk r) v
perform-Survives c (syncs_sonos r action) st h v =
    mutate-Survives c.fresh c.now c.account_id _ _ _ st (sync-Preserves r h) v
perform-Survives c (stops_sonos target) st h v =
    mutate-Survives c.fresh c.now c.account_id _ _ _ st (stop_sonos_target-Preserves target) v

send-StoreOk :
    (o : Option (AppEvent × List AppEvent)) (st : Store) → StoreOk st → StoreOk (sent_out o st)
send-StoreOk none st v = v
send-StoreOk (some (e, rest)) st v = record { sound = v.sound; good = v.good }

step-StoreOk : (st : Store) (a : Action) → AreProper (a ∷ []) → StoreOk st → StoreOk (step st a)
unfolding step publish_event send
step-StoreOk st (call c k) h v = (perform-Survives c k st h.0 v).0
step-StoreOk st (publish now event resource action entity) h v = record {
  sound = v.sound;
  good = v.good;
}
step-StoreOk st (sends i) h v = send-StoreOk (take_out i st.pending) st v

pub run-StoreOk :
    (st : Store) (as' : List Action) → AreProper as' → StoreOk st → StoreOk (run st as')
unfolding run
run-StoreOk st [] h v = v
run-StoreOk st (call c k ∷ as') h v =
    run-StoreOk (step st (call c k)) as' h.1 (step-StoreOk st (call c k) (h.0, tt) v)
run-StoreOk st (publish now event resource action entity ∷ as') h v =
    run-StoreOk (step st (publish now event resource action entity)) as' h
      (step-StoreOk st (publish now event resource action entity) tt v)
run-StoreOk st (sends i ∷ as') h v =
    run-StoreOk (step st (sends i)) as' h (step-StoreOk st (sends i) tt v)

-- After any history of proper calls and other events from the empty store, every account's session is
-- good, the lock is not poisoned, and one more proper call keeps it so and does not panic.
pub perform-run-Survives :
    (epoch : ℕ) (as' : List Action) (c : Caller) (k : Call)
    → AreProper as'
    → IsProper k
    → Survives (perform c k (run (empty epoch) as'))
unfolding empty
perform-run-Survives epoch as' c k h p =
    perform-Survives c k _ p (run-StoreOk (empty epoch) as' h (record { sound = refl; good = tt }))
