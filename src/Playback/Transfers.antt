-- ===== src/Playback/Transfers.antt =====
-- The life of a transfer: it is asked for, and confirmed once or failed; a new queue calls it off.
use harmonixia_server.Prelude.{
  ℕ, String, ◌≡◌, refl, ap, subst, arith, true, false, Option, none, some, is_empty, eq_iff, inl,
  inr, Bool-cases, ◌↔◌,
}
use harmonixia_server.Errors.{ApiError, conflict, Outcome, ok, err, panic, ◌>>=◌}
use harmonixia_server.Playback.Types.{
  PlaybackSessionTarget, PlaybackSessionTransfer, PlaybackSessionRuntime,
  PlaybackSessionQueueReplacement, pending, sonos, local_android,
}
use harmonixia_server.Playback.Session.{
  attempt, replaced_session, with_queue, apply_playback_session_queue_replacement,
}
use harmonixia_server.Playback.Operations.{
  request_transfer, pending_transfer, confirm_transfer, confirm_transfer_to_sonos, confirmed_by,
  failed_transfer, fail_transfer, retarget, is_sonos,
}

abbrev pub stale : ApiError
stale = conflict "stale playback transfer confirmation"

abbrev pub no_transfer : ApiError
no_transfer = conflict "no pending playback transfer"

-- The session has this transfer under way, and the target that it asks for.
pub record Awaits (s : PlaybackSessionRuntime) (id : ℕ) (target : PlaybackSessionTarget)
    : Type 0 where
  pub transfer : PlaybackSessionTransfer
  pub held : s.transfer ≡ some transfer
  pub named : transfer.transfer_id ≡ id
  pub undecided : transfer.state ≡ pending
  pub destination : transfer.requested_target ≡ target

pending_transfer-Awaits :
    (s : PlaybackSessionRuntime) (id : ℕ) (target : PlaybackSessionTarget)
    → (a : Awaits s id target) → pending_transfer id s.transfer ≡ ok a.transfer
unfolding pending_transfer
pending_transfer-Awaits s id target a = ground arith

confirm-Awaits :
    (s : PlaybackSessionRuntime) (id : ℕ) (target : PlaybackSessionTarget)
    → Awaits s id target
    → confirm_transfer id s ≡ (retarget target s, ok tt)
unfolding confirm_transfer
confirm-Awaits s id target a = simp (pending_transfer-Awaits s id target a, a.destination)

confirm_to_sonos-Awaits :
    (s : PlaybackSessionRuntime) (id : ℕ) (player : String)
    → Awaits s id (sonos player)
    → confirm_transfer_to_sonos id player s ≡ (retarget (sonos player) s, ok tt)
unfolding confirm_transfer_to_sonos
confirm_to_sonos-Awaits s id player a =
    simp
      (pending_transfer-Awaits s id (sonos player) a, a.destination, (eq_iff player player).1 refl)

request-Awaits :
    (s : PlaybackSessionRuntime) (id now : ℕ) (target : PlaybackSessionTarget)
    → is_empty s.queue ≡ false
    → Awaits (request_transfer id target now s).0 id target
unfolding request_transfer
request-Awaits s id now target h =
    rw h (record { transfer = _; held = refl; named = refl; undecided = refl; destination = refl })

-- A request on a session with a queue is awaited; its confirmation moves playback to the target and
-- ends the transfer, so that no later confirmation is accepted.
pub confirm-request :
    (s : PlaybackSessionRuntime) (id now : ℕ) (target : PlaybackSessionTarget) (later : ℕ)
    → is_empty s.queue ≡ false
    → let asked = (request_transfer id target now s).0 in
      (confirm_transfer id asked ≡ (retarget target asked, ok tt))
      × ((confirm_transfer id asked).0.active_target ≡ target)
      × ((confirm_transfer later (confirm_transfer id asked).0).1 ≡ err no_transfer)
confirm-request s id now target later h =
    let done = confirm-Awaits _ id target (request-Awaits s id now target h) in
    (
      done,
      simp done (unfold retarget in refl),
      simp done (unfold retarget confirm_transfer pending_transfer in refl),
    )

-- An accepted transfer is the one held, under the name given, and pending.
abbrev Held : Option PlaybackSessionTransfer → ℕ → PlaybackSessionTransfer → Type 0
Held o id t = (o ≡ some t) × (t.transfer_id ≡ id) × (t.state ≡ pending)

pending_transfer-Held :
    (id : ℕ) (o : Option PlaybackSessionTransfer) (t : PlaybackSessionTransfer)
    → pending_transfer id o ≡ ok t
    → Held o id t
unfolding pending_transfer
pending_transfer-Held id none t e = cc
pending_transfer-Held id (some u) t e = ground arith

Awaits-of-ok :
    (s : PlaybackSessionRuntime) (id : ℕ) (t : PlaybackSessionTransfer)
    → pending_transfer id s.transfer ≡ ok t
    → Awaits s id t.requested_target
Awaits-of-ok s id t e =
    let (held, named, undecided) = pending_transfer-Held id s.transfer t e in
    record { transfer = t; held = held; named = named; undecided = undecided; destination = refl }

-- A confirmation is accepted exactly when the session awaits a transfer of that name.
pub confirm_transfer-ok_iff :
    (s : PlaybackSessionRuntime) (id : ℕ)
    → ((confirm_transfer id s).1 ≡ ok tt) ↔ ((target : PlaybackSessionTarget) × Awaits s id target)
unfolding confirm_transfer
confirm_transfer-ok_iff s id = (
  λ h. accepted (pending_transfer id s.transfer) refl h,
  λ (target, a). simp (confirm-Awaits s id target a),
)
  where
    accepted :
        (o : Outcome PlaybackSessionTransfer)
        → pending_transfer id s.transfer ≡ o
        → (attempt s (o >>= λ t. ok (retarget t.requested_target s))).1 ≡ ok tt
        → (target : PlaybackSessionTarget) × Awaits s id target
    accepted (ok t) e h = (t.requested_target, Awaits-of-ok s id t e)
    accepted (err x) e h = cc
    accepted panic e h = cc

is_sonos-eq :
    (player : String) (target : PlaybackSessionTarget)
    → is_sonos player target ≡ true
    → target ≡ sonos player
is_sonos-eq player (local_android a) h = cc
is_sonos-eq player (sonos t) h = ap sonos ((eq_iff t player).0 h)

confirmed_by-ok :
    (player : String) (s : PlaybackSessionRuntime) (t : PlaybackSessionTransfer)
    → (attempt s (confirmed_by player s t)).1 ≡ ok tt
    → t.requested_target ≡ sonos player
unfolding confirmed_by
confirmed_by-ok player s t h = elim (Bool-cases (is_sonos player t.requested_target)) [
  | inl e ↦ is_sonos-eq player t.requested_target e
  | inr e ↦ ground arith
]

-- A confirmation by a Sonos player is accepted exactly when the session awaits that transfer to that
-- player.
pub confirm_transfer_to_sonos-ok_iff :
    (s : PlaybackSessionRuntime) (id : ℕ) (player : String)
    → ((confirm_transfer_to_sonos id player s).1 ≡ ok tt) ↔ Awaits s id (sonos player)
unfolding confirm_transfer_to_sonos
confirm_transfer_to_sonos-ok_iff s id player = (
  λ h. accepted (pending_transfer id s.transfer) refl h,
  λ a. simp (confirm_to_sonos-Awaits s id player a),
)
  where
    accepted :
        (o : Outcome PlaybackSessionTransfer)
        → pending_transfer id s.transfer ≡ o
        → (attempt s (o >>= confirmed_by player s)).1 ≡ ok tt
        → Awaits s id (sonos player)
    accepted (ok t) e h = subst (Awaits s id) (confirmed_by-ok player s t h) (Awaits-of-ok s id t e)
    accepted (err x) e h = cc
    accepted panic e h = cc

replaced-transfer :
    (s : PlaybackSessionRuntime) (r : PlaybackSessionQueueReplacement)
    → (apply_playback_session_queue_replacement r s).1 ≡ ok tt
    → (apply_playback_session_queue_replacement r s).0.transfer ≡ none
unfolding apply_playback_session_queue_replacement replaced_session with_queue
replaced-transfer s r h = ground arith

confirm-no_transfer :
    (s : PlaybackSessionRuntime) (id : ℕ)
    → s.transfer ≡ none
    → (confirm_transfer id s).1 ≡ err no_transfer
unfolding confirm_transfer pending_transfer
confirm-no_transfer s id e = ground arith

confirm-fail :
    (s : PlaybackSessionRuntime) (id now : ℕ) (reason : String) (t : PlaybackSessionTransfer)
    → s.transfer ≡ some t
    → t.transfer_id ≡ id
    → (confirm_transfer id (fail_transfer id reason now s).0).1 ≡ err stale
unfolding confirm_transfer pending_transfer fail_transfer failed_transfer
confirm-fail s id now reason t e n = ground arith

-- A transfer that was reported as failed, or whose session got a new queue, is not awaited any more:
-- its confirmation is refused, as stale or as unknown.
pub called_off :
    (s : PlaybackSessionRuntime) (id now : ℕ) (reason : String) (target : PlaybackSessionTarget)
    (r : PlaybackSessionQueueReplacement)
    → Awaits s id target
    → (apply_playback_session_queue_replacement r s).1 ≡ ok tt
    → ((confirm_transfer id (fail_transfer id reason now s).0).1 ≡ err stale)
      × ((confirm_transfer id (apply_playback_session_queue_replacement r s).0).1 ≡ err no_transfer)
called_off s id now reason target r a replaced = (
  confirm-fail s id now reason a.transfer a.held a.named,
  confirm-no_transfer _ id (replaced-transfer s r replaced),
)
