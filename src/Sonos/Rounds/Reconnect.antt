-- ===== src/Sonos/Rounds/Reconnect.antt =====
-- How a session gives up on a player that no longer answers, over the rounds of the loop.
use harmonixia_server.Prelude.{
  ℕ, ◌+◌, ◌≡◌, refl, ◌∙◌, arith, false, none, some, List, [], ◌∷◌, map, leb,
}
use harmonixia_server.Sonos.Types.{
  active, reconnecting, SonosResolvedTarget, ManagedSonosSession, ManagedSonosSessionSnapshot,
}
use harmonixia_server.Sonos.Session.{
  reconnect_window, advance_position, missed, record_active_verification_miss, verified, heartbeat,
  snapshot, reconnect_deadline_elapsed,
}
use harmonixia_server.Sonos.Rounds.{answers, misses, round, rounds}

-- The player answers and nothing is held against it.
pub record Connected (s : ManagedSonosSession) : Type 0 where
  pub status : s.status ≡ active
  pub deadline : s.reconnect_deadline ≡ none
  pub loss : s.transient_loss_observed_at ≡ none

-- The player did not answer once, at `t`.
pub record Doubted (t : ℕ) (s : ManagedSonosSession) : Type 0 where
  pub status : s.status ≡ active
  pub deadline : s.reconnect_deadline ≡ none
  pub loss : s.transient_loss_observed_at ≡ some t

-- The player is lost: it is waited for until `t`, and the position stands still.
pub record Lost (t : ℕ) (s : ManagedSonosSession) : Type 0 where
  pub status : s.status ≡ reconnecting
  pub deadline : s.reconnect_deadline ≡ some t
  pub loss : s.transient_loss_observed_at ≡ none
  pub frozen : s.position_advancing ≡ false

-- The clock changes none of these.
advance_position-link :
    (now : ℕ) (s : ManagedSonosSession)
    → ((advance_position now s).status ≡ s.status)
      × ((advance_position now s).reconnect_deadline ≡ s.reconnect_deadline)
      × ((advance_position now s).transient_loss_observed_at ≡ s.transient_loss_observed_at)
unfolding advance_position
advance_position-link now s = ground arith

missed-Doubted : (now : ℕ) (s : ManagedSonosSession) → Connected s → Doubted now (missed now s)
unfolding missed
missed-Doubted now s h = record {
  status = rw (h.status, h.loss) refl;
  deadline = rw (h.status, h.loss) h.deadline;
  loss = rw (h.status, h.loss) refl;
}

missed-Lost :
    (t now : ℕ) (s : ManagedSonosSession) → Doubted t s → Lost (t + reconnect_window) (missed now s)
unfolding missed
missed-Lost t now s h = record {
  status = rw (h.status, h.loss) refl;
  deadline = rw (h.status, h.loss) (rw h.deadline refl);
  loss = rw (h.status, h.loss) refl;
  frozen = rw (h.status, h.loss) refl;
}

missed-stays_Lost : (t now : ℕ) (s : ManagedSonosSession) → Lost t s → Lost t (missed now s)
unfolding missed
missed-stays_Lost t now s h = record {
  status = rw h.status refl;
  deadline = rw h.status (rw h.deadline refl);
  loss = rw h.status refl;
  frozen = rw h.status refl;
}

advanced-Connected :
    (now : ℕ) (s : ManagedSonosSession) → Connected s → Connected (advance_position now s)
advanced-Connected now s h =
    let (status, deadline, loss) = advance_position-link now s in
    record { status = status ∙ h.status; deadline = deadline ∙ h.deadline; loss = loss ∙ h.loss }

advanced-Doubted :
    (t now : ℕ) (s : ManagedSonosSession) → Doubted t s → Doubted t (advance_position now s)
advanced-Doubted t now s h =
    let (status, deadline, loss) = advance_position-link now s in
    record { status = status ∙ h.status; deadline = deadline ∙ h.deadline; loss = loss ∙ h.loss }

advanced-Lost : (t now : ℕ) (s : ManagedSonosSession) → Lost t s → Lost t (advance_position now s)
unfolding advance_position
advanced-Lost t now s h = record {
  status = rw h.status refl;
  deadline = rw h.status h.deadline;
  loss = rw h.status h.loss;
  frozen = rw h.status h.frozen;
}

first_miss : (now : ℕ) (s : ManagedSonosSession) → Connected s → Doubted now (round (misses now) s)
unfolding round record_active_verification_miss
first_miss now s h = missed-Doubted now _ (advanced-Connected now s h)

second_miss :
    (t now : ℕ) (s : ManagedSonosSession)
    → Doubted t s
    → Lost (t + reconnect_window) (round (misses now) s)
unfolding round record_active_verification_miss
second_miss t now s h = missed-Lost t now _ (advanced-Doubted t now s h)

misses-stay_Lost :
    (t : ℕ) (ts : List ℕ) (s : ManagedSonosSession) → Lost t s → Lost t (rounds (map misses ts) s)
unfolding rounds round record_active_verification_miss
misses-stay_Lost t [] s h = h
misses-stay_Lost t (now ∷ ts) s h =
    misses-stay_Lost t ts _ (missed-stays_Lost t now _ (advanced-Lost t now s h))

Lost-elapsed :
    (t now : ℕ) (s : ManagedSonosSession)
    → Lost t s
    → reconnect_deadline_elapsed (snapshot s) now ≡ leb t now
unfolding reconnect_deadline_elapsed snapshot
Lost-elapsed t now s h = rw (h.status, h.deadline) refl

answered-Connected :
    (seen : ManagedSonosSessionSnapshot) (target : SonosResolvedTarget) (now : ℕ)
    (s : ManagedSonosSession)
    → Connected (round (answers seen target now) s)
unfolding round verified heartbeat
answered-Connected seen target now s = record {
  status = ground arith;
  deadline = ground arith;
  loss = ground arith;
}

-- From a session whose player answers: a first round without an answer, at `t`, only notes the loss,
-- and an answer in the round after it clears the note. After a second round without an answer, and
-- any number of further ones, the session is being reconnected, stands still, and its time is up
-- exactly from `t` and the reconnect window on: later misses do not postpone it.
pub misses-Lost :
    (s : ManagedSonosSession) (t t' : ℕ) (ts : List ℕ)
    → Connected s
    → Doubted t (rounds (misses t ∷ []) s)
      × ((seen : ManagedSonosSessionSnapshot) (target : SonosResolvedTarget) (now : ℕ)
          → Connected (rounds (misses t ∷ answers seen target now ∷ []) s))
      × Lost (t + reconnect_window) (rounds (misses t ∷ misses t' ∷ map misses ts) s)
      × ((now : ℕ)
          → reconnect_deadline_elapsed
              (snapshot (rounds (misses t ∷ misses t' ∷ map misses ts) s))
              now
            ≡ leb (t + reconnect_window) now)
unfolding rounds
misses-Lost s t t' ts h =
    let doubted = first_miss t s h in
    let lost = misses-stay_Lost (t + reconnect_window) ts _ (second_miss t t' _ doubted) in
    (
      doubted,
      λ seen target now. answered-Connected seen target now _,
      lost,
      λ now. Lost-elapsed (t + reconnect_window) now _ lost,
    )
