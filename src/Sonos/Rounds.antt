-- ===== src/Sonos/Rounds.antt =====
-- src/sonos.rs, `reconcile_active_sessions`: what the rounds of the loop over the active sessions do to
-- one session that they go on finding in the table.
pub mod Clock
pub mod Reconnect
pub mod Lag
use harmonixia_server.Prelude.{ℕ, ◌≤◌, ◌≡◌, Option, none, some, List, [], ◌∷◌}
use harmonixia_server.Sonos.Types.{
  active, reconnecting, SonosPlaybackTarget, SonosResolvedTarget, ManagedSonosSession,
  ManagedSonosSessionSnapshot,
}
use harmonixia_server.Sonos.Session.{verified, record_active_verification_miss, heartbeat, snapshot}
use harmonixia_server.Sonos.Changes.{ItemChange, resumed, reconnected}

-- What a round finds, with the snapshot that it began with: a player that answers for a session that
-- was not being reconnected; no answer, or a resume that failed and was rolled back; a player that
-- answers for a session that was being reconnected and starts its item again, which ends at the time
-- given. A round that finds the reconnect window over removes the session, and is none of these.
pub data Round : Type 0 where
  answers : ManagedSonosSessionSnapshot → SonosResolvedTarget → ℕ → Round
  misses : ℕ → Round
  resumes : ManagedSonosSessionSnapshot → ItemChange → SonosPlaybackTarget → ℕ → Round

abbrev pub time_of : Round → ℕ
time_of (answers seen target now) = now
time_of (misses now) = now
time_of (resumes seen c latest now) = now

-- The match of the loop on the answer and on the status in the snapshot (`Takes` is its condition).
-- The answer for a session that was not being reconnected ends with the heartbeat; a resume has the
-- closure before the commands to the player and the one after them.
unfoldable pub round : Round → ManagedSonosSession → ManagedSonosSession
round (answers seen target now) s = (heartbeat now (verified seen target now s)).0
round (misses now) s = record_active_verification_miss now s
round (resumes seen c latest now) s = reconnected seen latest c.target now (resumed seen c s)

unfoldable pub rounds : List Round → ManagedSonosSession → ManagedSonosSession
rounds [] s = s
rounds (r ∷ rs) s = rounds rs (round r s)

-- The loop takes this branch for a session that it finds so, where its snapshot is still that of the
-- session.
abbrev pub Takes : Round → ManagedSonosSession → Type 0
Takes (answers seen target now) s = (seen ≡ snapshot s) × (seen.status ≡ active)
Takes (misses now) s = Unit {0}
Takes (resumes seen c latest now) s = (seen ≡ snapshot s) × (seen.status ≡ reconnecting)

abbrev pub AllTake : List Round → ManagedSonosSession → Type 0
AllTake [] s = Unit {0}
AllTake (r ∷ rs) s = Takes r s × AllTake rs (round r s)

-- The rounds follow one another in time.
abbrev pub Ordered : ℕ → List Round → Type 0
Ordered t [] = Unit
Ordered t (r ∷ rs) = (t ≤ time_of r) × Ordered (time_of r) rs

abbrev pub last_time : ℕ → List Round → ℕ
last_time t [] = t
last_time t (r ∷ rs) = last_time (time_of r) rs
