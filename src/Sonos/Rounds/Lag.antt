-- ===== src/Sonos/Rounds/Lag.antt =====
-- How far the position of a playing session gets over rounds in which its player answers.
use harmonixia_server.Prelude.{
  ℕ, ◌+◌, ◌-◌, ◌^◌, ◌<◌, ◌≡◌, ◌∙◌, ap, arith, true, none, some, List, [], ◌∷◌, map, Bool-cases, inl,
  inr, ltb,
}
use harmonixia_server.Sonos.Types.{
  active, transport_playing, SonosResolvedTarget, ManagedSonosSession, ManagedSonosSessionSnapshot,
}
use harmonixia_server.Sonos.Session.{
  as_secs, next_position, advance_position, update_position_advancement, cache_control_target,
  target_transport_state, position_advancing_for_transport, verified, heartbeat,
}
use harmonixia_server.Sonos.Rounds.Clock.{advance_position-duration}
use harmonixia_server.Sonos.Rounds.{answers, round, rounds}

-- The whole seconds of each gap, the rest of the gap dropped.
abbrev pub whole_seconds : ℕ → List ℕ → ℕ
whole_seconds t [] = 0
whole_seconds t (now ∷ ts) = as_secs (now - t) + whole_seconds now ts

-- A session that plays an item of unknown length.
pub record Playing (s : ManagedSonosSession) : Type 0 where
  pub status : s.status ≡ active
  pub advancing : s.position_advancing ≡ true
  pub endless : s.current_duration_seconds ≡ none

unfoldable pub Heard : SonosResolvedTarget → Type 0
Heard target = target_transport_state target.public_target ≡ some transport_playing

advanced-Playing :
    (now : ℕ) (s : ManagedSonosSession)
    → Playing s
    → s.current_position_seconds + as_secs (now - s.last_position_tick) < 2 ^ 32
    → (advance_position now s).current_position_seconds
      ≡ s.current_position_seconds + as_secs (now - s.last_position_tick)
unfolding advance_position next_position
advanced-Playing now s h b = elim (Bool-cases (ltb 0 (as_secs (now - s.last_position_tick)))) [
  | inl e ↦ rw (h.status, h.advancing, e, h.endless) (omega arith)
  | inr e ↦ rw (h.status, h.advancing, e) (ground arith)
]

answered :
    (seen : ManagedSonosSessionSnapshot) (target : SonosResolvedTarget) (now : ℕ)
    (s : ManagedSonosSession)
    → Heard target
    → let s' : ManagedSonosSession = round (answers seen target now) s in
      (s'.current_position_seconds ≡ (advance_position now s).current_position_seconds)
      × (s'.last_position_tick ≡ now)
      × (s'.status ≡ active)
      × (s'.position_advancing ≡ true)
      × (s'.current_duration_seconds ≡ (advance_position now s).current_duration_seconds)
unfolding Heard round verified update_position_advancement cache_control_target heartbeat
    position_advancing_for_transport
answered seen target now s h =
    (ground arith, ground arith, ground arith, ground (arith, h), ground arith)

-- While the player answers that it plays, the position of an item of unknown length gains the whole
-- seconds of each gap between two rounds, and no more: what a gap has beyond whole seconds is never
-- made up for. The bound keeps the position within 32 bits.
pub answers-Gain :
    (seen : ManagedSonosSessionSnapshot) (target : SonosResolvedTarget) (ts : List ℕ)
    (s : ManagedSonosSession)
    → Heard target
    → Playing s
    → s.current_position_seconds + whole_seconds s.last_position_tick ts < 2 ^ 32
    → (rounds (map (answers seen target) ts) s).current_position_seconds
      ≡ s.current_position_seconds + whole_seconds s.last_position_tick ts
unfolding rounds
answers-Gain seen target [] s h p b = omega arith
answers-Gain seen target (now ∷ ts) s h p b =
    let s' : ManagedSonosSession = round (answers seen target now) s in
    let (moved, tick, status, advancing, duration) = answered seen target now s h in
    let gained = moved ∙ advanced-Playing now s p (omega arith) in
    let rest : ℕ = whole_seconds now ts in
    let sum : whole_seconds s'.last_position_tick ts ≡ rest = ap (λ t. whole_seconds t ts) tick in
    answers-Gain seen target ts s' h
      (record {
        status = status;
        advancing = advancing;
        endless = duration ∙ advance_position-duration now s ∙ p.endless;
      })
      (omega (arith, gained, sum))
    ∙ (omega (arith, gained, sum))
