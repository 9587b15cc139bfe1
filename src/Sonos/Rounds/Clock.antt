-- ===== src/Sonos/Rounds/Clock.antt =====
-- The position that the rounds keep for a session, against the clock.
use harmonixia_server.Prelude.{
  ℕ, ◌+◌, ◌-◌, ◌*◌, ◌^◌, ◌≤◌, ◌<◌, ◌≡◌, refl, sym, subst, ap, ◌∙◌, arith, not, ◌||◌, ltb, ◌⊎◌, inl,
  inr, Bool-cases, Option, none, some, List, [], ◌∷◌,
}
use harmonixia_server.Playback.Invariant.{ProgressOk}
use harmonixia_server.Sonos.Types.{
  SonosPlaybackTarget, SonosResolvedTarget, ManagedSonosSession, ManagedSonosSessionSnapshot,
}
use harmonixia_server.Sonos.Session.{
  second, as_secs, is_active, next_position, advance_position, update_position_advancement, missed,
  record_active_verification_miss, cache_control_target, verified, heartbeat, snapshot,
}
use harmonixia_server.Sonos.Changes.{ItemChange, captured, resumed, reconnected}
use harmonixia_server.Sonos.Rounds.{
  Round, answers, misses, resumes, time_of, round, rounds, Takes, AllTake, Ordered, last_time,
}

-- Between two moments the position does not fall, gains no more than the time that passed, stays in
-- the item and in 32 bits; the duration is kept.
pub record Moved (s s' : ManagedSonosSession) : Type 0 where
  pub forward : s.current_position_seconds ≤ s'.current_position_seconds
  pub behind :
      s'.current_position_seconds * second + s.last_position_tick
      ≤ s.current_position_seconds * second + s'.last_position_tick
  pub progress : ProgressOk s'.current_position_seconds s'.current_duration_seconds
  pub fits : s'.current_position_seconds < 2 ^ 32

-- What is asked of a session at the start.
pub record Playable (s : ManagedSonosSession) : Type 0 where
  pub progress : ProgressOk s.current_position_seconds s.current_duration_seconds
  pub fits : s.current_position_seconds < 2 ^ 32

next_position-bounds :
    (p n : ℕ) (d : Option ℕ)
    → ProgressOk p d
    → p < 2 ^ 32
    → (p ≤ next_position p n d)
      × (next_position p n d ≤ p + n)
      × ProgressOk (next_position p n d) d
      × (next_position p n d < 2 ^ 32)
unfolding next_position
next_position-bounds p n none h b = (omega arith, omega arith, tt, omega arith)
next_position-bounds p n (some d) h b = (omega arith, omega arith, omega arith, omega arith)

-- The position after the clock was advanced.
advance_position-cases :
    (now : ℕ) (s : ManagedSonosSession)
    → let p : ℕ = (advance_position now s).current_position_seconds in
      (p ≡ s.current_position_seconds)
      ⊎ (p
          ≡ next_position s.current_position_seconds
              (as_secs (now - s.last_position_tick))
              s.current_duration_seconds)
unfolding advance_position
advance_position-cases now s =
    elim (Bool-cases (not (is_active s.status) || not s.position_advancing)) [
      | inl e ↦ rw e (inl refl)
      | inr e ↦ rw e (elim (Bool-cases (ltb 0 (as_secs (now - s.last_position_tick)))) [
        | inl t ↦ rw t (inr refl)
        | inr t ↦ rw t (inl refl)
      ])
    ]

pub advance_position-duration :
    (now : ℕ) (s : ManagedSonosSession)
    → (advance_position now s).current_duration_seconds ≡ s.current_duration_seconds
unfolding advance_position
advance_position-duration now s = ground arith

-- What is kept of the advanced clock by a session that moved, or did not, to the time `now`.
abbrev Advanced : ℕ → ManagedSonosSession → ManagedSonosSession → Type 0
Advanced now s s' =
    (s'.current_position_seconds ≡ (advance_position now s).current_position_seconds)
    × (s'.current_duration_seconds ≡ (advance_position now s).current_duration_seconds)
    × (s'.last_position_tick ≡ now)

answers-Advanced :
    (seen : ManagedSonosSessionSnapshot) (target : SonosResolvedTarget) (now : ℕ)
    (s : ManagedSonosSession)
    → Advanced now s (round (answers seen target now) s)
unfolding round verified update_position_advancement cache_control_target heartbeat
answers-Advanced seen target now s = ground arith

misses-Advanced : (now : ℕ) (s : ManagedSonosSession) → Advanced now s (round (misses now) s)
unfolding round missed record_active_verification_miss
misses-Advanced now s = ground arith

advanced-bounds :
    (now : ℕ) (s : ManagedSonosSession)
    → Playable s
    → let p : ℕ = (advance_position now s).current_position_seconds in
      (s.current_position_seconds ≤ p)
      × (p ≤ s.current_position_seconds + as_secs (now - s.last_position_tick))
      × ProgressOk p s.current_duration_seconds
      × (p < 2 ^ 32)
advanced-bounds now s h = elim (advance_position-cases now s) [
  | inl e ↦ rw e (omega arith, omega arith, h.progress, h.fits)
  | inr e ↦ rw e (
      next_position-bounds s.current_position_seconds (as_secs (now - s.last_position_tick))
        s.current_duration_seconds h.progress h.fits)
]

Advanced-Moved :
    (now : ℕ) (s s' : ManagedSonosSession)
    → Playable s
    → s.last_position_tick ≤ now
    → Advanced now s s'
    → Moved s s'
Advanced-Moved now s s' h le kept =
    let bounds = advanced-bounds now s h in
    record {
      forward = rw kept.0 bounds.0;
      behind = rw (kept.0, kept.2) (omega (arith, bounds.1));
      progress = rw (kept.0, kept.1, advance_position-duration now s) bounds.2;
      fits = rw kept.0 bounds.3;
    }

-- A resume puts the position back to that of the snapshot, at which the session stood still.
resumes-Moved :
    (seen : ManagedSonosSessionSnapshot) (c : ItemChange) (latest : SonosPlaybackTarget) (now : ℕ)
    (s : ManagedSonosSession)
    → Playable s
    → s.last_position_tick ≤ now
    → seen ≡ snapshot s
    → Moved s (round (resumes seen c latest now) s)
unfolding round resumed reconnected cache_control_target captured snapshot
resumes-Moved seen c latest now s h le e =
    let same : seen.current_position_seconds ≡ s.current_position_seconds =
      ap (λ (v : ManagedSonosSessionSnapshot). v.current_position_seconds) e in
    record {
      forward = omega (arith, same);
      behind = rw same (omega (arith, le));
      progress = rw same h.progress;
      fits = rw same h.fits;
    }

round-Moved :
    (r : Round) (s : ManagedSonosSession)
    → Playable s
    → Takes r s
    → s.last_position_tick ≤ time_of r
    → Moved s (round r s) × ((round r s).last_position_tick ≡ time_of r)
unfolding round reconnected
round-Moved (answers seen target now) s h t le =
    let kept = answers-Advanced seen target now s in (Advanced-Moved now s _ h le kept, kept.2)
round-Moved (misses now) s h t le =
    let kept = misses-Advanced now s in (Advanced-Moved now s _ h le kept, kept.2)
round-Moved (resumes seen c latest now) s h t le =
    (resumes-Moved seen c latest now s h le t.0, refl)

-- After any sequence of rounds, each at its time or later, in which the player answers, misses, or
-- answers again and the session is resumed, each from the session's own snapshot and in the branch
-- that its status selects: a session whose position lies within the item still has one that lies
-- within the item and fits 32 bits; the position has not fallen, and it has gained no more whole
-- seconds than have passed.
pub rounds-Moved :
    (rs : List Round) (s : ManagedSonosSession)
    → Playable s
    → Ordered s.last_position_tick rs
    → AllTake rs s
    → Moved s (rounds rs s) × ((rounds rs s).last_position_tick ≡ last_time s.last_position_tick rs)
unfolding rounds
rounds-Moved [] s h o t = (
  record { forward = omega arith; behind = omega arith; progress = h.progress; fits = h.fits },
  refl,
)
rounds-Moved (r ∷ rs) s h (le, o) (t, ts) =
    let (m, tick) = round-Moved r s h t le in
    let (m', tick') =
      rounds-Moved rs (round r s) (record { progress = m.progress; fits = m.fits })
        (subst (λ t. Ordered t rs) (sym tick) o) ts in
    (
      record {
        forward = omega (arith, m.forward, m'.forward);
        behind = omega (arith, m.behind, m'.behind);
        progress = m'.progress;
        fits = m'.fits;
      },
      tick' ∙ ap (λ t. last_time t rs) tick,
    )
