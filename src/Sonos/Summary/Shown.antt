-- ===== src/Sonos/Summary/Shown.antt =====
-- What the summary of a session within its queue shows.
use harmonixia_server.Prelude.{
  ℕ, zero, suc, ◌+◌, ◌-◌, ◌*◌, ◌^◌, ◌≤◌, ◌<◌, ◌≡◌, ◌↔◌, refl, arith, min, none, some, List, [], ◌∷◌,
  length, get_elem?, get_elem?-lt,
}
use harmonixia_server.Sonos.Types.{SonosQueueEntry, ManagedSonosSession}
use harmonixia_server.Sonos.Session.{second, reconnect_window}
use harmonixia_server.Sonos.Summary.{
  SonosSessionSummary, reconnect_seconds_remaining, next_summary, summary_of, summary,
}

next_summary-none :
    (q : List SonosQueueEntry) (i : ℕ) → (next_summary (get_elem? q i) ≡ none) ↔ (length q ≤ i)
unfolding next_summary
next_summary-none [] i = (λ e. omega arith, λ le. refl)
next_summary-none (entry ∷ q) zero = (λ e. absurd cc, λ le. absurd (omega arith))
next_summary-none (entry ∷ q) (suc i) =
    let (to, from) = next_summary-none q i in (λ e. omega (arith, to e), λ le. from (omega arith))

-- What a summary says of a place in a queue.
pub record Placed (s : ManagedSonosSession) (v : SonosSessionSummary) : Type 0 where
  pub index : v.queue_index ≡ s.queue_index
  pub position : v.queue_position ≡ suc v.queue_index
  pub within : v.queue_position ≤ v.queue_length
  pub last : (v.next_item ≡ none) ↔ (v.queue_position ≡ v.queue_length)

-- A session that is at an entry of its queue, of fewer than 2^32 entries, has a summary: it shows the
-- index as it is and the position counted from one, which is within the length of the queue, and it
-- shows a next item unless the session is at the last entry.
pub summary-Placed :
    (s : ManagedSonosSession) (now : ℕ)
    → s.queue_index < length s.queue
    → length s.queue < 2 ^ 32
    → (v : SonosSessionSummary) × (summary s now ≡ some v) × Placed s v
unfolding summary summary_of
summary-Placed s now within small =
    let (entry, e) = get_elem?-lt s.queue s.queue_index within in
    let (to, from) = next_summary-none s.queue (min (s.queue_index + 1) (2 ^ 64 - 1)) in
    (
      summary_of s now entry,
      rw (e, summary) refl,
      record {
        index = omega arith;
        position = omega arith;
        within = omega arith;
        last = (λ n. omega (arith, to n), λ p. from (omega (arith, p)));
      },
    )

-- The seconds shown for a deadline at most one reconnect window away are at most 15, cover the time
-- that is left up to a millisecond, exceed it by less than a second, and are 0 exactly in the last
-- millisecond and after it.
pub reconnect_seconds_remaining-bounds :
    (deadline now : ℕ)
    → deadline ≤ now + reconnect_window
    → let shown : ℕ = reconnect_seconds_remaining (some deadline) now in
      (shown ≤ 15)
      × (deadline < now + shown * second + 1000000)
      × (shown * second < (deadline - now) + second)
      × ((shown ≡ 0) ↔ (deadline < now + 1000000))
unfolding reconnect_seconds_remaining
reconnect_seconds_remaining-bounds deadline now h =
    (omega arith, omega arith, omega arith, (λ e. omega arith, λ b. omega arith))
