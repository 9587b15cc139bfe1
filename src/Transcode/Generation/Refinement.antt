-- ===== src/Transcode/Generation/Refinement.antt =====
-- The coordinator of src/transcode.rs against the abstract machine that knows the leases alone.
use harmonixia_server.Prelude.{
  ℕ, List, [], ◌∷◌, ◌≡◌, refl, sym, ap, get_elem?, Option-cases, inl, inr,
}
use harmonixia_server.Transcode.Generation.{
  Watch, start, wait, join_or_start, lease_for, drop_waiter, drop_guard, new,
}
use harmonixia_server.Transcode.Generation.Leases.{
  Event, joins, leaves, polls, Answer, over, System, initial, joined, let_go, polled, step, answers,
  Abstract, generation_for, abstract_join, abstract_poll, abstract_step, abstract_answers,
}
use harmonixia_server.Transcode.Generation.Single.{remove_at-none, waiter-lt}
use harmonixia_server.Transcode.Generation.Coherence.{
  Coherent, abstracted, initial-Coherent, waiter-Coherent, guard-Coherent,
}
use harmonixia_server.Transcode.Generation.Departures.{
  drop_guard-Coherent, drop_waiter-Coherent, is_over-not_running,
}

module _ (watch : Watch) where
  abbrev IsCoherent : System watch.Channel → Type 0
  IsCoherent s = Coherent watch s.coordinator s.leases

  abbrev Simulates : System watch.Channel × Answer → Abstract × Answer → Type 0
  Simulates p q = IsCoherent p.0 × (abstracted watch p.0 ≡ q.0) × (p.1 ≡ q.1)

  joins-Simulates :
      (s : System watch.Channel) (key : ℕ)
      → IsCoherent s
      → Simulates (step watch s (joins key)) (abstract_step (abstracted watch s) (joins key))
  unfolding step abstract_step join_or_start lease_for joined abstract_join
  joins-Simulates s key v = elim (Option-cases (generation_for key s.leases)) [
    | inl e ↦
        rw (v.indexed key, e) (guard-Coherent watch s.coordinator s.leases key v e, refl, refl)
    | inr (n, e) ↦
        rw (v.indexed key, e) (waiter-Coherent watch s.coordinator s.leases key n v e, refl, refl)
  ]

  leaves-Simulates :
      (s : System watch.Channel) (i : ℕ)
      → IsCoherent s
      → Simulates (step watch s (leaves i)) (abstract_step (abstracted watch s) (leaves i))
  unfolding step abstract_step let_go drop_guard drop_waiter
  leaves-Simulates s i v = elim (Option-cases (get_elem? s.leases i)) [
    | inl e ↦ rw (e, remove_at-none i s.leases e) (v, refl, refl)
    | inr (start g, e) ↦ rw e (drop_guard-Coherent watch s.coordinator s.leases i g v e, refl, refl)
    | inr (wait w, e) ↦ rw e (drop_waiter-Coherent watch s.coordinator s.leases i w v e, refl, refl)
  ]

  polls-Simulates :
      (s : System watch.Channel) (i : ℕ)
      → IsCoherent s
      → Simulates (step watch s (polls i)) (abstract_step (abstracted watch s) (polls i))
  unfolding step abstract_step polled abstract_poll
  polls-Simulates s i v = elim (Option-cases (get_elem? s.leases i)) [
    | inl e ↦ rw e (v, refl, refl)
    | inr (start g, e) ↦ rw e (v, refl, refl)
    | inr (wait w, e) ↦ rw e (
      v,
      refl,
      ap over
          (is_over-not_running watch s.coordinator s.leases w v (waiter-lt _ i w _ v.exclusive e)),
    )
  ]

  step-Simulates :
      (s : System watch.Channel) (e : Event)
      → IsCoherent s
      → Simulates (step watch s e) (abstract_step (abstracted watch s) e)
  step-Simulates s (joins key) v = joins-Simulates s key v
  step-Simulates s (leaves i) v = leaves-Simulates s i v
  step-Simulates s (polls i) v = polls-Simulates s i v

  answers-Coherent :
      (s : System watch.Channel) (es : List Event)
      → IsCoherent s
      → answers watch s es ≡ abstract_answers (abstracted watch s) es
  unfolding answers abstract_answers
  answers-Coherent s [] v = refl
  answers-Coherent s (e ∷ es) v =
      let (kept, same, answer) = step-Simulates s e v in
      rw (answer, sym same, answers-Coherent (step watch s e).0 es kept) refl

  -- From the start, through any joins, drops of leases and polls in any order, the coordinator
  -- gives the answers of the abstract machine: a path that no live lease generates starts a
  -- generation, any other one waits, and a wait is over exactly when the generation that it joined
  -- has let its lease go.
  pub answers-abstract_answers :
      (es : List Event)
      → answers watch (initial watch) es ≡ abstract_answers (record { issued = 0; leases = [] }) es
  unfolding initial
  answers-abstract_answers es = unfold new in answers-Coherent _ es (initial-Coherent watch)
