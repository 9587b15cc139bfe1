-- ===== src/Transcode/Generation/Departures.antt =====
-- The coordinator of src/transcode.rs when a guard or a waiter is dropped, and what a waiter then sees.
use harmonixia_server.Prelude.{
  ℕ, ◌<◌, true, not, List, some, ◌==◌, ◌≡◌, refl, sym, subst, ◌∙◌, get_elem?, arith, Bool-cases,
  inl, inr,
}
use harmonixia_server.Prelude.Dict.{lookup, lookup-remove}
use harmonixia_server.Transcode.Generation.{
  Watch, HlsGenerationCoordinator, HlsGenerationGuard, HlsGenerationWaiter, HlsGenerationLease,
  start, wait, update, is_over, drop_guard, drop_waiter, same_channel,
}
use harmonixia_server.Transcode.Generation.Leases.{remove_at, is_running}
use harmonixia_server.Transcode.Generation.Single.{
  remove_at-Exclusive, guard-is_running, guard-generation_for, generation_for-left, is_running-left,
  generation_for-waiter, is_running-waiter,
}
use harmonixia_server.Transcode.Generation.Coherence.{Coherent, self, senders-update, borrow-update}

module _ (watch : Watch) where
  -- A guard among the leases still stands in the table.
  owns :
      (c : HlsGenerationCoordinator watch.Channel) (ls : List HlsGenerationLease) (i : ℕ)
      (g : HlsGenerationGuard)
      → Coherent watch c ls
      → get_elem? ls i ≡ some (start g)
      → same_channel watch g.done (lookup g.key c.inner) ≡ true
  owns c ls i g v h =
      rw (v.indexed g.key, guard-generation_for c.allocated i g ls v.exclusive h) (ground arith)

  -- After the announcement and both senders, nobody holds the channel; other channels are untouched.
  abbrev drained : (ℕ → watch.Channel) → ℕ → ℕ → watch.Channel
  drained heap at =
      update (update (update heap at (watch.send true)) at watch.drop_sender) at watch.drop_sender

  senders-drained :
      (heap : ℕ → watch.Channel) (at : ℕ)
      → watch.senders (heap at) ≡ 2
      → watch.senders (drained heap at at) ≡ 0
  senders-drained heap at h = rw (self watch at) (
      omega (
        arith,
        h,
        watch.senders-send true (heap at),
        watch.senders-drop_sender (watch.send true (heap at)),
        watch.senders-drop_sender (watch.drop_sender (watch.send true (heap at))),
      ))

  pub senders-drop_guard :
      (c : HlsGenerationCoordinator watch.Channel) (ls : List HlsGenerationLease) (i : ℕ)
      (g : HlsGenerationGuard)
      → Coherent watch c ls
      → get_elem? ls i ≡ some (start g)
      → watch.senders ((drop_guard watch g c).channels g.done) ≡ 0
  unfolding drop_guard
  senders-drop_guard c ls i g v h =
      rw (owns c ls i g v h)
        (senders-drained c.channels g.done (v.live g.done (guard-is_running i g ls h)).1)

  pub drop_guard-Coherent :
      (c : HlsGenerationCoordinator watch.Channel) (ls : List HlsGenerationLease) (i : ℕ)
      (g : HlsGenerationGuard)
      → Coherent watch c ls
      → get_elem? ls i ≡ some (start g)
      → Coherent watch (drop_guard watch g c) (remove_at i ls)
  unfolding drop_guard
  drop_guard-Coherent c ls i g v h = rw (owns c ls i g v h) (record {
    exclusive = remove_at-Exclusive c.allocated i ls v.exclusive;
    indexed = λ key.
        rw
          (
            lookup-remove g.key key c.inner,
            v.indexed key,
            generation_for-left c.allocated key i g ls v.exclusive h,
          )
          refl;
    live = λ m k. elim (Bool-cases (g.done == m)) [
      | inl e ↦ ground (arith, e, k, is_running-left c.allocated m i g ls v.exclusive h)
      | inr e ↦
          rw e (v.live m (ground (arith, e, k, is_running-left c.allocated m i g ls v.exclusive h)))
    ];
    ended = λ m l k. elim (Bool-cases (g.done == m)) [
      | inl e ↦
          subst (λ n. watch.senders (drained c.channels g.done n) ≡ 0) (ground (arith, e))
            (senders-drained c.channels g.done (v.live g.done (guard-is_running i g ls h)).1)
      | inr e ↦
          rw e
            (v.ended m l (ground (arith, e, k, is_running-left c.allocated m i g ls v.exclusive h)))
    ];
  })

  pub drop_waiter-Coherent :
      (c : HlsGenerationCoordinator watch.Channel) (ls : List HlsGenerationLease) (i : ℕ)
      (w : HlsGenerationWaiter)
      → Coherent watch c ls
      → get_elem? ls i ≡ some (wait w)
      → Coherent watch (drop_waiter watch w c) (remove_at i ls)
  unfolding drop_waiter
  drop_waiter-Coherent c ls i w v h = record {
    exclusive = remove_at-Exclusive c.allocated i ls v.exclusive;
    indexed = λ key. v.indexed key ∙ sym (generation_for-waiter key i w ls h);
    live = λ m k.
        let running = v.live m (sym (is_running-waiter m i w ls h) ∙ k) in
        (
          borrow-update watch c.channels w.done m watch.drop_receiver watch.borrow-drop_receiver
              ∙ running.0,
          senders-update watch c.channels w.done m watch.drop_receiver watch.senders-drop_receiver
              ∙ running.1,
        );
    ended = λ m l k.
        senders-update watch c.channels w.done m watch.drop_receiver watch.senders-drop_receiver
        ∙ v.ended m l (sym (is_running-waiter m i w ls h) ∙ k);
  }

  -- A wait is over when its generation does not run.
  pub is_over-not_running :
      (c : HlsGenerationCoordinator watch.Channel) (ls : List HlsGenerationLease)
      (w : HlsGenerationWaiter)
      → Coherent watch c ls
      → w.done < c.allocated
      → is_over watch w c ≡ not (is_running w.done ls)
  unfolding is_over
  is_over-not_running c ls w v h = elim (Bool-cases (is_running w.done ls)) [
    | inl e ↦ rw (e, (v.live w.done e).0, (v.live w.done e).1) refl
    | inr e ↦ rw (e, v.ended w.done h e) (ground arith)
  ]

  pub is_over-drop_guard :
      (c : HlsGenerationCoordinator watch.Channel) (ls : List HlsGenerationLease) (i : ℕ)
      (g : HlsGenerationGuard) (w : HlsGenerationWaiter)
      → Coherent watch c ls
      → get_elem? ls i ≡ some (start g)
      → g.done ≡ w.done
      → is_over watch w (drop_guard watch g c) ≡ true
  unfolding is_over
  is_over-drop_guard c ls i g w v h same =
      rw (← same, senders-drop_guard c ls i g v h) (ground arith)
