-- ===== src/Media/Serving/Invariant.antt =====
-- The requests of src/api/media.rs: what the pool says of the coordinator, the files and the slots.
use harmonixia_server.Prelude.{
  ℕ, ◌+◌, ap, ◌≤◌, List, ◌∷◌, Option, none, some, ◌≡◌, sym, ◌∙◌, subst, get_elem?, All, arith,
}
use harmonixia_server.Transcode.Generation.{
  Watch, HlsGenerationCoordinator, HlsGenerationGuard, HlsGenerationWaiter, HlsGenerationLease,
  start, wait, drop_guard, drop_waiter,
}
use harmonixia_server.Transcode.Generation.Leases.{remove_at, generation_for, is_running}
use harmonixia_server.Transcode.Generation.Single.{
  Exclusive, generation_for-lt, guard-generation_for, guard-is_running, generation_for-left,
  is_running-left, remove_at-Exclusive,
}
use harmonixia_server.Transcode.Generation.Coherence.{Coherent}
use harmonixia_server.Transcode.Generation.Departures.{drop_guard-Coherent, drop_waiter-Coherent}
use harmonixia_server.Media.Serving.{Phase, Serving}
use harmonixia_server.Media.Serving.Pool.{
  lease_of, leases_of, Taken, leases_of-Taken, All-picked, is_generating, counted, running,
  running-picked, Absent,
}

module _ (watch : Watch) where
  -- The leases of the pool are those of the coordinator, a generation that runs found no file, and
  -- every slot in use is that of a generation that runs.
  pub record Sound (limit : ℕ) (s : Serving watch.Channel) : Type 0 where
    pub coherent : Coherent watch s.coordinator (leases_of s.pool)
    pub absent : All (Absent s.is_file) s.pool
    pub used : s.admission.in_use ≡ running s.pool + s.background
    pub limited : s.admission.limit ≡ limit
    pub bounded : s.admission.in_use ≤ limit

  -- The state of the service while one request, taken out of the pool, holds a lease or none.
  pub record Open (limit : ℕ) (s : Serving watch.Channel) (others : List Phase)
      (l : Option HlsGenerationLease) (n : ℕ) : Type 0 where
    pub before : List HlsGenerationLease
    pub coherent : Coherent watch s.coordinator before
    pub taken : Taken before l (leases_of others)
    pub absent : All (Absent s.is_file) others
    pub used : s.admission.in_use ≡ n + s.background
    pub limited : s.admission.limit ≡ limit
    pub bounded : s.admission.in_use ≤ limit

  pub opened :
      (limit : ℕ) (s : Serving watch.Channel) (i : ℕ) (p : Phase)
      → Sound limit s
      → get_elem? s.pool i ≡ some p
      → Open limit s
          (remove_at i s.pool)
          (lease_of p)
          (counted (is_generating p) (running (remove_at i s.pool)))
        × Absent s.is_file p
  opened limit s i p v h =
      let (here, rest) = All-picked (Absent s.is_file) i s.pool p h v.absent in
      (
        record {
          before = leases_of s.pool;
          coherent = v.coherent;
          taken = leases_of-Taken i s.pool p h;
          absent = rest;
          used = v.used ∙ ap (λ m. m + s.background) (running-picked i s.pool p h);
          limited = v.limited;
          bounded = v.bounded;
        },
        here,
      )

  is_running-front :
      (n m j : ℕ) (g : HlsGenerationGuard) (ls : List HlsGenerationLease)
      → Exclusive n ls
      → get_elem? ls j ≡ some (start g)
      → is_running m (start g ∷ remove_at j ls) ≡ is_running m ls
  unfolding is_running
  is_running-front n m j g ls e h =
      ground (arith, is_running-left n m j g ls e h, guard-is_running j g ls h)

  generation_for-front :
      (n key j : ℕ) (g : HlsGenerationGuard) (ls : List HlsGenerationLease)
      → Exclusive n ls
      → get_elem? ls j ≡ some (start g)
      → generation_for key (start g ∷ remove_at j ls) ≡ generation_for key ls
  unfolding generation_for
  generation_for-front n key j g ls e h =
      ground (arith, generation_for-left n key j g ls e h, guard-generation_for n j g ls e h)

  pub none_left :
      (n j : ℕ) (g : HlsGenerationGuard) (ls : List HlsGenerationLease)
      → Exclusive n ls
      → get_elem? ls j ≡ some (start g)
      → generation_for g.key (remove_at j ls) ≡ none
  none_left n j g ls e h = ground (arith, generation_for-left n g.key j g ls e h)

  -- The leases, with the one that was taken out put to the front.
  front-Coherent :
      (c : HlsGenerationCoordinator watch.Channel) (ls : List HlsGenerationLease) (j : ℕ)
      (g : HlsGenerationGuard)
      → Coherent watch c ls
      → get_elem? ls j ≡ some (start g)
      → Coherent watch c (start g ∷ remove_at j ls)
  front-Coherent c ls j g v h = record {
    exclusive = (
      generation_for-lt c.allocated g.key g.done ls v.exclusive
          (guard-generation_for c.allocated j g ls v.exclusive h),
      none_left c.allocated j g ls v.exclusive h,
      ground (arith, is_running-left c.allocated g.done j g ls v.exclusive h),
      remove_at-Exclusive c.allocated j ls v.exclusive,
    );
    indexed =
        λ key. v.indexed key ∙ sym (generation_for-front c.allocated key j g ls v.exclusive h);
    live = λ n k. v.live n (sym (is_running-front c.allocated n j g ls v.exclusive h) ∙ k);
    ended = λ n l k. v.ended n l (sym (is_running-front c.allocated n j g ls v.exclusive h) ∙ k);
  }

  -- The leases of the others, and those of the others with a guard that is kept, dropped, or was a
  -- waiter's.
  pub alone :
      (limit : ℕ) (s : Serving watch.Channel) (others : List Phase) (n : ℕ)
      → Open limit s others none n
      → Coherent watch s.coordinator (leases_of others)
  alone limit s others n o = subst (Coherent watch s.coordinator) (sym o.taken) o.coherent

  pub kept :
      (limit : ℕ) (s : Serving watch.Channel) (others : List Phase) (g : HlsGenerationGuard) (n : ℕ)
      → Open limit s others (some (start g)) n
      → Coherent watch s.coordinator (start g ∷ leases_of others)
  kept limit s others g n o =
      let (j, at, same) = o.taken in
      subst (λ ls. Coherent watch s.coordinator (start g ∷ ls)) (sym same)
        (front-Coherent s.coordinator o.before j g o.coherent at)

  pub dropped :
      (limit : ℕ) (s : Serving watch.Channel) (others : List Phase) (g : HlsGenerationGuard) (n : ℕ)
      → Open limit s others (some (start g)) n
      → Coherent watch (drop_guard watch g s.coordinator) (leases_of others)
  dropped limit s others g n o =
      let (j, at, same) = o.taken in
      subst (Coherent watch (drop_guard watch g s.coordinator)) (sym same)
        (drop_guard-Coherent watch s.coordinator o.before j g o.coherent at)

  pub unwaited :
      (limit : ℕ) (s : Serving watch.Channel) (others : List Phase) (w : HlsGenerationWaiter)
      (n : ℕ)
      → Open limit s others (some (wait w)) n
      → Coherent watch (drop_waiter watch w s.coordinator) (leases_of others)
  unwaited limit s others w n o =
      let (j, at, same) = o.taken in
      subst (Coherent watch (drop_waiter watch w s.coordinator)) (sym same)
        (drop_waiter-Coherent watch s.coordinator o.before j w o.coherent at)
