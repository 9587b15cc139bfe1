-- ===== src/Transcode/Generation/Coherence.antt =====
-- The coordinator of src/transcode.rs: what its table and its channels say of the leases, and that each
-- operation keeps it.
use harmonixia_server.Prelude.{
  ℕ, suc, ◌<◌, true, false, List, [], ◌∷◌, none, some, ◌==◌, ◌≡◌, refl, ◌∙◌, arith, Bool-cases, inl,
  inr,
}
use harmonixia_server.Prelude.Dict.{lookup, insert, lookup-insert}
use harmonixia_server.Transcode.Generation.{
  Watch, HlsGenerationCoordinator, HlsGenerationLease, start, wait, update, new,
}
use harmonixia_server.Transcode.Generation.Leases.{System, Abstract, generation_for, is_running}
use harmonixia_server.Transcode.Generation.Single.{
  Exclusive, Exclusive-suc, is_running-fresh, generation_for-lt,
}

module _ (watch : Watch) where
  -- A generation that runs has the table's and the guard's sender, and was not announced as done;
  -- one that is over has no sender left.
  pub record Coherent (c : HlsGenerationCoordinator watch.Channel) (ls : List HlsGenerationLease)
      : Type 0 where
    pub exclusive : Exclusive c.allocated ls
    pub indexed : (key : ℕ) → lookup key c.inner ≡ generation_for key ls
    pub live :
        (n : ℕ)
        → is_running n ls ≡ true
        → (watch.borrow (c.channels n) ≡ false) × (watch.senders (c.channels n) ≡ 2)
    pub ended :
        (n : ℕ) → n < c.allocated → is_running n ls ≡ false → watch.senders (c.channels n) ≡ 0

  abbrev pub abstracted : System watch.Channel → Abstract
  abstracted s = record { issued = s.coordinator.allocated; leases = s.leases }

  pub initial-Coherent : Coherent (new watch) []
  unfolding new lookup generation_for is_running
  initial-Coherent = record {
    exclusive = tt;
    indexed = λ key. refl;
    live = λ n h. ground arith;
    ended = λ n h k. omega (arith, h);
  }

  pub self : (n : ℕ) → (n == n) ≡ true
  self n = ground arith

  -- An operation on one channel that keeps what can be read of it.
  pub senders-update :
      (heap : ℕ → watch.Channel) (at m : ℕ) (f : watch.Channel → watch.Channel)
      → ((c : watch.Channel) → watch.senders (f c) ≡ watch.senders c)
      → watch.senders (update heap at f m) ≡ watch.senders (heap m)
  senders-update heap at m f keep = elim (Bool-cases (at == m)) [
    | inl e ↦ rw e (keep (heap m))
    | inr e ↦ rw e refl
  ]

  pub borrow-update :
      (heap : ℕ → watch.Channel) (at m : ℕ) (f : watch.Channel → watch.Channel)
      → ((c : watch.Channel) → watch.borrow (f c) ≡ watch.borrow c)
      → watch.borrow (update heap at f m) ≡ watch.borrow (heap m)
  borrow-update heap at m f keep = elim (Bool-cases (at == m)) [
    | inl e ↦ rw e (keep (heap m))
    | inr e ↦ rw e refl
  ]

  pub waiter-Coherent :
      (c : HlsGenerationCoordinator watch.Channel) (ls : List HlsGenerationLease) (key n : ℕ)
      → Coherent c ls
      → generation_for key ls ≡ some n
      → Coherent
          (record c { channels = update c.channels n watch.subscribe })
          (wait (record { done = n }) ∷ ls)
  unfolding generation_for is_running
  waiter-Coherent c ls key n v h = record {
    exclusive = (generation_for-lt c.allocated key n ls v.exclusive h, v.exclusive);
    indexed = v.indexed;
    live = λ m k. (
      borrow-update c.channels n m watch.subscribe watch.borrow-subscribe ∙ (v.live m k).0,
      senders-update c.channels n m watch.subscribe watch.senders-subscribe ∙ (v.live m k).1,
    );
    ended = λ m l k.
        senders-update c.channels n m watch.subscribe watch.senders-subscribe ∙ v.ended m l k;
  }

  pub guard-Coherent :
      (c : HlsGenerationCoordinator watch.Channel) (ls : List HlsGenerationLease) (key : ℕ)
      → Coherent c ls
      → generation_for key ls ≡ none
      → Coherent
          (record {
            inner = insert key c.allocated c.inner;
            channels = update c.channels c.allocated (λ _. watch.clone_sender watch.channel);
            allocated = suc c.allocated;
          })
          (start (record { key = key; done = c.allocated }) ∷ ls)
  unfolding generation_for is_running
  guard-Coherent c ls key v h = record {
    exclusive = (
      omega arith,
      h,
      is_running-fresh c.allocated c.allocated ls v.exclusive (omega arith),
      Exclusive-suc c.allocated ls v.exclusive,
    );
    indexed = λ k. rw (lookup-insert key k c.allocated c.inner, v.indexed k) refl;
    live = λ m k. elim (Bool-cases (c.allocated == m)) [
      | inl e ↦ rw e (
        watch.borrow-clone_sender watch.channel ∙ watch.borrow-channel,
        omega (arith, watch.senders-clone_sender watch.channel, watch.senders-channel),
      )
      | inr e ↦ rw e (v.live m (ground (arith, k, e)))
    ];
    ended = λ m l k. elim (Bool-cases (c.allocated == m)) [
      | inl e ↦ ground (arith, k, e)
      | inr e ↦ rw e (v.ended m (ground (arith, l, e)) (ground (arith, k, e)))
    ];
  }
