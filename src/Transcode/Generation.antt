-- ===== src/Transcode/Generation.antt =====
-- src/transcode.rs, `HlsGenerationCoordinator`: one generation at a time for each output directory.
-- `tokio::sync::watch` is not under src/: its channel is a parameter, with what the code relies on.
pub mod Leases
pub mod Single
pub mod Coherence
pub mod Departures
pub mod Refinement
pub mod Samples
pub mod Tests
use harmonixia_server.Prelude.{
  ℕ, zero, suc, ◌+◌, ◌-◌, Bool, true, false, ◌||◌, ◌⊎◌, List, [], ◌∷◌, Option, none, some, ◌==◌,
  ◌≡◌, if◌then◌else◌, get_elem?,
}
use harmonixia_server.Prelude.Dict.{lookup, insert, remove}

-- A channel as its senders and its value. A receiver that is dropped at once leaves `channel`; a
-- value that no receiver is there to take may be refused by `send`.
pub record Watch : Type 1 where
  pub Channel : Type 0
  pub channel : Channel
  pub clone_sender : Channel → Channel
  pub drop_sender : Channel → Channel
  pub subscribe : Channel → Channel
  pub drop_receiver : Channel → Channel
  pub send : Bool → Channel → Channel
  pub borrow : Channel → Bool
  pub senders : Channel → ℕ
  pub borrow-channel : borrow channel ≡ false
  pub senders-channel : senders channel ≡ 1
  pub borrow-clone_sender : (c : Channel) → borrow (clone_sender c) ≡ borrow c
  pub senders-clone_sender : (c : Channel) → senders (clone_sender c) ≡ senders c + 1
  pub borrow-drop_sender : (c : Channel) → borrow (drop_sender c) ≡ borrow c
  pub senders-drop_sender : (c : Channel) → senders (drop_sender c) ≡ senders c - 1
  pub borrow-subscribe : (c : Channel) → borrow (subscribe c) ≡ borrow c
  pub senders-subscribe : (c : Channel) → senders (subscribe c) ≡ senders c
  pub borrow-drop_receiver : (c : Channel) → borrow (drop_receiver c) ≡ borrow c
  pub senders-drop_receiver : (c : Channel) → senders (drop_receiver c) ≡ senders c
  pub senders-send : (b : Bool) (c : Channel) → senders (send b c) ≡ senders c
  pub borrow-send :
      (b : Bool) (c : Channel) → (borrow (send b c) ≡ b) ⊎ (borrow (send b c) ≡ borrow c)

-- The paths that are generated and the channel of each. The channels stand in a heap, by number.
pub record HlsGenerationCoordinator (Channel : Type 0) : Type 0 where
  pub inner : List (ℕ × ℕ)
  pub channels : ℕ → Channel
  pub allocated : ℕ

pub record HlsGenerationGuard : Type 0 where
  pub key : ℕ
  pub done : ℕ

pub record HlsGenerationWaiter : Type 0 where
  pub done : ℕ

pub data HlsGenerationLease : Type 0 where
  start : HlsGenerationGuard → HlsGenerationLease
  wait : HlsGenerationWaiter → HlsGenerationLease

abbrev pub update {ℓ} : {A : Type ℓ} → (ℕ → A) → ℕ → (A → A) → ℕ → A
update heap at f i = if at == i then f (heap i) else heap i

module _ (watch : Watch) where
  -- `HlsGenerationCoordinator::new`: no channel of the heap is in use.
  unfoldable pub new : HlsGenerationCoordinator watch.Channel
  new = record { inner = []; channels = λ _. watch.channel; allocated = 0 }

  -- `watch::channel(false)`, whose sender is cloned into the table.
  unfoldable pub lease_for :
      ℕ
      → HlsGenerationCoordinator watch.Channel
      → Option ℕ
      → HlsGenerationCoordinator watch.Channel × HlsGenerationLease
  lease_for key c (some done) = (
    record c { channels = update c.channels done watch.subscribe },
    wait (record { done = done }),
  )
  lease_for key c none = (
    record {
      inner = insert key c.allocated c.inner;
      channels = update c.channels c.allocated (λ _. watch.clone_sender watch.channel);
      allocated = suc c.allocated;
    },
    start (record { key = key; done = c.allocated }),
  )

  unfoldable pub join_or_start :
      ℕ
      → HlsGenerationCoordinator watch.Channel
      → HlsGenerationCoordinator watch.Channel × HlsGenerationLease
  join_or_start key c = lease_for key c (lookup key c.inner)

  -- `changed` fails when no sender is left, and `wait` then returns too.
  unfoldable pub is_over : HlsGenerationWaiter → HlsGenerationCoordinator watch.Channel → Bool
  is_over w c = watch.borrow (c.channels w.done) || watch.senders (c.channels w.done) == 0

  abbrev pub same_channel : ℕ → Option ℕ → Bool
  same_channel done none = false
  same_channel done (some at) = at == done

  -- `Drop` of a guard: the table's sender goes with its entry, the guard's own one with the guard.
  unfoldable pub drop_guard :
      HlsGenerationGuard
      → HlsGenerationCoordinator watch.Channel
      → HlsGenerationCoordinator watch.Channel
  drop_guard g c =
      let should_remove = same_channel g.done (lookup g.key c.inner) in
      let sent = update c.channels g.done (watch.send true) in
      let removed = if should_remove then update sent g.done watch.drop_sender else sent in
      record c {
        inner = if should_remove then remove g.key c.inner else c.inner;
        channels = update removed g.done watch.drop_sender;
      }

  -- The receiver of a waiter goes with it.
  unfoldable pub drop_waiter :
      HlsGenerationWaiter
      → HlsGenerationCoordinator watch.Channel
      → HlsGenerationCoordinator watch.Channel
  drop_waiter w c = record c { channels = update c.channels w.done watch.drop_receiver }
