-- ===== src/Sonos/Refresh.antt =====
-- src/sonos.rs, `SonosRefreshTracker`: discovery rounds that find nothing are not believed at once.
use harmonixia_server.Prelude.{
  ℕ, suc, ◌+◌, ◌%◌, ◌^◌, ◌≤◌, ◌<◌, ◌≡◌, ◌↔◌, refl, arith, ◌⊎◌, Bool, false, Option, none, some,
  List, [], ◌∷◌, length, ltb, if◌then◌else◌,
}

abbrev pub empty_refreshes_before_expiry : ℕ
empty_refreshes_before_expiry = 3

-- What `runtime_loop` publishes; `is_empty` is the method of `SonosSnapshot`.
module _ {ℓ} {Snapshot : Type ℓ} (is_empty : Snapshot → Bool) where
  -- The count of the tracker (a `usize`), and the snapshot or `none`.
  unfoldable pub publishable_snapshot : ℕ → Snapshot → ℕ × Option Snapshot
  publishable_snapshot n snapshot =
      if is_empty snapshot
      then (
        (n + 1) % 2 ^ 64,
        if ltb ((n + 1) % 2 ^ 64) empty_refreshes_before_expiry then none else some snapshot,
      )
      else (0, some snapshot)

  -- The count after these refreshes, the newest first.
  unfoldable pub tracked : List Snapshot → ℕ
  tracked [] = 0
  tracked (s ∷ earlier) = (publishable_snapshot (tracked earlier) s).0

  -- How many of the newest refreshes found nothing in a row.
  abbrev pub empty_run : List Snapshot → ℕ
  empty_run [] = 0
  empty_run (s ∷ earlier) = if is_empty s then suc (empty_run earlier) else 0

  empty_run-le : (history : List Snapshot) → empty_run history ≤ length history
  empty_run-le [] = omega arith
  empty_run-le (s ∷ earlier) = ground (arith, empty_run-le earlier)

  tracked-empty_run :
      (history : List Snapshot) → length history < 2 ^ 64 → tracked history ≡ empty_run history
  unfolding tracked publishable_snapshot
  tracked-empty_run [] h = refl
  tracked-empty_run (s ∷ earlier) h =
      let same = tracked-empty_run earlier (omega arith) in
      let le = empty_run-le earlier in ground (arith, same, le)

  -- After any history of fewer than 2^64 refreshes, the next one is published, as it is, exactly when
  -- it found something or is at least the third in a row that found nothing.
  pub publishable_snapshot_iff :
      (history : List Snapshot) (snapshot : Snapshot)
      → suc (length history) < 2 ^ 64
      → ((publishable_snapshot (tracked history) snapshot).1 ≡ some snapshot)
        ↔ ((is_empty snapshot ≡ false) ⊎ (3 ≤ empty_run (snapshot ∷ history)))
  unfolding publishable_snapshot
  publishable_snapshot_iff history snapshot h =
      let same = tracked-empty_run history (omega arith) in
      let le = empty_run-le history in ground (arith, same, le)
