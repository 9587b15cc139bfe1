-- ===== src/Playback/Preview.antt =====
-- The two ways in which the API changes a session: at once, or as a preview that is committed when the
-- Sonos player has accepted it.
use harmonixia_server.Prelude.{
  ℕ, String, ◌^◌, ◌≤◌, Option, none, some, List, ◌≡◌, refl, sym, subst, arith, ◌∙◌, ap, length,
}
use harmonixia_server.Errors.{Outcome, ok, err, panic}
use harmonixia_server.Playback.Types.{
  PlaybackSessionRuntime, PlaybackSessionQueueItem, PlaybackSessionReadModel, to_read_model,
  index_u32,
}
use harmonixia_server.Playback.Session.{Mutation, apply_playback_session_snapshot}
use harmonixia_server.Playback.Invariant.{SessionOk, Preserves, IndexOk}
use harmonixia_server.Playback.Safety.{StoreOk, entry-SessionOk}
use harmonixia_server.Playback.Store.{
  Store, entry, stamped, next_sequence, announce, settle, guarded_sound, mutate_playback_session,
  preview, shown,
}

index_u32_self :
    (q : List PlaybackSessionQueueItem) (o : Option ℕ)
    → IndexOk q o
    → length q ≤ 2 ^ 32
    → index_u32 o ≡ o
index_u32_self q none h k = refl
index_u32_self q (some i) h k = ap some (omega arith)

-- A snapshot carries everything but the revision and the time, which the commit stamps anew.
stamped-snapshot :
    (n now : ℕ) (s s' : PlaybackSessionRuntime)
    → index_u32 s.current_index ≡ s.current_index
    → stamped n now (apply_playback_session_snapshot (to_read_model s) s').0 ≡ stamped n now s
unfolding apply_playback_session_snapshot to_read_model
stamped-snapshot n now s s' e = cc

settle_ok :
    (st : Store) (account : ℕ) (action : String) (entity : Option ℕ) (now : ℕ)
    (p q : PlaybackSessionRuntime × Outcome (Unit {0}))
    → p.1 ≡ ok tt
    → q.1 ≡ ok tt
    → stamped (next_sequence st) now p.0 ≡ stamped (next_sequence st) now q.0
    → settle st account action entity now p ≡ settle st account action entity now q
unfolding settle
settle_ok st account action entity now (p, ok _) (q, ok _) a b e =
    ap (announce st account action entity now) e
settle_ok st account action entity now (p, err x) q a b e = cc
settle_ok st account action entity now (p, panic) q a b e = cc
settle_ok st account action entity now (p, ok _) (q, err x) a b e = cc
settle_ok st account action entity now (p, ok _) (q, panic) a b e = cc

shown_ok :
    (o : PlaybackSessionRuntime × Outcome (Unit {0})) (r : PlaybackSessionReadModel)
    → shown o ≡ ok r
    → (o.1 ≡ ok tt) × (r ≡ to_read_model o.0)
shown_ok (s, ok _) r e = (refl, cc)
shown_ok (s, err x) r e = cc
shown_ok (s, panic) r e = cc

-- The snapshot of a good session, committed, is the session itself.
stamped-commit :
    (n now : ℕ) (s s' : PlaybackSessionRuntime) (r : PlaybackSessionReadModel)
    → SessionOk s
    → length r.queue ≤ 2 ^ 32
    → r ≡ to_read_model s
    → stamped n now (apply_playback_session_snapshot r s').0 ≡ stamped n now s
unfolding to_read_model
stamped-commit n now s s' r v short e =
    subst
      (λ (x : PlaybackSessionReadModel).
        stamped n now (apply_playback_session_snapshot x s').0 ≡ stamped n now s)
      (sym e)
      (stamped-snapshot n now s s' (
        index_u32_self s.queue s.current_index v.indexed
          (subst (λ (x : PlaybackSessionReadModel). length x.queue ≤ 2 ^ 32) e short)))

module _ (fresh fresh' now account : ℕ) (action : String) (entity : Option ℕ) (m : Mutation)
    (st : Store) where
  -- For any mutation that keeps sessions good, committing the snapshot that its preview showed
  -- leaves the store, and gives the answer, that making the mutation at once would have, as long as
  -- the store is good and the queue has at most 2^32 items.
  pub commit-preview :
      (r : PlaybackSessionReadModel)
      → StoreOk st
      → Preserves m
      → length r.queue ≤ 2 ^ 32
      → preview fresh now account m st ≡ ok r
      → mutate_playback_session fresh' now account action entity
          (apply_playback_session_snapshot r)
          st
        ≡ mutate_playback_session fresh now account action entity m st
  unfolding mutate_playback_session preview
  commit-preview r v keeps short e =
      let s = entry st fresh now account in
      let s' = entry st fresh' now account in
      let seen = shown_ok (m s) r (sym (guarded_sound st.poisoned _ _ v.sound) ∙ e) in
      guarded_sound st.poisoned _ _ v.sound
      ∙ settle_ok st account action entity now (apply_playback_session_snapshot r s') (m s)
          (unfold apply_playback_session_snapshot in refl) seen.0
          (stamped-commit (next_sequence st) now (m s).0 s' r
            (keeps s (entry-SessionOk st fresh now account v)).0 short seen.1)
      ∙ sym (guarded_sound st.poisoned _ _ v.sound)
