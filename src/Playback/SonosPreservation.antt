-- ===== src/Playback/SonosPreservation.antt =====
-- The methods by which a Sonos session writes to the shared one keep it good, for a report whose
-- context is complete; `sync` does not check that, the others need not.
use harmonixia_server.Prelude.{
  ℕ, String, ◌<◌, ◌≡◌, refl, Bool-cases, inl, inr, false, Option, none, some, List, [], ◌∷◌, arith,
  length, is_some, is_empty,
}
use harmonixia_server.Errors.{ApiError, Outcome, ok, err, panic, Ensures, Ensures-bind}
use harmonixia_server.Playback.Types.{
  PlaybackSessionQueueItem, PlaybackSessionTransfer, PlaybackSessionRuntime,
  PlaybackSessionReadModel, sonos, to_read_model, index_u32,
}
use harmonixia_server.Playback.Session.{apply_playback_session_snapshot}
use harmonixia_server.Playback.Operations.{
  SonosReport, ok_or, adopt, is_sonos, checked_sonos_start, sonos_start, synced_session, sync,
  stop_sonos_target,
}
use harmonixia_server.Playback.Invariant.{
  IndexOk, ProgressOk, TransferOk, SessionOk, Preserves, Ensures-validate_session_queue_index,
  Ensures-validate_playback_context, Ensures-validate_progress_seconds, attempt-Preserves,
}
use harmonixia_server.Playback.Preservation.{retarget-SessionOk}

carried-TransferOk :
    (p q : List PlaybackSessionQueueItem) (o : Option PlaybackSessionTransfer)
    → is_empty q ≡ false
    → TransferOk p o
    → TransferOk q o
carried-TransferOk p q none e h = tt
carried-TransferOk p q (some t) e h = (e, h.1, h.2)

not_empty : (q : List PlaybackSessionQueueItem) (i : ℕ) → i < length q → is_empty q ≡ false
not_empty [] i h = absurd (omega arith)
not_empty (x ∷ xs) i h = refl

adopt-SessionOk :
    (r : SonosReport) (i : ℕ) (s : PlaybackSessionRuntime)
    → SessionOk s
    → is_some r.context_type ≡ is_some r.context_id
    → i < length r.queue
    → ProgressOk r.position_seconds r.duration_seconds
    → SessionOk (adopt r (some i) s)
unfolding adopt
adopt-SessionOk r i s v c x p = record {
  indexed = x;
  context = c;
  progress = p;
  transferred = carried-TransferOk s.queue r.queue s.transfer (not_empty r.queue i x) v.transferred;
}

-- What the checks before `sonos_start` establish.
pub record StartOk (r : SonosReport) (i : ℕ) : Type 0 where
  pub context : is_some r.context_type ≡ is_some r.context_id
  pub indexed : i < length r.queue
  pub progress : ProgressOk r.position_seconds r.duration_seconds

ok_or-Ensures :
    (q : List PlaybackSessionQueueItem) (o : Option ℕ) (e : ApiError)
    → IndexOk q o
    → Ensures (λ i. i < length q) (ok_or o e)
ok_or-Ensures q none e h = tt
ok_or-Ensures q (some i) e h = h

pub checked_sonos_start-StartOk : (r : SonosReport) → Ensures (StartOk r) (checked_sonos_start r)
unfolding checked_sonos_start
checked_sonos_start-StartOk r =
    Ensures-bind (StartOk r) _ _ _ (Ensures-validate_playback_context r.context_type r.context_id)
      λ _ c.
        Ensures-bind (StartOk r) _ _ _
          (Ensures-validate_session_queue_index r.queue (some r.current_index))
          λ o x. Ensures-bind (StartOk r) _ _ _ (ok_or-Ensures r.queue o _ x) λ i x.
            Ensures-bind (StartOk r) _ _ (λ _. ok i)
              (Ensures-validate_progress_seconds r.position_seconds r.duration_seconds)
              λ _ p. record { context = c; indexed = x; progress = p }

pub sonos_start-Preserves : (r : SonosReport) (i : ℕ) → StartOk r i → Preserves (sonos_start r i)
unfolding sonos_start
sonos_start-Preserves r i h s v = (
  retarget-SessionOk (sonos r.target_id) (adopt r (some i) s)
      (adopt-SessionOk r i s v h.context h.indexed h.progress),
  λ e. cc,
)

synced_session-SessionOk :
    (r : SonosReport) (s : PlaybackSessionRuntime) (o : Outcome (Option ℕ))
    → SessionOk s
    → is_some r.context_type ≡ is_some r.context_id
    → Ensures (IndexOk r.queue) o
    → Ensures SessionOk (synced_session r s o)
unfolding synced_session
synced_session-SessionOk r s panic v c h = h
synced_session-SessionOk r s (err e) v c h = tt
synced_session-SessionOk r s (ok none) v c h = v
synced_session-SessionOk r s (ok (some i)) v c h =
    Ensures-bind SessionOk _ _ (λ _. ok (adopt r (some i) s))
      (Ensures-validate_progress_seconds r.position_seconds r.duration_seconds)
      λ _ p. adopt-SessionOk r i s v c h p

pub sync-Preserves :
    (r : SonosReport) → is_some r.context_type ≡ is_some r.context_id → Preserves (sync r)
unfolding sync
sync-Preserves r c s v = elim (Bool-cases (is_sonos r.target_id s.active_target)) [
  | inl e ↦ rw e (
      attempt-Preserves s _ v (
        synced_session-SessionOk r s _ v c
          (Ensures-validate_session_queue_index r.queue (some r.current_index))))
  | inr e ↦ rw e (v, λ p. cc)
]

pub stop_sonos_target-Preserves : (target : String) → Preserves (stop_sonos_target target)
unfolding stop_sonos_target
stop_sonos_target-Preserves target s v = elim (Bool-cases (is_sonos target s.active_target)) [
  | inl e ↦ rw e (
    record { indexed = v.indexed; context = v.context; progress = v.progress; transferred = tt },
    λ p. cc,
  )
  | inr e ↦ rw e (v, λ p. cc)
]

-- A read model that could have come from a good session.
pub record ReadModelOk (r : PlaybackSessionReadModel) : Type 0 where
  pub indexed : IndexOk r.queue r.current_index
  pub context : is_some r.context_type ≡ is_some r.context_id
  pub progress : ProgressOk r.position_seconds r.duration_seconds
  pub transferred : TransferOk r.queue r.transfer

pub apply_playback_session_snapshot-Preserves :
    (r : PlaybackSessionReadModel) → ReadModelOk r → Preserves (apply_playback_session_snapshot r)
unfolding apply_playback_session_snapshot
apply_playback_session_snapshot-Preserves r h s v = (
  record {
    indexed = h.indexed;
    context = h.context;
    progress = h.progress;
    transferred = h.transferred;
  },
  λ e. cc,
)

index_u32-IndexOk :
    (q : List PlaybackSessionQueueItem) (o : Option ℕ) → IndexOk q o → IndexOk q (index_u32 o)
index_u32-IndexOk q none h = h
index_u32-IndexOk q (some i) h = omega arith

-- What a good session shows to its clients may be committed again.
pub to_read_model-ReadModelOk :
    (s : PlaybackSessionRuntime) → SessionOk s → ReadModelOk (to_read_model s)
unfolding to_read_model
to_read_model-ReadModelOk s v = record {
  indexed = index_u32-IndexOk s.queue s.current_index v.indexed;
  context = v.context;
  progress = v.progress;
  transferred = v.transferred;
}
