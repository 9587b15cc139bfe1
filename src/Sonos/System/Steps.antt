-- ===== src/Sonos/System/Steps.antt =====
-- src/sonos.rs: the steps of the tasks on the managed sessions, each one atomic change of the table.
use harmonixia_server.Prelude.{
  ℕ, String, ◌+◌, ◌-◌, ◌^◌, min, Option, none, some, not, ◌&&◌, List, [], ◌∷◌, get_elem?,
  if◌then◌else◌,
}
use harmonixia_server.Errors.{Outcome, ok, err, panic, ◌>>=◌}
use harmonixia_server.Sonos.Types.{
  SonosPlaybackTarget, SonosResolvedTarget, ManagedSonosSession, ManagedSonosSessionSnapshot,
}
use harmonixia_server.Sonos.Session.{
  is_active, verified, record_active_verification_miss, heartbeat, reconnect_deadline_elapsed,
  advance_position,
}
use harmonixia_server.Sonos.Changes.{
  SonosControlCommand, command_refused, commanded, Direction, target_index, ItemChange,
  changed_item, capture, restore, resumed, reconnected, item_started,
}
use harmonixia_server.Sonos.Sessions.{
  insert, remove, remove_snapshot, update_snapshot, snapshot_of, matching,
}
use harmonixia_server.Sonos.Sessions.Table.{put}
use harmonixia_server.Sonos.System.{SonosStart, start_managed_sonos_session, System}

-- What a task does next with the snapshot that it holds.
pub data Task : Type 0 where
  verifies : SonosResolvedTarget → ℕ → Task
  misses beats advances expires : ℕ → Task
  obeys : SonosControlCommand → SonosPlaybackTarget → SonosResolvedTarget → ℕ → Task
  changes : Direction → ItemChange → Task
  begins_item : SonosPlaybackTarget → SonosResolvedTarget → ℕ → Task
  resumes : ItemChange → Task
  ends_resume : SonosPlaybackTarget → SonosResolvedTarget → ℕ → Task

-- Numbers count the snapshots, the rollbacks and the replaced sessions from the newest on.
pub data Event : Type 0 where
  reads removes : String → Event
  starts : SonosStart → Event
  puts_back rolls_back : ℕ → Event
  goes_on : ℕ → Task → Event

-- One change of a session by `update_snapshot`.
unfoldable pub amend :
    (ManagedSonosSession → ManagedSonosSession) → ManagedSonosSessionSnapshot → System → System
amend change seen st = record st {
  sessions = (update_snapshot {0} seen (λ s. (change s, tt)) st.sessions).0;
}

-- The insertion at the end of `start_managed_sonos_session`. That the target is not being reconnected was
-- looked at earlier, before commands to the player, and may no longer be so. The session that it replaced is kept for
-- the case that the player does not start.
unfoldable pub insert_started : System → Outcome ManagedSonosSession → Outcome System
insert_started st panic = panic
insert_started st (err e) = ok st
insert_started st (ok s) = elim (insert s st.sessions).1 [
  | none ↦ ok (record st { sessions = (insert s st.sessions).0 })
  | some old ↦ ok (record st { sessions = (insert s st.sessions).0; replaced = old ∷ st.replaced })
]

-- The change of the item and the capture of the rollback are one closure.
unfoldable pub install_item :
    ManagedSonosSessionSnapshot
    → ManagedSonosSession
    → System
    → Outcome ManagedSonosSession
    → Outcome System
install_item seen s st panic = panic
install_item seen s st (err e) = ok st
install_item seen s st (ok s') = ok (record st {
  sessions = put seen.target_id s' st.sessions;
  rollbacks = (seen, capture s) ∷ st.rollbacks;
})

unfoldable pub commit_item :
    ManagedSonosSessionSnapshot
    → (ManagedSonosSession → Outcome ManagedSonosSession)
    → System
    → Outcome System
unfolding install_item
commit_item seen change st = elim (matching seen st.sessions) [
  | none ↦ ok st
  | some s ↦ install_item seen s st (change s)
]

-- `saturating_add(1)` on `u64`.
abbrev pub next_item_generation : ManagedSonosSessionSnapshot → ℕ
next_item_generation seen = min (seen.item_generation + 1) (2 ^ 64 - 1)

unfoldable pub change_item :
    ManagedSonosSessionSnapshot → ItemChange → System → Outcome ℕ → Outcome System
change_item seen c st panic = panic
change_item seen c st (err e) = ok st
change_item seen c st (ok index) =
    commit_item seen
      (changed_item (record c { index = index; item_generation = next_item_generation seen })) st

-- `resume_reconnected_session`: without a current entry it gives up.
unfoldable pub resume_item : ManagedSonosSessionSnapshot → ItemChange → System → Outcome System
resume_item seen c st = elim (get_elem? seen.queue seen.queue_index) [
  | none ↦ ok st
  | some entry ↦
      commit_item seen
        (λ s. ok (resumed seen (record c { item_generation = next_item_generation seen }) s)) st
]

abbrev pub chosen {ℓ} : {A : Type ℓ} → System → (A → Outcome System) → Option A → Outcome System
chosen st go none = ok st
chosen st go (some a) = go a

-- A step of the task that holds this snapshot.
unfoldable pub go_on : Task → System → ManagedSonosSessionSnapshot → Outcome System
go_on (verifies target now) st seen =
    if is_active seen.status then ok (amend (verified seen target now) seen st) else ok st
go_on (misses now) st seen = ok (amend (record_active_verification_miss now) seen st)
go_on (beats now) st seen = ok (amend (λ s. (heartbeat now s).0) seen st)
go_on (advances now) st seen = ok (amend (advance_position now) seen st)
go_on (expires now) st seen =
    if reconnect_deadline_elapsed seen now
    then ok (record st { sessions = (remove_snapshot seen st.sessions).0 })
    else ok st
go_on (obeys c latest target now) st seen =
    if is_active seen.status && not (command_refused c seen)
    then ok (amend (commanded c latest target now) seen st)
    else ok st
go_on (changes d c) st seen =
    if is_active seen.status then change_item seen c st (target_index d seen) else ok st
go_on (begins_item latest target now) st seen = ok (amend (item_started latest target now) seen st)
go_on (resumes c) st seen = if is_active seen.status then ok st else resume_item seen c st
go_on (ends_resume latest target now) st seen =
    if is_active seen.status then ok st else ok (amend (reconnected seen latest target now) seen st)

unfoldable pub step : Event → System → Outcome System
step (reads target_id) st =
    chosen st (λ seen. ok (record st { seen = seen ∷ st.seen })) (snapshot_of target_id st.sessions)
step (removes target_id) st = ok (record st { sessions = (remove target_id st.sessions).0 })
step (starts r) st = insert_started st (start_managed_sonos_session r)
step (puts_back i) st =
    chosen st (λ s. ok (record st { sessions = (insert s st.sessions).0 }))
      (get_elem? st.replaced i)
step (rolls_back i) st =
    chosen st (λ (seen, r). ok (amend (restore r) seen st)) (get_elem? st.rollbacks i)
step (goes_on i task) st = chosen st (go_on task st) (get_elem? st.seen i)

unfoldable pub run : List Event → System → Outcome System
run [] st = ok st
run (e ∷ es) st = step e st >>= run es
