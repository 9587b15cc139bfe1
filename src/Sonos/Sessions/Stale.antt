-- ===== src/Sonos/Sessions/Stale.antt =====
-- A session that was replaced: what was kept of it opens nothing any more.
use harmonixia_server.Prelude.{◌≡◌, ◌≢◌, refl, subst, arith, false, none, some}
use harmonixia_server.Sonos.Types.{ManagedSonosSession, ManagedSonosSessionSnapshot}
use harmonixia_server.Sonos.Sessions.{
  Sessions, session_matches_snapshot, insert, matching, update_snapshot, remove_snapshot,
}
use harmonixia_server.Sonos.Sessions.Table.{get, put, get-put}

mismatch :
    (s : ManagedSonosSession) (seen : ManagedSonosSessionSnapshot)
    → s.session_id ≢ seen.session_id
    → session_matches_snapshot s seen ≡ false
unfolding session_matches_snapshot
mismatch s seen h = ground arith

matching-insert :
    (s : ManagedSonosSession) (seen : ManagedSonosSessionSnapshot) (table : Sessions)
    → s.target_id ≡ seen.target_id
    → s.session_id ≢ seen.session_id
    → matching seen (insert s table).0 ≡ none
unfolding matching insert
matching-insert s seen table t h =
    let found : get seen.target_id (put s.target_id s table) ≡ some s =
      subst (λ name. get name (put s.target_id s table) ≡ some s) t (get-put s.target_id s table) in
    rw (found, matching) (rw (mismatch s seen h) refl)

-- After a player got a session with another identifier, a task that still holds a snapshot of an
-- earlier one changes nothing, does not remove the new session, and is told so.
pub insert-Stale {ℓ} :
    {R : Type ℓ} (s : ManagedSonosSession) (seen : ManagedSonosSessionSnapshot) (table : Sessions)
    (change : ManagedSonosSession → ManagedSonosSession × R)
    → s.target_id ≡ seen.target_id
    → s.session_id ≢ seen.session_id
    → (update_snapshot seen change (insert s table).0 ≡ ((insert s table).0, none))
      × (remove_snapshot seen (insert s table).0 ≡ ((insert s table).0, none))
unfolding update_snapshot remove_snapshot
insert-Stale s seen table change t h = (
  rw (matching-insert s seen table t h, update_snapshot) refl,
  rw (matching-insert s seen table t h, remove_snapshot) refl,
)
