-- ===== src/Sonos/Sessions.antt =====
-- src/sonos.rs, `ManagedSonosSessions`: the table of sessions by player. Every method holds its
-- lock for the whole change, so each is one atomic step. A table is an association list over the
-- players' names.
pub mod Table
pub mod Stale
use harmonixia_server.Prelude.{
  ℕ, String, ◌+◌, ◌-◌, ◌^◌, min, Bool, true, false, ◌&&◌, Option, none, some, List, [], ◌∷◌, ◌==◌,
  str_eq, if◌then◌else◌, get_elem?,
}
use harmonixia_server.Playback.Types.{PlaybackItemType, track, episode}
use harmonixia_server.Sonos.Types.{
  SonosDeliveryKind, original, transcode_aac_high, SonosQueueEntry, SonosMediaAuthorizationContext,
  SonosPreparedItem, ManagedSonosSession, ManagedSonosSessionSnapshot,
}
use harmonixia_server.Sonos.Session.{snapshot}
use Table.{get, put, take_out}

abbrev pub Sessions : Type 0
Sessions = List (String × ManagedSonosSession)

unfoldable pub session_matches_snapshot : ManagedSonosSession → ManagedSonosSessionSnapshot → Bool
session_matches_snapshot s seen =
    s.session_id == seen.session_id && s.session_generation == seen.session_generation

-- `saturating_add(1)` on `u64`.
next_of : Option ManagedSonosSession → ℕ
next_of none = 1
next_of (some s) = min (s.session_generation + 1) (2 ^ 64 - 1)

unfoldable pub next_generation : String → Sessions → ℕ
unfolding next_of
next_generation target_id table = next_of (get target_id table)

-- `insert` answers with the session that it replaced.
unfoldable pub insert : ManagedSonosSession → Sessions → Sessions × Option ManagedSonosSession
insert s table = (put s.target_id s table, get s.target_id table)

unfoldable pub remove : String → Sessions → Sessions × Option ManagedSonosSession
remove target_id table = (take_out target_id table, get target_id table)

unfoldable pub snapshot_of : String → Sessions → Option ManagedSonosSessionSnapshot
snapshot_of target_id table = elim (get target_id table) [
  | none ↦ none
  | some s ↦ some (snapshot s)
]

-- The session that a snapshot was taken of, as long as it is the one at hand.
unfoldable pub matching : ManagedSonosSessionSnapshot → Sessions → Option ManagedSonosSession
matching seen table = elim (get seen.target_id table) [
  | none ↦ none
  | some s ↦ if session_matches_snapshot s seen then some s else none
]

unfoldable pub update_snapshot {ℓ} :
    {R : Type ℓ}
    → ManagedSonosSessionSnapshot
    → (ManagedSonosSession → ManagedSonosSession × R)
    → Sessions
    → Sessions × Option R
update_snapshot seen update table = elim (matching seen table) [
  | none ↦ (table, none)
  | some s ↦ (put seen.target_id (update s).0 table, some (update s).1)
]

unfoldable pub remove_snapshot :
    ManagedSonosSessionSnapshot → Sessions → Sessions × Option ManagedSonosSession
remove_snapshot seen table = elim (matching seen table) [
  | none ↦ (table, none)
  | some s ↦ (take_out seen.target_id table, some s)
]
