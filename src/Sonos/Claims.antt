-- ===== src/Sonos/Claims.antt =====
-- src/sonos.rs and src/state.rs: what a signed claim on the media of a Sonos session opens. The
-- signature is checked before; here the claim is compared with the session at hand. No code looks at
-- its expiry.
pub mod Bound
pub mod Slots
pub mod Tokens
pub mod Tests
use harmonixia_server.Prelude.{
  ℕ, String, Bool, true, false, ◌&&◌, Option, none, some, ◌==◌, str_eq, if◌then◌else◌, get_elem?,
}
use harmonixia_server.Playback.Types.{PlaybackItemType, track, episode}
use harmonixia_server.Sonos.Types.{
  SonosDeliveryKind, original, transcode_aac_high, SonosMediaAuthorizationContext,
  SonosPreparedItem, ManagedSonosSession,
}
use harmonixia_server.Sonos.Sessions.{Sessions}
use harmonixia_server.Sonos.Sessions.Table.{get, put}

pub record SonosSignedClaim : Type 0 where
  pub session_id : ℕ
  pub session_generation : ℕ
  pub item_generation : ℕ
  pub target_id : String
  pub item_type : PlaybackItemType
  pub item_id : ℕ
  pub delivery_kind : SonosDeliveryKind
  pub exp : ℕ

abbrev pub item_type_eq : PlaybackItemType → PlaybackItemType → Bool
item_type_eq track track = true
item_type_eq episode episode = true
item_type_eq track episode = false
item_type_eq episode track = false

abbrev pub delivery_eq : SonosDeliveryKind → SonosDeliveryKind → Bool
delivery_eq original original = true
delivery_eq transcode_aac_high transcode_aac_high = true
delivery_eq original transcode_aac_high = false
delivery_eq transcode_aac_high original = false

unfoldable pub to_claim : ℕ → SonosMediaAuthorizationContext → SonosSignedClaim
to_claim exp c = record {
  session_id = c.session_id;
  session_generation = c.session_generation;
  item_generation = c.item_generation;
  target_id = c.target_id;
  item_type = c.item_type;
  item_id = c.item_id;
  delivery_kind = c.delivery_kind;
  exp = exp;
}

-- `SonosMediaAuthorizationContext::matches_claim`.
unfoldable pub context_matches_claim : SonosMediaAuthorizationContext → SonosSignedClaim → Bool
context_matches_claim c claim =
    c.session_id == claim.session_id
    && (c.session_generation == claim.session_generation
        && (c.item_generation == claim.item_generation
            && (str_eq c.target_id claim.target_id
                && (item_type_eq c.item_type claim.item_type
                    && (c.item_id == claim.item_id
                        && delivery_eq c.delivery_kind claim.delivery_kind)))))

-- `ManagedSonosSession::matches_claim`, on the prepared item.
unfoldable pub matches_claim : Option SonosPreparedItem → SonosSignedClaim → Bool
matches_claim none claim = false
matches_claim (some prepared) claim = context_matches_claim prepared.context claim

unfoldable pub current_authorization_context :
    ManagedSonosSession → Option SonosMediaAuthorizationContext
current_authorization_context s = elim s.prepared_item [
  | some prepared ↦ some prepared.context
  | none ↦ elim (get_elem? s.queue s.queue_index) [
    | none ↦ none
    | some entry ↦ some (record {
      session_id = s.session_id;
      session_generation = s.session_generation;
      item_generation = s.item_generation;
      target_id = s.target_id;
      item_type = entry.item_type;
      item_id = entry.item_id;
      delivery_kind = original;
    })
  ]
]

unfoldable pub validate_claim : SonosSignedClaim → Sessions → Bool
validate_claim claim table = elim (get claim.target_id table) [
  | none ↦ false
  | some s ↦ matches_claim s.prepared_item claim
]

-- `Option::take` on the slot of the prepared item.
unfoldable pub without_slot : SonosPreparedItem → SonosPreparedItem
without_slot p = record p { reserved_transcode_slot = none }

unfoldable pub taken_from :
    SonosSignedClaim
    → Sessions
    → ManagedSonosSession
    → Option SonosPreparedItem
    → Sessions × Option ℕ
taken_from claim table s none = (table, none)
taken_from claim table s (some p) =
    if context_matches_claim p.context claim
    then (
      put claim.target_id (record s { prepared_item = some (without_slot p) }) table,
      p.reserved_transcode_slot,
    )
    else (table, none)

unfoldable pub take_reserved_transcode_slot : SonosSignedClaim → Sessions → Sessions × Option ℕ
take_reserved_transcode_slot claim table = elim (get claim.target_id table) [
  | none ↦ (table, none)
  | some s ↦ taken_from claim table s s.prepared_item
]
