-- ===== src/Sonos/Claims/Slots.antt =====
-- The transcode slot that was reserved for a prepared item is handed out once.
use harmonixia_server.Prelude.{
  ℕ, String, ◌≡◌, refl, true, false, Option, none, some, Bool-cases, Option-cases, inl, inr, ◌⊎◌,
  if◌then◌else◌,
}
use harmonixia_server.Sonos.Types.{SonosPreparedItem, ManagedSonosSession}
use harmonixia_server.Sonos.Sessions.{Sessions}
use harmonixia_server.Sonos.Sessions.Table.{get, put, get-put}
use harmonixia_server.Sonos.Claims.{
  SonosSignedClaim, context_matches_claim, matches_claim, validate_claim, without_slot, taken_from,
  take_reserved_transcode_slot,
}

-- What a claim finds.
record Match (claim : SonosSignedClaim) (table : Sessions) : Type 0 where
  session : ManagedSonosSession
  prepared : SonosPreparedItem
  found : get claim.target_id table ≡ some session
  held : session.prepared_item ≡ some prepared
  matching : context_matches_claim prepared.context claim ≡ true

-- A claim that is not accepted takes nothing; the others match.
take-cases :
    (claim : SonosSignedClaim) (table : Sessions)
    → ((take_reserved_transcode_slot claim table ≡ (table, none))
        × (validate_claim claim table ≡ false))
      ⊎ Match claim table
unfolding take_reserved_transcode_slot taken_from validate_claim matches_claim
take-cases claim table = elim (Option-cases (get claim.target_id table)) [
  | inl e ↦ inl (rw (e, take_reserved_transcode_slot) refl, rw (e, validate_claim) refl)
  | inr (s, e) ↦ elim (Option-cases s.prepared_item) [
    | inl n ↦
        inl (rw (e, take_reserved_transcode_slot) (rw n refl), rw (e, validate_claim) (rw n refl))
    | inr (p, h) ↦ elim (Bool-cases (context_matches_claim p.context claim)) [
      | inl m ↦ inr (record { session = s; prepared = p; found = e; held = h; matching = m })
      | inr m ↦
          inl (
            rw (e, take_reserved_transcode_slot) (rw h (rw m refl)),
            rw (e, validate_claim) (rw h m),
          )
    ]
  ]
]

take-Match :
    (claim : SonosSignedClaim) (table : Sessions) (m : Match claim table)
    → take_reserved_transcode_slot claim table ≡ (
      put claim.target_id
          (record m.session { prepared_item = some (without_slot m.prepared) })
          table,
      m.prepared.reserved_transcode_slot,
    )
unfolding take_reserved_transcode_slot taken_from
take-Match claim table m =
    rw (m.found, take_reserved_transcode_slot) (rw m.held (rw m.matching refl))

validate-Match :
    (claim : SonosSignedClaim) (table : Sessions)
    → Match claim table
    → validate_claim claim table ≡ true
unfolding validate_claim matches_claim
validate-Match claim table m = rw (m.found, validate_claim) (rw m.held m.matching)

-- What is left after a slot was taken matches as well, and has no slot.
left_over :
    (claim : SonosSignedClaim) (table : Sessions) (m : Match claim table)
    → Match claim (
        put claim.target_id
          (record m.session { prepared_item = some (without_slot m.prepared) })
          table)
unfolding without_slot
left_over claim table m = record {
  session = record m.session { prepared_item = some (without_slot m.prepared) };
  prepared = without_slot m.prepared;
  found = get-put claim.target_id _ table;
  held = refl;
  matching = m.matching;
}

-- The slot that is reserved at a target, whoever asks.
abbrev slot_of_item : Option SonosPreparedItem → Option ℕ
slot_of_item none = none
slot_of_item (some p) = p.reserved_transcode_slot

abbrev slot_of_session : Option ManagedSonosSession → Option ℕ
slot_of_session none = none
slot_of_session (some s) = slot_of_item s.prepared_item

abbrev pub reserved_slot : String → Sessions → Option ℕ
reserved_slot target_id table = slot_of_session (get target_id table)

-- A claim that is accepted for the media gets the very slot that is reserved at its target, if there
-- is one, and any other claim gets none. Afterwards no slot is left there for an accepted claim, so a
-- second request gets none, and the claim is accepted for the media exactly if it was before.
pub take-once :
    (claim : SonosSignedClaim) (table : Sessions)
    → let (table', slot) = take_reserved_transcode_slot claim table in
      (slot ≡ (if validate_claim claim table then reserved_slot claim.target_id table else none))
      × ((take_reserved_transcode_slot claim table').1 ≡ none)
      × (validate_claim claim table' ≡ validate_claim claim table)
unfolding without_slot left_over
take-once claim table = elim (take-cases claim table) [
  | inl (e, refused) ↦ rw e (rw refused refl, rw e refl, refl)
  | inr m ↦
      let m' = left_over claim table m in
      rw (take-Match claim table m) (
        rw (validate-Match claim table m) (rw m.found (rw m.held refl)),
        rw (take-Match claim _ m') refl,
        rw (validate-Match claim _ m', validate-Match claim table m) refl,
      )
]
