-- ===== src/Sonos/Claims/Bound.antt =====
-- A claim is good for the one item that it was issued for.
use harmonixia_server.Prelude.{
  ℕ, ◌≡◌, ◌↔◌, refl, ap, subst, arith, true, false, Option, none, some, ==_iff, str_eq, eq_iff,
}
use harmonixia_server.Playback.Types.{PlaybackItemType, track, episode}
use harmonixia_server.Sonos.Types.{
  SonosDeliveryKind, original, transcode_aac_high, SonosMediaAuthorizationContext,
  SonosPreparedItem, ManagedSonosSession,
}
use harmonixia_server.Sonos.Sessions.{Sessions}
use harmonixia_server.Sonos.Sessions.Table.{get}
use harmonixia_server.Sonos.Claims.{
  to_claim, context_matches_claim, matches_claim, validate_claim, item_type_eq, delivery_eq,
}

item_type_eq_iff : (a b : PlaybackItemType) → (item_type_eq a b ≡ true) ↔ (a ≡ b)
item_type_eq_iff track track = (λ _. refl, λ _. refl)
item_type_eq_iff episode episode = (λ _. refl, λ _. refl)
item_type_eq_iff track episode = (λ e. absurd cc, λ e. absurd cc)
item_type_eq_iff episode track = (λ e. absurd cc, λ e. absurd cc)

delivery_eq_iff : (a b : SonosDeliveryKind) → (delivery_eq a b ≡ true) ↔ (a ≡ b)
delivery_eq_iff original original = (λ _. refl, λ _. refl)
delivery_eq_iff transcode_aac_high transcode_aac_high = (λ _. refl, λ _. refl)
delivery_eq_iff original transcode_aac_high = (λ e. absurd cc, λ e. absurd cc)
delivery_eq_iff transcode_aac_high original = (λ e. absurd cc, λ e. absurd cc)

-- The seven comparisons hold together.
matched :
    (c d : SonosMediaAuthorizationContext) (exp : ℕ)
    → context_matches_claim c (to_claim exp d) ≡ true
    → (c.session_id ≡ d.session_id)
      × (c.session_generation ≡ d.session_generation)
      × (c.item_generation ≡ d.item_generation)
      × (str_eq c.target_id d.target_id ≡ true)
      × (item_type_eq c.item_type d.item_type ≡ true)
      × (c.item_id ≡ d.item_id)
      × (delivery_eq c.delivery_kind d.delivery_kind ≡ true)
unfolding context_matches_claim to_claim
matched c d exp h = (
  ground arith,
  ground arith,
  ground arith,
  ground arith,
  ground arith,
  ground arith,
  ground arith,
)

own_claim :
    (c : SonosMediaAuthorizationContext) (exp : ℕ) → context_matches_claim c (to_claim exp c) ≡ true
unfolding context_matches_claim to_claim
own_claim c exp =
    rw
      (
        (==_iff c.session_id c.session_id).1 refl,
        (==_iff c.session_generation c.session_generation).1 refl,
        (==_iff c.item_generation c.item_generation).1 refl,
        (==_iff c.item_id c.item_id).1 refl,
        (eq_iff c.target_id c.target_id).1 refl,
        (item_type_eq_iff c.item_type c.item_type).1 refl,
        (delivery_eq_iff c.delivery_kind c.delivery_kind).1 refl,
      )
      refl

pub context_matches_claim_iff :
    (c d : SonosMediaAuthorizationContext) (exp : ℕ)
    → (context_matches_claim c (to_claim exp d) ≡ true) ↔ (c ≡ d)
context_matches_claim_iff c d exp = (
  λ h.
      let (session, generation, item, player, kind, id, delivery) = matched c d exp h in
      λ i. record {
        session_id = session i;
        session_generation = generation i;
        item_generation = item i;
        target_id = (eq_iff c.target_id d.target_id).0 player i;
        item_type = (item_type_eq_iff c.item_type d.item_type).0 kind i;
        item_id = id i;
        delivery_kind = (delivery_eq_iff c.delivery_kind d.delivery_kind).0 delivery i;
      },
  λ e. subst (λ d. context_matches_claim c (to_claim exp d) ≡ true) e (own_claim c exp),
)

-- The item that is prepared for a player.
abbrev pub prepared_context : Option ManagedSonosSession → Option SonosMediaAuthorizationContext
prepared_context none = none
prepared_context (some s) = elim s.prepared_item [ none ↦ none | some p ↦ some p.context ]

validated :
    (c : SonosMediaAuthorizationContext) (exp : ℕ) (o : Option SonosPreparedItem)
    → (matches_claim o (to_claim exp c) ≡ true)
      ↔ ((elim o [ none ↦ none | some p ↦ some p.context ]) ≡ some c)
unfolding matches_claim
validated c exp none = (λ e. absurd cc, λ e. absurd cc)
validated c exp (some p) = (
  λ h. ap some ((context_matches_claim_iff p.context c exp).0 h),
  λ e. (context_matches_claim_iff p.context c exp).1 cc,
)

pub found :
    (c : SonosMediaAuthorizationContext) (exp : ℕ) (o : Option ManagedSonosSession)
    → ((elim o [ none ↦ false | some s ↦ matches_claim s.prepared_item (to_claim exp c) ]) ≡ true)
      ↔ (prepared_context o ≡ some c)
found c exp none = (λ e. absurd cc, λ e. absurd cc)
found c exp (some s) = validated c exp s.prepared_item

-- A claim that was made of a context is accepted exactly when that context, and no other in any of
-- its parts, is the one of the item prepared for its player.
pub validate_claim_iff :
    (c : SonosMediaAuthorizationContext) (exp : ℕ) (table : Sessions)
    → (validate_claim (to_claim exp c) table ≡ true)
      ↔ (prepared_context (get c.target_id table) ≡ some c)
unfolding validate_claim to_claim
validate_claim_iff c exp table = found c exp (get c.target_id table)
