-- ===== src/Sonos/Claims/Tokens/Accepted.antt =====
-- Which tokens src/state.rs accepts.
use harmonixia_server.Prelude.{
  ℕ, String, Bool, true, false, ◌||◌, List, [], ◌∷◌, Option, none, some, ◌==◌, ◌≡◌, ◌↔◌, ◌⊎◌, refl,
  ap, ◌∙◌, if◌then◌else◌, is_empty, All, arith, Bool-cases, Option-cases, inl, inr,
}
use harmonixia_server.Media.Range.{split_once, contains}
use harmonixia_server.Media.Range.Reading.{split_once-append}
use harmonixia_server.Sonos.Types.{SonosMediaAuthorizationContext, ManagedSonosSession}
use harmonixia_server.Sonos.Sessions.{Sessions}
use harmonixia_server.Sonos.Sessions.Table.{get}
use harmonixia_server.Sonos.Claims.{SonosSignedClaim, to_claim}
use harmonixia_server.Sonos.Claims.Bound.{context_matches_claim_iff, prepared_context, found}
use harmonixia_server.Sonos.Claims.Tokens.{
  Formats, constant_time_bytes_equal, valid, stale_claim, sign_sonos_claim_payload, encode_claim,
  signed_claim, halves_claim, decode_claim, matches_registered_context, is_authorized,
  claim_validation, validate_sonos_signed_media_token,
}
use harmonixia_server.Sonos.Claims.Tokens.Bytes.{constant_time_bytes_equal_iff}

uncontained-All : (x : ℕ) (s : List ℕ) → contains x s ≡ false → All (λ c. (c == x) ≡ false) s
unfolding contains
uncontained-All x [] h = tt
uncontained-All x (c ∷ s) h = (ground (arith, h), uncontained-All x s (ground (arith, h)))

none-some : (claim : SonosSignedClaim) → ◌≡◌ {A = Option SonosSignedClaim} none (some claim) → ⊥
none-some claim e = absurd cc

false-true : false ≡ true → ⊥
false-true e = absurd cc

module _ (f : Formats) (secret : List ℕ) where
  -- The two halves of a token: an encoded payload that is a claim's, and the payload's signature.
  abbrev pub IsSigned : List ℕ → SonosSignedClaim → Type 0
  IsSigned token claim =
      (left : List ℕ) × (right : List ℕ) × (payload : List ℕ) × (split_once b'.' token
        ≡ some (left, right))
      × ((is_empty left || is_empty right) ≡ false)
      × (f.decode left ≡ some payload)
      × (f.decode right ≡ some (sign_sonos_claim_payload f secret payload))
      × (f.from_slice payload ≡ some claim)

  signed_claim-IsSigned :
      (payload signature : List ℕ) (claim : SonosSignedClaim)
      → signed_claim f secret (some payload) (some signature) ≡ some claim
      → (signature ≡ sign_sonos_claim_payload f secret payload)
        × (f.from_slice payload ≡ some claim)
  unfolding signed_claim
  signed_claim-IsSigned payload signature claim h =
      elim (Bool-cases
        (constant_time_bytes_equal signature (sign_sonos_claim_payload f secret payload))) [
          | inl e ↦ ((constant_time_bytes_equal_iff _ _).0 e, rw e at h)
          | inr e ↦ absurd (none-some claim (rw e at h))
        ]

  -- What the halves of a token decode to.
  halves-IsSigned :
      (token left right : List ℕ) (claim : SonosSignedClaim)
      → split_once b'.' token ≡ some (left, right)
      → (is_empty left || is_empty right) ≡ false
      → signed_claim f secret (f.decode left) (f.decode right) ≡ some claim
      → IsSigned token claim
  halves-IsSigned token left right claim at full h = elim (Option-cases (f.decode left)) [
    | inl e ↦ absurd (none-some claim (unfold signed_claim in rw e at h))
    | inr (payload, here) ↦ elim (Option-cases (f.decode right)) [
      | inl e ↦ absurd (none-some claim (unfold signed_claim in rw (here, e) at h))
      | inr (signature, there) ↦
          let (same, back) =
            signed_claim-IsSigned payload signature claim (rw (here, there) at h) in
          (left, right, payload, at, full, here, there ∙ ap some same, back)
    ]
  ]

  decode_claim-IsSigned :
      (token : List ℕ) (claim : SonosSignedClaim)
      → decode_claim f secret token ≡ some claim
      → IsSigned token claim
  unfolding decode_claim halves_claim
  decode_claim-IsSigned token claim h = elim (Option-cases (split_once b'.' token)) [
    | inl e ↦ absurd (none-some claim (rw e at h))
    | inr ((left, right), e) ↦ elim (Bool-cases (is_empty left || is_empty right)) [
      | inl empty ↦ absurd (none-some claim (rw (e, empty) at h))
      | inr full ↦ halves-IsSigned token left right claim e full (rw (e, full) at h)
    ]
  ]

  IsSigned-decode_claim :
      (token : List ℕ) (claim : SonosSignedClaim)
      → IsSigned token claim
      → decode_claim f secret token ≡ some claim
  unfolding decode_claim halves_claim signed_claim
  IsSigned-decode_claim token claim (left, right, payload, at, full, here, there, back) =
      rw (at, full, here, there, (constant_time_bytes_equal_iff _ _).1 refl) back

  -- With any JSON, base64 and hash: a token is read as a claim exactly when its two halves, which are
  -- not empty, decode to the bytes of that claim and to the signature of those bytes under the secret.
  pub decode_claim_iff :
      (token : List ℕ) (claim : SonosSignedClaim)
      → (decode_claim f secret token ≡ some claim) ↔ IsSigned token claim
  decode_claim_iff token claim =
      (decode_claim-IsSigned token claim, IsSigned-decode_claim token claim)

  -- A token that was issued reads back as its claim.
  decode-encode_claim :
      (claim : SonosSignedClaim)
      → f.from_slice (f.to_vec claim) ≡ some claim
      → decode_claim f secret (encode_claim f secret claim) ≡ some claim
  unfolding encode_claim
  decode-encode_claim claim h =
      let payload = f.to_vec claim in
      let signature = sign_sonos_claim_payload f secret payload in
      IsSigned-decode_claim _ claim (
        f.encode payload,
        f.encode signature,
        payload,
        split_once-append b'.' (f.encode payload) (f.encode signature)
            (uncontained-All b'.' (f.encode payload) (f.encode-contains payload)),
        rw (f.is_empty-encode payload, f.is_empty-to_vec claim, f.is_empty-encode signature)
            (unfold sign_sonos_claim_payload in f.is_empty-sha256 _),
        f.decode-encode payload,
        f.decode-encode signature,
        h,
      )

-- The context that may fetch the media of a player: the one of its session's prepared item, or the one
-- registered for it where it has no session.
abbrev pub authorized_context :
    Option ManagedSonosSession
    → Option SonosMediaAuthorizationContext
    → Option SonosMediaAuthorizationContext
authorized_context (some s) registered = prepared_context (some s)
authorized_context none registered = registered

is_authorized_iff :
    (c : SonosMediaAuthorizationContext) (exp : ℕ) (o : Option ManagedSonosSession)
    (registered : Option SonosMediaAuthorizationContext)
    → (is_authorized o registered (to_claim exp c) ≡ true)
      ↔ (authorized_context o registered ≡ some c)
unfolding is_authorized matches_registered_context
is_authorized_iff c exp (some s) registered = found c exp (some s)
is_authorized_iff c exp none none = (λ e. absurd cc, λ e. absurd cc)
is_authorized_iff c exp none (some r) = (
  λ h. ap some ((context_matches_claim_iff r c exp).0 h),
  λ e. (context_matches_claim_iff r c exp).1 cc,
)

verdict :
    (b : Bool) (claim : SonosSignedClaim) (P : Type 0)
    → ((b ≡ true) ↔ P)
    → let answer = if b then valid claim else stale_claim in
      ((answer ≡ valid claim) ↔ P) × ((answer ≡ valid claim) ⊎ (answer ≡ stale_claim))
verdict true claim P h = ((λ _. h.0 refl, λ _. refl), inl refl)
verdict false claim P h = ((λ e. absurd cc, λ p. absurd (false-true (h.1 p))), inr refl)

-- Where the JSON of the claim reads back: the token that is issued for a context is valid, whatever its
-- expiry and at any later time, exactly while that context is the one that may fetch the media of its
-- player; otherwise it is answered as stale, never as invalid.
pub validate-encode_claim_iff :
    (f : Formats) (secret : List ℕ) (c : SonosMediaAuthorizationContext) (exp : ℕ)
    (sessions : Sessions) (current : List (String × SonosMediaAuthorizationContext))
    → f.from_slice (f.to_vec (to_claim exp c)) ≡ some (to_claim exp c)
    → let answer =
        validate_sonos_signed_media_token f secret sessions current
          (encode_claim f secret (to_claim exp c)) in
      ((answer ≡ valid (to_claim exp c))
        ↔ (authorized_context (get c.target_id sessions) (get c.target_id current) ≡ some c))
      × ((answer ≡ valid (to_claim exp c)) ⊎ (answer ≡ stale_claim))
unfolding validate_sonos_signed_media_token claim_validation to_claim
validate-encode_claim_iff f secret c exp sessions current h =
    rw (decode-encode_claim f secret (to_claim exp c) h) (
      verdict _ (to_claim exp c) _
        (is_authorized_iff c exp (get c.target_id sessions) (get c.target_id current)))
