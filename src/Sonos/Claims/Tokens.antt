-- ===== src/Sonos/Claims/Tokens.antt =====
-- src/state.rs, `SonosSignedMediaRuntime`: the tokens of signed media claims. JSON, base64 and
-- SHA-256 are not under src/: they are parameters. A text or a sequence of bytes is the list of its
-- codes.
pub mod Bytes
pub mod Accepted
use Prim.Native.Nat.{bit_or, bit_xor}
use harmonixia_server.Prelude.{
  ℕ, zero, suc, ◌+◌, ◌-◌, ◌*◌, ◌/◌, ◌%◌, ◌^◌, String, Bool, true, false, ◌||◌, List, [], ◌∷◌, ◌++◌,
  Option, none, some, ◌==◌, ◌≡◌, if◌then◌else◌, length, is_empty,
}
use harmonixia_server.Prelude.Text.{codes}
use harmonixia_server.Media.Range.{split_once, contains}
use harmonixia_server.Playback.Types.{PlaybackItemType}
use harmonixia_server.Sonos.Types.{SonosMediaAuthorizationContext, ManagedSonosSession}
use harmonixia_server.Sonos.Sessions.{Sessions}
use harmonixia_server.Sonos.Sessions.Table.{get}
use harmonixia_server.Sonos.Claims.{
  SonosSignedClaim, to_claim, context_matches_claim, matches_claim,
}

-- `serde_json::to_vec` and `from_slice` of claims, `URL_SAFE_NO_PAD`, and SHA-256. Encoded texts
-- hold no dot, read back, and are not empty but for no bytes.
pub record Formats : Type 0 where
  pub to_vec : SonosSignedClaim → List ℕ
  pub from_slice : List ℕ → Option SonosSignedClaim
  pub encode : List ℕ → List ℕ
  pub decode : List ℕ → Option (List ℕ)
  pub sha256 : List ℕ → List ℕ
  pub decode-encode : (bytes : List ℕ) → decode (encode bytes) ≡ some bytes
  pub encode-contains : (bytes : List ℕ) → contains b'.' (encode bytes) ≡ false
  pub is_empty-encode : (bytes : List ℕ) → is_empty (encode bytes) ≡ is_empty bytes
  pub is_empty-to_vec : (c : SonosSignedClaim) → is_empty (to_vec c) ≡ false
  pub is_empty-sha256 : (bytes : List ℕ) → is_empty (sha256 bytes) ≡ false

abbrev pub to_be_bytes : ℕ → ℕ → List ℕ
to_be_bytes zero n = []
to_be_bytes (suc k) n = (n / 256 ^ k) % 256 ∷ to_be_bytes k n

-- `constant_time_bytes_equal`: the differences of all the bytes, gathered.
unfoldable pub gathered : ℕ → List ℕ → List ℕ → ℕ
gathered diff [] right = diff
gathered diff (l ∷ left) [] = diff
gathered diff (l ∷ left) (r ∷ right) = gathered (bit_or diff (bit_xor l r)) left right

unfoldable pub constant_time_bytes_equal : List ℕ → List ℕ → Bool
unfolding gathered
constant_time_bytes_equal left right =
    let diff = gathered 0 left right in if length left == length right then diff == 0 else false

pub data Validation : Type 0 where
  valid : SonosSignedClaim → Validation
  stale_claim invalid_token : Validation

unfoldable pub matches_registered_context :
    Option SonosMediaAuthorizationContext → SonosSignedClaim → Bool
matches_registered_context none claim = false
matches_registered_context (some context) claim = context_matches_claim context claim

-- `validate_claim_for_current_session`, and the registered context where there is no session.
unfoldable pub is_authorized :
    Option ManagedSonosSession → Option SonosMediaAuthorizationContext → SonosSignedClaim → Bool
is_authorized (some s) registered claim = matches_claim s.prepared_item claim
is_authorized none registered claim = matches_registered_context registered claim

unfoldable pub claim_validation :
    Sessions → List (String × SonosMediaAuthorizationContext) → Option SonosSignedClaim → Validation
claim_validation sessions current none = invalid_token
claim_validation sessions current (some claim) =
    if is_authorized (get claim.target_id sessions) (get claim.target_id current) claim
    then valid claim
    else stale_claim

module _ (f : Formats) where
  unfoldable pub sign_sonos_claim_payload : List ℕ → List ℕ → List ℕ
  sign_sonos_claim_payload secret payload = f.sha256 (
      codes "harmonixia-sonos-signed-media-v1"
      ++ secret
      ++ to_be_bytes 8 (length payload % 2 ^ 64)
      ++ payload
      ++ secret)

  unfoldable pub encode_claim : List ℕ → SonosSignedClaim → List ℕ
  encode_claim secret claim =
      let payload = f.to_vec claim in
      f.encode payload ++ b'.' ∷ f.encode (sign_sonos_claim_payload secret payload)

  unfoldable pub signed_claim : List ℕ → Option (List ℕ) → Option (List ℕ) → Option SonosSignedClaim
  signed_claim secret none signature = none
  signed_claim secret (some payload) none = none
  signed_claim secret (some payload) (some signature) =
      if constant_time_bytes_equal signature (sign_sonos_claim_payload secret payload)
      then f.from_slice payload
      else none

  unfoldable pub halves_claim : List ℕ → Option (List ℕ × List ℕ) → Option SonosSignedClaim
  halves_claim secret none = none
  halves_claim secret (some (payload, signature)) =
      if is_empty payload || is_empty signature
      then none
      else signed_claim secret (f.decode payload) (f.decode signature)

  -- `none` is `InvalidToken`.
  unfoldable pub decode_claim : List ℕ → List ℕ → Option SonosSignedClaim
  decode_claim secret token = halves_claim secret (split_once b'.' token)

  unfoldable pub validate_sonos_signed_media_token :
      List ℕ → Sessions → List (String × SonosMediaAuthorizationContext) → List ℕ → Validation
  validate_sonos_signed_media_token secret sessions current token =
      claim_validation sessions current (decode_claim secret token)
