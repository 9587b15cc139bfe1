-- ===== src/Sonos/Claims/Tests.antt =====
-- Tokens with a base64 that shifts the codes, on a claim of the sample session.
use harmonixia_server.Prelude.{
  ℕ, ◌+◌, ◌-◌, false, ◌↔◌, ◌⊎◌, List, [], ◌∷◌, map, some, ◌≡◌, refl, ap, is_empty, arith,
}
use harmonixia_server.Prelude.Text.{codes}
use harmonixia_server.Media.Range.{contains}
use harmonixia_server.Sonos.Sessions.Table.{get}
use harmonixia_server.Sonos.Samples.{prepared, table}
use harmonixia_server.Sonos.Claims.{SonosSignedClaim, to_claim}
use harmonixia_server.Sonos.Claims.Tokens.{
  Formats, valid, stale_claim, encode_claim, decode_claim, validate_sonos_signed_media_token,
}
use harmonixia_server.Sonos.Claims.Tokens.Accepted.{
  IsSigned, decode_claim_iff, authorized_context, validate-encode_claim_iff,
}

abbrev claim : SonosSignedClaim
claim = to_claim 99 prepared.context

abbrev shifted : List ℕ → List ℕ
shifted = map (λ c. c + 65)

abbrev back : List ℕ → List ℕ
back = map (λ c. c - 65)

back-shifted : (s : List ℕ) → back (shifted s) ≡ s
back-shifted [] = refl
back-shifted (c ∷ s) = ground (arith, back-shifted s)

shifted-contains : (s : List ℕ) → contains b'.' (shifted s) ≡ false
unfolding contains
shifted-contains [] = refl
shifted-contains (c ∷ s) = ground (arith, shifted-contains s)

is_empty-shifted : (s : List ℕ) → is_empty (shifted s) ≡ is_empty s
is_empty-shifted [] = refl
is_empty-shifted (c ∷ s) = refl

abbrev formats : Formats
formats = record {
  to_vec = λ c. 7 ∷ [];
  from_slice = λ s. some claim;
  encode = shifted;
  decode = λ s. some (back s);
  sha256 = λ s. 1 ∷ s;
  decode-encode = λ s. ap some (back-shifted s);
  encode-contains = shifted-contains;
  is_empty-encode = is_empty-shifted;
  is_empty-to_vec = λ c. refl;
  is_empty-sha256 = λ s. refl;
}

decode_claim_iff_example :
    (decode_claim formats (5 ∷ []) (codes "no token") ≡ some claim)
    ↔ IsSigned formats (5 ∷ []) (codes "no token") claim
decode_claim_iff_example = decode_claim_iff formats (5 ∷ []) (codes "no token") claim

validate-encode_claim_iff_example :
    let answer =
      validate_sonos_signed_media_token formats
        (5 ∷ [])
        table
        []
        (encode_claim formats (5 ∷ []) claim) in
    ((answer ≡ valid claim) ↔ (
      authorized_context (get prepared.context.target_id table) (get prepared.context.target_id [])
      ≡ some prepared.context))
    × ((answer ≡ valid claim) ⊎ (answer ≡ stale_claim))
validate-encode_claim_iff_example =
    validate-encode_claim_iff formats (5 ∷ []) prepared.context 99 table [] refl
