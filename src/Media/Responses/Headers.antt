-- ===== src/Media/Responses/Headers.antt =====
-- The headers that src/api/media.rs gives a response, and what they say of its body.
use harmonixia_server.Prelude.{
  ℕ, zero, suc, ◌-◌, ◌≤◌, ◌<◌, Bool, true, false, ◌&&◌, leb, ltb, map, List, [], ◌∷◌, ◌++◌, Option,
  none, some, if◌then◌else◌, length, all, ◌≡◌, refl, ap, arith,
}
use harmonixia_server.Prelude.Text.{codes}
use harmonixia_server.Prelude.Decimal.{decimal, decimal-Digits, Digits}
use harmonixia_server.Errors.{Ensures}
use harmonixia_server.Media.Names.{
  quoted_char, quoted_filename, ContentDisposition, inline, attachment, content_disposition,
}
use harmonixia_server.Media.Responses.{
  HeaderName, accept_ranges, content_length, content_type, disposition, content_range, Response,
  take, drop, range_text, unsatisfied_text, media_response, downloadable_transcode_response,
  range_not_satisfiable_response,
}

-- The characters that `HeaderValue::from_str` is documented to permit: visible ASCII.
abbrev pub visible : ℕ → Bool
visible c = leb 32 c && leb c 126

abbrev pub is_ascii : ℕ → Bool
is_ascii c = ltb c 128

abbrev same_name : HeaderName → HeaderName → Bool
same_name accept_ranges accept_ranges = true
same_name content_length content_length = true
same_name content_type content_type = true
same_name disposition disposition = true
same_name content_range content_range = true
same_name _ _ = false

abbrev pub header_of : HeaderName → List (HeaderName × List ℕ) → Option (List ℕ)
header_of name [] = none
header_of name ((at, value) ∷ rest) = if same_name at name then some value else header_of name rest

-- The bytes from the position `first` to the position `last`.
abbrev pub slice : ℕ → ℕ → List ℕ → List ℕ
slice first last bytes = take (suc last - first) (drop first bytes)

-- The whole file, one range of it, or the refusal of a range.
pub data Content (bytes : List ℕ) : ℕ → List ℕ → Option (List ℕ) → Type 0 where
  whole : Content bytes 200 bytes none
  part :
      (first last : ℕ)
      → first ≤ last
      → last < length bytes
      → Content bytes 206 (slice first last bytes) (some (range_text first last (length bytes)))
  refused : Content bytes 416 [] (some (unsatisfied_text (length bytes)))

-- The declared length is that of the body, ranges are offered, and the body is what the status and
-- `Content-Range` say.
abbrev pub Describes : List ℕ → Response → Type 0
Describes bytes r =
    (header_of content_length r.headers ≡ some (decimal (length r.body)))
    × (header_of accept_ranges r.headers ≡ some (codes "bytes"))
    × Content bytes r.status r.body (header_of content_range r.headers)

pub length-take : (n : ℕ) (xs : List ℕ) → n ≤ length xs → length (take n xs) ≡ n
length-take zero xs h = refl
length-take (suc n) [] h = absurd (omega (arith, h))
length-take (suc n) (x ∷ xs) h = ap suc (length-take n xs (omega (arith, h)))

pub length-drop : (n : ℕ) (xs : List ℕ) → length (drop n xs) ≡ length xs - n
length-drop zero xs = omega arith
length-drop (suc n) [] = omega arith
length-drop (suc n) (x ∷ xs) = omega (arith, length-drop n xs)

pub length-slice :
    (first last : ℕ) (bytes : List ℕ)
    → first ≤ last
    → last < length bytes
    → length (slice first last bytes) ≡ suc last - first
length-slice first last bytes h k =
    length-take (suc last - first) (drop first bytes) (omega (arith, h, k, length-drop first bytes))

Digits-visible : (s : List ℕ) → Digits s → all visible s ≡ true
Digits-visible [] h = refl
Digits-visible (c ∷ s) h = rw (Digits-visible s h.1) (ground (arith, h.0))

visible-append :
    (s t : List ℕ) → all visible s ≡ true → all visible t ≡ true → all visible (s ++ t) ≡ true
visible-append [] t h k = k
visible-append (c ∷ s) t h k = ground (arith, h, visible-append s t)

decimal-visible : (n : ℕ) → all visible (decimal n) ≡ true
decimal-visible n = Digits-visible (decimal n) (decimal-Digits n)

unsatisfied_text-visible : (n : ℕ) → all visible (unsatisfied_text n) ≡ true
unsatisfied_text-visible n = visible-append (codes "bytes */") (decimal n) refl (decimal-visible n)

pub range_text-visible : (a b n : ℕ) → all visible (range_text a b n) ≡ true
range_text-visible a b n =
    visible-append (codes "bytes ") (decimal a ++ b'-' ∷ (decimal b ++ b'/' ∷ decimal n)) refl (
      visible-append (decimal a) (b'-' ∷ (decimal b ++ b'/' ∷ decimal n)) (decimal-visible a)
        (visible-append (decimal b) (b'/' ∷ decimal n) (decimal-visible b) (decimal-visible n)))

quoted-visible :
    (s : List ℕ) → all is_ascii s ≡ true → all visible (map quoted_char s ++ b'"' ∷ []) ≡ true
quoted-visible [] h = refl
quoted-visible (c ∷ s) h = ground (arith, h, quoted-visible s)

-- An ASCII file name makes a header of visible characters.
pub content_disposition-visible :
    (d : ContentDisposition) (filename : List ℕ)
    → all is_ascii filename ≡ true
    → all visible (content_disposition d filename) ≡ true
unfolding content_disposition quoted_filename
content_disposition-visible inline f h = quoted-visible f h
content_disposition-visible attachment f h = quoted-visible f h

abbrev pub RangeVisible : Option (List ℕ) → Type 0
RangeVisible none = Unit {0}
RangeVisible (some text) = all visible text ≡ true

-- `HeaderValue::from_str` takes every text of visible ASCII characters.
module _ (valid : List ℕ → Bool)
    (accepts : (text : List ℕ) → all visible text ≡ true → valid text ≡ true) where
  pub media_response-Describes :
      (bytes : List ℕ) (status : ℕ) (stream : List ℕ) (mime : Option (List ℕ)) (filename : List ℕ)
      (shown : ContentDisposition) (n : ℕ) (range : Option (List ℕ))
      → all is_ascii filename ≡ true
      → n ≡ length stream
      → Content bytes status stream range
      → RangeVisible range
      → Ensures (Describes bytes) (media_response valid status stream mime filename shown n range)
  unfolding media_response
  media_response-Describes bytes status stream mime filename shown n none a e c h =
      rw
        (
          accepts (decimal n) (decimal-visible n),
          accepts _ (content_disposition-visible shown filename a),
        )
        (ap (λ k. some (decimal k)) e, refl, c)
  media_response-Describes bytes status stream mime filename shown n (some text) a e c h =
      rw
        (
          accepts (decimal n) (decimal-visible n),
          accepts _ (content_disposition-visible shown filename a),
          accepts text h,
        )
        (ap (λ k. some (decimal k)) e, refl, c)

  pub download_response-Describes :
      (bytes : List ℕ) (status : ℕ) (stream : List ℕ) (filename : List ℕ) (n : ℕ)
      (range : Option (List ℕ))
      → all is_ascii filename ≡ true
      → n ≡ length stream
      → Content bytes status stream range
      → RangeVisible range
      → Ensures
          (Describes bytes)
          (downloadable_transcode_response valid status stream filename n range)
  unfolding downloadable_transcode_response
  download_response-Describes bytes status stream filename n none a e c h =
      rw
        (
          accepts (decimal n) (decimal-visible n),
          accepts _ (content_disposition-visible attachment filename a),
        )
        (ap (λ k. some (decimal k)) e, refl, c)
  download_response-Describes bytes status stream filename n (some text) a e c h =
      rw
        (
          accepts (decimal n) (decimal-visible n),
          accepts _ (content_disposition-visible attachment filename a),
          accepts text h,
        )
        (ap (λ k. some (decimal k)) e, refl, c)

  pub refusal-Describes :
      (bytes : List ℕ)
      → Ensures (Describes bytes) (range_not_satisfiable_response valid (length bytes))
  unfolding range_not_satisfiable_response decimal
  refusal-Describes bytes =
      rw (accepts _ (unsatisfied_text-visible (length bytes))) (refl, refl, refused)
