-- ===== src/Media/Names/Components.antt =====
-- A name that src/api/media.rs accepts or makes is one plain component of a path.
use harmonixia_server.Prelude.{
  ℕ, Bool, true, false, ◌||◌, not, List, [], ◌∷◌, ◌++◌, map, ◌==◌, ◌≡◌, ◌≢◌, refl, if◌then◌else◌,
  all, arith, Bool-cases, inl, inr,
}
use harmonixia_server.Errors.{ok, Ensures}
use harmonixia_server.Media.Names.{
  is_alphanumeric, is_segment_byte, is_refused, ends_with, contains_text, validate_hls_segment_name,
  safe_char, safe_hls_path_fragment,
}

-- The components of a path, the empty ones included.
abbrev on_head : ℕ → List (List ℕ) → List (List ℕ)
on_head c [] = (c ∷ []) ∷ []
on_head c (s ∷ ss) = (c ∷ s) ∷ ss

unfoldable pub components : List ℕ → List (List ℕ)
components [] = [] ∷ []
components (c ∷ s) = let rest = components s in if c == b'/' then [] ∷ rest else on_head c rest

abbrev pub not_slash : ℕ → Bool
not_slash c = not (c == b'/')

-- A name that is one component, and neither empty nor `.` nor `..`.
abbrev pub IsPlain : List ℕ → Type 0
IsPlain name =
    (all not_slash name ≡ true) × (name ≢ []) × (name ≢ b'.' ∷ []) × (name ≢ b'.' ∷ b'.' ∷ [])

components-name : (name : List ℕ) → all not_slash name ≡ true → components name ≡ name ∷ []
unfolding components
components-name [] h = refl
components-name (c ∷ s) h = rw (components-name s (ground (arith, h))) (ground (arith, h))

components-cons :
    (s : List ℕ) → (head : List ℕ) × (rest : List (List ℕ)) × (components s ≡ head ∷ rest)
unfolding components
components-cons [] = ([], [], refl)
components-cons (c ∷ s) =
    let (head, rest, e) = components-cons s in
    elim (Bool-cases (c == b'/')) [
      | inl slash ↦ ([], components s, rw slash refl)
      | inr other ↦ (c ∷ head, rest, rw (other, e) refl)
    ]

on_head-append :
    (c : ℕ) (s : List ℕ) (name : List ℕ)
    → on_head c (components s ++ name ∷ []) ≡ on_head c (components s) ++ name ∷ []
on_head-append c s name = let (head, rest, e) = components-cons s in rw e refl

-- Joined to any directory by a separator, the name adds itself as one component.
pub components-join :
    (dir name : List ℕ)
    → all not_slash name ≡ true
    → components (dir ++ b'/' ∷ name) ≡ components dir ++ name ∷ []
unfolding components
components-join [] name h = rw (components-name name h) refl
components-join (c ∷ dir) name h = elim (Bool-cases (c == b'/')) [
  | inl e ↦ rw (e, components-join dir name h) refl
  | inr e ↦ rw (e, components-join dir name h) (on_head-append c dir name)
]

pub undotted-Plain :
    (c : ℕ) (s : List ℕ) → all not_slash (c ∷ s) ≡ true → (c == b'.') ≡ false → IsPlain (c ∷ s)
undotted-Plain c s h k = (h, λ e. ground arith, λ e. ground arith, λ e. ground arith)

segment-not_slash : (s : List ℕ) → all is_segment_byte s ≡ true → all not_slash s ≡ true
segment-not_slash [] h = refl
segment-not_slash (c ∷ s) h = ground (arith, segment-not_slash s, h)

-- A segment name that is accepted is the name that was given, and plain.
pub validate_hls_segment_name-Plain :
    (value : List ℕ)
    → Ensures (λ name. (name ≡ value) × IsPlain name) (validate_hls_segment_name value)
unfolding validate_hls_segment_name
validate_hls_segment_name-Plain [] = tt
validate_hls_segment_name-Plain (c ∷ s) = elim (Bool-cases (is_refused (c ∷ s))) [
  | inl e ↦ rw e tt
  | inr e ↦
      rw e (
        refl,
        undotted-Plain c s (segment-not_slash (c ∷ s) (ground (arith, e))) (ground (arith, e)),
      )
]

-- The names that the program's own generations use are accepted: a stem of letters, digits, `-` and
-- `_`, and `.ts`.
abbrev pub is_stem_char : ℕ → Bool
is_stem_char c = is_alphanumeric c || (c == b'-' || c == b'_')

abbrev pub segment : List ℕ → List ℕ
segment stem = stem ++ b'.' ∷ b't' ∷ b's' ∷ []

accepted_tail :
    (s : List ℕ)
    → all is_stem_char s ≡ true
    → (contains_text (b'.' ∷ b'.' ∷ []) (segment s) ≡ false)
      × (ends_with (b'.' ∷ b't' ∷ b's' ∷ []) (segment s) ≡ true)
      × (all is_segment_byte (segment s) ≡ true)
accepted_tail [] h = (refl, refl, refl)
accepted_tail (c ∷ s) h =
    let (a, b, d) = accepted_tail s (ground (arith, h)) in rw (a, b, d) (ground (arith, h))

pub validate_hls_segment_name-segment :
    (c : ℕ) (s : List ℕ)
    → all is_stem_char (c ∷ s) ≡ true
    → validate_hls_segment_name (segment (c ∷ s)) ≡ ok (segment (c ∷ s))
unfolding validate_hls_segment_name
validate_hls_segment_name-segment c s h =
    let (a, b, d) = accepted_tail (c ∷ s) h in rw (a, b, d) (ground (arith, h))

safe-not_slash : (s : List ℕ) → all not_slash (map safe_char s) ≡ true
safe-not_slash [] = refl
safe-not_slash (c ∷ s) = rw (safe-not_slash s) (ground arith)

-- Whatever the text, the fragment that stands for it in a path is plain.
pub safe_hls_path_fragment-Plain : (value : List ℕ) → IsPlain (safe_hls_path_fragment value)
unfolding safe_hls_path_fragment
safe_hls_path_fragment-Plain [] = undotted-Plain 109 (101 ∷ 100 ∷ 105 ∷ 97 ∷ []) refl refl
safe_hls_path_fragment-Plain (c ∷ s) =
    undotted-Plain (safe_char c) (map safe_char s) (safe-not_slash (c ∷ s)) (ground arith)
