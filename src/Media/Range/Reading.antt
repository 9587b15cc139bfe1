-- ===== src/Media/Range/Reading.antt =====
-- How the header's reading functions act on texts without white space and on decimal numbers.
use mathlib.Core.List.{reverse, reverse-reverse, reverse-cons}
use harmonixia_server.Prelude.{
  ℕ, ◌+◌, ◌-◌, ◌*◌, ◌^◌, ◌≤◌, ◌<◌, ◌≡◌, refl, ap, ◌∙◌, List, [], ◌∷◌, ◌++◌, some, arith, Bool, true,
  false, is_empty, all, All, All-append, ◌==◌,
}
use harmonixia_server.Prelude.Text.{is_digit}
use harmonixia_server.Prelude.Decimal.{
  decimal, Digits, decimal-Digits, decimal-cons, read_digits, read_digits-decimal,
}
use harmonixia_server.Media.Range.{
  is_space, trim_start, trim, split_once, contains, parse_digits, parse_u64,
}

abbrev pub Visible : List ℕ → Type 0
Visible = All (λ c. is_space c ≡ false)

pub Digits-All :
    (P : ℕ → Bool) (b : Bool) (s : List ℕ)
    → ((c : ℕ) → is_digit c ≡ true → P c ≡ b)
    → Digits s
    → All (λ c. P c ≡ b) s
Digits-All P b [] h d = tt
Digits-All P b (c ∷ s) h d = (h c d.0, Digits-All P b s h d.1)

pub Digits-Visible : (s : List ℕ) → Digits s → Visible s
Digits-Visible s = Digits-All is_space false s (λ c h. ground arith)

pub trim_start-Visible : (s : List ℕ) → Visible s → trim_start s ≡ s
unfolding trim_start
trim_start-Visible [] v = refl
trim_start-Visible (c ∷ s) v = rw (v.0)

pub Visible-reverse : (s : List ℕ) → Visible s → Visible (reverse s)
Visible-reverse [] v = tt
Visible-reverse (c ∷ s) v =
    rw (reverse-cons c s)
      (All-append (λ c. is_space c ≡ false) (reverse s) (c ∷ []) (Visible-reverse s v.1) (v.0, tt))

-- A text without white space is its own trimmed text.
pub trim-Visible : (s : List ℕ) → Visible s → trim s ≡ s
unfolding trim
trim-Visible s v =
    rw (trim_start-Visible s v, trim_start-Visible (reverse s) (Visible-reverse s v))
      (reverse-reverse s)

pub split_once-append :
    (sep : ℕ) (s t : List ℕ)
    → All (λ c. (c == sep) ≡ false) s
    → split_once sep (s ++ sep ∷ t) ≡ some (s, t)
unfolding split_once
split_once-append sep [] t h = ground arith
split_once-append sep (c ∷ s) t h = rw (h.0, split_once-append sep s t h.1)

pub contains-append :
    (x : ℕ) (s t : List ℕ)
    → contains x s ≡ false
    → contains x t ≡ false
    → contains x (s ++ t) ≡ false
unfolding contains
contains-append x [] t h k = k
contains-append x (c ∷ s) t h k = ground (arith, contains-append x s t)

pub contains-Digits : (x : ℕ) (s : List ℕ) → is_digit x ≡ false → Digits s → contains x s ≡ false
unfolding contains
contains-Digits x [] h d = refl
contains-Digits x (c ∷ s) h d = ground (arith, contains-Digits x s h d.1, d.0)

-- Reading grows, so a result that fits never passed through one that does not.
pub read_digits-le : (n : ℕ) (s : List ℕ) → n ≤ read_digits n s
unfolding read_digits
read_digits-le n [] = omega arith
read_digits-le n (c ∷ s) = omega (arith, read_digits-le (n * 10 + (c - b'0')) s)

pub parse_digits-read :
    (n : ℕ) (s : List ℕ) → read_digits n s < 2 ^ 64 → parse_digits n s ≡ some (read_digits n s)
unfolding parse_digits read_digits
parse_digits-read n [] h = refl
parse_digits-read n (c ∷ s) h =
    let next : ℕ = n * 10 + (c - b'0') in
    ground (arith, read_digits-le next s, parse_digits-read next s)

pub all-Digits : (s : List ℕ) → Digits s → all is_digit s ≡ true
all-Digits [] d = refl
all-Digits (c ∷ s) d = rw (d.0) (all-Digits s d.1)

pub is_empty-decimal : (n : ℕ) → is_empty (decimal n) ≡ false
is_empty-decimal n = let (c, s, e) = decimal-cons n in rw e

pub parse_u64-decimal : (n : ℕ) → n < 2 ^ 64 → parse_u64 (decimal n) ≡ some n
unfolding parse_u64
parse_u64-decimal n h =
    rw (is_empty-decimal n, all-Digits (decimal n) (decimal-Digits n))
      (parse_digits-read 0 (decimal n) (rw (read_digits-decimal n) h)
        ∙ ap some (read_digits-decimal n))

pub trim-decimal : (n : ℕ) → trim (decimal n) ≡ decimal n
trim-decimal n = trim-Visible (decimal n) (Digits-Visible _ (decimal-Digits n))

pub no_dash : (n : ℕ) → All (λ c. (c == b'-') ≡ false) (decimal n)
no_dash n = Digits-All (λ c. c == b'-') false _ (λ c h. ground arith) (decimal-Digits n)
