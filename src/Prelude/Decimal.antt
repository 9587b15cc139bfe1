-- ===== src/Prelude/Decimal.antt =====
-- The decimal text of a number, as Rust's `{}` writes it.
use Prim.Native.Nat.{ℕ, zero, suc, ◌+◌, ◌-◌, ◌*◌, ◌/◌, ◌%◌, ◌<◌}
use mathlib.Core.Path.{◌≡◌, refl}
use mathlib.Core.Logic.{inl, inr}
use mathlib.Core.Bool.{true}
use mathlib.Core.List.{List, [], ◌∷◌, ◌++◌}
use native.Mathlib.Omega.{arith}
use harmonixia_server.Prelude.Tests.{ltb, if◌then◌else◌, Bool-cases}
use harmonixia_server.Prelude.Lists.{All, All-append}
use harmonixia_server.Prelude.Text.{is_digit}

-- The number itself is enough fuel, and one more: the quotient by ten falls below it.
pub decimal_fuel : ℕ → ℕ → List ℕ
decimal_fuel zero n = []
decimal_fuel (suc f) n =
    let more = decimal_fuel f (n / 10) ++ ((b'0' + n % 10) ∷ []) in
    if ltb n 10 then (b'0' + n) ∷ [] else more

unfoldable pub decimal : ℕ → List ℕ
unfolding decimal_fuel
decimal n = decimal_fuel (suc n) n

abbrev pub Digits : List ℕ → Type 0
Digits = All (λ c. is_digit c ≡ true)

decimal_fuel-Digits : (f n : ℕ) → Digits (decimal_fuel f n)
unfolding decimal_fuel
decimal_fuel-Digits zero n = tt
decimal_fuel-Digits (suc f) n = elim (Bool-cases (ltb n 10)) [
  | inl e ↦ rw e (ground arith, tt)
  | inr e ↦ rw e (
      All-append (λ c. is_digit c ≡ true) (decimal_fuel f (n / 10)) _
        (decimal_fuel-Digits f (n / 10)) (ground arith, tt))
]

pub decimal-Digits : (n : ℕ) → Digits (decimal n)
unfolding decimal
decimal-Digits n = decimal_fuel-Digits (suc n) n

-- Reading digits into an accumulator, with no bound.
unfoldable pub read_digits : ℕ → List ℕ → ℕ
read_digits n [] = n
read_digits n (c ∷ s) = read_digits (n * 10 + (c - b'0')) s

read_digits-append :
    (n : ℕ) (s : List ℕ) (c : ℕ) → read_digits n (s ++ c ∷ []) ≡ read_digits n s * 10 + (c - b'0')
unfolding read_digits
read_digits-append n [] c = refl
read_digits-append n (d ∷ s) c = read_digits-append (n * 10 + (d - b'0')) s c

read_digits-decimal_fuel : (f n : ℕ) → n < f → read_digits 0 (decimal_fuel f n) ≡ n
unfolding decimal_fuel
read_digits-decimal_fuel zero n h = elim h [ ]
read_digits-decimal_fuel (suc f) n h = elim (Bool-cases (ltb n 10)) [
  | inl e ↦ rw e (unfold read_digits in omega arith)
  | inr e ↦
      rw (e, read_digits-append 0 (decimal_fuel f (n / 10)) (b'0' + n % 10))
        (ground (arith, read_digits-decimal_fuel f (n / 10)))
]

-- The decimal text of a number reads back as that number.
pub read_digits-decimal : (n : ℕ) → read_digits 0 (decimal n) ≡ n
unfolding decimal
read_digits-decimal n = read_digits-decimal_fuel (suc n) n (omega arith)

-- No number has an empty text.
decimal_fuel-cons : (f n : ℕ) → (c : ℕ) × (s : List ℕ) × (decimal_fuel (suc f) n ≡ c ∷ s)
unfolding decimal_fuel
decimal_fuel-cons f n = elim (Bool-cases (ltb n 10)) [
  | inl e ↦ (b'0' + n, [], rw e)
  | inr e ↦ rw e (first (decimal_fuel f (n / 10)) (b'0' + n % 10))
]
  where
    first : (s : List ℕ) (d : ℕ) → (c : ℕ) × (t : List ℕ) × (s ++ d ∷ [] ≡ c ∷ t)
    first [] d = (d, [], refl)
    first (c ∷ s) d = (c, s ++ d ∷ [], refl)

pub decimal-cons : (n : ℕ) → (c : ℕ) × (s : List ℕ) × (decimal n ≡ c ∷ s)
unfolding decimal
decimal-cons n = decimal_fuel-cons n n
