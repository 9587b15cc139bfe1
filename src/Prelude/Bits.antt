-- ===== src/Prelude/Bits.antt =====
-- When `|` and `^` of two numbers are nothing.
use Prim.Native.Nat.{
  ℕ, zero, suc, ◌/◌, ◌%◌, ◌≤◌, max, digits, differ, bit_or, bit_xor, bit_or-bitwise,
  bit_xor-bitwise,
}
use mathlib.Core.Path.{◌≡◌, refl, sym, subst, ◌∙◌}
use mathlib.Core.Logic.{◌↔◌}
use native.Mathlib.Omega.{arith}

or_digits_nothing : (n a b : ℕ) → a ≤ n → digits (λ y. y) max n a b ≡ 0 → (a ≡ 0) × (b ≡ 0)
or_digits_nothing zero a b h e = (omega arith, e)
or_digits_nothing (suc n) zero b h e = (refl, e)
or_digits_nothing (suc n) (suc a) b h e =
    let (half, _) = or_digits_nothing n (suc a / 2) (b / 2) (omega arith) (omega arith) in
    absurd (omega (arith, half))

pub bit_or_nothing : (a b : ℕ) → bit_or a b ≡ 0 → (a ≡ 0) × (b ≡ 0)
bit_or_nothing a b e = or_digits_nothing a a b (omega arith) (sym (bit_or-bitwise a b) ∙ e)

differ_nothing : (p q : ℕ) → differ p q ≡ 0 → p ≡ q
differ_nothing zero q e = sym e
differ_nothing (suc p) zero e = e
differ_nothing (suc p) (suc q) e = omega (arith, differ_nothing p q e)

differ_self : (p : ℕ) → differ p p ≡ 0
differ_self zero = refl
differ_self (suc p) = differ_self p

xor_digits_nothing : (n a b : ℕ) → a ≤ n → digits (λ y. y) differ n a b ≡ 0 → a ≡ b
xor_digits_nothing zero a b h e = omega (arith, e)
xor_digits_nothing (suc n) zero b h e = sym e
xor_digits_nothing (suc n) (suc a) b h e =
    let half = xor_digits_nothing n (suc a / 2) (b / 2) (omega arith) (omega arith) in
    let last = differ_nothing (suc a % 2) (b % 2) (omega arith) in omega (arith, half, last)

xor_digits_self : (n a : ℕ) → a ≤ n → digits (λ y. y) differ n a a ≡ 0
xor_digits_self zero a h = omega arith
xor_digits_self (suc n) zero h = refl
xor_digits_self (suc n) (suc a) h =
    omega (arith, xor_digits_self n (suc a / 2) (omega arith), differ_self (suc a % 2))

pub bit_xor_nothing : (a b : ℕ) → (bit_xor a b ≡ 0) ↔ (a ≡ b)
bit_xor_nothing a b = (
  λ e. xor_digits_nothing a a b (omega arith) (sym (bit_xor-bitwise a b) ∙ e),
  λ e. subst (λ c. bit_xor a c ≡ 0) e (bit_xor-bitwise a a ∙ xor_digits_self a a (omega arith)),
)
