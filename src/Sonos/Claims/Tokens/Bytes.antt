-- ===== src/Sonos/Claims/Tokens/Bytes.antt =====
-- `constant_time_bytes_equal` of src/state.rs is equality.
use Prim.Native.Nat.{bit_or, bit_xor}
use harmonixia_server.Prelude.{ℕ, true, List, [], ◌∷◌, ◌≡◌, ◌↔◌, refl, subst, length, arith}
use harmonixia_server.Prelude.Bits.{bit_or_nothing, bit_xor_nothing}
use harmonixia_server.Sonos.Claims.Tokens.{gathered, constant_time_bytes_equal}

gathered-nothing :
    (diff : ℕ) (left right : List ℕ)
    → length left ≡ length right
    → gathered diff left right ≡ 0
    → (diff ≡ 0) × (left ≡ right)
unfolding gathered
gathered-nothing diff [] [] h e = (e, refl)
gathered-nothing diff [] (r ∷ right) h e = absurd (omega (arith, h))
gathered-nothing diff (l ∷ left) [] h e = absurd (omega (arith, h))
gathered-nothing diff (l ∷ left) (r ∷ right) h e =
    let (none_here, rest) =
      gathered-nothing (bit_or diff (bit_xor l r)) left right (omega (arith, h)) e in
    let (before, same) = bit_or_nothing diff (bit_xor l r) none_here in
    (before, cc ((bit_xor_nothing l r).0 same, rest))

gathered_self : (bytes : List ℕ) → gathered 0 bytes bytes ≡ 0
unfolding gathered
gathered_self [] = refl
gathered_self (b ∷ bytes) = rw ((bit_xor_nothing b b).1 refl) (gathered_self bytes)

pub constant_time_bytes_equal_iff :
    (left right : List ℕ) → (constant_time_bytes_equal left right ≡ true) ↔ (left ≡ right)
unfolding constant_time_bytes_equal
constant_time_bytes_equal_iff left right = (
  λ h. (gathered-nothing 0 left right (ground (arith, h)) (ground (arith, h))).1,
  λ e.
      subst (λ other. constant_time_bytes_equal left other ≡ true) e
        (ground (arith, gathered_self left)),
)
