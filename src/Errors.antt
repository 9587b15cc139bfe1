-- ===== src/Errors.antt =====
-- src/error.rs: the errors of the API, and the outcome of a fallible call. A panic is an outcome of its
-- own, since it poisons the lock that is held.
use harmonixia_server.Prelude.{String, ◌≡◌, refl, Bool, true, false}

pub data ApiError : Type 0 where
  unauthorized forbidden bad_request not_found conflict service_unavailable : String → ApiError
  internal : ApiError

pub data Outcome {ℓ} (A : Type ℓ) : Type ℓ where
  ok : A → Outcome A
  err : ApiError → Outcome A
  panic : Outcome A

infixl 5 ◌>>=◌ ◌>>◌
abbrev pub ◌>>=◌ {ℓ κ} : {A : Type ℓ} {B : Type κ} → Outcome A → (A → Outcome B) → Outcome B
ok a >>= f = f a
err e >>= f = err e
panic >>= f = panic

abbrev pub ◌>>◌ {ℓ} : {B : Type ℓ} → Outcome (Unit {0}) → Outcome B → Outcome B
m >> k = m >>= λ _. k

-- `if !test { return Err(e) }`.
abbrev pub guard : Bool → ApiError → Outcome (Unit {0})
guard true e = ok tt
guard false e = err e

-- A call does not panic, and what it returns satisfies `P`.
abbrev pub Ensures {ℓ} : {A : Type ℓ} → (A → Type 0) → Outcome A → Type 0
Ensures P (ok a) = P a
Ensures P (err e) = Unit {0}
Ensures P panic = ⊥

-- The rule for a step of a `do` block.
pub Ensures-bind {ℓ κ} :
    {B : Type ℓ} {A : Type κ} (Q : B → Type 0) (P : A → Type 0) (m : Outcome A) (f : A → Outcome B)
    → Ensures P m
    → ((a : A) → P a → Ensures Q (f a))
    → Ensures Q (m >>= f)
Ensures-bind Q P (ok a) f h k = k a h
Ensures-bind Q P (err e) f h k = tt
Ensures-bind Q P panic f h k = absurd h

pub Ensures-guard : (b : Bool) (e : ApiError) → Ensures (λ _. b ≡ true) (guard b e)
Ensures-guard true e = refl
Ensures-guard false e = tt
