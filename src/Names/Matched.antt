-- ===== src/Names/Matched.antt =====
-- A `match` of a text on literals, and when it is exactly the inverse of a function that names values.
use harmonixia_server.Prelude.{
  ℕ, true, List, [], ◌∷◌, Option, none, some, ◌≡◌, ◌↔◌, refl, ap, ◌∙◌, if◌then◌else◌, All, arith,
  Bool-cases, inl, inr,
}
use harmonixia_server.Prelude.Text.{codes_eq}

codes_eq-eq : (s t : List ℕ) → codes_eq s t ≡ true → s ≡ t
codes_eq-eq [] [] h = refl
codes_eq-eq [] (b ∷ t) h = absurd cc
codes_eq-eq (a ∷ s) [] h = absurd cc
codes_eq-eq (a ∷ s) (b ∷ t) h = ground (arith, h, codes_eq-eq s t)

module _ {A : Type 0} where
  -- The value of the first arm whose literal is the text.
  abbrev pub matched : List ℕ → List (List ℕ × A) → Option A
  matched value [] = none
  matched value ((literal, a) ∷ arms) =
      if codes_eq value literal then some a else matched value arms

  -- The parser accepts exactly the names, and gives back the value of each.
  abbrev pub Inverts : (A → List ℕ) → (List ℕ → Option A) → Type 0
  Inverts name parse = (value : List ℕ) (a : A) → (parse value ≡ some a) ↔ (value ≡ name a)

  matched-name :
      (name : A → List ℕ) (arms : List (List ℕ × A)) (value : List ℕ) (a : A)
      → All (λ arm. arm.0 ≡ name arm.1) arms
      → matched value arms ≡ some a
      → value ≡ name a
  matched-name name [] value a named h = absurd cc
  matched-name name ((literal, b) ∷ arms) value a named h =
      elim (Bool-cases (codes_eq value literal)) [
        | inl e ↦ codes_eq-eq value literal e ∙ named.0 ∙ ap name (ground (arith, e, h))
        | inr e ↦ matched-name name arms value a named.1 (rw e at h)
      ]

  -- It is enough that each arm has the name of its value, and that each name is read back.
  pub matched-Inverts :
      (name : A → List ℕ) (arms : List (List ℕ × A))
      → All (λ arm. arm.0 ≡ name arm.1) arms
      → ((a : A) → matched (name a) arms ≡ some a)
      → Inverts name (λ value. matched value arms)
  matched-Inverts name arms named read value a =
      (matched-name name arms value a named, λ e. ap (λ v. matched v arms) e ∙ read a)
