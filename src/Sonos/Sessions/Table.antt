-- ===== src/Sonos/Sessions/Table.antt =====
-- The `HashMap` of sessions: an association list whose keys are the players' names.
use harmonixia_server.Prelude.{
  String, ◌≡◌, refl, Option, none, some, List, [], ◌∷◌, str_eq, if◌then◌else◌, eq_iff, Bool-cases,
  inl, inr,
}

module _ {ℓ} {V : Type ℓ} where
  unfoldable pub get : String → List (String × V) → Option V
  get name [] = none
  get name ((n, v) ∷ others) = if str_eq n name then some v else get name others

  unfoldable pub put : String → V → List (String × V) → List (String × V)
  put name v [] = (name, v) ∷ []
  put name v ((n, w) ∷ others) =
      if str_eq n name then (name, v) ∷ others else (n, w) ∷ put name v others

  unfoldable pub take_out : String → List (String × V) → List (String × V)
  take_out name [] = []
  take_out name ((n, w) ∷ others) =
      if str_eq n name then take_out name others else (n, w) ∷ take_out name others

  -- Whatever holds of every entry holds of the ones that are found.
  abbrev pub Each {κ} : (V → Type κ) → List (String × V) → Type κ
  Each P [] = Unit
  Each P ((n, v) ∷ others) = P v × Each P others

  abbrev pub Held {κ} : (V → Type κ) → Option V → Type κ
  Held P none = Unit
  Held P (some v) = P v

  pub get-Held {κ} :
      (P : V → Type κ) (name : String) (table : List (String × V))
      → Each P table
      → Held P (get name table)
  unfolding get
  get-Held P name [] h = tt
  get-Held P name ((n, v) ∷ others) h = elim (Bool-cases (str_eq n name)) [
    | inl e ↦ rw e h.0
    | inr e ↦ rw e (get-Held P name others h.1)
  ]

  pub put-Each {κ} :
      (P : V → Type κ) (name : String) (v : V) (table : List (String × V))
      → P v
      → Each P table
      → Each P (put name v table)
  unfolding put
  put-Each P name v [] p h = (p, tt)
  put-Each P name v ((n, w) ∷ others) p h = elim (Bool-cases (str_eq n name)) [
    | inl e ↦ rw e (p, h.1)
    | inr e ↦ rw e (h.0, put-Each P name v others p h.1)
  ]

  pub take_out-Each {κ} :
      (P : V → Type κ) (name : String) (table : List (String × V))
      → Each P table
      → Each P (take_out name table)
  unfolding take_out
  take_out-Each P name [] h = tt
  take_out-Each P name ((n, w) ∷ others) h = elim (Bool-cases (str_eq n name)) [
    | inl e ↦ rw e (take_out-Each P name others h.1)
    | inr e ↦ rw e (h.0, take_out-Each P name others h.1)
  ]

  -- What was put is found.
  pub get-put :
      (name : String) (v : V) (table : List (String × V)) → get name (put name v table) ≡ some v
  unfolding get put
  get-put name v [] = rw ((eq_iff name name).1 refl) refl
  get-put name v ((n, w) ∷ others) = elim (Bool-cases (str_eq n name)) [
    | inl e ↦ rw (e, (eq_iff name name).1 refl) refl
    | inr e ↦ rw (e, e) (get-put name v others)
  ]
