-- ===== src/Transcode/Admission/Bounds.antt =====
-- What the admission counter guarantees over any history of requests.
use harmonixia_server.Prelude.{
  ℕ, suc, ◌^◌, ◌≤◌, ◌<◌, max, ◌≡◌, refl, List, [], ◌∷◌, Option, none, some, arith, length,
  Option-cases, inl, inr, All,
}
use harmonixia_server.Transcode.Admission.{
  System, Event, acquires, drops, limits, start, new, set_limit, try_acquire, drop_slot, release,
  step, run, give_back, admit,
}

-- The counter is the number of live slots, and fits its 32 bits with the limit.
pub record Inv (s : System) : Type 0 where
  pub counted : s.admission.in_use ≡ length s.holders
  pub fits : s.admission.in_use < 2 ^ 32
  pub limit_fits : s.admission.limit < 2 ^ 32

-- A limit that an event sets is a `u32`.
abbrev pub Fits : Event → Type 0
Fits (limits n) = n < 2 ^ 32
Fits (acquires _) = Unit {0}
Fits (drops _) = Unit {0}

length-release :
    (who : ℕ) (hs rest : List ℕ) → release who hs ≡ some rest → length hs ≡ suc (length rest)
length-release who [] rest e = cc
length-release who (h ∷ hs) rest e = elim (Option-cases (release who hs)) [
  | inl missing ↦ ground arith
  | inr (r, found) ↦ ground (arith, length-release who hs r)
]

give_back-Inv :
    (s : System) (o : Option (List ℕ)) (who : ℕ)
    → release who s.holders ≡ o
    → Inv s
    → Inv (give_back s o)
unfolding give_back drop_slot
give_back-Inv s none who e v = v
give_back-Inv s (some rest) who e v = ground (arith, length-release who s.holders rest)

step-Inv : (s : System) (e : Event) → Fits e → Inv s → Inv (step s e)
unfolding step try_acquire set_limit admit
step-Inv s (acquires who) f v = ground arith
step-Inv s (drops who) f v = give_back-Inv s (release who s.holders) who refl v
step-Inv s (limits n) f v = ground arith

run-Inv : (s : System) (es : List Event) → All Fits es → Inv s → Inv (run s es)
unfolding run
run-Inv s [] f v = v
run-Inv s (e ∷ es) f v = run-Inv (step s e) es f.1 (step-Inv s e f.0 v)

-- From a fresh counter, after any history of acquisitions, drops and limit changes, the counter is
-- the number of live slots and neither it nor the limit has wrapped.
pub run-start-Inv :
    (limit : ℕ) (es : List Event) → limit < 2 ^ 32 → All Fits es → Inv (run (start limit) es)
unfolding start new
run-start-Inv limit es h f =
    run-Inv _ es f (record { counted = refl; fits = omega arith; limit_fits = h })

-- The highest limit that the history ever set.
abbrev pub peak : ℕ → List Event → ℕ
peak n [] = n
peak n (limits m ∷ es) = peak (max n m) es
peak n (acquires _ ∷ es) = peak n es
peak n (drops _ ∷ es) = peak n es

abbrev Within : ℕ → System → Type 0
Within n s = (s.admission.limit ≤ n) × (s.admission.in_use ≤ n)

step-Within :
    (n : ℕ) (s : System) (e : Event) → n < 2 ^ 32 → Within n s → Within (peak n (e ∷ [])) (step s e)
unfolding step try_acquire set_limit admit
step-Within n s (acquires who) h w = ground arith
step-Within n s (drops who) h w = give_back-Within (release who s.holders)
  where
    give_back-Within : (o : Option (List ℕ)) → Within n (give_back s o)
    give_back-Within none = w
    give_back-Within (some rest) = unfold give_back drop_slot in (w.0, omega arith)
step-Within n s (limits m) h w = omega arith

run-Within :
    (n : ℕ) (s : System) (es : List Event)
    → n < 2 ^ 32
    → All Fits es
    → Within n s
    → Within (peak n es) (run s es)
unfolding run
run-Within n s [] h f w = w
run-Within n s (acquires who ∷ es) h f w =
    run-Within n _ es h f.1 (step-Within n s (acquires who) h w)
run-Within n s (drops who ∷ es) h f w = run-Within n _ es h f.1 (step-Within n s (drops who) h w)
run-Within n s (limits m ∷ es) h f w =
    run-Within (max n m) _ es (omega arith) f.1 (step-Within n s (limits m) h w)

-- However the limit was lowered and raised, the live slots never outnumber the highest limit that
-- was ever in force.
pub holders-le-peak :
    (limit : ℕ) (es : List Event)
    → limit < 2 ^ 32
    → All Fits es
    → length (run (start limit) es).holders ≤ peak limit es
unfolding start new
holders-le-peak limit es h f = omega (
  arith,
  (run-start-Inv limit es h f).counted,
  (run-Within limit (start limit) es h f (omega arith)).1,
)
