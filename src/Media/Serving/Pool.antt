-- ===== src/Media/Serving/Pool.antt =====
-- The requests of src/api/media.rs as a pool: the leases that they hold, and counts over them.
use harmonixia_server.Prelude.{
  ℕ, zero, suc, ◌≤◌, Bool, true, false, List, [], ◌∷◌, Option, none, some, ◌==◌, ◌≡◌, refl, ap,
  subst, ◌∙◌, get_elem?, All, arith, Bool-cases, inl, inr,
}
use harmonixia_server.Transcode.Generation.{HlsGenerationLease, start, wait}
use harmonixia_server.Transcode.Generation.Leases.{remove_at, generation_for}
use harmonixia_server.Transcode.Generation.Single.{Exclusive}
use harmonixia_server.Media.Serving.{
  Phase, checking, joining, rechecking, admitting, generating, leaving, waiting, finished, set_file,
}

abbrev pub lease_of : Phase → Option HlsGenerationLease
lease_of (checking key) = none
lease_of (joining key) = none
lease_of (rechecking g) = some (start g)
lease_of (admitting g) = some (start g)
lease_of (generating g) = some (start g)
lease_of (leaving reply g) = some (start g)
lease_of (waiting key w) = some (wait w)
lease_of (finished reply) = none

abbrev pub with_lease :
    Option HlsGenerationLease → List HlsGenerationLease → List HlsGenerationLease
with_lease none ls = ls
with_lease (some l) ls = l ∷ ls

abbrev pub leases_of : List Phase → List HlsGenerationLease
leases_of [] = []
leases_of (p ∷ ps) = with_lease (lease_of p) (leases_of ps)

-- The leases without those of one request.
abbrev pub Taken :
    List HlsGenerationLease → Option HlsGenerationLease → List HlsGenerationLease → Type 0
Taken before none after = after ≡ before
Taken before (some l) after = (j : ℕ) × (get_elem? before j ≡ some l) × (after ≡ remove_at j before)

Taken-cons :
    (o l : Option HlsGenerationLease) (before after : List HlsGenerationLease)
    → Taken before l after
    → Taken (with_lease o before) l (with_lease o after)
Taken-cons none l before after t = t
Taken-cons (some x) none before after t = ap (λ ls. x ∷ ls) t
Taken-cons (some x) (some l) before after (j, at, same) = (suc j, at, ap (λ ls. x ∷ ls) same)

Taken-head :
    (o : Option HlsGenerationLease) (ls : List HlsGenerationLease) → Taken (with_lease o ls) o ls
Taken-head none ls = refl
Taken-head (some l) ls = (0, refl, refl)

pub leases_of-Taken :
    (i : ℕ) (ps : List Phase) (p : Phase)
    → get_elem? ps i ≡ some p
    → Taken (leases_of ps) (lease_of p) (leases_of (remove_at i ps))
leases_of-Taken i [] p h = absurd cc
leases_of-Taken zero (q ∷ ps) p h =
    subst (λ r. Taken (leases_of (q ∷ ps)) (lease_of r) (leases_of ps)) (ground (arith, h))
      (Taken-head (lease_of q) (leases_of ps))
leases_of-Taken (suc i) (q ∷ ps) p h =
    Taken-cons (lease_of q) (lease_of p) (leases_of ps) (leases_of (remove_at i ps))
      (leases_of-Taken i ps p h)

-- What holds of all requests holds of one, and of the others.
pub All-picked {κ} :
    (P : Phase → Type κ) (i : ℕ) (ps : List Phase) (p : Phase)
    → get_elem? ps i ≡ some p
    → All P ps
    → P p × All P (remove_at i ps)
All-picked P i [] p h a = absurd cc
All-picked P zero (q ∷ ps) p h a = (subst P (ground (arith, h)) a.0, a.1)
All-picked P (suc i) (q ∷ ps) p h a =
    let (at, rest) = All-picked P i ps p h a.1 in (at, (a.0, rest))

abbrev pub counted : Bool → ℕ → ℕ
counted true n = suc n
counted false n = n

abbrev pub is_generating : Phase → Bool
is_generating (generating g) = true
is_generating _ = false

-- How many requests run ffmpeg, and how many run it for one path.
abbrev pub running : List Phase → ℕ
running [] = 0
running (p ∷ ps) = counted (is_generating p) (running ps)

abbrev pub generates : ℕ → Phase → Bool
generates key (generating g) = g.key == key
generates key _ = false

abbrev pub running_for : ℕ → List Phase → ℕ
running_for key [] = 0
running_for key (p ∷ ps) = counted (generates key p) (running_for key ps)

counted_twice : (b c : Bool) (n : ℕ) → counted b (counted c n) ≡ counted c (counted b n)
counted_twice true true n = refl
counted_twice true false n = refl
counted_twice false true n = refl
counted_twice false false n = refl

pub running-picked :
    (i : ℕ) (ps : List Phase) (p : Phase)
    → get_elem? ps i ≡ some p
    → running ps ≡ counted (is_generating p) (running (remove_at i ps))
running-picked i [] p h = absurd cc
running-picked zero (q ∷ ps) p h =
    subst (λ r. running (q ∷ ps) ≡ counted (is_generating r) (running ps)) (ground (arith, h)) refl
running-picked (suc i) (q ∷ ps) p h =
    ap (counted (is_generating q)) (running-picked i ps p h)
    ∙ counted_twice (is_generating q) (is_generating p) (running (remove_at i ps))

running_for-none :
    (key : ℕ) (ps : List Phase) → generation_for key (leases_of ps) ≡ none → running_for key ps ≡ 0
unfolding generation_for
running_for-none key [] h = refl
running_for-none key (checking k ∷ ps) h = running_for-none key ps h
running_for-none key (joining k ∷ ps) h = running_for-none key ps h
running_for-none key (rechecking g ∷ ps) h = running_for-none key ps (ground (arith, h))
running_for-none key (admitting g ∷ ps) h = running_for-none key ps (ground (arith, h))
running_for-none key (generating g ∷ ps) h = ground (arith, h, running_for-none key ps)
running_for-none key (leaving r g ∷ ps) h = running_for-none key ps (ground (arith, h))
running_for-none key (waiting k w ∷ ps) h = running_for-none key ps h
running_for-none key (finished r ∷ ps) h = running_for-none key ps h

pub running_for-le :
    (n key : ℕ) (ps : List Phase) → Exclusive n (leases_of ps) → running_for key ps ≤ 1
running_for-le n key [] e = omega arith
running_for-le n key (checking k ∷ ps) e = running_for-le n key ps e
running_for-le n key (joining k ∷ ps) e = running_for-le n key ps e
running_for-le n key (rechecking g ∷ ps) e = running_for-le n key ps e.3
running_for-le n key (admitting g ∷ ps) e = running_for-le n key ps e.3
running_for-le n key (generating g ∷ ps) e = elim (Bool-cases (g.key == key)) [
  | inl same ↦ rw same (omega (arith, running_for-none key ps (ground (arith, e.1, same))))
  | inr other ↦ rw other (running_for-le n key ps e.3)
]
running_for-le n key (leaving r g ∷ ps) e = running_for-le n key ps e.3
running_for-le n key (waiting k w ∷ ps) e = running_for-le n key ps e.1
running_for-le n key (finished r ∷ ps) e = running_for-le n key ps e

-- A request that is about to run ffmpeg, or runs it, has found no file.
abbrev pub Absent : (ℕ → Bool) → Phase → Type 0
Absent files (admitting g) = files g.key ≡ false
Absent files (generating g) = files g.key ≡ false
Absent files _ = Unit {0}

-- A file that appears where no other request has the guard.
pub Absent-set_file :
    (files : ℕ → Bool) (key : ℕ) (ps : List Phase)
    → generation_for key (leases_of ps) ≡ none
    → All (Absent files) ps
    → All (Absent (set_file key true files)) ps
unfolding generation_for
Absent-set_file files key [] h a = tt
Absent-set_file files key (checking k ∷ ps) h a = (tt, Absent-set_file files key ps h a.1)
Absent-set_file files key (joining k ∷ ps) h a = (tt, Absent-set_file files key ps h a.1)
Absent-set_file files key (rechecking g ∷ ps) h a =
    (tt, Absent-set_file files key ps (ground (arith, h)) a.1)
Absent-set_file files key (admitting g ∷ ps) h a =
    (ground (arith, h, a.0), Absent-set_file files key ps (ground (arith, h)) a.1)
Absent-set_file files key (generating g ∷ ps) h a =
    (ground (arith, h, a.0), Absent-set_file files key ps (ground (arith, h)) a.1)
Absent-set_file files key (leaving r g ∷ ps) h a =
    (tt, Absent-set_file files key ps (ground (arith, h)) a.1)
Absent-set_file files key (waiting k w ∷ ps) h a = (tt, Absent-set_file files key ps h a.1)
Absent-set_file files key (finished r ∷ ps) h a = (tt, Absent-set_file files key ps h a.1)

-- A file that is removed.
Absent-removed :
    (files : ℕ → Bool) (key : ℕ) (p : Phase) → Absent files p → Absent (set_file key false files) p
Absent-removed files key (checking k) a = tt
Absent-removed files key (joining k) a = tt
Absent-removed files key (rechecking g) a = tt
Absent-removed files key (admitting g) a = ground (arith, a)
Absent-removed files key (generating g) a = ground (arith, a)
Absent-removed files key (leaving r g) a = tt
Absent-removed files key (waiting k w) a = tt
Absent-removed files key (finished r) a = tt

pub All-removed :
    (files : ℕ → Bool) (key : ℕ) (ps : List Phase)
    → All (Absent files) ps
    → All (Absent (set_file key false files)) ps
All-removed files key [] a = tt
All-removed files key (p ∷ ps) a = (Absent-removed files key p a.0, All-removed files key ps a.1)
