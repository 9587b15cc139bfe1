-- ===== src/Transcode/Generation/Single.antt =====
-- The leases of src/transcode.rs's coordinator: what their list says of the running generations.
use harmonixia_server.Prelude.{
  ℕ, zero, suc, ◌≤◌, ◌<◌, true, false, List, [], ◌∷◌, none, some, ◌==◌, ◌≡◌, ◌≢◌, refl,
  if◌then◌else◌, get_elem?, arith, Bool-cases, inl, inr,
}
use harmonixia_server.Transcode.Generation.{
  HlsGenerationGuard, HlsGenerationWaiter, HlsGenerationLease, start, wait,
}
use harmonixia_server.Transcode.Generation.Leases.{remove_at, generation_for, is_running}

-- Every lease is of a generation that was issued, and no two guards share a path or a generation.
abbrev pub Exclusive : ℕ → List HlsGenerationLease → Type 0
Exclusive n [] = Unit {0}
Exclusive n (start g ∷ ls) =
    (g.done < n)
    × (generation_for g.key ls ≡ none)
    × (is_running g.done ls ≡ false)
    × Exclusive n ls
Exclusive n (wait w ∷ ls) = (w.done < n) × Exclusive n ls

pub Exclusive-suc : (n : ℕ) (ls : List HlsGenerationLease) → Exclusive n ls → Exclusive (suc n) ls
Exclusive-suc n [] h = tt
Exclusive-suc n (start g ∷ ls) h = (omega (arith, h.0), h.1, h.2, Exclusive-suc n ls h.3)
Exclusive-suc n (wait w ∷ ls) h = (omega (arith, h.0), Exclusive-suc n ls h.1)

-- A number that was not issued runs nowhere.
pub is_running-fresh :
    (n m : ℕ) (ls : List HlsGenerationLease) → Exclusive n ls → n ≤ m → is_running m ls ≡ false
unfolding is_running
is_running-fresh n m [] h k = refl
is_running-fresh n m (start g ∷ ls) h k = ground (arith, h.0, is_running-fresh n m ls h.3 k)
is_running-fresh n m (wait w ∷ ls) h k = is_running-fresh n m ls h.1 k

pub is_running-generation_for :
    (key n : ℕ) (ls : List HlsGenerationLease)
    → generation_for key ls ≡ some n
    → is_running n ls ≡ true
unfolding is_running generation_for
is_running-generation_for key n [] h = ground arith
is_running-generation_for key n (start g ∷ ls) h =
    ground (arith, is_running-generation_for key n ls)
is_running-generation_for key n (wait w ∷ ls) h = is_running-generation_for key n ls h

pub generation_for-lt :
    (m key n : ℕ) (ls : List HlsGenerationLease)
    → Exclusive m ls
    → generation_for key ls ≡ some n
    → n < m
unfolding generation_for
generation_for-lt m key n [] e h = ground arith
generation_for-lt m key n (start g ∷ ls) e h = ground (arith, e.0, generation_for-lt m key n ls e.3)
generation_for-lt m key n (wait w ∷ ls) e h = generation_for-lt m key n ls e.1 h

pub generation_for-remove_at :
    (key i : ℕ) (ls : List HlsGenerationLease)
    → generation_for key ls ≡ none
    → generation_for key (remove_at i ls) ≡ none
unfolding generation_for
generation_for-remove_at key i [] h = h
generation_for-remove_at key zero (start g ∷ ls) h = ground arith
generation_for-remove_at key zero (wait w ∷ ls) h = h
generation_for-remove_at key (suc i) (start g ∷ ls) h =
    ground (arith, generation_for-remove_at key i ls)
generation_for-remove_at key (suc i) (wait w ∷ ls) h = generation_for-remove_at key i ls h

pub is_running-remove_at :
    (n i : ℕ) (ls : List HlsGenerationLease)
    → is_running n ls ≡ false
    → is_running n (remove_at i ls) ≡ false
unfolding is_running
is_running-remove_at n i [] h = h
is_running-remove_at n zero (start g ∷ ls) h = ground arith
is_running-remove_at n zero (wait w ∷ ls) h = h
is_running-remove_at n (suc i) (start g ∷ ls) h = ground (arith, is_running-remove_at n i ls)
is_running-remove_at n (suc i) (wait w ∷ ls) h = is_running-remove_at n i ls h

pub remove_at-Exclusive :
    (n i : ℕ) (ls : List HlsGenerationLease) → Exclusive n ls → Exclusive n (remove_at i ls)
remove_at-Exclusive n i [] h = tt
remove_at-Exclusive n zero (start g ∷ ls) h = h.3
remove_at-Exclusive n zero (wait w ∷ ls) h = h.1
remove_at-Exclusive n (suc i) (start g ∷ ls) h = (
  h.0,
  generation_for-remove_at g.key i ls h.1,
  is_running-remove_at g.done i ls h.2,
  remove_at-Exclusive n i ls h.3,
)
remove_at-Exclusive n (suc i) (wait w ∷ ls) h = (h.0, remove_at-Exclusive n i ls h.1)

-- A guard among the leases is the generation of its path, and it runs.
pub guard-is_running :
    (i : ℕ) (g : HlsGenerationGuard) (ls : List HlsGenerationLease)
    → get_elem? ls i ≡ some (start g)
    → is_running g.done ls ≡ true
unfolding is_running
guard-is_running i g [] h = ground arith
guard-is_running zero g (start x ∷ ls) h = ground arith
guard-is_running zero g (wait w ∷ ls) h = ground arith
guard-is_running (suc i) g (start x ∷ ls) h = ground (arith, guard-is_running i g ls h)
guard-is_running (suc i) g (wait w ∷ ls) h = guard-is_running i g ls h

guard-key :
    (i : ℕ) (g : HlsGenerationGuard) (ls : List HlsGenerationLease)
    → get_elem? ls i ≡ some (start g)
    → generation_for g.key ls ≢ none
unfolding generation_for
guard-key i g [] h k = ground arith
guard-key zero g (start x ∷ ls) h k = ground arith
guard-key zero g (wait w ∷ ls) h k = ground arith
guard-key (suc i) g (start x ∷ ls) h k = ground (arith, guard-key i g ls h)
guard-key (suc i) g (wait w ∷ ls) h k = guard-key i g ls h k

pub guard-generation_for :
    (n i : ℕ) (g : HlsGenerationGuard) (ls : List HlsGenerationLease)
    → Exclusive n ls
    → get_elem? ls i ≡ some (start g)
    → generation_for g.key ls ≡ some g.done
unfolding generation_for
guard-generation_for n i g [] e h = ground arith
guard-generation_for n zero g (start x ∷ ls) e h = ground arith
guard-generation_for n zero g (wait w ∷ ls) e h = ground arith
guard-generation_for n (suc i) g (start x ∷ ls) e h = elim (Bool-cases (x.key == g.key)) [
  | inl same ↦ ground (arith, guard-key i g ls h, e.1)
  | inr other ↦ ground (arith, other, guard-generation_for n i g ls e.3 h)
]
guard-generation_for n (suc i) g (wait w ∷ ls) e h = guard-generation_for n i g ls e.1 h

-- What is left when a guard goes.
pub generation_for-left :
    (n key i : ℕ) (g : HlsGenerationGuard) (ls : List HlsGenerationLease)
    → Exclusive n ls
    → get_elem? ls i ≡ some (start g)
    → generation_for key (remove_at i ls) ≡ (if g.key == key then none else generation_for key ls)
unfolding generation_for
generation_for-left n key i g [] e h = ground arith
generation_for-left n key zero g (start x ∷ ls) e h = ground (arith, e.1)
generation_for-left n key zero g (wait w ∷ ls) e h = ground arith
generation_for-left n key (suc i) g (start x ∷ ls) e h =
    ground (arith, e.1, guard-key i g ls h, generation_for-left n key i g ls e.3 h)
generation_for-left n key (suc i) g (wait w ∷ ls) e h = generation_for-left n key i g ls e.1 h

pub is_running-left :
    (n m i : ℕ) (g : HlsGenerationGuard) (ls : List HlsGenerationLease)
    → Exclusive n ls
    → get_elem? ls i ≡ some (start g)
    → is_running m (remove_at i ls) ≡ (if g.done == m then false else is_running m ls)
unfolding is_running
is_running-left n m i g [] e h = ground arith
is_running-left n m zero g (start x ∷ ls) e h = ground (arith, e.2)
is_running-left n m zero g (wait w ∷ ls) e h = ground arith
is_running-left n m (suc i) g (start x ∷ ls) e h =
    ground (arith, e.2, guard-is_running i g ls h, is_running-left n m i g ls e.3 h)
is_running-left n m (suc i) g (wait w ∷ ls) e h = is_running-left n m i g ls e.1 h

-- Nothing changes for the generations when a waiter goes.
pub generation_for-waiter :
    (key i : ℕ) (w : HlsGenerationWaiter) (ls : List HlsGenerationLease)
    → get_elem? ls i ≡ some (wait w)
    → generation_for key (remove_at i ls) ≡ generation_for key ls
unfolding generation_for
generation_for-waiter key i w [] h = refl
generation_for-waiter key zero w (start x ∷ ls) h = ground arith
generation_for-waiter key zero w (wait x ∷ ls) h = refl
generation_for-waiter key (suc i) w (start x ∷ ls) h = rw (generation_for-waiter key i w ls h) refl
generation_for-waiter key (suc i) w (wait x ∷ ls) h = generation_for-waiter key i w ls h

pub is_running-waiter :
    (m i : ℕ) (w : HlsGenerationWaiter) (ls : List HlsGenerationLease)
    → get_elem? ls i ≡ some (wait w)
    → is_running m (remove_at i ls) ≡ is_running m ls
unfolding is_running
is_running-waiter m i w [] h = refl
is_running-waiter m zero w (start x ∷ ls) h = ground arith
is_running-waiter m zero w (wait x ∷ ls) h = refl
is_running-waiter m (suc i) w (start x ∷ ls) h = rw (is_running-waiter m i w ls h) refl
is_running-waiter m (suc i) w (wait x ∷ ls) h = is_running-waiter m i w ls h

-- An index past the end.
pub remove_at-none :
    (i : ℕ) (ls : List HlsGenerationLease) → get_elem? ls i ≡ none → remove_at i ls ≡ ls
remove_at-none i [] h = refl
remove_at-none zero (l ∷ ls) h = ground arith
remove_at-none (suc i) (l ∷ ls) h = rw (remove_at-none i ls h) refl

pub waiter-lt :
    (n i : ℕ) (w : HlsGenerationWaiter) (ls : List HlsGenerationLease)
    → Exclusive n ls
    → get_elem? ls i ≡ some (wait w)
    → w.done < n
waiter-lt n i w [] e h = ground arith
waiter-lt n zero w (start x ∷ ls) e h = ground arith
waiter-lt n zero w (wait x ∷ ls) e h = ground (arith, e.0)
waiter-lt n (suc i) w (start x ∷ ls) e h = waiter-lt n i w ls e.3 h
waiter-lt n (suc i) w (wait x ∷ ls) e h = waiter-lt n i w ls e.1 h

-- A generation that runs has its guard.
pub is_running-guard :
    (n : ℕ) (ls : List HlsGenerationLease)
    → is_running n ls ≡ true
    → (i : ℕ) × (g : HlsGenerationGuard) × (get_elem? ls i ≡ some (start g)) × (g.done ≡ n)
unfolding is_running
is_running-guard n [] h = ground arith
is_running-guard n (start g ∷ ls) h = elim (Bool-cases (g.done == n)) [
  | inl e ↦ (0, g, refl, ground arith)
  | inr e ↦ let (i, x, at, same) = is_running-guard n ls (ground (arith, e)) in (suc i, x, at, same)
]
is_running-guard n (wait w ∷ ls) h =
    let (i, x, at, same) = is_running-guard n ls h in (suc i, x, at, same)
