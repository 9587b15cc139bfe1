-- ===== src/Transcode/Generation/Leases.antt =====
-- The coordinator of src/transcode.rs together with the leases that requests hold, and the abstract
-- machine that knows the leases alone.
use harmonixia_server.Prelude.{
  ℕ, zero, suc, Bool, false, not, ◌||◌, List, [], ◌∷◌, Option, none, some, ◌==◌, if◌then◌else◌,
  get_elem?,
}
use harmonixia_server.Transcode.Generation.{
  Watch, HlsGenerationCoordinator, HlsGenerationLease, start, wait, new, join_or_start, is_over,
  drop_guard, drop_waiter,
}

-- A request joins for a path; the holder of a lease lets it go, or asks whether its wait is over.
pub data Event : Type 0 where
  joins leaves polls : ℕ → Event

pub data Answer : Type 0 where
  started waiting gone : Answer
  over : Bool → Answer

pub record System (Channel : Type 0) : Type 0 where
  pub coordinator : HlsGenerationCoordinator Channel
  pub leases : List HlsGenerationLease

abbrev pub remove_at {ℓ} : {A : Type ℓ} → ℕ → List A → List A
remove_at i [] = []
remove_at zero (l ∷ ls) = ls
remove_at (suc i) (l ∷ ls) = l ∷ remove_at i ls

abbrev pub answer_of : HlsGenerationLease → Answer
answer_of (start g) = started
answer_of (wait w) = waiting

module _ (watch : Watch) where
  unfoldable pub initial : System watch.Channel
  initial = record { coordinator = new watch; leases = [] }

  unfoldable pub joined :
      List HlsGenerationLease
      → HlsGenerationCoordinator watch.Channel × HlsGenerationLease
      → System watch.Channel × Answer
  joined ls (c, l) = (record { coordinator = c; leases = l ∷ ls }, answer_of l)

  unfoldable pub let_go :
      ℕ → System watch.Channel → Option HlsGenerationLease → System watch.Channel × Answer
  let_go i s none = (s, gone)
  let_go i s (some (start g)) = (
    record { coordinator = drop_guard watch g s.coordinator; leases = remove_at i s.leases },
    gone,
  )
  let_go i s (some (wait w)) = (
    record { coordinator = drop_waiter watch w s.coordinator; leases = remove_at i s.leases },
    gone,
  )

  unfoldable pub polled : System watch.Channel → Option HlsGenerationLease → Answer
  polled s none = gone
  polled s (some (start g)) = gone
  polled s (some (wait w)) = over (is_over watch w s.coordinator)

  unfoldable pub step : System watch.Channel → Event → System watch.Channel × Answer
  step s (joins key) = joined s.leases (join_or_start watch key s.coordinator)
  step s (leaves i) = let_go i s (get_elem? s.leases i)
  step s (polls i) = (s, polled s (get_elem? s.leases i))

  unfoldable pub run : System watch.Channel → List Event → System watch.Channel
  run s [] = s
  run s (e ∷ es) = run (step s e).0 es

  unfoldable pub answers : System watch.Channel → List Event → List Answer
  answers s [] = []
  answers s (e ∷ es) = (step s e).1 ∷ answers (step s e).0 es

-- The abstract machine: a path is busy while a lease generates it, and a wait is over when the
-- generation that it waits for holds no lease.
pub record Abstract : Type 0 where
  pub issued : ℕ
  pub leases : List HlsGenerationLease

unfoldable pub generation_for : ℕ → List HlsGenerationLease → Option ℕ
generation_for key [] = none
generation_for key (start g ∷ ls) = if g.key == key then some g.done else generation_for key ls
generation_for key (wait w ∷ ls) = generation_for key ls

unfoldable pub is_running : ℕ → List HlsGenerationLease → Bool
is_running n [] = false
is_running n (start g ∷ ls) = g.done == n || is_running n ls
is_running n (wait w ∷ ls) = is_running n ls

unfoldable pub abstract_join : ℕ → Abstract → Option ℕ → Abstract × Answer
abstract_join key t (some n) =
    (record t { leases = wait (record { done = n }) ∷ t.leases }, waiting)
abstract_join key t none = (
  record {
    issued = suc t.issued;
    leases = start (record { key = key; done = t.issued }) ∷ t.leases;
  },
  started,
)

unfoldable pub abstract_poll : Abstract → Option HlsGenerationLease → Answer
abstract_poll t none = gone
abstract_poll t (some (start g)) = gone
abstract_poll t (some (wait w)) = over (not (is_running w.done t.leases))

unfoldable pub abstract_step : Abstract → Event → Abstract × Answer
abstract_step t (joins key) = abstract_join key t (generation_for key t.leases)
abstract_step t (leaves i) = (record t { leases = remove_at i t.leases }, gone)
abstract_step t (polls i) = (t, abstract_poll t (get_elem? t.leases i))

unfoldable pub abstract_answers : Abstract → List Event → List Answer
abstract_answers t [] = []
abstract_answers t (e ∷ es) = (abstract_step t e).1 ∷ abstract_answers (abstract_step t e).0 es
