-- ===== src/Media/Serving/Released.antt =====
-- A request of src/api/media.rs that waits can always be released by another one.
use harmonixia_server.Prelude.{
  ℕ, zero, suc, ◌^◌, ◌<◌, true, not, ◌⊎◌, List, [], ◌∷◌, some, ◌≡◌, refl, sym, ap, ◌∙◌, subst,
  get_elem?, arith, Bool-cases, Option-cases, inl, inr,
}
use harmonixia_server.Transcode.Admission.{try_acquire}
use harmonixia_server.Transcode.Generation.{
  Watch, HlsGenerationGuard, HlsGenerationWaiter, start, wait, is_over,
}
use harmonixia_server.Transcode.Generation.Leases.{remove_at, is_running}
use harmonixia_server.Transcode.Generation.Single.{is_running-guard, waiter-lt}
use harmonixia_server.Transcode.Generation.Departures.{is_over-not_running, is_over-drop_guard}
use harmonixia_server.Media.Serving.{
  Reply, Phase, checking, joining, rechecking, admitting, generating, leaving, waiting, finished,
  served, Ending, completes, unavailable, Serving, Event, goes_on, idle, admitted, advance, picked,
  step, run,
}
use harmonixia_server.Media.Serving.Pool.{lease_of, leases_of, leases_of-Taken}
use harmonixia_server.Media.Serving.Invariant.{Sound}
use harmonixia_server.Media.Serving.Sound.{step-Sound, reached-Sound}

-- Further steps of the request at the front of the pool.
abbrev pub on_front : ℕ → List Event
on_front zero = []
on_front (suc n) = goes_on 0 completes ∷ on_front n

-- Some request of the pool holds a guard that is among the leases.
abbrev Holder : List Phase → HlsGenerationGuard → Type 0
Holder ps g = (i : ℕ) × (p : Phase) × (get_elem? ps i ≡ some p) × (lease_of p ≡ some (start g))

later : (p : Phase) (ps : List Phase) (g : HlsGenerationGuard) → Holder ps g → Holder (p ∷ ps) g
later p ps g (i, q, at, l) = (suc i, q, at, l)

holder :
    (j : ℕ) (g : HlsGenerationGuard) (ps : List Phase)
    → get_elem? (leases_of ps) j ≡ some (start g)
    → Holder ps g
holder j g [] h = absurd cc
holder j g (checking k ∷ ps) h = later _ ps g (holder j g ps h)
holder j g (joining k ∷ ps) h = later _ ps g (holder j g ps h)
holder zero g (rechecking x ∷ ps) h = (0, rechecking x, refl, h)
holder (suc j) g (rechecking x ∷ ps) h = later _ ps g (holder j g ps h)
holder zero g (admitting x ∷ ps) h = (0, admitting x, refl, h)
holder (suc j) g (admitting x ∷ ps) h = later _ ps g (holder j g ps h)
holder zero g (generating x ∷ ps) h = (0, generating x, refl, h)
holder (suc j) g (generating x ∷ ps) h = later _ ps g (holder j g ps h)
holder zero g (leaving r x ∷ ps) h = (0, leaving r x, refl, h)
holder (suc j) g (leaving r x ∷ ps) h = later _ ps g (holder j g ps h)
holder zero g (waiting k x ∷ ps) h = absurd cc
holder (suc j) g (waiting k x ∷ ps) h = later _ ps g (holder j g ps h)
holder j g (finished r ∷ ps) h = later _ ps g (holder j g ps h)

waiter :
    (i : ℕ) (key : ℕ) (w : HlsGenerationWaiter) (ps : List Phase)
    → get_elem? ps i ≡ some (waiting key w)
    → (j : ℕ) × (get_elem? (leases_of ps) j ≡ some (wait w))
waiter i key w ps h = let (j, at, _) = leases_of-Taken i ps (waiting key w) h in (j, at)

module _ (watch : Watch) (limit : ℕ) (fits : limit < 2 ^ 32) (w : HlsGenerationWaiter) where
  abbrev IsOver : Serving watch.Channel → Type 0
  IsOver s = is_over watch w s.coordinator ≡ true

  stepped :
      (s : Serving watch.Channel) (i : ℕ) (ending : Ending) (p : Phase)
      → get_elem? s.pool i ≡ some p
      → step watch s (goes_on i ending) ≡ advance watch ending s (remove_at i s.pool) p
  unfolding step picked
  stepped s i ending p h = rw h refl

  settled :
      (n : ℕ) (s : Serving watch.Channel) (r : Reply)
      → get_elem? s.pool 0 ≡ some (finished r)
      → run watch s (on_front n) ≡ s
  unfolding run advance
  settled zero s r h = refl
  settled (suc n) s r h =
      ap (λ t. run watch t (on_front n)) (stepped s 0 completes (finished r) h) ∙ settled n s r h

  leaving-IsOver :
      (n : ℕ) (s : Serving watch.Channel) (i : ℕ) (r : Reply) (g : HlsGenerationGuard)
      → Sound watch limit s
      → get_elem? s.pool i ≡ some (leaving r g)
      → g.done ≡ w.done
      → IsOver (run watch s (goes_on i completes ∷ on_front n))
  unfolding run advance
  leaving-IsOver n s i r g v h same =
      let (j, at, _) = leases_of-Taken i s.pool (leaving r g) h in
      let left = advance watch completes s (remove_at i s.pool) (leaving r g) in
      subst IsOver
        (sym (
          ap (λ t. run watch t (on_front n)) (stepped s i completes (leaving r g) h)
          ∙ settled n left r refl))
        (is_over-drop_guard watch s.coordinator (leases_of s.pool) j g w v.coherent at same)

  -- The request that has just moved stands at the front.
  at_front :
      (s : Serving watch.Channel) (i : ℕ) (p q : Phase)
      → get_elem? s.pool i ≡ some p
      → get_elem? (advance watch completes s (remove_at i s.pool) p).pool 0 ≡ some q
      → get_elem? (step watch s (goes_on i completes)).pool 0 ≡ some q
  at_front s i p q h e = ap (λ t. get_elem? t.pool 0) (stepped s i completes p h) ∙ e

  generating-IsOver :
      (n : ℕ) (s : Serving watch.Channel) (i : ℕ) (g : HlsGenerationGuard)
      → Sound watch limit s
      → get_elem? s.pool i ≡ some (generating g)
      → g.done ≡ w.done
      → IsOver (run watch s (goes_on i completes ∷ on_front (suc n)))
  unfolding run advance
  generating-IsOver n s i g v h same =
      leaving-IsOver n (step watch s (goes_on i completes)) 0 served g
        (step-Sound watch limit s (goes_on i completes) fits v)
        (at_front s i (generating g) (leaving served g) h refl) same

  admitting-IsOver :
      (n : ℕ) (s : Serving watch.Channel) (i : ℕ) (g : HlsGenerationGuard)
      → Sound watch limit s
      → get_elem? s.pool i ≡ some (admitting g)
      → g.done ≡ w.done
      → IsOver (run watch s (goes_on i completes ∷ on_front (suc (suc n))))
  unfolding run advance admitted
  admitting-IsOver n s i g v h same =
      let next = step-Sound watch limit s (goes_on i completes) fits v in
      elim (Option-cases (try_acquire s.admission)) [
        | inl e ↦
            leaving-IsOver (suc n) (step watch s (goes_on i completes)) 0 unavailable g next
              (at_front s i (admitting g) (leaving unavailable g) h (rw e refl)) same
        | inr (a, e) ↦
            generating-IsOver n (step watch s (goes_on i completes)) 0 g next
              (at_front s i (admitting g) (generating g) h (rw e refl)) same
      ]

  rechecking-IsOver :
      (n : ℕ) (s : Serving watch.Channel) (i : ℕ) (g : HlsGenerationGuard)
      → Sound watch limit s
      → get_elem? s.pool i ≡ some (rechecking g)
      → g.done ≡ w.done
      → IsOver (run watch s (goes_on i completes ∷ on_front (suc (suc (suc n)))))
  unfolding run advance
  rechecking-IsOver n s i g v h same =
      let next = step-Sound watch limit s (goes_on i completes) fits v in
      elim (Bool-cases (s.is_file g.key)) [
        | inl e ↦
            leaving-IsOver (suc (suc n)) (step watch s (goes_on i completes)) 0 served g next
              (at_front s i (rechecking g) (leaving served g) h (rw e refl)) same
        | inr e ↦
            admitting-IsOver n (step watch s (goes_on i completes)) 0 g next
              (at_front s i (rechecking g) (admitting g) h (rw e refl)) same
      ]

  -- Four steps of the request that holds the guard.
  holder-IsOver :
      (s : Serving watch.Channel) (i : ℕ) (p : Phase) (g : HlsGenerationGuard)
      → Sound watch limit s
      → get_elem? s.pool i ≡ some p
      → lease_of p ≡ some (start g)
      → g.done ≡ w.done
      → IsOver (run watch s (goes_on i completes ∷ on_front 3))
  holder-IsOver s i (checking k) g v h l same = absurd cc
  holder-IsOver s i (joining k) g v h l same = absurd cc
  holder-IsOver s i (rechecking x) g v h l same =
      rechecking-IsOver 0 s i x v h (ground (arith, l, same))
  holder-IsOver s i (admitting x) g v h l same =
      admitting-IsOver 1 s i x v h (ground (arith, l, same))
  holder-IsOver s i (generating x) g v h l same =
      generating-IsOver 2 s i x v h (ground (arith, l, same))
  holder-IsOver s i (leaving r x) g v h l same =
      leaving-IsOver 3 s i r x v h (ground (arith, l, same))
  holder-IsOver s i (waiting k x) g v h l same = absurd cc
  holder-IsOver s i (finished r) g v h l same = absurd cc

  -- In every state that a service without requests can reach under a limit of slots that fits 32
  -- bits: where a request waits, its wait is over, or some other request can end it by at most four
  -- steps of its own.
  pub run-idle-Released :
      (es : List Event) (i key : ℕ)
      → let s = run watch (idle watch limit) es in
        get_elem? s.pool i ≡ some (waiting key w)
        → IsOver s ⊎ ((j : ℕ) × IsOver (run watch s (goes_on j completes ∷ on_front 3)))
  run-idle-Released es i key h =
      let s = run watch (idle watch limit) es in
      let v = reached-Sound watch limit es fits in
      let (k, at) = waiter i key w s.pool h in
      let known =
        waiter-lt s.coordinator.allocated k w (leases_of s.pool) v.coherent.exclusive at in
      elim (Bool-cases (is_running w.done (leases_of s.pool))) [
        | inl e ↦
            let (n, g, held, same) = is_running-guard w.done (leases_of s.pool) e in
            let (j, p, here, l) = holder n g s.pool held in
            inr (j, holder-IsOver s j p g v here l same)
        | inr e ↦ inl (
            is_over-not_running watch s.coordinator (leases_of s.pool) w v.coherent known
            ∙ ap not e)
      ]
