-- ===== src/Media/Serving/Sound.antt =====
-- Whatever the requests of src/api/media.rs do, and in whatever order: what is generated, and how
-- often.
use harmonixia_server.Prelude.{
  ℕ, zero, suc, ◌+◌, ◌^◌, ◌≤◌, ◌<◌, List, [], ◌∷◌, ◌≡◌, refl, get_elem?, All, arith, Option-cases,
  inl, inr,
}
use harmonixia_server.Transcode.Admission.{TranscodeAdmissionState, try_acquire, drop_slot}
use harmonixia_server.Transcode.Admission as Admission
use harmonixia_server.Transcode.Generation.{Watch}
use harmonixia_server.Transcode.Generation.Coherence.{initial-Coherent}
use harmonixia_server.Media.Serving.{
  Serving, Event, arrives, gives_up, removes, goes_on, child_ends, ended, idle, picked, step, run,
}
use harmonixia_server.Media.Serving.Pool.{running, running_for, running_for-le, Absent, All-removed}
use harmonixia_server.Media.Serving.Invariant.{Sound}
use harmonixia_server.Media.Serving.Steps.{advance-Sound}
use harmonixia_server.Media.Serving.Cancels.{cancel-Sound}

module _ (watch : Watch) where
  ended-Sound :
      (limit : ℕ) (s : Serving watch.Channel) (n : ℕ)
      → n ≡ s.background
      → Sound watch limit s
      → Sound watch limit (ended watch s n)
  unfolding ended
  ended-Sound limit s zero e v = v
  ended-Sound limit s (suc n) e v = record {
    coherent = v.coherent;
    absent = v.absent;
    used = unfold drop_slot in omega (arith, v.used, e);
    limited = unfold drop_slot in v.limited;
    bounded = unfold drop_slot in omega (arith, v.bounded);
  }

  pub step-Sound :
      (limit : ℕ) (s : Serving watch.Channel) (e : Event)
      → limit < 2 ^ 32
      → Sound watch limit s
      → Sound watch limit (step watch s e)
  unfolding step picked ended
  step-Sound limit s (arrives key) fits v = record {
    coherent = v.coherent;
    absent = (tt, v.absent);
    used = v.used;
    limited = v.limited;
    bounded = v.bounded;
  }
  step-Sound limit s (removes key) fits v = record {
    coherent = v.coherent;
    absent = All-removed s.is_file key s.pool v.absent;
    used = v.used;
    limited = v.limited;
    bounded = v.bounded;
  }
  step-Sound limit s child_ends fits v = ended-Sound limit s s.background refl v
  step-Sound limit s (goes_on i ending) fits v = elim (Option-cases (get_elem? s.pool i)) [
    | inl e ↦ rw e v
    | inr (p, e) ↦ rw e (advance-Sound watch limit s i ending p fits v e)
  ]
  step-Sound limit s (gives_up i) fits v = elim (Option-cases (get_elem? s.pool i)) [
    | inl e ↦ rw e v
    | inr (p, e) ↦ rw e (cancel-Sound watch limit s i p v e)
  ]

  run-Sound :
      (limit : ℕ) (s : Serving watch.Channel) (es : List Event)
      → limit < 2 ^ 32
      → Sound watch limit s
      → Sound watch limit (run watch s es)
  unfolding run
  run-Sound limit s [] fits v = v
  run-Sound limit s (e ∷ es) fits v =
      run-Sound limit (step watch s e) es fits (step-Sound limit s e fits v)

  idle-Sound : (limit : ℕ) → Sound watch limit (idle watch limit)
  unfolding idle Admission.new
  idle-Sound limit = record {
    coherent = initial-Coherent watch;
    absent = tt;
    used = omega arith;
    limited = refl;
    bounded = omega arith;
  }

  pub reached-Sound :
      (limit : ℕ) (es : List Event)
      → limit < 2 ^ 32
      → Sound watch limit (run watch (idle watch limit) es)
  reached-Sound limit es fits = run-Sound limit (idle watch limit) es fits (idle-Sound limit)

  -- From a service without requests or files and a limit of slots that fits 32 bits, after any
  -- arrivals, steps and cancellations of requests, removals of files and ends of ffmpeg in the
  -- background, in any order and with any generation failing: no path is generated by two requests at
  -- once, no request generates a path that has its file, as many slots are in use as requests generate
  -- and as ffmpeg runs on in the background, and they are within the limit.
  pub run-idle-Generated :
      (limit : ℕ) (es : List Event) (key : ℕ)
      → limit < 2 ^ 32
      → let s = run watch (idle watch limit) es in
        (running_for key s.pool ≤ 1)
        × All (Absent s.is_file) s.pool
        × (s.admission.in_use ≡ running s.pool + s.background)
        × (running s.pool + s.background ≤ limit)
  run-idle-Generated limit es key fits =
      let v = reached-Sound limit es fits in
      (
        running_for-le (run watch (idle watch limit) es).coordinator.allocated key
            (run watch (idle watch limit) es).pool v.coherent.exclusive,
        v.absent,
        v.used,
        omega (arith, v.used, v.bounded),
      )
