-- ===== src/Media/Serving/Tests.antt =====
-- Two requests for one output: the second waits while the first generates it.
use harmonixia_server.Prelude.{
  ℕ, ◌+◌, ◌≤◌, true, ◌⊎◌, List, [], ◌∷◌, some, ◌≡◌, refl, arith, get_elem?, All,
}
use harmonixia_server.Prelude.Dict.{lookup, insert, remove}
use harmonixia_server.Transcode.Admission.{try_acquire, drop_slot}
use harmonixia_server.Transcode.Admission as Admission
use harmonixia_server.Transcode.Generation.{
  HlsGenerationWaiter, new, join_or_start, lease_for, is_over, drop_guard, drop_waiter,
}
use harmonixia_server.Transcode.Generation.Samples.{counted}
use harmonixia_server.Media.Serving.{
  waiting, finished, served, completes, Event, arrives, goes_on, idle, joined, admitted, advance,
  picked, step, run,
}
use harmonixia_server.Media.Serving.Pool.{running, running_for, Absent}
use harmonixia_server.Media.Serving.Sound.{run-idle-Generated}
use harmonixia_server.Media.Serving.Released.{on_front, run-idle-Released}

abbrev generation : List Event
generation =
    arrives 5
    ∷ arrives 5
    ∷ goes_on 0 completes
    ∷ goes_on 0 completes
    ∷ goes_on 1 completes
    ∷ goes_on 0 completes
    ∷ goes_on 1 completes
    ∷ goes_on 0 completes
    ∷ []

-- The first ends its generation and leaves; the second looks again.
abbrev both_served : List Event
both_served =
    arrives 5
    ∷ arrives 5
    ∷ goes_on 0 completes
    ∷ goes_on 0 completes
    ∷ goes_on 1 completes
    ∷ goes_on 0 completes
    ∷ goes_on 1 completes
    ∷ goes_on 0 completes
    ∷ goes_on 0 completes
    ∷ goes_on 0 completes
    ∷ goes_on 1 completes
    ∷ goes_on 0 completes
    ∷ []

pool-both_served :
    (run counted (idle counted 1) both_served).pool ≡ finished served ∷ finished served ∷ []
unfolding run step picked advance joined admitted idle new Admission.new join_or_start lease_for
    lookup insert remove try_acquire drop_slot is_over drop_guard drop_waiter
pool-both_served = refl

abbrev second : HlsGenerationWaiter
second = record { done = 0 }

second_waits : get_elem? (run counted (idle counted 1) generation).pool 1 ≡ some (waiting 5 second)
unfolding run step picked advance joined admitted idle new Admission.new join_or_start lease_for
    lookup insert try_acquire
second_waits = refl

run-idle-Generated_example :
    let s = run counted (idle counted 1) generation in
    (running_for 5 s.pool ≤ 1)
    × All (Absent s.is_file) s.pool
    × (s.admission.in_use ≡ running s.pool + s.background)
    × (running s.pool + s.background ≤ 1)
run-idle-Generated_example = run-idle-Generated counted 1 generation 5 (omega arith)

run-idle-Released_example :
    let s = run counted (idle counted 1) generation in
    (is_over counted second s.coordinator ≡ true)
    ⊎ ((j : ℕ) × (is_over counted second
            (run counted s (goes_on j completes ∷ on_front 3)).coordinator
          ≡ true))
run-idle-Released_example =
    run-idle-Released counted 1 (omega arith) second generation 1 5 second_waits
