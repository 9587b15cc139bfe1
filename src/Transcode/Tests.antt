-- ===== src/Transcode/Tests.antt =====
-- The admission counter on a concrete history.
use harmonixia_server.Prelude.{◌≤◌, ◌≡◌, refl, List, [], ◌∷◌, length, arith}
use harmonixia_server.Transcode.Admission.{
  Event, acquires, limits, start, step, run, try_acquire, set_limit, new,
}
use harmonixia_server.Transcode.Admission.Bounds.{Inv, run-start-Inv, holders-le-peak}

-- Two holders under a limit of two; the limit falls to one and a third is refused.
abbrev lowered : List Event
lowered = acquires 7 ∷ acquires 8 ∷ limits 1 ∷ acquires 9 ∷ []

lowered_holders : (run (start 2) lowered).holders ≡ 8 ∷ 7 ∷ []
unfolding run start new step try_acquire set_limit
lowered_holders = refl

run-start-Inv_example : Inv (run (start 2) lowered)
run-start-Inv_example = run-start-Inv 2 lowered (omega arith) (tt, (tt, (omega arith, (tt, tt))))

holders-le-peak_example : length (run (start 2) lowered).holders ≤ 2
holders-le-peak_example =
    holders-le-peak 2 lowered (omega arith) (tt, (tt, (omega arith, (tt, tt))))
