-- ===== src/Transcode/Generation/Tests.antt =====
-- The coordinator of src/transcode.rs on a concrete history.
use harmonixia_server.Prelude.{true, false, List, [], ◌∷◌, ◌≡◌, refl}
use harmonixia_server.Prelude.Dict.{lookup, insert, remove}
use harmonixia_server.Transcode.Generation.{new, join_or_start, lease_for, is_over, drop_guard}
use harmonixia_server.Transcode.Generation.Samples.{counted}
use harmonixia_server.Transcode.Generation.Leases.{
  Event, joins, leaves, polls, started, waiting, gone, over, initial, joined, let_go, polled, step,
  answers, abstract_answers,
}
use harmonixia_server.Transcode.Generation.Refinement.{answers-abstract_answers}

-- Two requests for the path 5 and one for 6; the second waits until the first lets its guard go.
abbrev watched : List Event
watched = joins 5 ∷ joins 5 ∷ joins 6 ∷ polls 1 ∷ leaves 2 ∷ polls 1 ∷ joins 5 ∷ []

answers-watched :
    answers counted (initial counted) watched
    ≡ started ∷ waiting ∷ started ∷ over false ∷ gone ∷ over true ∷ started ∷ []
unfolding answers initial new step joined join_or_start lease_for let_go polled drop_guard is_over
    lookup insert remove
answers-watched = refl

answers-abstract_answers_example :
    answers counted (initial counted) watched
    ≡ abstract_answers (record { issued = 0; leases = [] }) watched
answers-abstract_answers_example = answers-abstract_answers counted watched
