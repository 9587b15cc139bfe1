-- ===== src/Media/Serving.antt =====
-- src/api/media.rs, the loops of `hls_manifest` and `download_transcode`, which are the same:
-- requests that look for a generated file, and generate it where there is none. Each clause of
-- `advance` is what a request does between two points where it gives way to others. A path stands
-- for its output and for its key; how a generation ends is part of the step; a look at the file
-- that fails ends a request as giving up does. The limit of the slots is fixed, and nobody else
-- holds slots.
pub mod Pool
pub mod Invariant
pub mod Steps
pub mod Cancels
pub mod Released
pub mod Sound
pub mod Tests
use harmonixia_server.Prelude.{
  ℕ, zero, suc, Bool, true, false, List, [], ◌∷◌, Option, none, some, ◌==◌, if◌then◌else◌,
  get_elem?,
}
use harmonixia_server.Transcode.Admission.{TranscodeAdmissionState, try_acquire, drop_slot}
use harmonixia_server.Transcode.Admission as Admission
use harmonixia_server.Transcode.Generation.{
  Watch, HlsGenerationCoordinator, HlsGenerationGuard, HlsGenerationWaiter, HlsGenerationLease,
  start, wait, new, join_or_start, is_over, drop_guard, drop_waiter,
}
use harmonixia_server.Transcode.Generation.Leases.{remove_at}

pub data Reply : Type 0 where
  served unavailable failed : Reply

-- Where a request stands: before the first look at the file, before joining, with the guard before the
-- second look, before taking a slot, while ffmpeg runs, before the guard is dropped, or waiting.
pub data Phase : Type 0 where
  checking joining : ℕ → Phase
  rechecking admitting generating : HlsGenerationGuard → Phase
  leaving : Reply → HlsGenerationGuard → Phase
  waiting : ℕ → HlsGenerationWaiter → Phase
  finished : Reply → Phase

pub record Serving (Channel : Type 0) : Type 0 where
  pub coordinator : HlsGenerationCoordinator Channel
  pub admission : TranscodeAdmissionState
  pub is_file : ℕ → Bool
  pub background : ℕ
  pub pool : List Phase

-- A generation fails; or a download is complete, which gives its slot back; or a manifest is published,
-- and ffmpeg goes on with the slot in a task of its own (`wait_for_hls_transcode_child`).
pub data Ending : Type 0 where
  fails completes publishes : Ending

-- A request arrives, goes on, or is given up by its client; a file is removed; an ffmpeg in the
-- background ends.
pub data Event : Type 0 where
  arrives gives_up removes : ℕ → Event
  goes_on : ℕ → Ending → Event
  child_ends : Event

abbrev pub set_file : ℕ → Bool → (ℕ → Bool) → ℕ → Bool
set_file key b files k = if key == k then b else files k

module _ (watch : Watch) where
  unfoldable pub idle : ℕ → Serving watch.Channel
  idle limit = record {
    coordinator = new watch;
    admission = Admission.new limit;
    is_file = λ _. false;
    background = 0;
    pool = [];
  }

  unfoldable pub joined :
      ℕ
      → Serving watch.Channel
      → List Phase
      → HlsGenerationCoordinator watch.Channel × HlsGenerationLease
      → Serving watch.Channel
  joined key s others (c, start g) = record s { coordinator = c; pool = rechecking g ∷ others }
  joined key s others (c, wait w) = record s { coordinator = c; pool = waiting key w ∷ others }

  unfoldable pub admitted :
      HlsGenerationGuard
      → Serving watch.Channel
      → List Phase
      → Option TranscodeAdmissionState
      → Serving watch.Channel
  admitted g s others none = record s { pool = leaving unavailable g ∷ others }
  admitted g s others (some a) = record s { admission = a; pool = generating g ∷ others }

  unfoldable pub advance :
      Ending → Serving watch.Channel → List Phase → Phase → Serving watch.Channel
  advance ending s others (checking key) =
      if s.is_file key
      then record s { pool = finished served ∷ others }
      else record s { pool = joining key ∷ others }
  advance ending s others (joining key) =
      joined key s others (join_or_start watch key s.coordinator)
  advance ending s others (rechecking g) =
      if s.is_file g.key
      then record s { pool = leaving served g ∷ others }
      else record s { pool = admitting g ∷ others }
  advance ending s others (admitting g) = admitted g s others (try_acquire s.admission)
  advance completes s others (generating g) = record s {
    admission = drop_slot s.admission;
    is_file = set_file g.key true s.is_file;
    pool = leaving served g ∷ others;
  }
  advance publishes s others (generating g) = record s {
    is_file = set_file g.key true s.is_file;
    background = suc s.background;
    pool = leaving served g ∷ others;
  }
  advance fails s others (generating g) = record s {
    admission = drop_slot s.admission;
    pool = leaving failed g ∷ others;
  }
  advance ending s others (leaving reply g) = record s {
    coordinator = drop_guard watch g s.coordinator;
    pool = finished reply ∷ others;
  }
  advance ending s others (waiting key w) =
      if is_over watch w s.coordinator
      then record s {
        coordinator = drop_waiter watch w s.coordinator;
        pool = checking key ∷ others;
      }
      else s
  advance ending s others (finished reply) = s

  -- The future of a request is dropped, with what it holds.
  unfoldable pub cancel : Serving watch.Channel → List Phase → Phase → Serving watch.Channel
  cancel s others (checking key) = record s { pool = others }
  cancel s others (joining key) = record s { pool = others }
  cancel s others (rechecking g) = record s {
    coordinator = drop_guard watch g s.coordinator;
    pool = others;
  }
  cancel s others (admitting g) = record s {
    coordinator = drop_guard watch g s.coordinator;
    pool = others;
  }
  cancel s others (generating g) = record s {
    coordinator = drop_guard watch g s.coordinator;
    admission = drop_slot s.admission;
    pool = others;
  }
  cancel s others (leaving reply g) = record s {
    coordinator = drop_guard watch g s.coordinator;
    pool = others;
  }
  cancel s others (waiting key w) = record s {
    coordinator = drop_waiter watch w s.coordinator;
    pool = others;
  }
  cancel s others (finished reply) = record s { pool = others }

  unfoldable pub ended : Serving watch.Channel → ℕ → Serving watch.Channel
  ended s zero = s
  ended s (suc n) = record s { admission = drop_slot s.admission; background = n }

  unfoldable pub picked :
      ℕ
      → Serving watch.Channel
      → (List Phase → Phase → Serving watch.Channel)
      → Option Phase
      → Serving watch.Channel
  picked i s next none = s
  picked i s next (some p) = next (remove_at i s.pool) p

  unfoldable pub step : Serving watch.Channel → Event → Serving watch.Channel
  step s (arrives key) = record s { pool = checking key ∷ s.pool }
  step s (removes key) = record s { is_file = set_file key false s.is_file }
  step s child_ends = ended s s.background
  step s (goes_on i ending) = picked i s (advance ending s) (get_elem? s.pool i)
  step s (gives_up i) = picked i s (cancel s) (get_elem? s.pool i)

  unfoldable pub run : Serving watch.Channel → List Event → Serving watch.Channel
  run s [] = s
  run s (e ∷ es) = run (step s e) es
