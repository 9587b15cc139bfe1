-- ===== src/Transcode/Admission.antt =====
-- src/transcode.rs, `TranscodeAdmission` and `TranscodeSlot`: the counter that admits transcodes.
-- Each method runs under one mutex, so it is one atomic step. A slot is a value of its holder and is
-- dropped once: the system below keeps the holders of the live slots beside the counter.
pub mod Bounds
use harmonixia_server.Prelude.{
  ℕ, zero, suc, ◌+◌, ◌-◌, ◌%◌, ◌^◌, Bool, List, [], ◌∷◌, Option, none, some, leb, ◌==◌,
  if◌then◌else◌,
}

pub record TranscodeAdmissionState : Type 0 where
  pub limit : ℕ  -- u32
  pub in_use : ℕ  -- u32

pub record TranscodeSlotUsage : Type 0 where
  pub limit : ℕ
  pub in_use : ℕ
  pub available : ℕ

abbrev pub u32 : ℕ → ℕ
u32 n = n % 2 ^ 32

unfoldable pub new : ℕ → TranscodeAdmissionState
new limit = record { limit = limit; in_use = 0 }

unfoldable pub set_limit : ℕ → TranscodeAdmissionState → TranscodeAdmissionState
set_limit limit s = record s { limit = limit }

-- `saturating_sub` is `-`, which stops at 0.
unfoldable pub usage : TranscodeAdmissionState → TranscodeSlotUsage
usage s = record { limit = s.limit; in_use = s.in_use; available = s.limit - s.in_use }

-- `none` is `TranscodeCapacityExhausted`; otherwise the state with one more slot in use.
unfoldable pub try_acquire : TranscodeAdmissionState → Option TranscodeAdmissionState
try_acquire s =
    if leb s.limit s.in_use then none else some (record s { in_use = u32 (s.in_use + 1) })

-- `Drop` of a slot.
unfoldable pub drop_slot : TranscodeAdmissionState → TranscodeAdmissionState
drop_slot s = record s { in_use = s.in_use - 1 }

-- The counter and the holders of the slots that were handed out and not dropped.
pub record System : Type 0 where
  pub admission : TranscodeAdmissionState
  pub holders : List ℕ

pub data Event : Type 0 where
  acquires drops limits : ℕ → Event

unfoldable pub start : ℕ → System
start limit = record { admission = new limit; holders = [] }

-- A holder that has a slot gives back one of its own.
abbrev pub release : ℕ → List ℕ → Option (List ℕ)
release who [] = none
release who (h ∷ hs) =
    if h == who
    then some hs
    else elim (release who hs) [ none ↦ none | some rest ↦ some (h ∷ rest) ]

admit : System → ℕ → Option TranscodeAdmissionState → System
admit s who none = s
admit s who (some a) = record { admission = a; holders = who ∷ s.holders }

give_back : System → Option (List ℕ) → System
give_back s none = s
give_back s (some rest) = record { admission = drop_slot s.admission; holders = rest }

unfoldable pub step : System → Event → System
unfolding admit give_back
step s (acquires who) = admit s who (try_acquire s.admission)
step s (drops who) = give_back s (release who s.holders)
step s (limits n) = record s { admission = set_limit n s.admission }

unfoldable pub run : System → List Event → System
run s [] = s
run s (e ∷ es) = run (step s e) es
