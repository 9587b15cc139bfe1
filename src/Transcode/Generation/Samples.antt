-- ===== src/Transcode/Generation/Samples.antt =====
-- A channel that counts its ends and keeps its value while nobody is there to receive another.
use harmonixia_server.Prelude.{ℕ, ◌+◌, ◌-◌, Bool, false, ◌⊎◌, ◌≡◌, refl, arith, if◌then◌else◌, ltb}
use harmonixia_server.Transcode.Generation.{Watch}

pub record Ends : Type 0 where
  pub value : Bool
  pub senders : ℕ
  pub receivers : ℕ

abbrev pub taken : Bool → Ends → Ends
taken b e = if ltb 0 e.receivers then record e { value = b } else e

pub senders-taken : (b : Bool) (e : Ends) → (taken b e).senders ≡ e.senders
senders-taken b e = ground arith

pub value-taken : (b : Bool) (e : Ends) → ((taken b e).value ≡ b) ⊎ ((taken b e).value ≡ e.value)
value-taken b e = ground arith

abbrev pub counted : Watch
counted = record {
  Channel = Ends;
  channel = record { value = false; senders = 1; receivers = 0 };
  clone_sender = λ e. record e { senders = e.senders + 1 };
  drop_sender = λ e. record e { senders = e.senders - 1 };
  subscribe = λ e. record e { receivers = e.receivers + 1 };
  drop_receiver = λ e. record e { receivers = e.receivers - 1 };
  send = taken;
  borrow = λ e. e.value;
  senders = λ e. e.senders;
  borrow-channel = refl;
  senders-channel = refl;
  borrow-clone_sender = λ e. refl;
  senders-clone_sender = λ e. refl;
  borrow-drop_sender = λ e. refl;
  senders-drop_sender = λ e. refl;
  borrow-subscribe = λ e. refl;
  senders-subscribe = λ e. refl;
  borrow-drop_receiver = λ e. refl;
  senders-drop_receiver = λ e. refl;
  senders-send = senders-taken;
  borrow-send = value-taken;
}
