-- ===== src/Playback/Stream.antt =====
-- The event stream over histories: the sequence numbers, and who is shown which session.
use harmonixia_server.Prelude.{
  ℕ, zero, suc, ◌+◌, ◌-◌, ◌%◌, ◌^◌, ◌≤◌, ◌<◌, leb, ◌&&◌, true, Option, none, some, List, [], ◌∷◌,
  ◌++◌, ◌≡◌, refl, sym, arith, ◌∙◌, ap, length, inl, inr, All, All-append, ◌==◌, if◌then◌else◌,
  Bool-cases, ==_iff,
}
use harmonixia_server.Playback.Store.{
  AppEventAudience, everyone, account, ScreenPatch, playback_session_replaced, recovery_requested,
  AppEvent, Store, empty, publish_event, send, take_out, behind, sent_out,
}
use harmonixia_server.Playback.Calls.{perform, Action, call, publish, sends, step, run}
use harmonixia_server.Playback.Events.{
  visible_to, account_stream, AddressedPatch, Addressed, Extends, perform-Extends, publish-Extends,
}

-- How many of the events have the number `n`.
abbrev pub tally : ℕ → List AppEvent → ℕ
tally n [] = 0
tally n (e ∷ es) = (if e.sequence == n then 1 else 0) + tally n es

-- Each number up to the counter was given to one event, which is sent or pending, and no other number
-- was given to any; every event that shows a session is addressed to its account.
pub record StreamOk (st : Store) : Type 0 where
  pub numbered :
      (n : ℕ)
      → tally n st.sent + tally n st.pending ≡ (if leb 1 n && leb n st.event_sequence then 1 else 0)
  pub addressed : All Addressed st.sent
  pub to_address : All Addressed st.pending

tally-append :
    (n : ℕ) (es : List AppEvent) (e : AppEvent)
    → tally n (es ++ e ∷ []) ≡ tally n es + (if e.sequence == n then 1 else 0)
tally-append n [] e = omega arith
tally-append n (x ∷ es) e = omega (arith, tally-append n es e)

-- An event taken out is missing from the rest, and only that one.
abbrev TakenFrom : List AppEvent → Option (AppEvent × List AppEvent) → Type 0
TakenFrom es none = Unit {0}
TakenFrom es (some (e, rest)) =
    ((n : ℕ) → tally n es ≡ (if e.sequence == n then 1 else 0) + tally n rest)
    × (All Addressed es → Addressed e × All Addressed rest)

behind-TakenFrom :
    (x : AppEvent) (es : List AppEvent) (o : Option (AppEvent × List AppEvent))
    → TakenFrom es o
    → TakenFrom (x ∷ es) (behind x o)
behind-TakenFrom x es none h = tt
behind-TakenFrom x es (some (e, rest)) h =
    (λ n. omega (arith, h.0 n), λ a. let (own, others) = h.1 a.1 in (own, (a.0, others)))

take_out-TakenFrom : (i : ℕ) (es : List AppEvent) → TakenFrom es (take_out i es)
take_out-TakenFrom i [] = tt
take_out-TakenFrom zero (e ∷ es) = (λ n. refl, λ a. a)
take_out-TakenFrom (suc i) (e ∷ es) = behind-TakenFrom e es _ (take_out-TakenFrom i es)

send-StreamOk :
    (o : Option (AppEvent × List AppEvent)) (st : Store)
    → TakenFrom st.pending o
    → StreamOk st
    → StreamOk (sent_out o st)
send-StreamOk none st h v = v
send-StreamOk (some (e, rest)) st h v = record {
  numbered = λ n. omega (arith, tally-append n st.sent e, h.0 n, v.numbered n);
  addressed = All-append Addressed st.sent (e ∷ []) v.addressed ((h.1 v.to_address).0, tt);
  to_address = (h.1 v.to_address).1;
}

-- One number more.
next-numbered :
    (n total counter number : ℕ)
    → counter < 2 ^ 64 - 1
    → number ≡ (counter + 1) % 2 ^ 64
    → total ≡ (if leb 1 n && leb n counter then 1 else 0)
    → total + (if number == n then 1 else 0)
      ≡ (if leb 1 n && leb n ((counter + 1) % 2 ^ 64) then 1 else 0)
next-numbered n total counter number room e h = ground (arith, room, e, h)

Extends-StreamOk :
    (st st' : Store) → st.event_sequence < 2 ^ 64 - 1 → Extends st st' → StreamOk st → StreamOk st'
Extends-StreamOk st st' room (sent, inl (pending, counter)) v = record {
  numbered = λ n. rw (sent, pending, counter) (v.numbered n);
  addressed = rw sent v.addressed;
  to_address = rw pending v.to_address;
}
Extends-StreamOk st st' room (sent, inr (e, pending, counter, number, own)) v = record {
  numbered = λ n.
      rw (sent, pending, counter, tally-append n st.pending e)
        (omega (arith, next-numbered n _ st.event_sequence e.sequence room number (v.numbered n)));
  addressed = rw sent v.addressed;
  to_address = rw pending (All-append Addressed st.pending (e ∷ []) v.to_address (own, tt));
}

step-StreamOk :
    (st : Store) (a : Action) → st.event_sequence < 2 ^ 64 - 1 → StreamOk st → StreamOk (step st a)
unfolding step send
step-StreamOk st (call c k) room v = Extends-StreamOk st _ room (perform-Extends c k st) v
step-StreamOk st (publish now event resource action entity) room v =
    Extends-StreamOk st _ room (publish-Extends now event resource action entity st) v
step-StreamOk st (sends i) room v =
    send-StreamOk (take_out i st.pending) st (take_out-TakenFrom i st.pending) v

Extends-counter : (st st' : Store) → Extends st st' → st'.event_sequence ≤ st.event_sequence + 1
Extends-counter st st' (sent, inl (pending, counter)) = omega (arith, counter)
Extends-counter st st' (sent, inr (e, pending, counter, number, own)) = omega (arith, counter)

sent_out-counter :
    (o : Option (AppEvent × List AppEvent)) (st : Store)
    → (sent_out o st).event_sequence ≡ st.event_sequence
sent_out-counter none st = refl
sent_out-counter (some (e, rest)) st = refl

-- A step raises the counter by at most one.
step-counter : (st : Store) (a : Action) → (step st a).event_sequence ≤ st.event_sequence + 1
unfolding step send
step-counter st (call c k) = Extends-counter st (perform c k st).0 (perform-Extends c k st)
step-counter st (publish now event resource action entity) =
    Extends-counter st (publish_event now event resource action entity st)
      (publish-Extends now event resource action entity st)
step-counter st (sends i) = omega (arith, sent_out-counter (take_out i st.pending) st)

run-StreamOk :
    (st : Store) (as' : List Action)
    → st.event_sequence + length as' < 2 ^ 64
    → StreamOk st
    → StreamOk (run st as')
unfolding run
run-StreamOk st [] room v = v
run-StreamOk st (a ∷ as') room v =
    run-StreamOk (step st a) as' (omega (arith, step-counter st a))
      (step-StreamOk st a (omega arith) v)

-- After any history of fewer than 2^64 calls, other events, and sendings of pending events in any order:
-- each number from 1 to the counter belongs to exactly one event, which is sent or pending, and no
-- event has another number, so none is sent twice and none is lost; and every event that shows a
-- session is addressed to the account whose session it is.
pub run-empty-StreamOk :
    (epoch : ℕ) (as' : List Action) → length as' < 2 ^ 64 → StreamOk (run (empty epoch) as')
unfolding empty
run-empty-StreamOk epoch as' room =
    run-StreamOk (empty epoch) as' (omega arith)
      (record { numbered = λ n. ground arith; addressed = tt; to_address = tt })

-- An event in the stream of `viewer` shows no session but that of `viewer`.
abbrev pub OwnSession : ℕ → ScreenPatch → Type 0
OwnSession viewer (playback_session_replaced a r) = a ≡ viewer
OwnSession viewer (recovery_requested r x) = Unit {0}

own_session :
    (viewer : ℕ) (p : ScreenPatch) (audience : AppEventAudience)
    → AddressedPatch p audience
    → visible_to viewer audience ≡ true
    → OwnSession viewer p
unfolding visible_to
own_session viewer (recovery_requested r x) audience h v = tt
own_session viewer (playback_session_replaced a r) everyone h v = cc
own_session viewer (playback_session_replaced a r) (account b) h v =
    account_injective h ∙ (==_iff b viewer).0 v
  where
    id_of : AppEventAudience → ℕ
    id_of everyone = 0
    id_of (account n) = n

    account_injective : account b ≡ account a → a ≡ b
    account_injective e = ap id_of (sym e)

stream-OwnSession :
    (viewer : ℕ) (es : List AppEvent)
    → All Addressed es
    → All (λ e. OwnSession viewer e.patch) (account_stream viewer es)
unfolding account_stream
stream-OwnSession viewer [] h = tt
stream-OwnSession viewer (e ∷ es) h = elim (Bool-cases (visible_to viewer e.audience)) [
  | inl v ↦ rw v (own_session viewer e.patch e.audience h.0 v, stream-OwnSession viewer es h.1)
  | inr v ↦ rw v (stream-OwnSession viewer es h.1)
]

-- After any history of fewer than 2^64 calls, other events and sendings, the stream of an account shows no
-- playback session but its own.
pub account_stream-OwnSession :
    (epoch viewer : ℕ) (as' : List Action)
    → length as' < 2 ^ 64
    → All (λ e. OwnSession viewer e.patch) (account_stream viewer (run (empty epoch) as').sent)
account_stream-OwnSession epoch viewer as' room =
    stream-OwnSession viewer _ (run-empty-StreamOk epoch as' room).addressed
