-- ===== src/Sonos/System/Preservation.antt =====
-- The parts of a step and the invariant: no part indexes a queue out of range.
use harmonixia_server.Prelude.{
  ℕ, String, ◌<◌, ◌≡◌, refl, subst, tests, ◌||◌, List, length, is_empty, leb, get_elem?-lt,
  Bool-cases, Option-cases, inl, inr,
}
use harmonixia_server.Errors.{Outcome, ok, err, panic, Ensures}
use harmonixia_server.Sonos.Types.{
  SonosQueueEntry, ManagedSonosSession, ManagedSonosSessionSnapshot,
}
use harmonixia_server.Sonos.Changes.{Direction, next, previous, target_index}
use harmonixia_server.Sonos.Sessions.{insert, update_snapshot}
use harmonixia_server.Sonos.Sessions.Table.{get, Each, Held, get-Held, put-Each}
use harmonixia_server.Sonos.System.{
  SonosStart, start_managed_sonos_session, new_session, past_end, System,
}
use harmonixia_server.Sonos.System.Steps.{amend, insert_started, install_item, commit_item}
use harmonixia_server.Sonos.System.Invariant.{SessionGood, SystemGood, matching-Found}
use harmonixia_server.Sonos.System.Closures.{capture-Good}

-- The step is made, and what it leaves satisfies `P`.
abbrev pub Sound : (System → Type 0) → Outcome System → Type 0
Sound P (ok st) = P st
Sound P (err e) = ⊥
Sound P panic = ⊥

-- The index that a change of the item goes to is in the queue.
pub target_index-lt :
    (d : Direction) (seen : ManagedSonosSessionSnapshot)
    → seen.queue_index < length seen.queue
    → Ensures (λ i. i < length seen.queue) (target_index d seen)
unfolding target_index
target_index-lt next seen h = grind tests
target_index-lt previous seen h = grind tests

module _ (queue_of : ℕ → List SonosQueueEntry) where
  abbrev pub Good : System → Type 0
  Good = SystemGood queue_of

  pub with_sessions :
      (st : System) (table : List (String × ManagedSonosSession))
      → Good st
      → Each (SessionGood queue_of) table
      → Good (record st { sessions = table })
  with_sessions st table h t = record {
    sessions = t;
    seen = h.seen;
    rollbacks = h.rollbacks;
    replaced = h.replaced;
  }

  pub amend-Good :
      (change : ManagedSonosSession → ManagedSonosSession) (seen : ManagedSonosSessionSnapshot)
      (st : System)
      → Good st
      → ((s : ManagedSonosSession)
          → s.session_id ≡ seen.session_id
          → SessionGood queue_of s
          → SessionGood queue_of (change s))
      → Good (amend change seen st)
  unfolding amend update_snapshot
  amend-Good change seen st h keeps =
      with_sessions st _ h (elim (matching-Found queue_of seen st.sessions h.sessions) [
        | inl e ↦ rw (e, Each) h.sessions
        | inr f ↦
            rw (f.found, Each)
              (put-Each (SessionGood queue_of) seen.target_id _ st.sessions
                (keeps f.session f.named f.good) h.sessions)
      ])

  pub start-Good :
      (r : SonosStart)
      → r.queue ≡ queue_of r.session_id
      → Ensures (SessionGood queue_of) (start_managed_sonos_session r)
  unfolding start_managed_sonos_session new_session
  start-Good r e = elim (Bool-cases (is_empty r.queue || leb (length r.queue) r.queue_index)) [
    | inl out ↦ rw out tt
    | inr within ↦
        let b : r.queue_index < length r.queue = grind tests in
        let (entry, found) = get_elem?-lt r.queue r.queue_index b in
        rw within (
          rw found (elim (Bool-cases (past_end r.position_seconds entry.duration_seconds)) [
            | inl late ↦ rw late tt
            | inr early ↦ rw early (record { queued = e; indexed = b; link = refl })
          ]))
  ]

  insert-Good :
      (s : ManagedSonosSession) (st : System)
      → Good st
      → SessionGood queue_of s
      → Sound Good (insert_started st (ok s))
  unfolding insert_started insert
  insert-Good s st h g = elim (Option-cases (get s.target_id st.sessions)) [
    | inl e ↦
        rw (e, Sound)
          (with_sessions st _ h
            (put-Each (SessionGood queue_of) s.target_id s st.sessions g h.sessions))
    | inr (old, e) ↦
        rw (e, Sound)
          (record {
            sessions = put-Each (SessionGood queue_of) s.target_id s st.sessions g h.sessions;
            seen = h.seen;
            rollbacks = h.rollbacks;
            replaced = (
              subst (Held (SessionGood queue_of)) e
                  (get-Held (SessionGood queue_of) s.target_id st.sessions h.sessions),
              h.replaced,
            );
          })
  ]

  pub insert_started-Good :
      (st : System) (o : Outcome ManagedSonosSession)
      → Good st
      → Ensures (SessionGood queue_of) o
      → Sound Good (insert_started st o)
  unfolding insert_started
  insert_started-Good st (ok s) h g = insert-Good s st h g
  insert_started-Good st (err e) h g = h
  insert_started-Good st panic h g = absurd g

  -- A change of the item, on the session that the snapshot finds.
  pub commit_item-Good :
      (seen : ManagedSonosSessionSnapshot)
      (change : ManagedSonosSession → Outcome ManagedSonosSession) (st : System)
      → Good st
      → ((s : ManagedSonosSession)
          → s.session_id ≡ seen.session_id
          → SessionGood queue_of s
          → (s' : ManagedSonosSession) × (change s ≡ ok s') × SessionGood queue_of s')
      → Sound Good (commit_item seen change st)
  unfolding commit_item install_item
  commit_item-Good seen change st h keeps =
      elim (matching-Found queue_of seen st.sessions h.sessions) [
        | inl e ↦ rw (e, Sound) h
        | inr f ↦
            let (s', changed, good) = keeps f.session f.named f.good in
            rw (f.found, Sound)
              (rw (changed, Sound)
                (record {
                  sessions =
                      put-Each (SessionGood queue_of) seen.target_id s' st.sessions good h.sessions;
                  seen = h.seen;
                  rollbacks = (capture-Good queue_of seen f.session f.named f.good, h.rollbacks);
                  replaced = h.replaced;
                }))
      ]
