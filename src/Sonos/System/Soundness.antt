-- ===== src/Sonos/System/Soundness.antt =====
-- Every step keeps the invariant, and no step indexes a queue out of range.
use harmonixia_server.Prelude.{
  ℕ, zero, suc, String, ◌<◌, ◌≡◌, refl, subst, sym, ◌∙◌, ap, Bool, true, false, not, ◌&&◌, List, [],
  ◌∷◌, All, length, get_elem?, Option-cases, inl, inr, if◌then◌else◌,
}
use harmonixia_server.Errors.{Outcome, ok, err, panic, ◌>>=◌, Ensures}
use harmonixia_server.Sonos.Types.{
  SonosQueueEntry, ManagedSonosSession, ManagedSonosSessionSnapshot,
}
use harmonixia_server.Sonos.Session.{snapshot, is_active, reconnect_deadline_elapsed}
use harmonixia_server.Sonos.Changes.{command_refused, ItemChange, restore}
use harmonixia_server.Sonos.Sessions.{insert, remove, remove_snapshot, snapshot_of}
use harmonixia_server.Sonos.Sessions.Table.{get, Each, Held, get-Held, put-Each, take_out-Each}
use harmonixia_server.Sonos.System.{System, empty}
use harmonixia_server.Sonos.System.Steps.{
  Event, reads, removes, starts, puts_back, rolls_back, goes_on, Task, verifies, misses, beats,
  advances, expires, obeys, changes, begins_item, resumes, ends_resume, change_item, resume_item,
  chosen, next_item_generation, go_on, step, run,
}
use harmonixia_server.Sonos.System.Invariant.{
  SessionGood, SnapshotGood, RollbackGood, matching-Found,
}
use harmonixia_server.Sonos.System.Closures.{
  advance_position-Good, verified-Good, heartbeat-Good, commanded-Good, item_started-Good,
  resumed-Good, reconnected-Good, miss-Good, restore-Good, changed_item-Good,
}
use harmonixia_server.Sonos.System.Preservation.{
  Sound, target_index-lt, Good, with_sessions, amend-Good, start-Good, insert_started-Good,
  commit_item-Good,
}

-- What the program is relied on for: the identifier drawn for a session is the name of its queue.
unfoldable pub Proper : (ℕ → List SonosQueueEntry) → Event → Type 0
Proper queue_of (starts r) = r.queue ≡ queue_of r.session_id
Proper queue_of _ = Unit

module _ (queue_of : ℕ → List SonosQueueEntry) where
  change_item-Good :
      (seen : ManagedSonosSessionSnapshot) (c : ItemChange) (st : System) (o : Outcome ℕ)
      → Good queue_of st
      → SnapshotGood queue_of seen
      → Ensures (λ i. i < length seen.queue) o
      → Sound (Good queue_of) (change_item seen c st o)
  unfolding change_item
  change_item-Good seen c st panic h g b = absurd b
  change_item-Good seen c st (err e) h g b = h
  change_item-Good seen c st (ok i) h g b = commit_item-Good queue_of seen _ st h λ s named good.
      changed_item-Good queue_of
        (record c { index = i; item_generation = next_item_generation seen }) s
        (subst (λ q. i < length q) (g.queued ∙ ap queue_of (sym named) ∙ sym good.queued) b) good

  resume_item-Good :
      (seen : ManagedSonosSessionSnapshot) (c : ItemChange) (st : System)
      → Good queue_of st
      → Sound (Good queue_of) (resume_item seen c st)
  unfolding resume_item
  resume_item-Good seen c st h = elim (Option-cases (get_elem? seen.queue seen.queue_index)) [
    | inl e ↦ rw (e, Sound) h
    | inr (entry, e) ↦
        rw (e, Sound)
          (commit_item-Good queue_of seen _ st h
            λ s named good. (_, refl, resumed-Good queue_of seen _ s good))
  ]

  expire-Good :
      (seen : ManagedSonosSessionSnapshot) (st : System)
      → Good queue_of st
      → Good queue_of (record st { sessions = (remove_snapshot seen st.sessions).0 })
  unfolding remove_snapshot
  expire-Good seen st h =
      with_sessions queue_of st _ h (elim (matching-Found queue_of seen st.sessions h.sessions) [
        | inl e ↦ rw (e, Each) h.sessions
        | inr f ↦
            rw (f.found, Each)
              (take_out-Each (SessionGood queue_of) seen.target_id st.sessions h.sessions)
      ])

  -- A step behind a test, or none.
  guarded-Good :
      (b : Bool) (o o' : Outcome System)
      → Sound (Good queue_of) o
      → Sound (Good queue_of) o'
      → Sound (Good queue_of) (if b then o else o')
  guarded-Good true o o' h h' = h
  guarded-Good false o o' h h' = h'

  go_on-Good :
      (task : Task) (st : System) (seen : ManagedSonosSessionSnapshot)
      → Good queue_of st
      → SnapshotGood queue_of seen
      → Sound (Good queue_of) (go_on task st seen)
  unfolding go_on
  go_on-Good (verifies target now) st seen h g =
      guarded-Good (is_active seen.status) _ _
        (amend-Good queue_of _ seen st h λ s _. verified-Good queue_of seen target now s) h
  go_on-Good (misses now) st seen h g =
      amend-Good queue_of _ seen st h λ s _. miss-Good queue_of now s
  go_on-Good (beats now) st seen h g =
      amend-Good queue_of _ seen st h λ s _. heartbeat-Good queue_of now s
  go_on-Good (advances now) st seen h g =
      amend-Good queue_of _ seen st h λ s _. advance_position-Good queue_of now s
  go_on-Good (expires now) st seen h g =
      guarded-Good (reconnect_deadline_elapsed seen now) _ _ (expire-Good seen st h) h
  go_on-Good (obeys c latest target now) st seen h g =
      guarded-Good (is_active seen.status && not (command_refused c seen)) _ _
        (amend-Good queue_of _ seen st h λ s _. commanded-Good queue_of c latest target now s) h
  go_on-Good (changes d c) st seen h g =
      guarded-Good (is_active seen.status) _ _
        (change_item-Good seen c st _ h g (target_index-lt d seen g.indexed)) h
  go_on-Good (begins_item latest target now) st seen h g =
      amend-Good queue_of _ seen st h λ s _. item_started-Good queue_of latest target now s
  go_on-Good (resumes c) st seen h g =
      guarded-Good (is_active seen.status) _ _ h (resume_item-Good seen c st h)
  go_on-Good (ends_resume latest target now) st seen h g =
      guarded-Good (is_active seen.status) _ _ h
        (amend-Good queue_of _ seen st h λ s _. reconnected-Good queue_of seen latest target now s)

  -- A step with something that was kept: every kept thing is good.
  chosen-Good {ℓ} :
      {A : Type ℓ} (P : A → Type 0) (st : System) (go : A → Outcome System) (kept : List A) (i : ℕ)
      → Good queue_of st
      → All P kept
      → ((a : A) → P a → Sound (Good queue_of) (go a))
      → Sound (Good queue_of) (chosen st go (get_elem? kept i))
  chosen-Good P st go [] i h all go-Good = h
  chosen-Good P st go (a ∷ kept) zero h all go-Good = go-Good a all.0
  chosen-Good P st go (a ∷ kept) (suc i) h all go-Good = chosen-Good P st go kept i h all.1 go-Good

  read_session-Good :
      (target_id : String) (st : System)
      → Good queue_of st
      → Sound (Good queue_of) (step (reads target_id) st)
  unfolding step snapshot_of snapshot
  read_session-Good target_id st h = elim (Option-cases (get target_id st.sessions)) [
    | inl e ↦ rw (e, Sound) h
    | inr (s, e) ↦
        let g =
          subst (Held (SessionGood queue_of)) e
            (get-Held (SessionGood queue_of) target_id st.sessions h.sessions) in
        rw (e, Sound)
          (record {
            sessions = h.sessions;
            seen = (record { queued = g.queued; indexed = g.indexed }, h.seen);
            rollbacks = h.rollbacks;
            replaced = h.replaced;
          })
  ]

  put_back-Good :
      (s : ManagedSonosSession) (st : System)
      → Good queue_of st
      → SessionGood queue_of s
      → Good queue_of (record st { sessions = (insert s st.sessions).0 })
  unfolding insert
  put_back-Good s st h g =
      with_sessions queue_of st _ h
        (put-Each (SessionGood queue_of) s.target_id s st.sessions g h.sessions)

  remove-Good :
      (target_id : String) (st : System)
      → Good queue_of st
      → Good queue_of (record st { sessions = (remove target_id st.sessions).0 })
  unfolding remove
  remove-Good target_id st h =
      with_sessions queue_of st _ h
        (take_out-Each (SessionGood queue_of) target_id st.sessions h.sessions)

  step-Good :
      (e : Event) (st : System)
      → Proper queue_of e
      → Good queue_of st
      → Sound (Good queue_of) (step e st)
  unfolding step Proper
  step-Good (reads target_id) st p h = read_session-Good target_id st h
  step-Good (removes target_id) st p h = remove-Good target_id st h
  step-Good (starts r) st p h = insert_started-Good queue_of st _ h (start-Good queue_of r p)
  step-Good (puts_back i) st p h =
      chosen-Good (SessionGood queue_of) st _ st.replaced i h h.replaced
        λ s g. put_back-Good s st h g
  step-Good (rolls_back i) st p h =
      chosen-Good (RollbackGood queue_of) st _ st.rollbacks i h h.rollbacks λ (seen, r) g.
        amend-Good queue_of (restore r) seen st h λ s e. restore-Good queue_of seen r s g e
  step-Good (goes_on i task) st p h =
      chosen-Good (SnapshotGood queue_of) st _ st.seen i h h.seen
        λ seen g. go_on-Good task st seen h g

  continued :
      (es : List Event) (o : Outcome System)
      → ((st : System)
          → Good queue_of st
          → (st' : System) × (run es st ≡ ok st') × Good queue_of st')
      → Sound (Good queue_of) o
      → (st' : System) × ((o >>= run es) ≡ ok st') × Good queue_of st'
  continued es (ok st) k h = k st h
  continued es (err _) k h = absurd h
  continued es panic k h = absurd h

  run-Good :
      (es : List Event) (st : System)
      → All (Proper queue_of) es
      → Good queue_of st
      → (st' : System) × (run es st ≡ ok st') × Good queue_of st'
  unfolding run
  run-Good [] st p h = (st, refl, h)
  run-Good (e ∷ es) st p h =
      continued es (step e st) (λ st' h'. run-Good es st' p.1 h') (step-Good e st p.0 h)

  -- However the tasks interleave, from the empty table on, and as long as no two sessions get one
  -- identifier with different queues: every step is made (none indexes a queue out of range, which
  -- would poison the table), every session is at an entry of its queue, and it has a reconnect
  -- deadline exactly while its player is lost, when it stands still with no loss in doubt.
  pub run-empty-Good :
      (es : List Event)
      → All (Proper queue_of) es
      → (st : System) × (run es empty ≡ ok st) × Good queue_of st
  unfolding empty
  run-empty-Good es p =
      run-Good es empty p (record { sessions = tt; seen = tt; rollbacks = tt; replaced = tt })
