-- ===== src/Media/Serving/Steps.antt =====
-- What one request of src/api/media.rs does keeps the pool sound.
use harmonixia_server.Prelude.{
  ℕ, ◌^◌, ◌<◌, false, List, ◌∷◌, none, some, leb, ◌≡◌, refl, ap, ◌∙◌, get_elem?, arith, Bool-cases,
  Option-cases, inl, inr,
}
use harmonixia_server.Transcode.Admission.{try_acquire, drop_slot}
use harmonixia_server.Transcode.Generation.{
  Watch, HlsGenerationGuard, start, join_or_start, lease_for, is_over,
}
use harmonixia_server.Transcode.Generation.Leases.{remove_at, generation_for}
use harmonixia_server.Transcode.Generation.Coherence.{waiter-Coherent, guard-Coherent}
use harmonixia_server.Media.Serving.{
  Phase, checking, joining, rechecking, admitting, generating, leaving, waiting, finished, served,
  Ending, fails, completes, publishes, Serving, joined, admitted, advance,
}
use harmonixia_server.Media.Serving.Pool.{
  lease_of, leases_of, is_generating, running, Absent, Absent-set_file,
}
use harmonixia_server.Media.Serving.Invariant.{
  Sound, Open, opened, none_left, alone, kept, dropped, unwaited,
}

module _ (watch : Watch) where
  -- A request that holds no lease, or goes on holding its guard, joins the pool again.
  unleased :
      (limit : ℕ) (s : Serving watch.Channel) (others : List Phase) (p : Phase)
      → Open watch limit s others none (running others)
      → lease_of p ≡ none
      → is_generating p ≡ false
      → Absent s.is_file p
      → Sound watch limit (record s { pool = p ∷ others })
  unleased limit s others p o l q a = record {
    coherent = rw l (alone watch limit s others _ o);
    absent = (a, o.absent);
    used = rw q o.used;
    limited = o.limited;
    bounded = o.bounded;
  }

  guarded :
      (limit : ℕ) (s : Serving watch.Channel) (others : List Phase) (p : Phase)
      (g : HlsGenerationGuard)
      → Open watch limit s others (some (start g)) (running others)
      → lease_of p ≡ some (start g)
      → is_generating p ≡ false
      → Absent s.is_file p
      → Sound watch limit (record s { pool = p ∷ others })
  guarded limit s others p g o l q a = record {
    coherent = rw l (kept watch limit s others g _ o);
    absent = (a, o.absent);
    used = rw q o.used;
    limited = o.limited;
    bounded = o.bounded;
  }

  joined-Sound :
      (limit : ℕ) (s : Serving watch.Channel) (others : List Phase) (key : ℕ)
      → Open watch limit s others none (running others)
      → Sound watch limit (joined watch key s others (join_or_start watch key s.coordinator))
  unfolding joined join_or_start lease_for
  joined-Sound limit s others key o =
      let c = alone watch limit s others _ o in
      elim (Option-cases (generation_for key (leases_of others))) [
        | inl e ↦
            rw (c.indexed key, e)
              (record {
                coherent = guard-Coherent watch s.coordinator (leases_of others) key c e;
                absent = (tt, o.absent);
                used = o.used;
                limited = o.limited;
                bounded = o.bounded;
              })
        | inr (n, e) ↦
            rw (c.indexed key, e)
              (record {
                coherent = waiter-Coherent watch s.coordinator (leases_of others) key n c e;
                absent = (tt, o.absent);
                used = o.used;
                limited = o.limited;
                bounded = o.bounded;
              })
      ]

  admitted-Sound :
      (limit : ℕ) (s : Serving watch.Channel) (others : List Phase) (g : HlsGenerationGuard)
      → limit < 2 ^ 32
      → Open watch limit s others (some (start g)) (running others)
      → s.is_file g.key ≡ false
      → Sound watch limit (admitted watch g s others (try_acquire s.admission))
  unfolding admitted try_acquire
  admitted-Sound limit s others g fits o h =
      elim (Bool-cases (leb s.admission.limit s.admission.in_use)) [
        | inl e ↦ rw e (record {
          coherent = kept watch limit s others g _ o;
          absent = (tt, o.absent);
          used = o.used;
          limited = o.limited;
          bounded = o.bounded;
        })
        | inr e ↦ rw e (record {
          coherent = kept watch limit s others g _ o;
          absent = (h, o.absent);
          used = omega (arith, below e, fits, o.used, o.bounded, o.limited);
          limited = o.limited;
          bounded = omega (arith, below e, fits, o.limited);
        })
      ]
    where
      below :
          leb s.admission.limit s.admission.in_use ≡ false → s.admission.in_use < s.admission.limit
      below e = ground (arith, e)

  pub advance-Sound :
      (limit : ℕ) (s : Serving watch.Channel) (i : ℕ) (ending : Ending) (p : Phase)
      → limit < 2 ^ 32
      → Sound watch limit s
      → get_elem? s.pool i ≡ some p
      → Sound watch limit (advance watch ending s (remove_at i s.pool) p)
  unfolding advance
  advance-Sound limit s i ending (checking key) fits v h =
      let (o, _) = opened watch limit s i (checking key) v h in
      elim (Bool-cases (s.is_file key)) [
        | inl e ↦ rw e (unleased limit s (remove_at i s.pool) (finished served) o refl refl tt)
        | inr e ↦ rw e (unleased limit s (remove_at i s.pool) (joining key) o refl refl tt)
      ]
  advance-Sound limit s i ending (joining key) fits v h =
      joined-Sound limit s (remove_at i s.pool) key (opened watch limit s i (joining key) v h).0
  advance-Sound limit s i ending (rechecking g) fits v h =
      let (o, _) = opened watch limit s i (rechecking g) v h in
      elim (Bool-cases (s.is_file g.key)) [
        | inl e ↦ rw e (guarded limit s (remove_at i s.pool) (leaving served g) g o refl refl tt)
        | inr e ↦ rw e (guarded limit s (remove_at i s.pool) (admitting g) g o refl refl e)
      ]
  advance-Sound limit s i ending (admitting g) fits v h =
      let (o, absent) = opened watch limit s i (admitting g) v h in
      admitted-Sound limit s (remove_at i s.pool) g fits o absent
  advance-Sound limit s i completes (generating g) fits v h =
      let (o, _) = opened watch limit s i (generating g) v h in
      let (j, at, same) = o.taken in
      record {
        coherent = kept watch limit s (remove_at i s.pool) g _ o;
        absent = (
          tt,
          Absent-set_file s.is_file g.key (remove_at i s.pool)
              (ap (generation_for g.key) same
                ∙ none_left watch s.coordinator.allocated j g o.before o.coherent.exclusive at)
              o.absent,
        );
        used = unfold drop_slot in omega (arith, o.used);
        limited = unfold drop_slot in o.limited;
        bounded = unfold drop_slot in omega (arith, o.bounded);
      }
  advance-Sound limit s i publishes (generating g) fits v h =
      let (o, _) = opened watch limit s i (generating g) v h in
      let (j, at, same) = o.taken in
      record {
        coherent = kept watch limit s (remove_at i s.pool) g _ o;
        absent = (
          tt,
          Absent-set_file s.is_file g.key (remove_at i s.pool)
              (ap (generation_for g.key) same
                ∙ none_left watch s.coordinator.allocated j g o.before o.coherent.exclusive at)
              o.absent,
        );
        used = omega (arith, o.used);
        limited = o.limited;
        bounded = o.bounded;
      }
  advance-Sound limit s i fails (generating g) fits v h =
      let (o, _) = opened watch limit s i (generating g) v h in
      record {
        coherent = kept watch limit s (remove_at i s.pool) g _ o;
        absent = (tt, o.absent);
        used = unfold drop_slot in omega (arith, o.used);
        limited = unfold drop_slot in o.limited;
        bounded = unfold drop_slot in omega (arith, o.bounded);
      }
  advance-Sound limit s i ending (leaving reply g) fits v h =
      let (o, _) = opened watch limit s i (leaving reply g) v h in
      record {
        coherent = dropped watch limit s (remove_at i s.pool) g _ o;
        absent = (tt, o.absent);
        used = o.used;
        limited = o.limited;
        bounded = o.bounded;
      }
  advance-Sound limit s i ending (waiting key w) fits v h =
      let (o, _) = opened watch limit s i (waiting key w) v h in
      elim (Bool-cases (is_over watch w s.coordinator)) [
        | inl e ↦ rw e (record {
          coherent = unwaited watch limit s (remove_at i s.pool) w _ o;
          absent = (tt, o.absent);
          used = o.used;
          limited = o.limited;
          bounded = o.bounded;
        })
        | inr e ↦ rw e v
      ]
  advance-Sound limit s i ending (finished reply) fits v h = v
