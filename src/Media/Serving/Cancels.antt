-- ===== src/Media/Serving/Cancels.antt =====
-- A request of src/api/media.rs that its client gives up leaves the pool sound.
use harmonixia_server.Prelude.{ℕ, List, none, some, ◌≡◌, get_elem?, arith}
use harmonixia_server.Transcode.Admission.{drop_slot}
use harmonixia_server.Transcode.Generation.{Watch, HlsGenerationGuard, start, drop_guard}
use harmonixia_server.Transcode.Generation.Leases.{remove_at}
use harmonixia_server.Media.Serving.{
  Phase, checking, joining, rechecking, admitting, generating, leaving, waiting, finished, Serving,
  cancel,
}
use harmonixia_server.Media.Serving.Pool.{running}
use harmonixia_server.Media.Serving.Invariant.{Sound, Open, opened, alone, dropped, unwaited}

module _ (watch : Watch) where
  -- A guard goes with its request.
  abandoned :
      (limit : ℕ) (s : Serving watch.Channel) (others : List Phase) (g : HlsGenerationGuard)
      → Open watch limit s others (some (start g)) (running others)
      → Sound watch limit
          (record s { coordinator = drop_guard watch g s.coordinator; pool = others })
  abandoned limit s others g o = record {
    coherent = dropped watch limit s others g _ o;
    absent = o.absent;
    used = o.used;
    limited = o.limited;
    bounded = o.bounded;
  }

  departed :
      (limit : ℕ) (s : Serving watch.Channel) (others : List Phase)
      → Open watch limit s others none (running others)
      → Sound watch limit (record s { pool = others })
  departed limit s others o = record {
    coherent = alone watch limit s others _ o;
    absent = o.absent;
    used = o.used;
    limited = o.limited;
    bounded = o.bounded;
  }

  pub cancel-Sound :
      (limit : ℕ) (s : Serving watch.Channel) (i : ℕ) (p : Phase)
      → Sound watch limit s
      → get_elem? s.pool i ≡ some p
      → Sound watch limit (cancel watch s (remove_at i s.pool) p)
  unfolding cancel
  cancel-Sound limit s i (checking key) v h =
      departed limit s _ (opened watch limit s i (checking key) v h).0
  cancel-Sound limit s i (joining key) v h =
      departed limit s _ (opened watch limit s i (joining key) v h).0
  cancel-Sound limit s i (rechecking g) v h =
      abandoned limit s _ g (opened watch limit s i (rechecking g) v h).0
  cancel-Sound limit s i (admitting g) v h =
      abandoned limit s _ g (opened watch limit s i (admitting g) v h).0
  cancel-Sound limit s i (generating g) v h =
      let (o, _) = opened watch limit s i (generating g) v h in
      record {
        coherent = dropped watch limit s (remove_at i s.pool) g _ o;
        absent = o.absent;
        used = unfold drop_slot in omega (arith, o.used);
        limited = unfold drop_slot in o.limited;
        bounded = unfold drop_slot in omega (arith, o.bounded);
      }
  cancel-Sound limit s i (leaving reply g) v h =
      abandoned limit s _ g (opened watch limit s i (leaving reply g) v h).0
  cancel-Sound limit s i (waiting key w) v h =
      let (o, _) = opened watch limit s i (waiting key w) v h in
      record {
        coherent = unwaited watch limit s (remove_at i s.pool) w _ o;
        absent = o.absent;
        used = o.used;
        limited = o.limited;
        bounded = o.bounded;
      }
  cancel-Sound limit s i (finished reply) v h =
      departed limit s _ (opened watch limit s i (finished reply) v h).0
