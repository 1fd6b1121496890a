-- ===== src/Templog/Replay/Examples.antt =====
-- A log of two samples (tools/templog-bridge/replay.ts).
use semantos_edge.Base.{ℕ, [], ◌∷◌, All, none, arith}
use semantos_edge.Base.Int.{pos}
use mathlib.Core.List.{Perm}
use semantos_edge.Templog.Text.{codes}
use semantos_edge.Templog.Store.Records.{receipt}
use semantos_edge.Templog.Bridge.Line.{PostSample}
use semantos_edge.Templog.Replay.{ReplayLog, bodies_of}
use semantos_edge.Templog.Replay.Bodies.{posted, IsSorted, IsBody, bodies_of-posted}

abbrev taken : ℕ → PostSample
taken q = record {
  seq = q;
  boot_id = 1;
  uptime_s = 60;
  centi_c = pos 2000;
  flags = 0;
  t_unix = none;
  anchor = receipt;
}

abbrev two_samples : ReplayLog
two_samples = record {
  mac = codes "02:00:5e:c0:1d:01";
  log_id = codes "00000001";
  lost_through = 0;
  by_seq = (5, taken 5) ∷ (4, taken 4) ∷ [];
}

bodies_of-posted_example :
    Perm (posted (bodies_of 1 two_samples)) (taken 5 ∷ taken 4 ∷ [])
    × IsSorted (posted (bodies_of 1 two_samples))
    × All (IsBody 1 two_samples) (bodies_of 1 two_samples)
bodies_of-posted_example = bodies_of-posted 1 two_samples (omega arith)
