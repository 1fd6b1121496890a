-- ===== src/Templog/Replay.antt =====
-- `replayBodies` of tools/templog-bridge/replay.ts: the bodies that the stored samples are posted in
-- again.
pub mod Bodies
mod Examples
use semantos_edge.Base.{
  ℕ, zero, suc, ◌+◌, max, Bool, Option, none, some, List, [], ◌∷◌, ◌++◌, map, ltb, leb, ◌==◌,
  if◌then◌else◌, length, take, drop,
}
use semantos_edge.Base.Map.{Str, get, put}
use semantos_edge.Templog.Store.Records.{
  SampleRecord, LossRecord, JournalRecord, start, sample, loss,
}
use semantos_edge.Templog.Bridge.Line.{PostSample, PostBody, post_sample}

-- A line: blank, one that JSON.parse rejects, a record as the store writes it, or an object of another
-- kind.
pub data ReplayLine : Type 0 where
  blank unreadable foreign : ReplayLine
  stored : JournalRecord → ReplayLine

-- The samples of a log by their seq, in the order of their insertion.
pub record ReplayLog : Type 0 where
  pub mac : Str
  pub log_id : Str
  pub lost_through : ℕ
  pub by_seq : List (ℕ × PostSample)

-- bySeq.set(seq, s)
unfoldable pub put_seq : ℕ → PostSample → List (ℕ × PostSample) → List (ℕ × PostSample)
put_seq q s [] = (q, s) ∷ []
put_seq q s ((p, t) ∷ m) = if p == q then (p, s) ∷ m else (p, t) ∷ put_seq q s m

abbrev pub replay_key : Str → Str → Str
replay_key mac log_id = mac ++ (124 ∷ log_id)

-- logFor
unfoldable pub log_for : Str → Str → List (Str × ReplayLog) → ReplayLog
log_for mac log_id logs = elim (get (replay_key mac log_id) logs) [
  | none ↦ record { mac = mac; log_id = log_id; lost_through = 0; by_seq = [] }
  | some l ↦ l
]

add_sample : SampleRecord → List (Str × ReplayLog) → List (Str × ReplayLog)
add_sample s logs =
    let l = log_for s.mac s.log_id logs in
    put (replay_key s.mac s.log_id) (record l { by_seq = put_seq s.seq (post_sample s) l.by_seq })
      logs

add_loss : LossRecord → List (Str × ReplayLog) → List (Str × ReplayLog)
add_loss r logs =
    let l = log_for r.mac r.log_id logs in
    put (replay_key r.mac r.log_id) (record l { lost_through = max l.lost_through r.through_seq })
      logs

-- The loop over the lines: the logs, and how many lines are skipped.
unfoldable pub replay_lines :
    List ReplayLine → List (Str × ReplayLog) → ℕ → List (Str × ReplayLog) × ℕ
unfolding add_sample add_loss
replay_lines [] logs skipped = (logs, skipped)
replay_lines (blank ∷ lines) logs skipped = replay_lines lines logs skipped
replay_lines (unreadable ∷ lines) logs skipped = replay_lines lines logs (skipped + 1)
replay_lines (foreign ∷ lines) logs skipped = replay_lines lines logs (skipped + 1)
replay_lines (stored (start r) ∷ lines) logs skipped = replay_lines lines logs skipped
replay_lines (stored (sample r) ∷ lines) logs skipped =
    replay_lines lines (add_sample r logs) skipped
replay_lines (stored (loss r) ∷ lines) logs skipped = replay_lines lines (add_loss r logs) skipped

-- .sort((a, b) => a.seq - b.seq), which keeps the order of equal seqs
unfoldable pub insert_by_seq : PostSample → List PostSample → List PostSample
insert_by_seq s [] = s ∷ []
insert_by_seq s (t ∷ ts) =
    let rest = insert_by_seq s ts in if leb s.seq t.seq then s ∷ t ∷ ts else t ∷ rest

unfoldable pub sort_by_seq : List PostSample → List PostSample
sort_by_seq [] = []
sort_by_seq (s ∷ ss) = insert_by_seq s (sort_by_seq ss)

-- The loop over the samples in steps of `size`, on fuel.
unfoldable pub slices : ℕ → ℕ → List PostSample → List (List PostSample)
slices zero size samples = []
slices (suc n) size [] = []
slices (suc n) size (s ∷ ss) = take size (s ∷ ss) ∷ slices n size (drop size (s ∷ ss))

abbrev pub body_of : ReplayLog → List PostSample → PostBody
body_of l samples = record {
  mac = l.mac;
  log_id = l.log_id;
  lost_through = l.lost_through;
  samples = samples;
}

unfoldable pub samples_of : ReplayLog → List PostSample
samples_of l = sort_by_seq (map (λ (e : ℕ × PostSample). e.1) l.by_seq)

unfoldable pub bodies_of : ℕ → ReplayLog → List PostBody
bodies_of size l =
    let samples = samples_of l in map (body_of l) (slices (length samples) size samples)

all_bodies : ℕ → List (Str × ReplayLog) → List PostBody
all_bodies size [] = []
all_bodies size ((key, l) ∷ logs) = bodies_of size l ++ all_bodies size logs

unfoldable pub replay_bodies : ℕ → List ReplayLine → List PostBody × ℕ
unfolding all_bodies
replay_bodies size lines = let read = replay_lines lines [] 0 in (all_bodies size read.0, read.1)
