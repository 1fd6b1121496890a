-- ===== src/Templog/Store/Recovery.antt =====
-- The journal of tools/templog-bridge/store.ts rebuilds the store that wrote it.
use mathlib.Core.Path.{subst}
use mathlib.Core.List.{append-nil}
use semantos_edge.Base.{
  ℕ, ◌≡◌, refl, sym, ap, ◌∙◌, none, some, List, [], ◌∷◌, ◌++◌, map, Result-cases, inl, inr, All,
}
use semantos_edge.Base.Int.{ℤ, pos, negsuc}
use semantos_edge.Base.Map.{Str, get, put}
use semantos_edge.Templog.Batch.{DecodedBatch, IsWire}
use semantos_edge.Templog.Store.Records.{IngestResult}
use semantos_edge.Templog.Store.Plan.{plan_batch, log_id_hex}
use semantos_edge.Templog.Store.Rebuild.{
  Line, Reading, finish_all, read_lines, nothing_read, rebuild,
}
use semantos_edge.Templog.Store.Ingest.{
  Store, Write, durable, failed, put_lines, put_piece, line_of, ingest, open_journal,
}
use semantos_edge.Templog.Store.Reading.{kind_of, add_kinds, read_lines-append, read_lines-line_of}
use semantos_edge.Templog.Store.PlanLines.{canonical-IsName, records-Readable}
use semantos_edge.Templog.Store.Commit.{
  Committed, ingest-Committed, Thrown, kept, wrote, left_in, ingest-Thrown,
}
use semantos_edge.Templog.Store.Accs.{AllStarted, add_kinds_any}

-- The store is what its journal rebuilds, and every line of the journal reads back.
pub record IsDurable (s : Store) : Type 0 where
  pub lines : List Line
  pub journal : s.journal ≡ some (record { lines = lines; tail = none })
  pub logs : s.logs ≡ finish_all (read_lines nothing_read lines).accs
  pub skipped : (read_lines nothing_read lines).skipped ≡ 0
  pub started : AllStarted (read_lines nothing_read lines).accs

put_lines-whole :
    (ls lines : List Line)
    → put_lines ls (record { lines = lines; tail = none })
      ≡ record { lines = lines ++ ls; tail = none }
unfolding put_lines
put_lines-whole [] lines = ap (λ t. record { lines = t; tail = none }) (sym (append-nil lines))
put_lines-whole (l ∷ ls) lines = refl

Committed-IsDurable :
    (mac : Str) (batch : DecodedBatch) (now : ℕ) (s s' : Store) (r : IngestResult)
    → IsWire batch
    → Committed mac batch now s r s'
    → IsDurable s
    → IsDurable s'
Committed-IsDurable mac batch now s s' r w c d =
    let rs = (plan_batch c.prev c.canon batch now).records in
    let g : Reading = read_lines nothing_read d.lines in
    let name = canonical-IsName mac c.canon batch.header.log_id c.is_canon in
    let read : read_lines nothing_read (d.lines ++ map line_of rs) ≡ record g {
      accs = add_kinds c.canon (log_id_hex batch.header.log_id) (map kind_of rs) g.accs;
    } =
      read_lines-append d.lines (map line_of rs) nothing_read
      ∙ read_lines-line_of c.canon _ name rs g (records-Readable c.canon batch now c.prev w) in
    let (started, finished) =
      add_kinds_any c.canon batch now w c.prev g.accs d.started
        (ap (get _) (sym d.logs) ∙ c.is_prev) in
    record {
      lines = d.lines ++ map line_of rs;
      journal = c.journal _ d.journal ∙ ap some (put_lines-whole (map line_of rs) d.lines);
      logs =
          c.logs
          ∙ ap (put _ _) d.logs
          ∙ sym finished
          ∙ ap (λ (x : Reading). finish_all x.accs) (sym read);
      skipped = ap (λ (x : Reading). x.skipped) read ∙ d.skipped;
      started = subst (λ (x : Reading). AllStarted x.accs) (sym read) started;
    }

-- An append that is durable, or whose text did not reach the file at all.
abbrev pub LeavesNothing : Write → Type 0
LeavesNothing durable = Unit
LeavesNothing (failed whole piece) = (whole ≡ 0) × (piece ≡ none)

-- A call of `ingest`, with what became of its write to the journal.
pub record Call : Type 0 where
  pub written : Write
  pub mac : Str
  pub batch : DecodedBatch
  pub now : ℤ

-- The calls of a bridge's life, one after the other; a call that throws is over.
unfoldable pub run : Store → List Call → Store
run s [] = s
run s (c ∷ cs) = run (ingest c.written c.mac c.batch c.now s).1 cs

Thrown-IsDurable :
    (written : Write) (s s' : Store)
    → LeavesNothing written
    → Thrown written s s'
    → IsDurable s
    → IsDurable s'
Thrown-IsDurable written s _ clean kept d = d
Thrown-IsDurable written s _ clean (wrote whole piece ls before e f) d =
    let nothing : (whole ≡ 0) × (piece ≡ none) = subst LeavesNothing e clean in
    let same : left_in whole piece ls before ≡ before =
      (λ i. left_in (nothing.0 i) (nothing.1 i) ls before) ∙ (unfold put_piece put_lines in refl) in
    record {
      lines = d.lines;
      journal = ap some same ∙ sym f ∙ d.journal;
      logs = d.logs;
      skipped = d.skipped;
      started = d.started;
    }

ingest-IsDurable :
    (written : Write) (mac : Str) (batch : DecodedBatch) (now : ℤ) (s : Store)
    → LeavesNothing written
    → IsWire batch
    → IsDurable s
    → IsDurable (ingest written mac batch now s).1
ingest-IsDurable written mac batch (negsuc n) s clean w d = unfold ingest in d
ingest-IsDurable written mac batch (pos now) s clean w d =
    elim (Result-cases (ingest written mac batch (pos now) s).0) [
      | inl e ↦ Thrown-IsDurable written s _ clean (ingest-Thrown written mac batch (pos now) s e) d
      | inr (r, e) ↦
          Committed-IsDurable mac batch now s _ r w
            (ingest-Committed written mac batch now s r _
              (λ i. (e i, (ingest written mac batch (pos now) s).1)))
            d
    ]

-- The batch carries 32-bit fields, as a decoded one does, and a write that fails leaves no text.
abbrev pub IsClean : Call → Type 0
IsClean c = IsWire c.batch × LeavesNothing c.written

run-IsDurable : (cs : List Call) (s : Store) → All IsClean cs → IsDurable s → IsDurable (run s cs)
unfolding run
run-IsDurable [] s w d = d
run-IsDurable (c ∷ cs) s ((w, clean), ws) d =
    run-IsDurable cs _ ws (ingest-IsDurable c.written c.mac c.batch c.now s clean w d)

empty-IsDurable : IsDurable (open_journal [])
unfolding open_journal rebuild read_lines
empty-IsDurable = record { lines = []; journal = refl; logs = refl; skipped = refl; started = tt }

-- Whatever calls of `ingest` a store with a fresh journal has taken, in whatever order, some of
-- them throwing, with writes to the journal that are durable or fail before any of their text is in
-- the file, the journal ends with a whole line, and `rebuild` over its lines gives back exactly the
-- logs of the store (every delivery pointer, every set of held seqs, every highest seq) and skips no
-- line. The batches carry 32-bit fields, as decoded ones do.
pub rebuild-run :
    (cs : List Call)
    → All IsClean cs
    → (lines : List Line) × ((run (open_journal []) cs).journal
        ≡ some (record { lines = lines; tail = none }))
      × ((rebuild lines).logs ≡ (run (open_journal []) cs).logs)
      × ((rebuild lines).skipped ≡ 0)
unfolding rebuild
rebuild-run cs w =
    let d = run-IsDurable cs (open_journal []) w empty-IsDurable in
    (d.lines, d.journal, sym d.logs, d.skipped)
