-- ===== src/Templog/Store/Ingest.antt =====
-- `TempLogStore` of tools/templog-bridge/store.ts.
use semantos_edge.Base.{
  ℕ, take, Option, none, some, List, [], ◌∷◌, ◌++◌, map, if◌then◌else◌, ltb, Result, ok, ◌>>=◌,
  thrown, length,
}
use semantos_edge.Base.Int.{ℤ, pos, negsuc}
use semantos_edge.Base.Map.{Str, get, put}
use semantos_edge.Base.Members.{add_all}
use semantos_edge.Templog.Mac.{mac_to_bytes, mac_to_string}
use semantos_edge.Templog.Batch.{DecodedBatch}
use semantos_edge.Templog.Store.Records.{IngestResult, LogState, LogSummary, JournalRecord, to_json}
use semantos_edge.Templog.Store.Plan.{plan_batch, Plan, key_of, log_id_hex}
use semantos_edge.Templog.Store.Rebuild.{Line, value, torn, rebuild}

-- The journal file: its whole lines, and what stands behind the last of them, as it reads. Two records
-- on one line are no JSON.
pub record Journal : Type 0 where
  pub lines : List Line
  pub tail : Option Line

-- What becomes of an append: its text is durable, or it throws, and then so many lines of the text are
-- in the file, and behind them a piece of the next, if any. A `writeSync` may write a part, and
-- `fsyncSync` may fail behind all of them.
pub data Write : Type 0 where
  durable : Write
  failed : ℕ → Option Line → Write

-- The first line goes on from what stands behind the last one.
unfoldable pub put_lines : List Line → Journal → Journal
put_lines [] j = j
put_lines (l ∷ ls) j =
    let first : Line = elim j.tail [ none ↦ l | some piece ↦ torn ] in
    record { lines = j.lines ++ (first ∷ ls); tail = none }

unfoldable pub put_piece : Option Line → Journal → Journal
put_piece none j = j
put_piece (some piece) j =
    let read : Line = elim j.tail [ none ↦ piece | some before ↦ torn ] in
    record j { tail = some read }

unfoldable pub left_by : Write → List Line → Journal → Journal
left_by durable ls j = put_lines ls j
left_by (failed whole piece) ls j = put_piece piece (put_lines (take whole ls) j)

abbrev pub Done : Type 0
Done = Unit

unfoldable pub outcome : Write → Result Done
outcome durable = ok tt
outcome (failed whole piece) = thrown

-- `journal` is none for a store that keeps nothing on disk.
pub record Store : Type 0 where
  pub skipped_lines : ℕ
  pub logs : List (Str × LogState)
  pub journal : Option Journal

-- `open`: a torn last line of the file is given its end, so that the journal goes on from whole lines.
unfoldable pub open_journal : List Line → Store
open_journal lines =
    let r = rebuild lines in
    record {
      skipped_lines = r.skipped;
      logs = r.logs;
      journal = some (record { lines = lines; tail = none });
    }

-- TempLogStore.inMemory()
unfoldable pub in_memory : Store
in_memory = record { skipped_lines = 0; logs = []; journal = none }

unfoldable pub line_of : JournalRecord → Line
line_of r = value (to_json r)

-- `journal.append`, which is called where there are records and a journal
unfoldable pub append_records :
    Write → List JournalRecord → Option Journal → Result Done × Option Journal
append_records w [] journal = (ok tt, journal)
append_records w (r ∷ rs) none = (ok tt, none)
append_records w (r ∷ rs) (some j) = (outcome w, some (left_by w (map line_of (r ∷ rs)) j))

-- prev ?? { … }
unfoldable pub state_or : Option LogState → Str → DecodedBatch → LogState
state_or none mac batch = record {
  mac = mac;
  log_id = batch.header.log_id;
  through = 0;
  seen = [];
  max_seq = 0;
}
state_or (some st) mac batch = st

unfoldable pub committed : Option LogState → Str → DecodedBatch → Plan → LogState
committed prev mac batch plan =
    let st = state_or prev mac batch in
    record st {
      seen = add_all plan.added st.seen;
      through = plan.result.through;
      max_seq = plan.max_seq;
    }

-- macToString(macToBytes(mac))
unfoldable pub canonical : Str → Result Str
canonical mac = do bytes ← mac_to_bytes mac; mac_to_string bytes

unfoldable pub ingest_canonical :
    Write → Str → DecodedBatch → ℕ → Store → Result IngestResult × Store
ingest_canonical written canon batch now s =
    let key = key_of canon (log_id_hex batch.header.log_id) in
    let prev = get key s.logs in
    let plan = plan_batch prev canon batch now in
    let appended = append_records written plan.records s.journal in
    elim appended.0 [
      | thrown ↦ (thrown, record s { journal = appended.1 })
      | ok done ↦ (
        ok plan.result,
        record s { logs = put key (committed prev canon batch plan) s.logs; journal = appended.1 },
      )
    ]

-- The time is a whole number of seconds: `Math.floor` leaves it as it is.
unfoldable pub ingest : Write → Str → DecodedBatch → ℤ → Store → Result IngestResult × Store
ingest written mac batch (negsuc n) s = (thrown, s)
ingest written mac batch (pos now) s = elim (canonical mac) [
  | thrown ↦ (thrown, s)
  | ok canon ↦ ingest_canonical written canon batch now s
]

-- through(mac, logId)
unfoldable pub through : Str → ℕ → Store → Result (Option ℕ)
through mac log_id s = elim (canonical mac) [
  | thrown ↦ thrown
  | ok canon ↦ ok (elim (get (key_of canon (log_id_hex log_id)) s.logs) [
    | none ↦ none
    | some st ↦ some st.through
  ])
]

summary_line : Str × LogState → LogSummary
summary_line (k, st) = record {
  mac = st.mac;
  log_id = st.log_id;
  through = st.through;
  held = length st.seen;
  held_above = if ltb st.through st.max_seq then some st.max_seq else none;
}

unfoldable pub summary : Store → List LogSummary
unfolding summary_line
summary s = map summary_line s.logs
