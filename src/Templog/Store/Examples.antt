-- ===== src/Templog/Store/Examples.antt =====
-- Runs of the store of tools/templog-bridge/store.ts on small batches, and its theorems there.
use semantos_edge.Base.{
  ℕ, ◌+◌, ◌-◌, ◌||◌, ◌<◌, ◌≡◌, refl, max, Option, none, some, List, [], ◌∷◌, arith, All, ok, thrown,
  Result,
}
use semantos_edge.Base.Int.{pos, negsuc}
use semantos_edge.Base.Map.{Str, get, put, str_eq}
use semantos_edge.Base.Members.{mem, add, add_all, count}
use semantos_edge.Templog.Text.{codes, hex_digit, hex_pad, hex_value, from_hex, all_hex}
use semantos_edge.Templog.Mac.{mac_to_bytes, mac_to_string, is_mac}
use semantos_edge.Templog.Batch.{BatchHeader, BatchSample, DecodedBatch, IsWire}
use semantos_edge.Templog.Climb.{IsTop, climb}
use semantos_edge.Templog.Store.Records.{IngestResult, LogState}
use semantos_edge.Templog.Store.Plan.{
  plan_batch, start_through, loss_of, taken_of, sample_record, anchor_of, key_of, log_id_hex,
  is_held, past_loss, max_of, seen_of, take_samples, take_one, is_first, held_in, max_seq_of,
  start_records, loss_records,
}
use semantos_edge.Templog.Store.Rebuild.{Line, torn, rebuild, finish_all, read_lines}
use semantos_edge.Templog.Store.Ingest.{
  Store, Journal, left_by, put_lines, put_piece, Write, durable, failed, outcome, open_journal,
  ingest, ingest_canonical, canonical, append_records, committed, state_or, in_memory, through,
}
use semantos_edge.Templog.Store.Advance.{after, after-IsTop}
use semantos_edge.Templog.Store.Lost.{NoDup, absent, loss_of-missing}
use semantos_edge.Templog.Store.Commit.{Committed, ingest_thrown}
use semantos_edge.Templog.Store.Glued.{GluedTo, ingest-torn}
use semantos_edge.Templog.Store.Repeat.{ingest_again}
use semantos_edge.Templog.Store.Recovery.{Call, IsClean, run, rebuild-run}

abbrev header : ℕ → ℕ → BatchHeader
header first lost = record {
  version = 0;
  flags = 0;
  count = 2;
  first_seq = first;
  boot_id = 1;
  boot_now = 1;
  uptime_now_s = 60;
  boot_epoch_s = 0;
  lost_through = lost;
  sample_interval_s = 60;
  policy_min_centi = negsuc 199;
  policy_max_centi = pos 2800;
  log_id = 7;
}

abbrev reading : ℕ → BatchSample
reading seq = record { seq = seq; uptime_s = 10; centi_c = pos 400; flags = 0 }

-- Two samples from `first` on, behind a loss through `lost`.
abbrev batch : ℕ → ℕ → DecodedBatch
batch first lost = record {
  header = header first lost;
  samples = reading first ∷ reading (first + 1) ∷ [];
}

abbrev mac : Str
mac = codes "02:00:5E:c0:1d:01"

abbrev canon : Str
canon = codes "02:00:5e:c0:1d:01"

canonical_run : canonical mac ≡ ok canon
unfolding canonical mac_to_bytes mac_to_string is_mac hex_value from_hex all_hex hex_pad hex_digit
canonical_run = refl

batch-IsWire : (first lost : ℕ) → first < 1000 → lost < 1000 → IsWire (batch first lost)
batch-IsWire first lost h k = record {
  first_seq = omega arith;
  lost_through = omega arith;
  log_id = omega arith;
  seqs = (omega arith, (omega arith, tt));
}

abbrev call : Write → ℕ → ℕ → Call
call written first lost = record {
  written = written;
  mac = mac;
  batch = batch first lost;
  now = pos 1000;
}

-- First contact, a gap, a failed write, the gap closed, and a loss.
abbrev calls : List Call
calls =
    call durable 1 0
    ∷ call durable 5 0
    ∷ call (failed 0 none) 3 0
    ∷ call durable 3 0
    ∷ call durable 20 12
    ∷ []

calls-IsClean : All IsClean calls
calls-IsClean = (
  (batch-IsWire 1 0 (omega arith) (omega arith), tt),
  (
    (batch-IsWire 5 0 (omega arith) (omega arith), tt),
    (
      (batch-IsWire 3 0 (omega arith) (omega arith), (refl, refl)),
      (
        (batch-IsWire 3 0 (omega arith) (omega arith), tt),
        ((batch-IsWire 20 12 (omega arith) (omega arith), tt), tt),
      ),
    ),
  ),
)

through_run : through mac 7 (run (open_journal []) calls) ≡ ok (some 12)
unfolding through run ingest ingest_canonical canonical mac_to_bytes mac_to_string is_mac hex_value
    from_hex all_hex hex_pad hex_digit append_records committed state_or plan_batch loss_of taken_of
    take_samples take_one sample_record anchor_of key_of log_id_hex is_held past_loss max_of seen_of
    max_seq_of is_first held_in start_records loss_records start_through climb mem add add_all count
    get put str_eq open_journal rebuild finish_all read_lines outcome
through_run = refl

rebuild-run_example :
    (lines : List Line) × ((run (open_journal []) calls).journal
      ≡ some (record { lines = lines; tail = none }))
    × ((rebuild lines).logs ≡ (run (open_journal []) calls).logs)
    × ((rebuild lines).skipped ≡ 0)
rebuild-run_example = rebuild-run calls calls-IsClean

after-IsTop_example :
    IsTop
      (λ q. mem q (after none canon (batch 5 2) 1000).seen)
      (max (start_through none (header 5 2)) 2)
      (after none canon (batch 5 2) 1000).through
    × ((plan_batch none canon (batch 5 2) 1000).result.ack.acked_through
        ≡ (after none canon (batch 5 2) 1000).through)
after-IsTop_example = after-IsTop none canon (batch 5 2) 1000

-- A write that breaks off in the second line of its text.
abbrev broken : Result IngestResult × Store
broken = ingest (failed 1 (some torn)) mac (batch 1 0) (pos 1000) (open_journal [])

broken_run : broken.0 ≡ thrown
unfolding ingest ingest_canonical canonical mac_to_bytes mac_to_string is_mac hex_value from_hex
    all_hex hex_pad hex_digit append_records outcome open_journal get plan_batch start_records
    rebuild finish_all read_lines
broken_run = refl

ingest_thrown_example :
    (broken.1.logs ≡ (open_journal []).logs)
    × (broken.1.skipped_lines ≡ (open_journal []).skipped_lines)
    × ((ingest durable mac (batch 1 0) (pos 2000) broken.1).0
        ≡ (ingest durable mac (batch 1 0) (pos 2000) (open_journal [])).0)
    × ((ingest durable mac (batch 1 0) (pos 2000) broken.1).1.logs
        ≡ (ingest durable mac (batch 1 0) (pos 2000) (open_journal [])).1.logs)
ingest_thrown_example =
    ingest_thrown (failed 1 (some torn)) mac (batch 1 0) (pos 1000) (open_journal []) mac
      (batch 1 0) (pos 2000) broken_run

abbrev or_empty : Option Journal → Journal
or_empty none = record { lines = []; tail = none }
or_empty (some j) = j

abbrev broken_journal : Journal
broken_journal = or_empty broken.1.journal

abbrev mended : Store
mended = (ingest durable mac (batch 1 0) (pos 2000) broken.1).1

abbrev mended_result : IngestResult
mended_result = (plan_batch none canon (batch 1 0) 2000).result

is_broken : broken.1.journal ≡ some broken_journal
unfolding ingest ingest_canonical canonical mac_to_bytes mac_to_string is_mac hex_value from_hex
    all_hex hex_pad hex_digit append_records outcome left_by put_lines put_piece open_journal get
    plan_batch start_records rebuild finish_all read_lines
is_broken = refl

has_piece : broken_journal.tail ≡ some torn
unfolding ingest ingest_canonical canonical mac_to_bytes mac_to_string is_mac hex_value from_hex
    all_hex hex_pad hex_digit append_records outcome left_by put_lines put_piece open_journal get
    plan_batch start_records rebuild finish_all read_lines
has_piece = refl

mended_run : ingest durable mac (batch 1 0) (pos 2000) broken.1 ≡ (ok mended_result, mended)
unfolding ingest ingest_canonical canonical mac_to_bytes mac_to_string is_mac hex_value from_hex
    all_hex hex_pad hex_digit append_records outcome left_by put_lines put_piece open_journal get
    plan_batch start_records rebuild finish_all read_lines
mended_run = refl

ingest-torn_example :
    (c : Committed mac (batch 1 0) 2000 broken.1 mended_result mended) × GluedTo broken_journal
      (plan_batch c.prev c.canon (batch 1 0) 2000).records
      mended
ingest-torn_example =
    ingest-torn mac (batch 1 0) 2000 broken.1 mended mended_result broken_journal torn is_broken
      has_piece mended_run

abbrev first_result : IngestResult
first_result = (plan_batch none canon (batch 1 0) 1000).result

abbrev first_store : Store
first_store = (ingest durable mac (batch 1 0) (pos 1000) in_memory).1

first_run : ingest durable mac (batch 1 0) (pos 1000) in_memory ≡ (ok first_result, first_store)
unfolding ingest ingest_canonical canonical mac_to_bytes mac_to_string is_mac hex_value from_hex
    all_hex hex_pad hex_digit append_records in_memory get plan_batch start_records
first_run = refl

ingest_again_example :
    (r' : IngestResult) × (ingest (failed 0 none) mac (batch 1 0) (pos 2000) first_store
      ≡ (ok r', first_store))
    × (r'.ack.acked_through ≡ first_result.ack.acked_through)
    × (r'.ack.host_unix_s ≡ 2000)
    × (r'.new_samples ≡ [])
    × (r'.lost ≡ none)
    × (r'.duplicates ≡ 2)
ingest_again_example =
    ingest_again durable (failed 0 none) mac (batch 1 0) 1000 2000 in_memory first_store
      first_result first_run

abbrev held_log : LogState
held_log = record { mac = canon; log_id = 7; through = 2; seen = 1 ∷ 2 ∷ 5 ∷ []; max_seq = 5 }

held_log-NoDup : NoDup (seen_of (some held_log))
unfolding seen_of mem
held_log-NoDup = (refl, (refl, (refl, tt)))

held_log-behind : start_through (some held_log) (batch 9 8).header < (batch 9 8).header.lost_through
unfolding start_through
held_log-behind = omega arith

loss_of-missing_example :
    loss_of (some held_log) canon (log_id_hex 7) (batch 9 8) 1000
    ≡ some (record {
      mac = canon;
      log_id = log_id_hex 7;
      from_seq = some (start_through (some held_log) (batch 9 8).header + 1);
      through_seq = 8;
      missing = some (
          pos (
            absent
              (λ q. mem q (seen_of (some held_log)) || mem q (9 ∷ 10 ∷ []))
              (start_through (some held_log) (batch 9 8).header)
              (8 - start_through (some held_log) (batch 9 8).header)));
      received_unix_s = 1000;
    })
loss_of-missing_example =
    loss_of-missing (some held_log) canon (log_id_hex 7) (batch 9 8) 1000 held_log-NoDup
      held_log-behind
