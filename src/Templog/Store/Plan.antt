-- ===== src/Templog/Store/Plan.antt =====
-- `planBatch` of tools/templog-bridge/store.ts: what one batch changes in its log.
use Prim.Native.Nat.{bit_and}
use semantos_edge.Base.{
  ℕ, ◌+◌, ◌-◌, ◌%◌, ◌^◌, max, min, Bool, true, false, not, ◌&&◌, ◌||◌, Option, none, some, List, [],
  ◌∷◌, ◌++◌, map, ltb, leb, ◌==◌, if◌then◌else◌, length,
}
use semantos_edge.Base.Int.{ℤ, pos, sub_ℕ, ◌+ℤ◌}
use semantos_edge.Base.Map.{Str}
use semantos_edge.Base.Members.{mem, add_all, count}
use semantos_edge.Templog.Text.{hex_pad}
use semantos_edge.Templog.Batch.{BatchHeader, BatchSample, DecodedBatch, record_lost}
use semantos_edge.Templog.Climb.{climb}
use semantos_edge.Templog.Store.Records.{
  Anchor, receipt, epoch, unplaced, SampleRecord, LossRecord, JournalRecord, start, sample, loss,
  IngestResult, LogState,
}

-- logIdHex
unfoldable pub log_id_hex : ℕ → Str
log_id_hex log_id = hex_pad 8 (log_id % 2 ^ 32)

-- keyOf
unfoldable pub key_of : Str → Str → Str
key_of mac log_id = mac ++ (b'/' ∷ log_id)

pub record Placing : Type 0 where
  pub rule : Anchor
  pub epoch_s : Option ℤ

unfoldable pub anchor_of : BatchHeader → ℕ → Placing
anchor_of h now =
    if h.boot_id == h.boot_now
    then record { rule = receipt; epoch_s = some (sub_ℕ now h.uptime_now_s) }
    else if not (h.boot_epoch_s == 0)
    then record { rule = epoch; epoch_s = some (pos h.boot_epoch_s) }
    else record { rule = unplaced; epoch_s = none }

-- `anchor.epoch !== null && (s.flags & SF.RECORD_LOST) === 0`
is_placed : Option ℤ → BatchSample → Bool
is_placed none s = false
is_placed (some e) s = bit_and s.flags record_lost == 0

place : Option ℤ → BatchSample → Option ℤ
place none s = none
place (some e) s = some (e +ℤ pos s.uptime_s)

unfoldable pub sample_record : Str → Str → BatchHeader → ℕ → BatchSample → SampleRecord
unfolding is_placed place
sample_record mac log_id h now s =
    let anchor = anchor_of h now in
    let placed = is_placed anchor.epoch_s s in
    record {
      mac = mac;
      log_id = log_id;
      seq = s.seq;
      boot_id = h.boot_id;
      uptime_s = s.uptime_s;
      centi_c = s.centi_c;
      flags = s.flags;
      t_unix = if placed then place anchor.epoch_s s else none;
      anchor = if placed then anchor.rule else unplaced;
      policy_min_centi = h.policy_min_centi;
      policy_max_centi = h.policy_max_centi;
      received_unix_s = now;
    }

-- prev?.seen ?? new Set()
unfoldable pub seen_of : Option LogState → List ℕ
seen_of none = []
seen_of (some st) = st.seen

unfoldable pub max_seq_of : Option LogState → ℕ
max_seq_of none = 0
max_seq_of (some st) = st.max_seq

through_of : Option LogState → Option ℕ
through_of none = none
through_of (some st) = some st.through

unfoldable pub is_first : Option LogState → Bool
is_first none = true
is_first (some st) = false

-- prev ? prev.through : Math.max(h.firstSeq - 1, 0)
unfoldable pub start_through : Option LogState → BatchHeader → ℕ
start_through none h = h.first_seq - 1
start_through (some st) h = st.through

-- q > through && q <= lost
unfoldable pub in_range : ℕ → ℕ → ℕ → Bool
in_range through lost q = ltb through q && leb q lost

-- The two loops that count what is held in the lost range.
unfoldable pub held_in : ℕ → ℕ → List ℕ → List ℕ → ℕ
unfolding in_range
held_in through lost seen in_batch =
    count (in_range through lost) seen
    + count (λ q. in_range through lost q && not (mem q seen)) in_batch

unfoldable pub loss_of : Option LogState → Str → Str → DecodedBatch → ℕ → Option LossRecord
loss_of prev mac log_id batch now =
    let h = batch.header in
    let through = start_through prev h in
    let in_batch = add_all (map (λ s. s.seq) batch.samples) [] in
    let held = held_in through h.lost_through (seen_of prev) in_batch in
    if ltb through h.lost_through
    then some (record {
      mac = mac;
      log_id = log_id;
      from_seq = some (through + 1);
      through_seq = h.lost_through;
      missing = some (sub_ℕ h.lost_through (through + held));
      received_unix_s = now;
    })
    else if is_first prev && ltb 0 h.lost_through
    then some (record {
      mac = mac;
      log_id = log_id;
      from_seq = none;
      through_seq = h.lost_through;
      missing = none;
      received_unix_s = now;
    })
    else none

-- `through` where the loss is accounted for, before the walk over what is held.
unfoldable pub past_loss : Option LogState → BatchHeader → ℕ
past_loss prev h =
    let through = start_through prev h in
    if ltb through h.lost_through then h.lost_through else through

-- The variables of the loop over the samples. `added` is the array and the set of that name: they
-- hold the same numbers in the same order.
pub record Taken : Type 0 where
  pub added : List ℕ
  pub new_samples : List SampleRecord
  pub duplicates : ℕ

-- One round: a sample that is held, or came earlier in the batch, is a duplicate.
unfoldable pub take_one : List ℕ → (BatchSample → SampleRecord) → BatchSample → Taken → Taken
take_one seen make s t =
    if mem s.seq seen || mem s.seq t.added
    then record t { duplicates = t.duplicates + 1 }
    else record t { added = t.added ++ (s.seq ∷ []); new_samples = t.new_samples ++ (make s ∷ []) }

unfoldable pub take_samples :
    List ℕ → (BatchSample → SampleRecord) → List BatchSample → Taken → Taken
take_samples seen make [] t = t
take_samples seen make (s ∷ ss) t = take_samples seen make ss (take_one seen make s t)

abbrev pub no_samples : Taken
no_samples = record { added = []; new_samples = []; duplicates = 0 }

unfoldable pub taken_of : Option LogState → Str → Str → DecodedBatch → ℕ → Taken
taken_of prev mac log_id batch now =
    take_samples (seen_of prev) (sample_record mac log_id batch.header now) batch.samples no_samples

-- added.reduce((m, q) => Math.max(m, q), m)
unfoldable pub max_of : ℕ → List ℕ → ℕ
max_of m [] = m
max_of m (q ∷ qs) = max_of (max m q) qs

-- seen.has(q) || addedSet.has(q)
unfoldable pub is_held : List ℕ → List ℕ → ℕ → Bool
is_held seen added q = mem q seen || mem q added

unfoldable pub start_records : Option LogState → Str → Str → BatchHeader → ℕ → List JournalRecord
start_records none mac log_id h now =
    start (record { mac = mac; log_id = log_id; first_seq = h.first_seq; received_unix_s = now })
    ∷ []
start_records (some st) mac log_id h now = []

unfoldable pub loss_records : Option LossRecord → List JournalRecord
loss_records none = []
loss_records (some l) = loss l ∷ []

pub record Plan : Type 0 where
  pub records : List JournalRecord
  pub added : List ℕ
  pub max_seq : ℕ
  pub result : IngestResult

-- The walk has a round for each seq that is held, which is as many as it can take.
unfoldable pub plan_batch : Option LogState → Str → DecodedBatch → ℕ → Plan
unfolding through_of start_records loss_records
plan_batch prev mac batch now =
    let h = batch.header in
    let log_id = log_id_hex h.log_id in
    let seen = seen_of prev in
    let lost = loss_of prev mac log_id batch now in
    let t = taken_of prev mac log_id batch now in
    let through = climb (length seen + length t.added) (is_held seen t.added) (past_loss prev h) in
    let max_seq = max_of (max_seq_of prev) t.added in
    record {
      records =
          start_records prev mac log_id h now ++ (loss_records lost ++ map sample t.new_samples);
      added = t.added;
      max_seq = max_seq;
      result = record {
        mac = mac;
        log_id = h.log_id;
        first_contact = is_first prev;
        new_samples = t.new_samples;
        duplicates = t.duplicates;
        lost = lost;
        previous_through = through_of prev;
        through = through;
        held_above = if ltb through max_seq then some max_seq else none;
        ack = record { mac = mac; acked_through = through; host_unix_s = min now 0xffff_ffff };
      };
    }
