-- ===== src/Templog/Bridge/Line.antt =====
-- `handleLine`, `postBody` and `pump` of tools/templog-bridge/bridge.ts. The store is passed along;
-- a POST that goes out later is a value, and the lines of the log are not modelled.
use semantos_edge.Base.{
  ℕ, Bool, true, false, not, ◌&&◌, Option, none, some, List, map, min, ltb, if◌then◌else◌, length,
  take, Result, ok, thrown, ◌>>=◌,
}
use semantos_edge.Base.Int.{ℤ, pos}
use semantos_edge.Base.Map.{Str, str_eq}
use semantos_edge.Cell.Wire.{ParsedCell, CellKind, batch, ack, other, parse_cell}
use semantos_edge.Templog.Batch.{DecodedBatch}
use semantos_edge.Templog.Codec.{decode_batch}
use semantos_edge.Templog.Serial.{LineClass, tl, bad, classify_line, format_ak_line}
use semantos_edge.Templog.Store.Records.{Anchor, SampleRecord, IngestResult}
use semantos_edge.Templog.Store.Plan.{log_id_hex}
use semantos_edge.Templog.Store.Ingest.{Store, Write, ingest}

pub record PostSample : Type 0 where
  pub seq : ℕ
  pub boot_id : ℕ
  pub uptime_s : ℕ
  pub centi_c : ℤ
  pub flags : ℕ
  pub t_unix : Option ℤ
  pub anchor : Anchor

pub record PostBody : Type 0 where
  pub mac : Str
  pub log_id : Str
  pub lost_through : ℕ
  pub samples : List PostSample

unfoldable pub post_sample : SampleRecord → PostSample
post_sample s = record {
  seq = s.seq;
  boot_id = s.boot_id;
  uptime_s = s.uptime_s;
  centi_c = s.centi_c;
  flags = s.flags;
  t_unix = s.t_unix;
  anchor = s.anchor;
}

unfoldable pub post_body : DecodedBatch → IngestResult → PostBody
post_body b r = record {
  mac = r.mac;
  log_id = log_id_hex r.log_id;
  lost_through = b.header.lost_through;
  samples = map post_sample r.new_samples;
}

-- What a line comes to: the AK line to write back, the store, and the body to POST.
pub record Handled : Type 0 where
  pub reply : Result (Option Str)
  pub store : Store
  pub post : Option PostBody

unfoldable pub ignored : Store → Handled
ignored s = record { reply = ok none; store = s; post = none }

unfoldable pub reply_of : IngestResult → Result (Option Str)
reply_of r = do
  line ← format_ak_line r.ack.mac (pos r.ack.acked_through) (pos r.ack.host_unix_s)
  ok (some line)

-- this.opts.post && r.newSamples.length > 0
unfoldable pub post_of : Bool → DecodedBatch → IngestResult → Option PostBody
post_of posting b r = if posting && ltb 0 (length r.new_samples) then some (post_body b r) else none

unfoldable pub answer : Bool → DecodedBatch → Result IngestResult × Store → Handled
answer posting b (thrown, s) = ignored s
answer posting b (ok r, s) = record { reply = reply_of r; store = s; post = post_of posting b r }

-- The bytes of the batch: payload.subarray(0, Math.min(payloadTotal, PAYLOAD_SIZE))
unfoldable pub batch_bytes : ParsedCell → List ℕ
batch_bytes cell = take (min cell.payload_total 768) cell.payload

unfoldable pub is_batch : CellKind → Bool
is_batch batch = true
is_batch ack = false
is_batch other = false

module _ (sha256 : List ℕ → List ℕ) (posting : Bool) (written : Write) (now : ℤ) (s : Store) where
  unfoldable pub on_batch : Str → Option DecodedBatch → Handled
  on_batch mac none = ignored s
  on_batch mac (some b) = answer posting b (ingest written mac b now s)

  unfoldable pub on_cell : Str → Option ParsedCell → Handled
  on_cell mac none = ignored s
  on_cell mac (some cell) =
      if not (is_batch cell.kind)
      then ignored s
      else if not (str_eq cell.owner_mac mac)
      then ignored s
      else if not cell.payload_root_ok
      then ignored s
      else on_batch mac (decode_batch (batch_bytes cell))

  unfoldable pub on_line : LineClass → Handled
  on_line (tl mac cell) = on_cell mac (parse_cell sha256 cell)
  on_line (bad reason) = ignored s
  on_line LineClass.other = ignored s

  unfoldable pub handle_line : Str → Handled
  handle_line line = on_line (classify_line line)
