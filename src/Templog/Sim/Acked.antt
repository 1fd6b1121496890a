-- ===== src/Templog/Sim/Acked.antt =====
-- A round of `deliver` of tools/templog-bridge/sim.ts against the bridge of bridge.ts, whole: the
-- node's batch is encoded, minted into a cell, framed, read, decoded and stored, and the ack goes all
-- the way back.
use semantos_edge.Base.{
  ℕ, ◌+◌, ◌%◌, ◌/◌, ◌^◌, ◌<◌, ◌≤◌, ◌≡◌, refl, sym, ap, ◌∙◌, Bool, List, [], ◌∷◌, ◌++◌, some, map,
  min, length, ok, arith, All, All-append, length-append, Result, Option, replicate, ◌>>=◌,
}
use semantos_edge.Base.Int.{ℤ, pos, negsuc}
use semantos_edge.Base.Map.{Str}
use semantos_edge.Base.Bytes.{take-append}
use semantos_edge.Base.Writes.{All-replicate}
use semantos_edge.Cell.Domains.{mesh_telemetry}
use semantos_edge.Cell.Words.{le32}
use semantos_edge.Cell.Wire.{ParsedCell, parse_cell, type_hash}
use semantos_edge.Cell.Wire.Minted.{padded, mint_cell_lem}
use semantos_edge.Cell.Wire.RoundTrip.{
  minted, parsed_of, parse-minted, IsByte-minted, length-minted,
}
use semantos_edge.Templog.Text.{codes, IsByte}
use semantos_edge.Templog.Batch.{BatchHeader, BatchSample, DecodedBatch, IsU32}
use semantos_edge.Templog.Codec.{low_16, encode_batch, decode_batch}
use semantos_edge.Templog.Codec.Layout.{
  IsHeader, IsSample, header_fields, sample_fields, header_bytes, samples_bytes, encode_batch-bytes,
  length-samples_bytes,
}
use semantos_edge.Templog.Codec.RoundTrip.{sent_header, numbered, decode_batch-encode_batch}
use semantos_edge.Templog.Serial.{tl, classify_line, format_ak_line, trim_end}
use semantos_edge.Templog.Serial.Frame.{classify_line-format_tl_line}
use semantos_edge.Templog.Bridge.Line.{batch_bytes, handle_line, reply_of}
use semantos_edge.Templog.Bridge.Acked.{IsStored, handle_line-IsStored}
use semantos_edge.Templog.Store.Records.{IngestResult}
use semantos_edge.Templog.Store.Plan.{plan_batch}
use semantos_edge.Templog.Store.Ingest.{Write, Store, canonical, ingest}
use semantos_edge.Templog.Store.Commit.{ingest-Committed}
use semantos_edge.Templog.Sim.Node.{apply_ack, uptime_s, build_batch}
use semantos_edge.Templog.Sim.World.{
  World, clock_ms, batch_cell, batch_line, handled, again, after_reply, turn,
}
use semantos_edge.Templog.Sim.Radio.{
  IsMac, bytes_of, owner_of, owner_id-IsMac, IsHash, kind_of-batch, log_cell,
  gateway_to_node-format_ak_line,
}

clock_ms-bound : (up : ℤ) → clock_ms up < 2 ^ 64
unfolding clock_ms
clock_ms-bound (pos n) = omega arith
clock_ms-bound (negsuc n) = omega arith

le16-bytes : {P : Type 0} (v : ℕ) → P → (v % 256 < 256) × ((v / 2 ^ 8 % 256 < 256) × P)
le16-bytes v p = (omega arith, (omega arith, p))

le32-bytes :
    {P : Type 0} (v : ℕ)
    → P
    → (v % 256 < 256)
      × ((v / 2 ^ 8 % 256 < 256) × ((v / 2 ^ 16 % 256 < 256) × ((v / 2 ^ 24 % 256 < 256) × P)))
le32-bytes v p = (omega arith, (omega arith, (omega arith, (omega arith, p))))

samples_bytes-All : (ss : List BatchSample) → All IsSample ss → All IsByte (samples_bytes ss)
samples_bytes-All [] h = tt
samples_bytes-All (s ∷ ss) (v, vs) =
    let none_set : IsByte 0 = omega arith in
    let rest : All IsByte (s.flags ∷ 0 ∷ samples_bytes ss) =
      (v.flags, (none_set, samples_bytes-All ss vs)) in
    le32-bytes s.uptime_s (le16-bytes (low_16 s.centi_c) rest)

header_bytes-All : (h : BatchHeader) (n : ℕ) → IsHeader h → All IsByte (header_bytes h n)
header_bytes-All h n v =
    let none_set : IsByte 0 = omega arith in
    let end : All IsByte (le32 h.log_id) = le32-bytes h.log_id tt in
    let policy =
      le16-bytes (low_16 h.policy_min_centi) (le16-bytes (low_16 h.policy_max_centi) end) in
    let clocks = le32-bytes h.uptime_now_s (
      le32-bytes h.boot_epoch_s
        (le32-bytes h.lost_through (le32-bytes h.sample_interval_s policy))) in
    let boots = le32-bytes h.first_seq (le32-bytes h.boot_id (le32-bytes h.boot_now clocks)) in
    (none_set, (v.flags, le16-bytes n boots))

-- What the node sends: a header and samples whose fields fit, and at most 91 of them.
pub record Sends (w : World) (h : BatchHeader) (ss : List BatchSample) : Type 0 where
  pub built :
      build_batch w.now w.node ≡ some (encode_batch (header_fields h) (map sample_fields ss))
  pub header : IsHeader h
  pub samples : All IsSample ss
  pub few : length ss ≤ 91

abbrev sent_bytes : BatchHeader → List BatchSample → List ℕ
sent_bytes h ss = header_bytes h (length ss) ++ samples_bytes ss

-- What the bridge decodes.
abbrev pub sent_batch : BatchHeader → List BatchSample → DecodedBatch
sent_batch h ss = record { header = sent_header h (length ss); samples = numbered h.first_seq 0 ss }

module _ (h : BatchHeader) (ss : List BatchSample) (v : IsHeader h) (vs : All IsSample ss)
    (few : length ss ≤ 91) where
  decode-sent_bytes : decode_batch (sent_bytes h ss) ≡ some (sent_batch h ss)
  decode-sent_bytes =
      let both = decode_batch-encode_batch h ss v vs few in
      let same : sent_bytes h ss ≡ both.0 = cc (encode_batch-bytes h ss v vs few, both.1) in
      ap decode_batch same ∙ both.2

  length-sent_bytes : length (sent_bytes h ss) ≤ 768
  length-sent_bytes = omega (
    arith,
    length-append (header_bytes h (length ss)) (samples_bytes ss),
    length-samples_bytes ss,
  )

  sent_bytes-All : All IsByte (sent_bytes h ss)
  sent_bytes-All =
      All-append IsByte (header_bytes h (length ss)) (samples_bytes ss)
        (header_bytes-All h (length ss) v) (samples_bytes-All ss vs)

-- The ack of a stored batch is for the canonical MAC, and its time fits 32 bits.
stored-ack :
    (written : Write) (text canon : Str) (b : DecodedBatch) (now : ℕ) (s after : Store)
    (r : IngestResult)
    → canonical text ≡ ok canon
    → ingest written text b (pos now) s ≡ (ok r, after)
    → (r.ack.mac ≡ canon) × IsU32 r.ack.host_unix_s
unfolding plan_batch
stored-ack written text canon b now s after r e h =
    let c = ingest-Committed written text b now s r after h in
    let same : c.canon ≡ canon = cc (sym c.is_canon, e) in
    let host : r.ack.host_unix_s ≡ min now 0xffff_ffff =
      ap (λ (x : IngestResult). x.ack.host_unix_s) c.result in
    (ap (λ (x : IngestResult). x.ack.mac) c.result ∙ same, omega arith)

module _ (sha256 : List ℕ → List ℕ) (hash : IsHash sha256) (w : World) (m : IsMac w.node.mac)
    (payload : List ℕ) (small : length payload ≤ 768) (bytes : All IsByte payload) where
  -- The cell of the node's batch.
  abbrev sent_cell : List ℕ
  sent_cell =
      let ms : ℕ = clock_ms (uptime_s w.now w.node) in
      minted sha256 (type_hash sha256 (codes "templog.batch.v0")) payload (owner_of m) ms
        mesh_telemetry (hash.size (padded payload))
        (log_cell sha256 hash (codes "templog.batch.v0") w.node.mac m payload ms small
          (clock_ms-bound (uptime_s w.now w.node)))

  abbrev read_cell : ParsedCell
  read_cell =
      let ms : ℕ = clock_ms (uptime_s w.now w.node) in
      parsed_of sha256 (type_hash sha256 (codes "templog.batch.v0")) payload (owner_of m) ms
        mesh_telemetry (hash.size (padded payload))
        (log_cell sha256 hash (codes "templog.batch.v0") w.node.mac m payload ms small
          (clock_ms-bound (uptime_s w.now w.node)))
        w.node.mac

  -- The line of a payload reads back as its cell.
  batch_line-read :
      (line : Str) × (batch_line sha256 w payload ≡ ok line)
      × (classify_line line ≡ tl w.node.mac sent_cell)
      × (parse_cell sha256 sent_cell ≡ some read_cell)
  unfolding batch_line batch_cell
  batch_line-read =
      let text : Str = w.node.mac in
      let name : Str = codes "templog.batch.v0" in
      let type : List ℕ = type_hash sha256 name in
      let owner : List ℕ = owner_of m in
      let ms : ℕ = clock_ms (uptime_s w.now w.node) in
      let long = hash.size (padded payload) in
      let fits =
        log_cell sha256 hash name text m payload ms small
          (clock_ms-bound (uptime_s w.now w.node)) in
      let made = mint_cell_lem sha256 type payload owner ms mesh_telemetry long fits in
      let owner_bytes : All IsByte owner =
        All-append IsByte (bytes_of m) (replicate 10 0) m.bound
          (All-replicate IsByte 10 0 (omega arith)) in
      let all =
        IsByte-minted sha256 type payload owner ms mesh_telemetry long fits
          (unfold type_hash in hash.bytes name) bytes owner_bytes (hash.bytes (padded payload)) in
      let framed =
        classify_line-format_tl_line text text (bytes_of m) sent_cell m.reads m.shows
          (length-minted sha256 type payload owner ms mesh_telemetry long fits) all in
      (
        trim_end framed.0,
        rw (owner_id-IsMac text m) (rw made (rw framed.1 refl)),
        framed.3,
        parse-minted sha256 type payload owner ms mesh_telemetry long fits text m.shows,
      )

module _ (sha256 : List ℕ → List ℕ) (hash : IsHash sha256) (posting : Bool) (written : Write)
    (now : ℕ) (w : World) (m : IsMac w.node.mac) (h : BatchHeader) (ss : List BatchSample)
    (sends : Sends w h ss) (s after : Store) (r : IngestResult)
    (stored : ingest written w.node.mac (sent_batch h ss) (pos now) s ≡ (ok r, after)) where
  abbrev payload_of : List ℕ
  payload_of = sent_bytes h ss

  read-batch_bytes :
      (cell : ParsedCell)
      → cell.payload_total ≡ length payload_of
      → cell.payload ≡ padded payload_of
      → batch_bytes cell ≡ payload_of
  unfolding batch_bytes
  read-batch_bytes cell total area =
      let small = length-sent_bytes h ss sends.header sends.samples sends.few in
      let size : min cell.payload_total 768 ≡ length payload_of = omega arith in
      rw (size, area) (take-append payload_of _ (length payload_of) refl)

  -- The line of the batch is stored.
  sent-IsStored :
      (line : Str) × (batch_line sha256 w payload_of ≡ ok line)
      × IsStored sha256 written (pos now) s line r after
  sent-IsStored =
      let small = length-sent_bytes h ss sends.header sends.samples sends.few in
      let bytes = sent_bytes-All h ss sends.header sends.samples sends.few in
      let read = batch_line-read sha256 hash w m payload_of small bytes in
      let cell : ParsedCell = read_cell sha256 hash w m payload_of small bytes in
      (
        read.0,
        read.1,
        record {
          mac = w.node.mac;
          bytes = sent_cell sha256 hash w m payload_of small bytes;
          cell = cell;
          decoded = sent_batch h ss;
          framed = read.2;
          parsed = read.3;
          kind = kind_of-batch sha256 hash;
          owner = refl;
          root = refl;
          decodes =
              ap decode_batch (read-batch_bytes cell refl refl)
              ∙ decode-sent_bytes h ss sends.header sends.samples sends.few;
          stored = stored;
        },
      )

  -- The bridge that reads the line.
  abbrev pub bridge : Store → Str → Result (Option Str) × Store
  bridge s line = handled (handle_line sha256 posting written (pos now) s line)

  -- The world once the ack of `r` was heard.
  abbrev pub acked : World
  acked = record w {
    sends = w.sends + 1;
    node = apply_ack r.ack.acked_through (pos r.ack.host_unix_s) w.now w.node;
  }

  built_line :
      (line : Str)
      → batch_line sha256 w payload_of ≡ ok line
      → turn sha256 bridge 0 w s
        ≡ after_reply sha256 bridge 0 (record w { sends = w.sends + 1 }) (bridge s line)
  unfolding turn
  built_line line e =
      let encoded = encode_batch-bytes h ss sends.header sends.samples sends.few in
      rw (sends.built, turn) (rw (encoded, turn) (rw (e, turn) refl))

  -- Where the node's MAC is in its canonical text, its batch has fields that fit, the store takes the
  -- batch with result `r` and the pointer of the ack fits 32 bits, a round of `deliver` whose ack
  -- is not lost ends with that store and with the node acked as `r` says: what the store takes is
  -- the header and the samples that the node sent, numbered from the first, in spite of the cells and
  -- the lines in between. SHA-256 gives 32 bytes and tells the log's two types apart.
  pub turn-acked : IsU32 r.ack.acked_through → turn sha256 bridge 0 w s ≡ again 0 acked after
  turn-acked fits =
      let sent = sent-IsStored in
      let canon : canonical w.node.mac ≡ ok w.node.mac = unfold canonical in rw m.reads m.shows in
      let ack =
        stored-ack written w.node.mac w.node.mac (sent_batch h ss) now s after r canon stored in
      let heard =
        gateway_to_node-format_ak_line sha256 hash r.ack.acked_through r.ack.host_unix_s fits ack.1
          w.node.mac m (record w { sends = w.sends + 1 }) refl in
      let answered =
        handle_line-IsStored sha256 posting written (pos now) s sent.0 r after sent.2 in
      let reply : reply_of r ≡ ok (some heard.0) =
        unfold reply_of in
        ap
          (λ (t : Str).
            format_ak_line t (pos r.ack.acked_through) (pos r.ack.host_unix_s) >>= λ line.
            ok (some line))
          ack.0
        ∙ rw heard.1 refl in
      built_line sent.0 sent.1
      ∙ (unfold handled after_reply in
          rw (answered, after_reply) (rw (reply, after_reply) (rw (heard.2, after_reply) refl)))
