-- ===== src/Templog/Sim/RoundExamples.antt =====
-- A round of delivery of tools/templog-bridge/sim.ts, with a stand-in for SHA-256.
use semantos_edge.Base.{
  ℕ, ◌%◌, ◌<◌, ◌^◌, ◌≡◌, refl, none, some, List, [], ◌∷◌, ◌++◌, length, ap, get_or, map, replicate,
  length-replicate, arith, ok, true,
}
use semantos_edge.Base.Int.{pos, negsuc}
use semantos_edge.Base.Map.{Str, get}
use semantos_edge.Base.Writes.{All-replicate}
use semantos_edge.Templog.Text.{codes, IsByte, from_hex, hex_value, hex_pad, hex_digit}
use semantos_edge.Templog.Mac.{is_mac, mac_to_bytes, mac_to_string}
use semantos_edge.Templog.Batch.{BatchHeader, BatchSample}
use semantos_edge.Templog.Codec.{encode_batch}
use semantos_edge.Templog.Codec.Layout.{header_fields, sample_fields}
use semantos_edge.Templog.Bridge.Line.{handle_line}
use semantos_edge.Templog.Store.Plan.{
  plan_batch, seen_of, taken_of, past_loss, is_held, take_samples, take_one, start_through,
}
use semantos_edge.Base.Members.{mem}
use semantos_edge.Templog.Climb.{climb}
use semantos_edge.Templog.Store.Records.{IngestResult}
use semantos_edge.Templog.Store.Ingest.{
  durable, Store, in_memory, ingest, ingest_canonical, canonical, append_records,
}
use semantos_edge.Templog.Sim.Node.{
  SimNode, fresh_node, sample, append, apply_ack, build_batch, pending, pending_first,
  starts_sector, batch_boot, uptime_s, lost_through, batch_samples, write_flash, minus_ℤ, collect,
  judge,
}
use semantos_edge.Templog.Sim.World.{World, turn, again, handled}
use semantos_edge.Templog.Sim.Radio.{IsMac, IsHash}
use semantos_edge.Templog.Sim.Acked.{Sends, sent_batch, turn-acked}
use semantos_edge.Cell.Wire.{type_hash, mint_cell, parse_cell, kind_of}
use semantos_edge.Cell.Wire.Minted.{IsMintable, padded}
use semantos_edge.Cell.Wire.RoundTrip.{parse_cell-mint_cell}
use semantos_edge.Templog.Serial.{tl, classify_line, format_tl_line, format_ak_line, trim_end}
use semantos_edge.Templog.Serial.Frame.{classify_line-format_tl_line}
use semantos_edge.Templog.Serial.AkLine.{parse_ak_line, parse_ak_line-format_ak_line}

abbrev hash : List ℕ → List ℕ
hash bytes = (length bytes % 256) ∷ replicate 31 0

hash-IsHash : IsHash hash
unfolding type_hash
hash-IsHash = record {
  size = λ b. refl;
  bytes = λ b. (omega arith, All-replicate IsByte 31 0 (omega arith));
  apart = λ e. omega (arith, ap (λ (t : List ℕ). get_or t 0 0) e);
}

abbrev mac : Str
mac = codes "02:00:5e:c0:1d:01"

abbrev mac_bytes : List ℕ
mac_bytes = 2 ∷ 0 ∷ 0x5e ∷ 0xc0 ∷ 0x1d ∷ 1 ∷ []

mac-read : mac_to_bytes mac ≡ ok mac_bytes
unfolding mac_to_bytes is_mac from_hex hex_value
mac-read = refl

mac-shown : mac_to_string mac_bytes ≡ ok mac
unfolding mac_to_string hex_pad hex_digit
mac-shown = refl

abbrev mac-IsMac : IsMac mac
mac-IsMac = record {
  b0 = 2;
  b1 = 0;
  b2 = 0x5e;
  b3 = 0xc0;
  b4 = 0x1d;
  b5 = 1;
  bound =
      (omega arith, (omega arith, (omega arith, (omega arith, (omega arith, (omega arith, tt))))));
  reads = mac-read;
  shows = mac-shown;
}

abbrev node : SimNode
node =
    sample (pos 1060) (some (pos 400)) (fresh_node mac 7 (pos 1000) 512 60 (negsuc 199, pos 2800))

abbrev world : World
world = record {
  now = pos 1060;
  node = node;
  truth = λ q. none;
  sends = 0;
  acks_lost = 0;
  readings = 1;
}

abbrev header : BatchHeader
header = record {
  version = 0;
  flags = 0;
  count = 1;
  first_seq = 1;
  boot_id = 1;
  boot_now = 1;
  uptime_now_s = 60;
  boot_epoch_s = 0;
  lost_through = 0;
  sample_interval_s = 60;
  policy_min_centi = negsuc 199;
  policy_max_centi = pos 2800;
  log_id = 7;
}

abbrev samples : List BatchSample
samples = record { seq = 1; uptime_s = 60; centi_c = pos 400; flags = 0 } ∷ []

world-built :
    build_batch world.now world.node
    ≡ some (encode_batch (header_fields header) (map sample_fields samples))
unfolding build_batch sample append pending pending_first starts_sector batch_boot uptime_s
    lost_through batch_samples write_flash minus_ℤ collect judge encode_batch
world-built = refl

world-Sends : Sends world header samples
world-Sends = record {
  built = world-built;
  header = record {
    flags = omega arith;
    first_seq = omega arith;
    boot_id = omega arith;
    boot_now = omega arith;
    uptime_now_s = omega arith;
    boot_epoch_s = omega arith;
    lost_through = omega arith;
    sample_interval_s = omega arith;
    policy_min_centi = omega arith;
    policy_max_centi = omega arith;
    log_id = omega arith;
  };
  samples = (record { uptime_s = omega arith; centi_c = omega arith; flags = omega arith }, tt);
  few = omega arith;
}

abbrev result : IngestResult
result = (plan_batch none mac (sent_batch header samples) 1060).result

abbrev after : Store
after = (ingest durable mac (sent_batch header samples) (pos 1060) in_memory).1

batch-stored :
    ingest durable mac (sent_batch header samples) (pos 1060) in_memory ≡ (ok result, after)
unfolding ingest canonical mac_to_bytes mac_to_string from_hex ingest_canonical append_records
    plan_batch get in_memory hex_pad hex_digit
batch-stored = refl

small-ack : result.ack.acked_through < 2 ^ 32
unfolding plan_batch climb seen_of taken_of past_loss is_held take_samples take_one mem
    start_through
small-ack = omega arith

turn-acked_example :
    turn hash
      (λ (s : Store) (line : Str). handled (handle_line hash true durable (pos 1060) s line))
      0
      world
      in_memory
    ≡ again 0
        (record world {
          sends = 1;
          node = apply_ack result.ack.acked_through (pos result.ack.host_unix_s) (pos 1060) node;
        })
        after
unfolding sample append starts_sector
turn-acked_example =
    turn-acked hash hash-IsHash true durable 1060 world mac-IsMac header samples world-Sends
      in_memory after result batch-stored small-ack

abbrev owner : List ℕ
owner = mac_bytes ++ replicate 10 0

cell-IsMintable : IsMintable (hash (codes "templog.batch.v0")) (1 ∷ 2 ∷ 3 ∷ []) owner 60_000 7
cell-IsMintable = record {
  type_fits = refl;
  payload_fits = omega arith;
  owner_fits = refl;
  timestamp_fits = omega arith;
  domain_fits = omega arith;
}

parse_cell-mint_cell_example :
    (cell : List ℕ) × (mint_cell hash
        (hash (codes "templog.batch.v0"))
        (1 ∷ 2 ∷ 3 ∷ [])
        owner
        60_000
        7
      ≡ ok cell)
    × (length cell ≡ 1024)
    × (parse_cell hash cell
        ≡ some (record {
          kind = kind_of hash (hash (codes "templog.batch.v0"));
          type_hash = hash (codes "templog.batch.v0");
          owner_mac = mac;
          version = 2;
          linearity = 2;
          domain_flags = 7;
          timestamp_ms = 60_000;
          payload_total = 3;
          payload = padded (1 ∷ 2 ∷ 3 ∷ []);
          payload_root = hash (padded (1 ∷ 2 ∷ 3 ∷ []));
          payload_root_ok = true;
        }))
parse_cell-mint_cell_example =
    parse_cell-mint_cell hash (hash (codes "templog.batch.v0")) (1 ∷ 2 ∷ 3 ∷ []) owner 60_000 7 refl
      cell-IsMintable mac mac-shown

classify_line-format_tl_line_example :
    (line : Str) × (format_tl_line mac (replicate 1024 7) ≡ ok line)
    × (classify_line line ≡ tl mac (replicate 1024 7))
    × (classify_line (trim_end line) ≡ tl mac (replicate 1024 7))
classify_line-format_tl_line_example =
    classify_line-format_tl_line mac mac mac_bytes (replicate 1024 7) mac-read mac-shown
      (length-replicate {A = ℕ} 1024 7) (All-replicate IsByte 1024 7 (omega arith))

parse_ak_line-format_ak_line_example :
    (line : Str) × (format_ak_line mac (pos 12) (pos 1000) ≡ ok line)
    × (parse_ak_line line ≡ some (record { mac = mac; acked_through = 12; host_unix_s = 1000 }))
parse_ak_line-format_ak_line_example =
    parse_ak_line-format_ak_line mac mac mac_bytes 12 1000 mac-read mac-shown refl (mac-IsMac.bound)
      (omega arith) (omega arith)
