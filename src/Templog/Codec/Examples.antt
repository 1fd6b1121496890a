-- ===== src/Templog/Codec/Examples.antt =====
-- A batch of two samples through the codec of tools/templog-bridge/codec.ts.
use semantos_edge.Base.{ℕ, ◌≡◌, refl, some, List, [], ◌∷◌, map, arith, All, ok}
use semantos_edge.Base.Int.{pos, negsuc}
use semantos_edge.Base.Map.{Str}
use semantos_edge.Templog.Text.{codes, all_hex, is_hex, hex_value, from_hex, hex_pad, hex_digit}
use semantos_edge.Templog.Mac.{mac_to_bytes, mac_to_string, is_mac}
use semantos_edge.Templog.Codec.Acks.{decode_ack-encode_ack}
use semantos_edge.Templog.Batch.{BatchHeader, BatchSample}
use semantos_edge.Templog.Codec.{encode_batch, decode_batch, encode_ack, decode_ack}
use semantos_edge.Templog.Codec.Layout.{IsHeader, IsSample, header_fields, sample_fields}
use semantos_edge.Templog.Codec.RoundTrip.{sent_header, numbered, decode_batch-encode_batch}

abbrev header : BatchHeader
header = record {
  version = 0;
  flags = 0;
  count = 2;
  first_seq = 300;
  boot_id = 2;
  boot_now = 3;
  uptime_now_s = 70_000;
  boot_epoch_s = 1_700_000_000;
  lost_through = 256;
  sample_interval_s = 60;
  policy_min_centi = negsuc 199;
  policy_max_centi = pos 2800;
  log_id = 0xdead_beef;
}

abbrev samples : List BatchSample
samples =
    record { seq = 300; uptime_s = 66_000; centi_c = negsuc 32_767; flags = 2 }
    ∷ record { seq = 301; uptime_s = 66_060; centi_c = pos 412; flags = 0 }
    ∷ []

header-IsHeader : IsHeader header
header-IsHeader = record {
  flags = omega arith;
  first_seq = omega arith;
  boot_id = omega arith;
  boot_now = omega arith;
  uptime_now_s = omega arith;
  boot_epoch_s = omega arith;
  lost_through = omega arith;
  sample_interval_s = omega arith;
  policy_min_centi = omega arith;
  policy_max_centi = omega arith;
  log_id = omega arith;
}

samples-IsSample : All IsSample samples
samples-IsSample = (
  record { uptime_s = omega arith; centi_c = omega arith; flags = omega arith },
  (record { uptime_s = omega arith; centi_c = omega arith; flags = omega arith }, tt),
)

decode_batch-encode_batch_example :
    (p : List ℕ) × (encode_batch (header_fields header) (map sample_fields samples) ≡ ok p)
    × (decode_batch p
        ≡ some (record { header = sent_header header 2; samples = numbered 300 0 samples }))
decode_batch-encode_batch_example =
    decode_batch-encode_batch header samples header-IsHeader samples-IsSample (omega arith)

abbrev mac : Str
mac = codes "AABBccddee01"

abbrev mac_bytes : List ℕ
mac_bytes = 0xaa ∷ 0xbb ∷ 0xcc ∷ 0xdd ∷ 0xee ∷ 1 ∷ []

mac-read : mac_to_bytes mac ≡ ok mac_bytes
unfolding mac_to_bytes is_mac all_hex is_hex hex_value from_hex
mac-read = refl

mac-written : mac_to_string mac_bytes ≡ ok (codes "aa:bb:cc:dd:ee:01")
unfolding mac_to_string hex_pad hex_digit
mac-written = refl

decode_ack-encode_ack_example :
    (p : List ℕ) × (encode_ack mac (pos 300) (pos 1_700_000_000) ≡ ok p)
    × (decode_ack p
        ≡ some (record {
          target_mac = codes "aa:bb:cc:dd:ee:01";
          acked_through = 300;
          host_unix_s = 1_700_000_000;
        }))
decode_ack-encode_ack_example =
    decode_ack-encode_ack mac (codes "aa:bb:cc:dd:ee:01") 300 1_700_000_000 0xaa 0xbb 0xcc 0xdd 0xee
      1 mac-read mac-written (omega arith) (omega arith)
