-- ===== src/Templog/Bridge/Examples.antt =====
-- A batch through `handleLine` of tools/templog-bridge/bridge.ts, with a stand-in for SHA-256.
use semantos_edge.Base.{
  arith, ℕ, ◌≡◌, refl, ◌⊎◌, true, some, List, [], ◌∷◌, replicate, ok, thrown, Result,
}
use semantos_edge.Base.Int.{pos, negsuc}
use semantos_edge.Base.Map.{Str}
use semantos_edge.Cell.Wire.{mint_cell}
use semantos_edge.Templog.Text.{codes}
use semantos_edge.Templog.Codec.{encode_batch}
use semantos_edge.Templog.Serial.{format_tl_line}
use semantos_edge.Templog.Bridge.Line.{handle_line, ignored}
use semantos_edge.Templog.Bridge.Stream.{StayShort, before, cut, split_lines, split_lines-chunks}
use semantos_edge.Templog.Bridge.Acked.{Answered, Unwritten, handle_line-cases}
use semantos_edge.Templog.Store.Ingest.{durable, in_memory}

abbrev hash : List ℕ → List ℕ
hash bytes = replicate 32 7

abbrev or_empty : Result (List ℕ) → List ℕ
or_empty thrown = []
or_empty (ok bytes) = bytes

abbrev mac : Str
mac = codes "02:00:5e:c0:1d:01"

abbrev owner : List ℕ
owner = 2 ∷ 0 ∷ 0x5e ∷ 0xc0 ∷ 0x1d ∷ 1 ∷ 0 ∷ 0 ∷ 0 ∷ 0 ∷ 0 ∷ 0 ∷ 0 ∷ 0 ∷ 0 ∷ 0 ∷ []

abbrev payload : List ℕ
payload = or_empty (
    encode_batch
      (record {
        first_seq = pos 1;
        boot_id = pos 1;
        boot_now = pos 1;
        uptime_now_s = pos 60;
        boot_epoch_s = pos 0;
        lost_through = pos 0;
        sample_interval_s = pos 60;
        policy_min_centi = negsuc 199;
        policy_max_centi = pos 2800;
        log_id = pos 7;
        flags = some (pos 0);
      })
      (record { uptime_s = pos 10; centi_c = pos 400; flags = pos 0 } ∷ []))

abbrev cell_bytes : List ℕ
cell_bytes = or_empty (mint_cell hash (hash []) payload owner 60_000 0)

abbrev line : Str
line = or_empty (format_tl_line mac cell_bytes)

handle_line-cases_example :
    (handle_line hash true durable (pos 1000) in_memory line ≡ ignored in_memory)
    ⊎ (Unwritten hash true durable (pos 1000) in_memory line
        ⊎ Answered hash true durable (pos 1000) in_memory line)
handle_line-cases_example = handle_line-cases hash true durable (pos 1000) in_memory line

-- One line in two chunks, and in one.
in_two : StayShort [] (codes "TL 0" ∷ codes "2:00\r\nI (7)" ∷ [])
unfolding cut before
in_two = (omega arith, (omega arith, tt))

in_one : StayShort [] (codes "TL 02:00\r\nI (7)" ∷ [])
unfolding cut before
in_one = (omega arith, tt)

split_lines-chunks_example :
    split_lines [] [] (codes "TL 0" ∷ codes "2:00\r\nI (7)" ∷ [])
    ≡ split_lines [] [] (codes "TL 02:00\r\nI (7)" ∷ [])
split_lines-chunks_example =
    split_lines-chunks [] (codes "TL 0" ∷ codes "2:00\r\nI (7)" ∷ [])
      (codes "TL 02:00\r\nI (7)" ∷ []) refl in_two in_one
