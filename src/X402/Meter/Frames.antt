-- ===== src/X402/Meter/Frames.antt =====
-- The payloads and the cells of `ChannelMeter` (tools/x402-bridge/meter.ts).
use semantos_edge.Base.{ℕ, ◌*◌, List, replicate, take, Result, ok, ◌>>=◌}
use semantos_edge.Base.Map.{Str}
use semantos_edge.Base.Bytes.{set_at}
use semantos_edge.Templog.Text.{codes, from_hex}
use semantos_edge.Cell.Words.{write_u32, write_u64}
use semantos_edge.Cell.Wire.{mint_cell, type_hash}
use semantos_edge.Cell.Domains.{domain_for_type}
use semantos_edge.X402.Meter.{FrameKind, open_channel, commitment, close_channel, Frame}

-- CAPACITY and EXPIRY_MS
abbrev pub capacity : ℕ
capacity = 1000000

abbrev pub expiry_ms : ℕ
expiry_ms = 7 * 24 * 3600000

unfoldable pub encode_open : List ℕ → Str → ℕ → Result (List ℕ)
encode_open pub_key channel_id_hex now = do
  b ← set_at (replicate 61 0) 0 (from_hex channel_id_hex)
  b ← set_at b 16 pub_key
  ok (write_u32 (write_u64 b 49 now) 57 capacity)

unfoldable pub encode_commitment : Str → ℕ → ℕ → Result (List ℕ)
encode_commitment channel_id_hex seq share = do
  b ← set_at (replicate 68 0) 0 (from_hex channel_id_hex)
  ok (write_u64 (write_u32 (write_u32 (write_u32 b 16 seq) 20 share) 24 0) 28 expiry_ms)

unfoldable pub encode_close : Str → ℕ → ℕ → Result (List ℕ)
encode_close channel_id_hex seq share = do
  b ← set_at (replicate 24 0) 0 (from_hex channel_id_hex)
  ok (write_u32 (write_u32 b 16 seq) 20 share)

-- OPEN_TYPE, COMMITMENT_TYPE and CLOSE_TYPE
abbrev pub type_name : FrameKind → Str
type_name open_channel = codes "cellmesh.channel_open.v0"
type_name commitment = codes "cellmesh.channel_commitment.v0"
type_name close_channel = codes "cellmesh.channel_close.v0"

-- SHA-256 and the signature of a cell are parameters.
module _ (sha256 : List ℕ → List ℕ) (sign_cell : List ℕ → List ℕ) where
  -- The cell of `seal` and its signature.
  unfoldable pub sealed_cell : List ℕ → Frame → Result (List ℕ × List ℕ)
  sealed_cell pub_key f = do
    let type = type_hash sha256 (type_name f.kind)
    domain ← domain_for_type sha256 type
    cell ← mint_cell sha256 type f.payload (take 16 pub_key) f.timestamp_ms domain
    ok (cell, sign_cell cell)
