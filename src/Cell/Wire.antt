-- ===== src/Cell/Wire.antt =====
-- The 1024-byte cells: `mintCell` of tools/x402-bridge/cell-codec.ts and `parseCell` of
-- tools/templog-bridge/codec.ts. SHA-256 is a parameter.
pub mod Minted
pub mod RoundTrip
use semantos_edge.Base.{
  ℕ, ◌+◌, ◌*◌, Bool, true, false, not, ◌&&◌, Option, none, some, List, [], ◌∷◌, ltb, ◌==◌,
  if◌then◌else◌, length, take, replicate, Result, ok, thrown, ◌>>=◌,
}
use semantos_edge.Base.Map.{Str}
use semantos_edge.Base.Bytes.{set_at, slice}
use semantos_edge.Cell.Words.{write_u32, write_u64, read_u32, read_u64}
use semantos_edge.Templog.Text.{codes}
use semantos_edge.Templog.Mac.{mac_to_string}

-- The four words of MAGIC.
abbrev pub magic : List ℕ
magic = 0xdead_beef ∷ 0xcafe_babe ∷ 0x1337_1337 ∷ 0x4242_4242 ∷ []

-- for (i …) writeU32LE(cell, i * 4, MAGIC[i]), from word `i` on
write_magic : ℕ → List ℕ → List ℕ → List ℕ
write_magic i [] cell = cell
write_magic i (w ∷ ws) cell = write_magic (i + 1) ws (write_u32 cell (i * 4) w)

-- Every word of MAGIC from `i` on is there.
has_magic : ℕ → List ℕ → List ℕ → Bool
has_magic i [] bytes = true
has_magic i (w ∷ ws) bytes = read_u32 bytes (i * 4) == w && has_magic (i + 1) ws bytes

-- sameBytes
unfoldable pub same_bytes : List ℕ → List ℕ → Bool
same_bytes [] [] = true
same_bytes [] (y ∷ ys) = false
same_bytes (x ∷ xs) [] = false
same_bytes (x ∷ xs) (y ∷ ys) = x == y && same_bytes xs ys

pub data CellKind : Type 0 where
  batch ack other : CellKind

pub record ParsedCell : Type 0 where
  pub kind : CellKind
  pub type_hash : List ℕ
  pub owner_mac : Str
  pub version : ℕ
  pub linearity : ℕ
  pub domain_flags : ℕ
  pub timestamp_ms : ℕ
  pub payload_total : ℕ
  pub payload : List ℕ
  pub payload_root : List ℕ
  pub payload_root_ok : Bool

module _ (sha256 : List ℕ → List ℕ) where
  -- typeHash of an ASCII name
  unfoldable pub type_hash : Str → List ℕ
  type_hash name = sha256 name

  unfoldable pub kind_of : List ℕ → CellKind
  kind_of type =
      if same_bytes type (type_hash (codes "templog.batch.v0"))
      then batch
      else if same_bytes type (type_hash (codes "templog.ack.v0"))
      then ack
      else other

  unfoldable pub mint_cell : List ℕ → List ℕ → List ℕ → ℕ → ℕ → Result (List ℕ)
  unfolding write_magic
  mint_cell type payload owner_id timestamp_ms domain_flag =
      if ltb 768 (length payload) then thrown else do
        let cell = write_u32 (write_magic 0 magic (replicate 1024 0)) 16 2
        cell ← set_at (write_u32 (write_u32 cell 24 domain_flag) 20 2) 30 type
        cell ← set_at cell 62 (take 16 owner_id)
        cell ← set_at (write_u64 cell 78 timestamp_ms) 256 payload
        let cell = write_u32 cell 90 (length payload)
        set_at cell 224 (sha256 (slice 256 768 cell))

  -- The MAC is six bytes of a cell that is long enough, so `macToString` does not throw.
  unfoldable pub parse_cell : List ℕ → Option ParsedCell
  unfolding has_magic
  parse_cell bytes =
      if not (length bytes == 1024)
      then none
      else if not (has_magic 0 magic bytes)
      then none
      else let type = slice 30 32 bytes in
        let payload = slice 256 768 bytes in
        let root = slice 224 32 bytes in
        elim (mac_to_string (slice 62 6 bytes)) [
          | thrown ↦ none
          | ok mac ↦ some (record {
            kind = kind_of type;
            type_hash = type;
            owner_mac = mac;
            version = read_u32 bytes 20;
            linearity = read_u32 bytes 16;
            domain_flags = read_u32 bytes 24;
            timestamp_ms = read_u64 bytes 78;
            payload_total = read_u32 bytes 90;
            payload = payload;
            payload_root = root;
            payload_root_ok = same_bytes (sha256 payload) root;
          })
        ]
