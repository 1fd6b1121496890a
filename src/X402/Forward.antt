-- ===== src/X402/Forward.antt =====
-- The payloads of forwarded cells of tools/x402-bridge/mesh-control.ts: forward.v0, forward.v1 with a
-- commitment for each hop, the two cells of forward.v2, rules and settlements. SHA-256 is a parameter.
pub mod Route
pub mod Bound
pub mod Slots
pub mod Rules
mod Examples
use semantos_edge.Base.{
  ℕ, zero, suc, ◌+◌, ◌-◌, ◌*◌, ◌/◌, ◌%◌, ◌^◌, Option, none, some, List, [], ◌∷◌, ltb, ◌==◌,
  if◌then◌else◌, length, take, set, replicate, Result, ok, ◌>>=◌,
}
use semantos_edge.Base.Bytes.{set_at, slice}
use semantos_edge.Cell.Words.{write_u16, write_u32}

-- encodeRule's `quorum`
pub record Quorum : Type 0 where
  pub n : ℕ
  pub window_ms : ℕ

-- buf[o] = v
abbrev pub put_byte : List ℕ → ℕ → ℕ → List ℕ
put_byte buf o v = set buf o (v % 256)

put_quorum : Option Quorum → List ℕ → List ℕ
put_quorum none buf = buf
put_quorum (some q) buf = put_byte (write_u16 (put_byte buf 34 q.n) 35 q.window_ms) 37 q.n

trigger_kind : Option Quorum → ℕ
trigger_kind none = 0x01
trigger_kind (some q) = 0x02

unfoldable pub encode_rule : List ℕ → ℕ → Option Quorum → Result (List ℕ)
unfolding put_quorum trigger_kind
encode_rule trigger_type blink_ms quorum = do
  buf ← set_at (set (set (replicate 139 0) 0 0x01) 1 (trigger_kind quorum)) 2 trigger_type
  ok (write_u16 (set (put_quorum quorum buf) 38 0x01) 39 blink_ms)

-- The eight bytes of the clock, from byte `i` on.
seed_from : ℕ → ℕ → ℕ → List ℕ
seed_from zero i now = []
seed_from (suc n) i now = now / 2 ^ (i * 8) % 256 ∷ seed_from n (i + 1) now

-- The loop over the segments, with room for `room` more. The source has it three times, in the same
-- words: in forward.v0, in forward.v1 and in the routing cell of forward.v2.
unfoldable pub put_segments : ℕ → ℕ → List (List ℕ) → List ℕ → Result (List ℕ)
put_segments zero i macs buf = ok buf
put_segments (suc room) i [] buf = ok buf
put_segments (suc room) i (mac ∷ macs) buf =
    set_at buf (24 + i * 6) (take 6 mac) >>= put_segments room (i + 1) macs

pub record Commitment : Type 0 where
  pub channel_id : List ℕ
  pub seq : ℕ
  pub share : ℕ
  pub expiry_ms : ℕ
  pub cert_hash : Option (List ℕ)

unfoldable pub put_cert_hash : Option (List ℕ) → ℕ → List ℕ → Result (List ℕ)
put_cert_hash none off buf = ok buf
put_cert_hash (some hash) off buf = if length hash == 32 then set_at buf (off + 36) hash else ok buf

-- One slot. `user_share` is what is left of 100,000, or 0.
unfoldable pub put_commitment : ℕ → Commitment → List ℕ → Result (List ℕ)
put_commitment off c buf = do
  buf ← set_at buf off (take 16 c.channel_id)
  let buf = write_u32 buf (off + 16) c.seq
  let buf = write_u32 buf (off + 20) c.share
  let buf = write_u32 buf (off + 24) (100_000 - c.share)
  let buf = write_u32 buf (off + 28) (c.expiry_ms % 2 ^ 32)
  put_cert_hash c.cert_hash off (write_u32 buf (off + 32) (c.expiry_ms / 2 ^ 32 % 2 ^ 32))

-- The loop over the commitments, with room for `room` more. The source has it in forward.v1 and, in the
-- same words, in the routing cell of forward.v2.
unfoldable pub put_commitments : ℕ → ℕ → List Commitment → List ℕ → Result (List ℕ)
put_commitments zero i cs buf = ok buf
put_commitments (suc room) i [] buf = ok buf
put_commitments (suc room) i (c ∷ cs) buf =
    put_commitment (48 + i * 68) c buf >>= put_commitments room (i + 1) cs

unfoldable pub put_inner : ℕ → List ℕ → List ℕ → Result (List ℕ)
put_inner o inner buf = if ltb 0 (length inner) then set_at buf o inner else ok buf

module _ (sha256 : List ℕ → List ℕ) where
  -- The flow id from the clock.
  unfoldable pub clock_flow_id : ℕ → List ℕ
  unfolding seed_from
  clock_flow_id now = take 16 (sha256 (seed_from 8 0 now))

  -- What forward.v0 and forward.v1 put into the first 48 bytes.
  unfoldable pub put_base : ℕ → ℕ → List (List ℕ) → ℕ → List ℕ → Result (List ℕ)
  put_base now hop_verb macs inner_length buf = do
    buf ← set_at buf 0 (clock_flow_id now)
    let buf = put_byte (put_byte (set buf 16 0) 17 (length macs)) 18 (length macs)
    put_segments 4 0 macs (write_u32 (put_byte buf 19 hop_verb) 20 inner_length)

  unfoldable pub build_forward_payload : ℕ → ℕ → List (List ℕ) → List ℕ → Result (List ℕ)
  build_forward_payload now hop_verb macs inner =
      put_base now hop_verb macs (length inner) (replicate (48 + length inner) 0)
      >>= put_inner 48 inner

  unfoldable pub build_forward_v1_payload :
      ℕ → ℕ → List (List ℕ) → List Commitment → List ℕ → Result (List ℕ)
  build_forward_v1_payload now hop_verb macs commitments inner = do
    buf ← put_base now hop_verb macs (length inner) (replicate (320 + length inner) 0)
    buf ← put_commitments 4 0 commitments buf
    put_inner 320 inner buf

  unfoldable pub build_forward_v2_payload_a : List ℕ → ℕ → ℕ → List ℕ → Result (List ℕ)
  build_forward_v2_payload_a flow_id hop_verb segment_count inner = do
    buf ← set_at (replicate (24 + length inner) 0) 0 (take 16 flow_id)
    let buf = put_byte (put_byte (set buf 16 0) 17 segment_count) 18 hop_verb
    put_inner 24 inner (write_u32 (set buf 19 0x01) 20 (length inner))

  unfoldable pub build_forward_v2_payload_b :
      List ℕ → List (List ℕ) → List Commitment → Result (List ℕ)
  build_forward_v2_payload_b flow_id macs commitments = do
    buf ← set_at (replicate 320 0) 0 (take 16 flow_id)
    buf ← put_segments 4 0 macs (put_byte (set buf 16 0) 17 (length macs))
    put_commitments 4 0 commitments buf

  unfoldable pub routing_flow_id : List ℕ → List ℕ
  routing_flow_id payload_b = take 16 (sha256 (slice 16 304 payload_b))

  -- The two payloads of the route /inject-forward-v2.
  unfoldable pub build_burst :
      ℕ → ℕ → List (List ℕ) → List Commitment → List ℕ → Result (List ℕ × List ℕ)
  build_burst now hop_verb macs commitments inner = do
    payload_b ← build_forward_v2_payload_b (clock_flow_id now) macs commitments
    let bound = routing_flow_id payload_b
    payload_b ← set_at payload_b 0 bound
    payload_a ← build_forward_v2_payload_a bound hop_verb 2 inner
    ok (payload_a, payload_b)
