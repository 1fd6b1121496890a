-- ===== src/Templog/Sim/World.antt =====
-- `SimWorld` of tools/templog-bridge/sim.ts: a clock, the node, the radio and the gateway. The bridge
-- is a `LineHandler` with a state of its own; SHA-256 and the curve of the fridge are parameters. A
-- throw ends the simulation: what it leaves behind is not kept.
use semantos_edge.Base.{
  ℕ, zero, suc, ◌+◌, ◌-◌, ◌*◌, ◌%◌, ◌^◌, Bool, true, false, not, Option, none, some, List, ltb,
  ◌==◌, if◌then◌else◌, take, replicate, Result, ok, thrown, ◌>>=◌,
}
use semantos_edge.Base.Int.{ℤ, pos, negsuc, ◌+ℤ◌}
use semantos_edge.Base.Map.{Str, str_eq}
use semantos_edge.Base.Bytes.{set_at}
use semantos_edge.Cell.Domains.{mesh_telemetry}
use semantos_edge.Cell.Wire.{CellKind, batch, ack, other, mint_cell, parse_cell, type_hash}
use semantos_edge.Templog.Text.{codes}
use semantos_edge.Templog.Mac.{mac_to_bytes}
use semantos_edge.Templog.Codec.{Ack, encode_ack, decode_ack}
use semantos_edge.Templog.Serial.{trim_end, format_tl_line}
use semantos_edge.Templog.Serial.AkLine.{AkLine, parse_ak_line}
use semantos_edge.Templog.Store.Ingest.{Store}
use semantos_edge.Templog.Bridge.Line.{Handled}
use semantos_edge.Templog.Sim.Node.{
  SimNode, or_default, new_node, sample, burn, reboot, uptime_s, build_batch, apply_ack,
}

-- ownerId(mac)
unfoldable pub owner_id : Str → Result (List ℕ)
owner_id mac = do bytes ← mac_to_bytes mac; set_at (replicate 16 0) 0 bytes

pub record World : Type 0 where
  pub now : ℤ
  pub node : SimNode
  pub truth : ℕ → Option ℤ
  pub sends : ℕ
  pub acks_lost : ℕ
  pub readings : ℕ

-- new SimWorld({ startUnixS, mac, logId, capacity, intervalS })
unfoldable pub new_world : ℤ → Str → ℕ → Option ℕ → Option ℕ → Result World
new_world start mac log_id capacity interval = do
  node ← new_node mac log_id start capacity interval none
  ok (record {
    now = start;
    node = node;
    truth = λ q. none;
    sends = 0;
    acks_lost = 0;
    readings = 0;
  })

-- this.truth.set(seq, t)
unfoldable pub set_truth : ℕ → ℤ → (ℕ → Option ℤ) → ℕ → Option ℤ
set_truth seq t truth q = if seq == q then some t else truth q

-- One round of `take`: `reading` is none for a round that the caller does not override.
unfoldable pub take_reading : (ℕ → ℤ) → Option (Option ℤ) → World → World
take_reading fridge reading w =
    let t = w.now +ℤ pos w.node.interval_s in
    let r = or_default reading (some (fridge w.readings)) in
    record w {
      now = t;
      node = sample t r w.node;
      truth = set_truth w.node.next_seq t w.truth;
      readings = w.readings + 1;
    }

-- take(n, reading), from round `i` on
unfoldable pub take_rounds : (ℕ → ℤ) → (ℕ → Option (Option ℤ)) → ℕ → ℕ → World → World
take_rounds fridge reading i zero w = w
take_rounds fridge reading i (suc n) w =
    take_rounds fridge reading (i + 1) n (take_reading fridge (reading i) w)

unfoldable pub burn_one : World → World
burn_one w = record w {
  now = w.now +ℤ pos w.node.interval_s;
  readings = w.readings + 1;
  node = burn w.node;
}

unfoldable pub reboot_node : World → World
reboot_node w = let t = w.now +ℤ pos 20 in record w { now = t; node = reboot t w.node }

unfoldable pub foreign_ack : ℕ → World → World
foreign_ack seq w = record w { node = apply_ack seq w.now w.now w.node }

-- The low 64 bits of BigInt(uptime) * 1000n, which writeU64LE writes.
unfoldable pub clock_ms : ℤ → ℕ
clock_ms (pos n) = n * 1000 % 2 ^ 64
clock_ms (negsuc n) = (2 ^ 64 - suc n * 1000 % 2 ^ 64) % 2 ^ 64

abbrev pub gateway_mac : Str
gateway_mac = codes "02:00:5e:c0:1d:00"

unfoldable pub is_ack : CellKind → Bool
is_ack ack = true
is_ack batch = false
is_ack other = false

-- The bridge as a `LineHandler`: what it answers, and its store.
unfoldable pub handled : Handled → Result (Option Str) × Store
handled h = (h.reply, h.store)

module _ (sha256 : List ℕ → List ℕ) where
  -- The cell that the node sends, and its line as it reaches the bridge.
  unfoldable pub batch_cell : World → List ℕ → Result (List ℕ)
  batch_cell w payload = do
    owner ← owner_id w.node.mac
    mint_cell sha256 (type_hash sha256 (codes "templog.batch.v0")) payload owner
        (clock_ms (uptime_s w.now w.node)) mesh_telemetry

  unfoldable pub batch_line : World → List ℕ → Result Str
  batch_line w payload = do
    cell ← batch_cell w payload
    line ← format_tl_line w.node.mac cell
    ok (trim_end line)

  -- The ack that the node reads from a cell.
  unfoldable pub ack_of : List ℕ → Option Ack
  ack_of cell = elim (parse_cell sha256 cell) [
    | none ↦ none
    | some parsed ↦
        if is_ack parsed.kind then decode_ack (take parsed.payload_total parsed.payload) else none
  ]

  unfoldable pub ack_cell : AkLine → Result (List ℕ)
  ack_cell ak = do
    payload ← encode_ack ak.mac (pos ak.acked_through) (pos ak.host_unix_s)
    owner ← owner_id gateway_mac
    mint_cell sha256 (type_hash sha256 (codes "templog.ack.v0")) payload owner 0 mesh_telemetry

  -- The node takes an ack for its own MAC.
  unfoldable pub hear : Option Ack → World → Result World
  hear none w = thrown
  hear (some got) w =
      if not (str_eq got.target_mac w.node.mac)
      then ok w
      else ok (record w { node = apply_ack got.acked_through (pos got.host_unix_s) w.now w.node })

  -- gatewayToNode(akLine)
  unfoldable pub gateway_to_node : Str → World → Result World
  gateway_to_node line w = elim (parse_ak_line line) [
    | none ↦ thrown
    | some ak ↦ ack_cell ak >>= λ cell. hear (ack_of cell) w
  ]

  module _ {S : Type 0} (handle : S → Str → Result (Option Str) × S) where
    -- What a round of `deliver` comes to.
    pub data Turn : Type 0 where
      settled failed : Turn
      again : ℕ → World → S → Turn

    unfoldable pub after_reply : ℕ → World → Result (Option Str) × S → Turn
    after_reply drop w (thrown, s) = failed
    after_reply drop w (ok none, s) = failed
    after_reply drop w (ok (some ak), s) =
        if ltb 0 drop
        then again (drop - 1) (record w { acks_lost = w.acks_lost + 1 }) s
        else elim (gateway_to_node ak w) [ thrown ↦ failed | ok w' ↦ again drop w' s ]

    unfoldable pub turn : ℕ → World → S → Turn
    turn drop w s = elim (build_batch w.now w.node) [
      | none ↦ settled
      | some payload ↦ elim (payload >>= batch_line w) [
        | thrown ↦ failed
        | ok line ↦ after_reply drop (record w { sends = w.sends + 1 }) (handle s line)
      ]
    ]

    -- The loop of `deliver`, which the source gives 10,000 rounds.
    unfoldable pub deliver : ℕ → ℕ → World → S → Result (World × S)
    deliver zero drop w s = thrown
    deliver (suc guard) drop w s = elim (turn drop w s) [
      | settled ↦ ok (w, s)
      | failed ↦ thrown
      | again drop' w' s' ↦ deliver guard drop' w' s'
    ]
