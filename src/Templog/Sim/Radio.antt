-- ===== src/Templog/Sim/Radio.antt =====
-- What goes over the radio and the serial line in tools/templog-bridge/sim.ts: the cells, the TL
-- line and the AK line carry what was put into them.
use semantos_edge.Base.{
  ℕ, ◌^◌, ◌<◌, ◌≤◌, ◌≡◌, ◌≢◌, refl, true, List, [], ◌∷◌, some, length, take, replicate, ok, arith,
  All, Bool-cases, inl, inr,
}
use semantos_edge.Base.Int.{pos}
use semantos_edge.Base.Map.{Str, str_eq, str_eq_refl}
use semantos_edge.Base.Bytes.{set_at, overwrite, take-append}
use semantos_edge.Cell.Domains.{mesh_telemetry}
use semantos_edge.Cell.Wire.{batch, ack, type_hash, kind_of, same_bytes}
use semantos_edge.Cell.Wire.Minted.{IsMintable, padded, mint_cell_lem}
use semantos_edge.Cell.Wire.RoundTrip.{minted, parse-minted, same_bytes_self, same_bytes_eq}
use semantos_edge.Templog.Text.{codes, IsByte, from_hex, hex_value, hex_pad, hex_digit}
use semantos_edge.Templog.Mac.{is_mac, mac_to_bytes, mac_to_string}
use semantos_edge.Templog.Batch.{IsU32}
use semantos_edge.Templog.Codec.Acks.{ack_bytes, encode_ack-bytes, decode_ack-bytes}
use semantos_edge.Templog.Serial.AkLine.{parse_ak_line-format_ak_line}
use semantos_edge.Templog.Serial.{format_ak_line}
use semantos_edge.Templog.Sim.Node.{apply_ack}
use semantos_edge.Templog.Sim.World.{
  World, owner_id, gateway_mac, is_ack, ack_of, ack_cell, hear, gateway_to_node,
}

-- A MAC in its canonical text, with its six bytes.
pub record IsMac (text : Str) : Type 0 where
  pub b0 : ℕ
  pub b1 : ℕ
  pub b2 : ℕ
  pub b3 : ℕ
  pub b4 : ℕ
  pub b5 : ℕ
  pub bound : All IsByte (b0 ∷ b1 ∷ b2 ∷ b3 ∷ b4 ∷ b5 ∷ [])
  pub reads : mac_to_bytes text ≡ ok (b0 ∷ b1 ∷ b2 ∷ b3 ∷ b4 ∷ b5 ∷ [])
  pub shows : mac_to_string (b0 ∷ b1 ∷ b2 ∷ b3 ∷ b4 ∷ b5 ∷ []) ≡ ok text

abbrev pub bytes_of : {text : Str} → IsMac text → List ℕ
bytes_of m = m.b0 ∷ m.b1 ∷ m.b2 ∷ m.b3 ∷ m.b4 ∷ m.b5 ∷ []

abbrev pub owner_of : {text : Str} → IsMac text → List ℕ
owner_of m = m.b0 ∷ m.b1 ∷ m.b2 ∷ m.b3 ∷ m.b4 ∷ m.b5 ∷ replicate 10 0

pub owner_id-IsMac : (text : Str) (m : IsMac text) → owner_id text ≡ ok (owner_of m)
unfolding owner_id set_at overwrite
owner_id-IsMac text m = rw m.reads refl

-- What SHA-256 gives: 32 bytes. The two types of the log differ.
pub record IsHash (sha256 : List ℕ → List ℕ) : Type 0 where
  pub size : (b : List ℕ) → length (sha256 b) ≡ 32
  pub bytes : (b : List ℕ) → All IsByte (sha256 b)
  pub apart :
      type_hash sha256 (codes "templog.ack.v0") ≢ type_hash sha256 (codes "templog.batch.v0")

abbrev gateway_bytes : List ℕ
gateway_bytes = 2 ∷ 0 ∷ 0x5e ∷ 0xc0 ∷ 0x1d ∷ 0 ∷ []

gateway-read : mac_to_bytes gateway_mac ≡ ok gateway_bytes
unfolding mac_to_bytes is_mac from_hex hex_value
gateway-read = refl

gateway-shown : mac_to_string gateway_bytes ≡ ok gateway_mac
unfolding mac_to_string hex_pad hex_digit
gateway-shown = refl

abbrev gateway-IsMac : IsMac gateway_mac
gateway-IsMac = record {
  b0 = 2;
  b1 = 0;
  b2 = 0x5e;
  b3 = 0xc0;
  b4 = 0x1d;
  b5 = 0;
  bound =
      (omega arith, (omega arith, (omega arith, (omega arith, (omega arith, (omega arith, tt))))));
  reads = gateway-read;
  shows = gateway-shown;
}

module _ (sha256 : List ℕ → List ℕ) (hash : IsHash sha256) where
  pub kind_of-batch : kind_of sha256 (type_hash sha256 (codes "templog.batch.v0")) ≡ batch
  unfolding kind_of
  kind_of-batch = rw (same_bytes_self (type_hash sha256 (codes "templog.batch.v0"))) refl

  kind_of-ack : kind_of sha256 (type_hash sha256 (codes "templog.ack.v0")) ≡ ack
  unfolding kind_of
  kind_of-ack =
      let t : List ℕ = type_hash sha256 (codes "templog.ack.v0") in
      let u : List ℕ = type_hash sha256 (codes "templog.batch.v0") in
      elim (Bool-cases (same_bytes t u)) [
        | inl e ↦ absurd (hash.apart (same_bytes_eq t u e))
        | inr e ↦ rw e (rw (same_bytes_self t) refl)
      ]

  -- A log cell with a payload that fits, from the unit with a canonical MAC.
  pub log_cell :
      (name text : Str) (m : IsMac text) (payload : List ℕ) (ms : ℕ)
      → length payload ≤ 768
      → ms < 2 ^ 64
      → IsMintable (type_hash sha256 name) payload (owner_of m) ms mesh_telemetry
  unfolding type_hash
  log_cell name text m payload ms small time = record {
    type_fits = hash.size name;
    payload_fits = small;
    owner_fits = refl;
    timestamp_fits = time;
    domain_fits = omega arith;
  }

  module _ (a h : ℕ) (ua : IsU32 a) (uh : IsU32 h) (text : Str) (m : IsMac text) where
    -- An ack cell for a MAC reads as the ack for that MAC.
    ack_cell-ack_of :
        (cell : List ℕ) × (ack_cell sha256
            (record { mac = text; acked_through = a; host_unix_s = h })
          ≡ ok cell)
        × (ack_of sha256 cell
            ≡ some (record { target_mac = text; acked_through = a; host_unix_s = h }))
    unfolding ack_cell ack_of is_ack
    ack_cell-ack_of =
        let payload : List ℕ = ack_bytes (bytes_of m) a h in
        let type : List ℕ = type_hash sha256 (codes "templog.ack.v0") in
        let fits =
          log_cell (codes "templog.ack.v0") gateway_mac gateway-IsMac payload 0 (omega arith)
            (omega arith) in
        let long = hash.size (padded payload) in
        let owner : List ℕ = owner_of gateway-IsMac in
        let encoded = encode_ack-bytes text text a h m.b0 m.b1 m.b2 m.b3 m.b4 m.b5 m.reads ua uh in
        let decoded = decode_ack-bytes text text a h m.b0 m.b1 m.b2 m.b3 m.b4 m.b5 m.shows ua uh in
        let read =
          parse-minted sha256 type payload owner 0 mesh_telemetry long fits gateway_mac
            (gateway-IsMac.shows) in
        let whole : take 16 (padded payload) ≡ payload =
          take-append payload (replicate 752 0) 16 refl in
        (
          minted sha256 type payload owner 0 mesh_telemetry long fits,
          rw encoded (
              rw (owner_id-IsMac gateway_mac gateway-IsMac)
                (mint_cell_lem sha256 type payload owner 0 mesh_telemetry long fits)),
          rw (read, ack_of) (rw kind_of-ack (rw whole decoded)),
        )

    -- An AK line for the node's MAC brings its pointer to the node.
    pub gateway_to_node-format_ak_line :
        (w : World)
        → w.node.mac ≡ text
        → (line : Str) × (format_ak_line text (pos a) (pos h) ≡ ok line)
          × (gateway_to_node sha256 line w
              ≡ ok (record w { node = apply_ack a (pos h) w.now w.node }))
    unfolding gateway_to_node hear
    gateway_to_node-format_ak_line w same =
        let said =
          parse_ak_line-format_ak_line text text (bytes_of m) a h m.reads m.shows refl m.bound ua
            uh in
        let sent = ack_cell-ack_of in
        let mine : str_eq text w.node.mac ≡ true = rw same (str_eq_refl text) in
        (
          said.0,
          said.1,
          rw (said.2, gateway_to_node) (rw sent.1 (rw (sent.2, hear) (rw mine refl))),
        )
