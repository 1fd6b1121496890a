-- ===== src/Cell/Capability.antt =====
-- The capability certificates of tools/x402-bridge/capability-cert.ts, and the packet that
-- tools/fleet/fleet.ts provisions a unit with. SHA-256, HMAC and the keys of @bsv/sdk are parameters.
pub mod Payload
pub mod Issued
use semantos_edge.Base.{
  ℕ, ◌+◌, ◌%◌, Bool, not, Option, none, some, List, [], ◌∷◌, ◌++◌, ◌==◌, if◌then◌else◌, length,
  replicate, set, take, Result, ok, thrown, ◌>>=◌,
}
use semantos_edge.Base.Map.{Str}
use semantos_edge.Base.Bytes.{set_at}
use semantos_edge.Templog.Text.{codes, from_hex, hex_pad, parse_hex, to_hex}
use semantos_edge.Cell.Words.{write_u64}
use semantos_edge.Cell.Wire.{mint_cell, type_hash}
use semantos_edge.Cell.Domains.{mesh_relay}

-- CAP_ROUTE_FWD_V1
abbrev pub cap_route_fwd_v1 : ℕ
cap_route_fwd_v1 = 0x01

-- The order of secp256k1.
abbrev pub curve_order : ℕ
curve_order = 0xffff_ffff_ffff_ffff_ffff_ffff_ffff_fffe_baae_dce6_af48_a03b_bfd2_5e8c_d036_4141

pub record RelayKey : Type 0 where
  pub sk : List ℕ
  pub pk : List ℕ

-- `hmac` gives the digest of a label under a key, `public_of` the compressed public key of a number,
-- and `master_hex` is the text of the master key.
module _ (hmac : List ℕ → Str → List ℕ) (public_of : ℕ → List ℕ) where
  -- (master + tweak) mod N
  unfoldable pub child_key : Str → Str → ℕ
  child_key master_hex channel_id_hex =
      let tweak = hmac (from_hex master_hex) (codes "cell-routing-relay/" ++ channel_id_hex) in
      (parse_hex 0 master_hex + parse_hex 0 (to_hex tweak)) % curve_order

  unfoldable pub derive_channel_relay_key : Str → Str → RelayKey
  derive_channel_relay_key master_hex channel_id_hex =
      let child = child_key master_hex channel_id_hex in
      record { sk = from_hex (hex_pad 64 child); pk = public_of child }

unfoldable pub build_capability_cert_payload : List ℕ → List ℕ → ℕ → ℕ → ℕ → Result (List ℕ)
build_capability_cert_payload edge_pk channel_id expiry_ms route_type valid_from_ms =
    if not (length edge_pk == 33)
    then thrown
    else if not (length channel_id == 16)
    then thrown
    else do
      p ← set_at (replicate 66 0) 0 edge_pk
      p ← set_at p 33 channel_id
      ok (write_u64 (set (write_u64 p 49 expiry_ms) 57 (route_type % 256)) 58 valid_from_ms)

pub record CertCell : Type 0 where
  pub cell : List ℕ
  pub sig : List ℕ
  pub payload_hash : List ℕ

-- FleetNode and DeviceProvision
pub record FleetNode : Type 0 where
  pub cert_id : Str
  pub public_key : List ℕ
  pub derivation_path : Str
  pub index : ℕ
  pub label : Str

pub record DeviceProvision : Type 0 where
  pub node : FleetNode
  pub channel_id : List ℕ
  pub cert_payload : List ℕ
  pub cert_hash : List ℕ
  pub cert_cell : List ℕ
  pub cert_sig : List ℕ

-- NO_EXPIRY and DOMAIN.device of fleet.ts
abbrev pub no_expiry : ℕ
no_expiry = 0xffff_ffff_ffff_ffff

abbrev pub device_domain : ℕ
device_domain = 0x00f1_0001

module _ (sha256 : List ℕ → List ℕ) where
  -- certHash
  unfoldable pub hash_of_cert : List ℕ → List ℕ
  hash_of_cert payload = sha256 payload

  -- `now` is the time that the cell is stamped with.
  unfoldable pub build_capability_cert_cell :
      (List ℕ → List ℕ) → List ℕ → RelayKey → List ℕ → ℕ → ℕ → ℕ → Result CertCell
  build_capability_cert_cell sign_cell channel_id relay_key master_pk expiry_ms valid_from_ms now =
      do
        payload ←
            build_capability_cert_payload relay_key.pk channel_id expiry_ms cap_route_fwd_v1
              valid_from_ms
        cell ←
            mint_cell sha256 (type_hash sha256 (codes "cellmesh.capability.v0")) payload
              (take 16 master_pk) now mesh_relay
        ok (record { cell = cell; sig = sign_cell cell; payload_hash = sha256 payload })

  -- channelIdFor
  unfoldable pub channel_id_for : Str → List ℕ
  channel_id_for cert_id = take 16 (from_hex cert_id)

  -- Fleet.issueCert, where the deriver gives the operator's key and signs.
  unfoldable pub issue_cert :
      (List ℕ → List ℕ) → List ℕ → FleetNode → ℕ → ℕ → Result DeviceProvision
  issue_cert sign_as_operator operator_pk node expiry_ms valid_from_ms =
      if not (length node.public_key == 33) then thrown else do
        let channel_id = channel_id_for node.cert_id
        payload ←
            build_capability_cert_payload node.public_key channel_id expiry_ms cap_route_fwd_v1
              valid_from_ms
        cell ←
            mint_cell sha256 (type_hash sha256 (codes "cellmesh.capability.v0")) payload
              (take 16 operator_pk) valid_from_ms device_domain
        ok (record {
          node = node;
          channel_id = channel_id;
          cert_payload = payload;
          cert_hash = hash_of_cert payload;
          cert_cell = cell;
          cert_sig = sign_as_operator cell;
        })
