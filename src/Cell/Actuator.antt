-- ===== src/Cell/Actuator.antt =====
-- The actuator_offer.v0 and actuator_activate.v0 payloads of tools/x402-bridge/cell-codec.ts.
-- SHA-256, and the signatures of the wallet key (@bsv/sdk), are parameters.
pub mod Layout
pub mod RoundTrip
use semantos_edge.Base.{ℕ, ◌+◌, ◌%◌, List, [], ◌∷◌, ◌++◌, length, replicate, Result, ok, ◌>>=◌}
use semantos_edge.Base.Bytes.{set_at, slice}
use semantos_edge.Cell.Words.{write_u16, write_u32, write_u64, read_u16, read_u32, read_u64}
use semantos_edge.Cell.Wire.{mint_cell, type_hash}
use semantos_edge.Cell.Sighash.{bip143_sighash, ecdsa_der}
use semantos_edge.Templog.Text.{codes}

pub record ActuatorOffer : Type 0 where
  pub version : ℕ
  pub cost_sats : ℕ
  pub duration_ms : ℕ
  pub lock_script : List ℕ
  pub tx_template : List ℕ
  pub input_idx : ℕ
  pub input_value : ℕ
  pub offer_id : List ℕ

unfoldable pub decode_actuator_offer : List ℕ → ActuatorOffer
decode_actuator_offer p =
    let lock_len = read_u16 p 12 in
    let o = 14 + lock_len in
    let tx_len = read_u16 p o in
    let o = o + 2 + tx_len in
    record {
      version = read_u32 p 0;
      cost_sats = read_u32 p 4;
      duration_ms = read_u32 p 8;
      lock_script = slice 14 lock_len p;
      tx_template = slice (14 + lock_len + 2) tx_len p;
      input_idx = read_u32 p o;
      input_value = read_u64 p (o + 4);
      offer_id = slice (o + 12) 16 p;
    }

-- The writes of the activate payload.
unfoldable pub activate_payload : ActuatorOffer → List ℕ → ℕ → Result (List ℕ)
activate_payload offer unlock counter =
    let lock_len = length offer.lock_script in
    let unlock_len = length unlock in
    let tx_len = length offer.tx_template in
    let unlock_at = 2 + lock_len in
    let tx_at = unlock_at + 2 + unlock_len in
    let tail_at = tx_at + 2 + tx_len in
    do
      p ← set_at (write_u16 (replicate (tail_at + 32) 0) 0 lock_len) 2 offer.lock_script
      p ← set_at (write_u16 p unlock_at unlock_len) (unlock_at + 2) unlock
      p ← set_at (write_u16 p tx_at tx_len) (tx_at + 2) offer.tx_template
      let p = write_u64 (write_u32 p tail_at offer.input_idx) (tail_at + 4) offer.input_value
      p ← set_at p (tail_at + 12) offer.offer_id
      ok (write_u32 p (tail_at + 28) counter)

pub record Activate : Type 0 where
  pub payload : List ℕ
  pub cell : List ℕ
  pub sig : List ℕ

-- `sign` gives the bytes of r and s for a digest, `sign_cell` the frame signature of a cell.
module _ (sha256 : List ℕ → List ℕ) (sign : List ℕ → List ℕ × List ℕ)
    (sign_cell : List ℕ → List ℕ) where
  -- PUSH N of the signature and the type of its hash
  unfoldable pub unlock_of : List ℕ → ℕ → List ℕ
  unlock_of sighash sighash_type =
      let rs = sign sighash in
      let sig = ecdsa_der rs.0 rs.1 ++ (sighash_type % 256 ∷ []) in length sig % 256 ∷ sig

  unfoldable pub build_actuator_activate : ActuatorOffer → List ℕ → ℕ → ℕ → ℕ → Result Activate
  build_actuator_activate offer owner_id timestamp_ms counter sighash_type = do
    sighash ←
        bip143_sighash sha256 1
          (record {
            prev_txid = replicate 32 0;
            prev_vout = offer.input_idx;
            sequence = 0xffff_ffff;
          }
            ∷ [])
          (record { value = 10000; script = 0x51 ∷ [] } ∷ []) 0 offer.input_idx offer.lock_script
          offer.input_value sighash_type
    payload ← activate_payload offer (unlock_of sighash sighash_type) counter
    cell ←
        mint_cell sha256 (type_hash sha256 (codes "cellmesh.actuator_activate.v0")) payload owner_id
          timestamp_ms 0x00f1_0020
    ok (record { payload = payload; cell = cell; sig = sign_cell cell })

pub record ActivatePayload : Type 0 where
  pub lock_script : List ℕ
  pub unlock_script : List ℕ
  pub tx_bytes : List ℕ
  pub input_idx : ℕ
  pub input_value : ℕ
  pub offer_id : List ℕ
  pub counter : ℕ

unfoldable pub decode_actuator_activate : List ℕ → ActivatePayload
decode_actuator_activate p =
    let lock_len = read_u16 p 0 in
    let o = 2 + lock_len in
    let unlock_len = read_u16 p o in
    let o = o + 2 + unlock_len in
    let tx_len = read_u16 p o in
    let o = o + 2 + tx_len in
    record {
      lock_script = slice 2 lock_len p;
      unlock_script = slice (2 + lock_len + 2) unlock_len p;
      tx_bytes = slice (2 + lock_len + 2 + unlock_len + 2) tx_len p;
      input_idx = read_u32 p o;
      input_value = read_u64 p (o + 4);
      offer_id = slice (o + 12) 16 p;
      counter = read_u32 p (o + 28);
    }
