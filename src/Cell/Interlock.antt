-- ===== src/Cell/Interlock.antt =====
-- The interlocked actuators of tools/x402-bridge/interlock.ts. SHA-256, HASH160 and the signatures of
-- @bsv/sdk are parameters.
pub mod Cleared
mod Examples
use semantos_edge.Base.{
  ℕ, ◌+◌, ◌%◌, Option, none, some, List, [], ◌∷◌, ◌++◌, length, replicate, Result, ok, ◌>>=◌,
}
use semantos_edge.Base.Map.{Str}
use semantos_edge.Templog.Text.{codes, from_hex, to_hex}
use semantos_edge.Cell.Wire.{mint_cell, type_hash}
use semantos_edge.Cell.Sighash.{bip143_sighash, ecdsa_der}
use semantos_edge.Cell.Actuator.{ActuatorOffer, Activate, activate_payload}
use semantos_edge.Cell.Domains.{mesh_control}

-- SIGHASH_ALL_FORKID and SIGHASH_SINGLE_ACP_FORKID
abbrev pub sighash_all_forkid : ℕ
sighash_all_forkid = 0x41

abbrev pub sighash_single_acp_forkid : ℕ
sighash_single_acp_forkid = 0xc3

-- OP_HASH160 <h160> OP_EQUALVERIFY <pk> OP_CHECKSIG
unfoldable pub interlock_lock : (List ℕ → List ℕ) → List ℕ → Str → List ℕ
interlock_lock hash160 permissive operator_pub_hex =
    0xa9 ∷ 0x14 ∷ (hash160 permissive ++ (0x88 ∷ 0x21 ∷ (from_hex operator_pub_hex ++ (0xac ∷ []))))

-- PUSH(pk) OP_CHECKSIG
unfoldable pub interlock_check_sig_lock : Str → List ℕ
interlock_check_sig_lock cap_pubkey_hex = 0x21 ∷ (from_hex cap_pubkey_hex ++ (0xac ∷ []))

-- The options that both actuators take, next to the lock and the keys.
pub record InterlockOptions : Type 0 where
  pub owner_id : List ℕ
  pub offer_id : List ℕ
  pub tx_template : List ℕ
  pub input_idx : ℕ
  pub input_value : ℕ
  pub timestamp_ms : ℕ
  pub counter : ℕ
  pub sighash_type : Option ℕ

-- opts.sighashType ?? …
unfoldable pub sighash_type_or : ℕ → InterlockOptions → ℕ
sighash_type_or default opts = elim opts.sighash_type [ none ↦ default | some t ↦ t ]

-- The payload has the layout of actuator_activate.v0: the offer that it is written for.
abbrev pub lock_offer : InterlockOptions → List ℕ → ActuatorOffer
lock_offer opts lock = record {
  version = 0;
  cost_sats = 0;
  duration_ms = 0;
  lock_script = lock;
  tx_template = opts.tx_template;
  input_idx = opts.input_idx;
  input_value = opts.input_value;
  offer_id = opts.offer_id;
}

-- PUSH(sig || hashtype)
unfoldable pub push_signature : List ℕ → ℕ → List ℕ
push_signature sig_der sighash_type =
    let sig = sig_der ++ (sighash_type % 256 ∷ []) in length sig % 256 ∷ sig

-- PUSH(sig || hashtype) PUSH(reveal)
unfoldable pub reveal_unlock : List ℕ → ℕ → List ℕ → List ℕ
reveal_unlock sig_der sighash_type reveal =
    push_signature sig_der sighash_type ++ (length reveal % 256 ∷ reveal)

-- `sign` gives the bytes of r and s for a digest, `sign_cell` the frame signature of a cell.
module _ (sha256 hash160 : List ℕ → List ℕ) (sign : List ℕ → List ℕ × List ℕ)
    (sign_cell : List ℕ → List ℕ) where
  unfoldable pub interlock_sighash : List ℕ → ℕ → ℕ → ℕ → Result (List ℕ)
  interlock_sighash lock input_idx input_value sighash_type =
      bip143_sighash sha256 1
        (record { prev_txid = replicate 32 0; prev_vout = input_idx; sequence = 0xffff_ffff } ∷ [])
        (record { value = 10000; script = 0x51 ∷ [] } ∷ []) 0 input_idx lock input_value
        sighash_type

  -- The payload and the signed cell.
  unfoldable pub interlock_cell : InterlockOptions → List ℕ → List ℕ → Result Activate
  interlock_cell opts lock unlock = do
    payload ← activate_payload (lock_offer opts lock) unlock opts.counter
    cell ←
        mint_cell sha256 (type_hash sha256 (codes "cellmesh.actuator_activate.v0")) payload
          opts.owner_id opts.timestamp_ms mesh_control
    ok (record { payload = payload; cell = cell; sig = sign_cell cell })

  unfoldable pub build_capability_interlock_actuator :
      InterlockOptions → Str → List ℕ → Result Activate
  build_capability_interlock_actuator opts cap_pubkey_hex sig_der =
      interlock_cell opts (interlock_check_sig_lock cap_pubkey_hex)
        (push_signature sig_der (sighash_type_or sighash_single_acp_forkid opts))

  -- `operator_pub_hex` is the public key of the wallet.
  unfoldable pub build_interlock_actuator :
      InterlockOptions → Str → List ℕ → List ℕ → Result Activate
  build_interlock_actuator opts operator_pub_hex permissive reveal = do
    let lock = interlock_lock hash160 permissive operator_pub_hex
    let type = sighash_type_or sighash_all_forkid opts
    sighash ← interlock_sighash lock opts.input_idx opts.input_value type
    let rs = sign sighash
    interlock_cell opts lock (reveal_unlock (ecdsa_der rs.0 rs.1) type reveal)
