-- ===== src/Cell/Activate.antt =====
-- Which offers `buildActuatorActivate` of tools/x402-bridge/cell-codec.ts pays.
use semantos_edge.Base.{
  ℕ, zero, suc, ◌<◌, ◌≡◌, refl, List, [], ◌∷◌, arith, thrown, replicate, Result-cases, inl, inr,
}
use semantos_edge.Cell.Sighash.{TxInputView, TxOutputView, bip143_sighash, input_at, prevouts}
use semantos_edge.Cell.Actuator.{ActuatorOffer, build_actuator_activate}

input_at-single : (i : ℕ) (t : TxInputView) → 0 < i → input_at i (t ∷ []) ≡ thrown
unfolding input_at
input_at-single zero t h = absurd (omega arith)
input_at-single (suc i) t h = refl

-- The sighash of a transaction with one input is not there for an input other than that.
pub bip143_sighash-single :
    (sha256 : List ℕ → List ℕ) (version : ℕ) (t : TxInputView) (outputs : List TxOutputView)
    (locktime i : ℕ) (script : List ℕ) (value type : ℕ)
    → 0 < i
    → bip143_sighash sha256 version (t ∷ []) outputs locktime i script value type ≡ thrown
unfolding bip143_sighash
bip143_sighash-single sha256 version t outputs locktime i script value type h =
    elim (Result-cases (prevouts 0 (t ∷ []) (replicate 36 0))) [
      | inl e ↦ rw (e, bip143_sighash) refl
      | inr (op, e) ↦ rw (e, bip143_sighash) (rw (input_at-single i t h) refl)
    ]

-- For an offer whose input index is not 0 no payload is built, since the transaction that the
-- signature is made for is given one input only: the call throws.
pub build_actuator_activate-thrown :
    (sha256 : List ℕ → List ℕ) (sign : List ℕ → List ℕ × List ℕ) (sign_cell : List ℕ → List ℕ)
    (offer : ActuatorOffer) (owner_id : List ℕ) (timestamp_ms counter sighash_type : ℕ)
    → 0 < offer.input_idx
    → build_actuator_activate sha256 sign sign_cell offer owner_id timestamp_ms counter sighash_type
      ≡ thrown
unfolding build_actuator_activate
build_actuator_activate-thrown sha256 sign sign_cell offer owner_id timestamp_ms counter
      sighash_type h =
    rw
      (bip143_sighash-single sha256 1 _ _ 0 offer.input_idx offer.lock_script offer.input_value
        sighash_type h)
      refl
