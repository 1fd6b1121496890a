-- ===== src/Cell/Interlock/Examples.antt =====
-- An actuator that only the holder of a capability clears (tools/x402-bridge/interlock.ts), with a
-- stand-in for SHA-256 and the signatures.
use semantos_edge.Base.{ℕ, ◌≡◌, refl, none, List, [], ◌∷◌, arith, replicate, Result, ok, thrown}
use semantos_edge.Base.Bytes.{set_at, overwrite}
use semantos_edge.Templog.Text.{codes, from_hex, hex_value}
use semantos_edge.Cell.Words.{write_u16, write_u32, write_u64}
use semantos_edge.Cell.Wire.{mint_cell, type_hash}
use semantos_edge.Cell.Actuator.{Activate, activate_payload, decode_actuator_activate}
use semantos_edge.Cell.Actuator.RoundTrip.{IsActivate, activate_of}
use semantos_edge.Cell.Interlock.{
  InterlockOptions, lock_offer, interlock_check_sig_lock, push_signature, sighash_type_or,
  interlock_cell, build_capability_interlock_actuator, build_interlock_actuator,
}
use semantos_edge.Cell.Interlock.Cleared.{
  build_capability_interlock_actuator-decoded, build_interlock_actuator-thrown,
}

abbrev hash : List ℕ → List ℕ
hash bytes = replicate 32 7

abbrev pair : List ℕ → List ℕ × List ℕ
pair bytes = (bytes, bytes)

abbrev options : ℕ → InterlockOptions
options input_idx = record {
  owner_id = replicate 16 1;
  offer_id = replicate 16 3;
  tx_template = 0x51 ∷ [];
  input_idx = input_idx;
  input_value = 1000;
  timestamp_ms = 60000;
  counter = 7;
  sighash_type = none;
}

abbrev der : List ℕ
der = 0x30 ∷ 0x00 ∷ []

abbrev or_blank : Result Activate → Activate
or_blank thrown = record { payload = []; cell = []; sig = [] }
or_blank (ok a) = a

abbrev built : Activate
built =
    or_blank
      (build_capability_interlock_actuator hash hash pair hash (options 0) (codes "0202") der)

is_built :
    build_capability_interlock_actuator hash hash pair hash (options 0) (codes "0202") der
    ≡ ok built
unfolding build_capability_interlock_actuator interlock_cell interlock_check_sig_lock push_signature
    sighash_type_or activate_payload mint_cell type_hash set_at overwrite write_u16 write_u32
    write_u64 from_hex hex_value
is_built = refl

fits : IsActivate (lock_offer (options 0) (0x21 ∷ 2 ∷ 2 ∷ 0xac ∷ [])) (3 ∷ 0x30 ∷ 0 ∷ 0xc3 ∷ []) 7
fits = record {
  lock_script = omega arith;
  unlock_script = omega arith;
  tx_template = omega arith;
  input_idx = omega arith;
  input_value = omega arith;
  offer_id = refl;
  counter = omega arith;
}

build_capability_interlock_actuator-decoded_example :
    decode_actuator_activate built.payload
    ≡ activate_of (lock_offer (options 0) (0x21 ∷ 2 ∷ 2 ∷ 0xac ∷ [])) (3 ∷ 0x30 ∷ 0 ∷ 0xc3 ∷ []) 7
unfolding from_hex hex_value
build_capability_interlock_actuator-decoded_example =
    build_capability_interlock_actuator-decoded hash hash pair hash (options 0) (codes "0202") der
      built fits is_built

build_interlock_actuator-thrown_example :
    build_interlock_actuator hash hash pair hash (options 1) (codes "0202") (5 ∷ []) (5 ∷ [])
    ≡ thrown
build_interlock_actuator-thrown_example =
    build_interlock_actuator-thrown hash hash pair hash (options 1) (codes "0202") (5 ∷ []) (5 ∷ [])
      (omega arith)
