-- ===== src/Cell/Examples.antt =====
-- An offer of tools/x402-bridge/cell-codec.ts for the input 1, and types of
-- tools/x402-bridge/cell-domains.ts, and a certificate of tools/x402-bridge/capability-cert.ts.
use semantos_edge.Base.{ℕ, ◌≡◌, List, [], ◌∷◌, arith, replicate, thrown}
use semantos_edge.Cell.Actuator.{ActuatorOffer, build_actuator_activate}
use semantos_edge.Cell.Activate.{build_actuator_activate-thrown}
use semantos_edge.Base.{refl, ok}
use semantos_edge.Templog.Text.{codes}
use semantos_edge.Cell.Capability.{
  FleetNode, build_capability_cert_cell, issue_cert, channel_id_for,
}
use semantos_edge.Cell.Capability.Issued.{
  of_provision, of_cert, issue_cert-build_capability_cert_cell,
}
use semantos_edge.Cell.Actuator.{activate_payload, decode_actuator_activate}
use semantos_edge.Cell.Actuator.RoundTrip.{
  IsActivate, activate_of, decode_actuator_activate-activate_payload,
}

abbrev offer : ActuatorOffer
offer = record {
  version = 0;
  cost_sats = 10;
  duration_ms = 500;
  lock_script = 0xac ∷ [];
  tx_template = 0x51 ∷ [];
  input_idx = 1;
  input_value = 1000;
  offer_id = replicate 16 3;
}

abbrev hash : List ℕ → List ℕ
hash bytes = replicate 32 7

build_actuator_activate-thrown_example :
    build_actuator_activate hash (λ h. (h, h)) hash offer (replicate 16 1) 0 1 0x41 ≡ thrown
build_actuator_activate-thrown_example =
    build_actuator_activate-thrown hash (λ h. (h, h)) hash offer (replicate 16 1) 0 1 0x41
      (omega arith)

-- A certificate for a unit of the fleet.
abbrev unit_key : List ℕ
unit_key = replicate 33 2

abbrev unit_node : FleetNode
unit_node = record {
  cert_id = codes "000102030405060708090a0b0c0d0e0f";
  public_key = unit_key;
  derivation_path = codes "m/0";
  index = 0;
  label = codes "unit";
}

issue_cert-build_capability_cert_cell_example :
    of_provision (issue_cert hash hash unit_key unit_node 77 5)
    ≡ of_cert (
        build_capability_cert_cell hash hash
          (channel_id_for hash unit_node.cert_id)
          (record { sk = []; pk = unit_key })
          unit_key
          77
          5
          5)
issue_cert-build_capability_cert_cell_example =
    issue_cert-build_capability_cert_cell hash hash unit_key [] unit_node 77 5

fits : IsActivate offer (1 ∷ 2 ∷ []) 7
fits = record {
  lock_script = omega arith;
  unlock_script = omega arith;
  tx_template = omega arith;
  input_idx = omega arith;
  input_value = omega arith;
  offer_id = refl;
  counter = omega arith;
}

decode_actuator_activate-activate_payload_example :
    (p : List ℕ) × (activate_payload offer (1 ∷ 2 ∷ []) 7 ≡ ok p)
    × (decode_actuator_activate p ≡ activate_of offer (1 ∷ 2 ∷ []) 7)
decode_actuator_activate-activate_payload_example =
    decode_actuator_activate-activate_payload offer (1 ∷ 2 ∷ []) 7 fits
