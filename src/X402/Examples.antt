-- ===== src/X402/Examples.antt =====
-- A payment by a transaction, and a payment at the bridge (tools/x402-bridge/x402.ts and bridge.ts),
-- with stand-ins for the parsers.
use semantos_edge.Base.{
  ℕ, ◌≤◌, ◌≡◌, refl, false, Option, none, some, List, [], ◌∷◌, arith, replicate, Result, ok,
}
use semantos_edge.Base.Map.{Str, str_eq}
use semantos_edge.Templog.Text.{codes, to_hex}
use semantos_edge.Templog.Json.{Json, str, Fields, member}
use semantos_edge.Cell.Actuator.{ActuatorOffer}
use semantos_edge.X402.Payment.{VerifyResult, accepted, default_verify, to_number, spare_bits}
use semantos_edge.X402.Payment.Accepts.{tx_bytes}
use semantos_edge.X402.Payment.Funded.{paying, default_verify-tx_bytes, default_verify-cut_short}
use semantos_edge.X402.Bridge.{Settings, Bridge, settings_of, new_bridge}
use semantos_edge.X402.Bridge.Request.{
  Claim, claimed, receive, price_of, with_header, with_payment, verified, claim, has, insert,
  broadcasts, payer_txid, non_empty, job_of,
}
use semantos_edge.X402.Bridge.Queue.{begin}
use semantos_edge.X402.Bridge.Steps.{
  System, actuating, Reachable, start, later, settled_before, begins, new_system, join,
}
use semantos_edge.X402.Bridge.Once.{occurs, IsOnce}
use semantos_edge.X402.Bridge.Turns.{Reachable-IsOnce, started-once}

-- A payment with one output of 1000 satoshis, under which 12 are asked for.
abbrev small_tx : List ℕ
small_tx =
    tx_bytes (replicate 4 0) [] (record { value = 1000; script = 0x51 ∷ [] } ∷ []) (replicate 4 0)

default_verify-tx_bytes_example : default_verify (paying (to_hex small_tx)) 12 ≡ accepted 1000 none
unfolding to_number spare_bits
default_verify-tx_bytes_example =
    default_verify-tx_bytes (replicate 4 0) [] (record { value = 1000; script = 0x51 ∷ [] } ∷ [])
      (replicate 4 0) 12 refl (omega arith) (omega arith) tt
      (record { value = omega arith; script = omega arith }, tt) (omega arith)

default_verify-cut_short_example :
    default_verify
      (paying (to_hex (0 ∷ 0 ∷ 0 ∷ 0 ∷ 0 ∷ 1 ∷ 12 ∷ 0 ∷ 0 ∷ 0 ∷ 0 ∷ 0 ∷ 0 ∷ 0 ∷ [])))
      12
    ≡ accepted 12 none
unfolding to_number spare_bits
default_verify-cut_short_example = default_verify-cut_short 12 12 (omega arith) (omega arith)

-- One payment at the bridge, up to the start of its activation.
abbrev offer : ActuatorOffer
offer = record {
  version = 0;
  cost_sats = 10;
  duration_ms = 500;
  lock_script = 0xac ∷ [];
  tx_template = 0x51 ∷ [];
  input_idx = 0;
  input_value = 1000;
  offer_id = replicate 16 3;
}

abbrev cfg : Settings
cfg = settings_of (record {
  offer = offer;
  wallet_pub = replicate 33 2;
  activation_timeout_ms = none;
  receive_script = none;
  broadcast_on_verify = none;
  hold_ms = none;
  queue_timeout_ms = none;
  metered = false;
  meter_options = none;
  max_sats = none;
})

abbrev parse : Str → Result Fields
parse header = ok (paying header)

abbrev pays : Fields → ℕ → VerifyResult
pays payment price = accepted price none

abbrev key : Json → Option Str → Str
key transaction txid = codes "k"

abbrev paid_claim : Claim
paid_claim = record {
  ticket = codes "k";
  satoshis_paid = 10;
  transaction = str (codes "00");
  claimed_txid = Json.undefined;
  verified_txid = none;
}

abbrev claimed_bridge : Bridge
claimed_bridge = record new_bridge { used = codes "k" ∷ [] }

claims_one :
    receive parse pays key cfg (some (codes "00")) none [] new_bridge
    ≡ (claimed paid_claim, claimed_bridge)
unfolding receive price_of settings_of non_empty with_header with_payment verified claim has insert
    member str_eq
claims_one = refl

abbrev in_line : System
in_line = join paid_claim (payer_txid paid_claim) (record new_system { bridge = claimed_bridge })

abbrev lighting_up : System
lighting_up = record in_line {
  bridge = begin cfg (job_of paid_claim (payer_txid paid_claim)) in_line.bridge;
  waiting = [];
  active = actuating (job_of paid_claim (payer_txid paid_claim));
  started = codes "k" ∷ [];
}

reaches : Reachable cfg parse pays key lighting_up
unfolding job_of broadcasts settings_of
reaches =
    later
      (later start
        (settled_before (some (codes "00")) none [] paid_claim claimed_bridge claims_one refl))
      (begins _ [] refl refl)

Reachable-IsOnce_example : IsOnce lighting_up
Reachable-IsOnce_example = Reachable-IsOnce cfg parse pays key reaches

started-once_example : occurs (codes "k") lighting_up.started ≤ 1
started-once_example = started-once cfg parse pays key reaches (codes "k")
