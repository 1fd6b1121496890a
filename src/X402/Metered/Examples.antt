-- ===== src/X402/Metered/Examples.antt =====
-- The ends of an activation (tools/x402-bridge/bridge.ts).
use semantos_edge.Base.{◌≡◌, refl, true, none, some, [], ◌∷◌, replicate}
use semantos_edge.Base.Map.{str_eq, get}
use semantos_edge.Templog.Text.{codes}
use semantos_edge.X402.Bridge.{Bridge, Settings, settings_of, new_bridge, new_ticket}
use semantos_edge.X402.Bridge.Request.{Job}
use semantos_edge.X402.Bridge.Queue.{acknowledged, refused, finish_plain, finish_metered}
use semantos_edge.X402.Metered.Paid.{finish-state, state_of, state_for}

abbrev job : Job
job = record { ticket = codes "k"; satoshis_paid = 12; txid = none }

abbrev bridge : Bridge
bridge = record new_bridge {
  pending = codes "k" ∷ [];
  tickets = (codes "k", new_ticket) ∷ [];
  used = codes "k" ∷ [];
}

abbrev cfg : Settings
cfg = settings_of (record {
  offer = record {
    version = 0;
    cost_sats = 10;
    duration_ms = 500;
    lock_script = 0xac ∷ [];
    tx_template = 0x51 ∷ [];
    input_idx = 0;
    input_value = 1000;
    offer_id = replicate 16 3;
  };
  wallet_pub = replicate 33 2;
  activation_timeout_ms = none;
  receive_script = none;
  broadcast_on_verify = none;
  hold_ms = none;
  queue_timeout_ms = none;
  metered = true;
  meter_options = none;
  max_sats = none;
})

known : get (codes "k") bridge.tickets ≡ some new_ticket
unfolding get str_eq
known = refl

finish-state_example :
    (state_of
        (get (codes "k") (finish_plain cfg (codes "now") (acknowledged true) job bridge).1.tickets)
      ≡ some (state_for (finish_plain cfg (codes "now") (acknowledged true) job bridge).0))
    × (state_of (get (codes "k") (finish_metered (codes "now") refused job bridge).1.tickets)
        ≡ some (state_for (finish_metered (codes "now") refused job bridge).0))
finish-state_example =
    finish-state cfg (codes "now") (acknowledged true) refused job new_ticket bridge known
