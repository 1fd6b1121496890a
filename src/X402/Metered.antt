-- ===== src/X402/Metered.antt =====
-- `actuateMetered` of tools/x402-bridge/bridge.ts with `addSats` of tools/x402-bridge/meter.ts.
pub mod Paid
mod Examples
use semantos_edge.Base.{ℕ, Bool, List, if◌then◌else◌, Result, ok, thrown}
use semantos_edge.Base.Map.{Str}
use semantos_edge.X402.Bridge.{Bridge, Response}
use semantos_edge.X402.Bridge.Request.{Job}
use semantos_edge.X402.Bridge.Queue.{
  MeterOutcome, meter_threw, meter_timed_out, refused, added, finish_metered,
}
use semantos_edge.X402.Meter.{MeterSettings, Meter, Air}
use semantos_edge.X402.Meter.Session.{Added, lit_for, not_broadcast, add_sats}

-- What the meter answered in time.
unfoldable pub meter_outcome : Result Added → MeterOutcome
meter_outcome thrown = meter_threw
meter_outcome (ok (lit_for tenths left)) = added tenths left
meter_outcome (ok (not_broadcast left)) = refused

module _ (sha256 : List ℕ → List ℕ) (sign_cell : List ℕ → List ℕ) (clock : ℕ → ℕ) (air : ℕ → Air)
    (random_id : ℕ → Str) (cfg : MeterSettings) where
  -- The answer to the payer, the bridge and the meter; `late` tells that the time for the meter ran
  -- out first, and the meter goes on.
  unfoldable pub actuate_metered : Bool → Str → Job → Bridge → Meter → Response × Bridge × Meter
  actuate_metered late at j b m =
      let r = add_sats sha256 sign_cell clock air random_id cfg j.satoshis_paid m in
      let answer = finish_metered at (if late then meter_timed_out else meter_outcome r.0) j b in
      (answer.0, answer.1, r.1)
