-- ===== src/X402/Meter/Examples.antt =====
-- A payment at the meter (tools/x402-bridge/meter.ts), with a stand-in for SHA-256.
use semantos_edge.Base.{
  ◌⊎◌, thrown, true, false, [], ◌∷◌, ℕ, ◌+◌, ◌*◌, ◌≡◌, refl, none, List, replicate, ok, arith,
}
use semantos_edge.Base.Map.{Str}
use semantos_edge.Templog.Text.{codes, from_hex, hex_value}
use semantos_edge.X402.Meter.{MeterSettings, meter_settings, Meter, Air, heard}
use semantos_edge.X402.Meter.Session.{add_sats, new_meter}
use semantos_edge.X402.Meter.Frames.{encode_commitment}
use semantos_edge.X402.Meter.Payments.{add_sats-paid, paid_by}
use semantos_edge.X402.Meter.Frames.{encode_close}
use semantos_edge.X402.Meter.Said.{Says, encode_commitment-encode_close}

abbrev hash : List ℕ → List ℕ
hash bytes = replicate 32 7

abbrev id : ℕ → Str
id n = codes "000102030405060708090a0b0c0d0e0f"

abbrev settings : MeterSettings
settings = meter_settings (record {
  pub_key = replicate 33 2;
  rate = none;
  reopen_every_ms = none;
  repeat = none;
  commit_repeat = none;
  in_flight_ms = none;
})

-- The clock goes on by 100 ms with each reading, and the injector broadcasts every cell.
abbrev clock : ℕ → ℕ
clock n = 1000 + 100 * n

abbrev always : ℕ → Air
always n = heard

abbrev meter : Meter
meter = new_meter hash hash clock always id settings none (true ∷ false ∷ [])

abbrev after : Meter
after = (add_sats hash hash clock always id settings 12 meter).1

add_sats-paid_example :
    (after.state.sats_paid
      ≡ meter.state.sats_paid + paid_by (add_sats hash hash clock always id settings 12 meter).0 12)
    ⊎ (((add_sats hash hash clock always id settings 12 meter).0 ≡ thrown)
        × (after.state.sats_paid ≡ meter.state.sats_paid + 12))
add_sats-paid_example = add_sats-paid hash hash clock always id settings 12 meter

encode_commitment-encode_close_example :
    ((p : List ℕ) × (encode_commitment (id 0) 1 12 ≡ ok p) × Says p (from_hex (id 0)) 1 12)
    × ((p : List ℕ) × (encode_close (id 0) 1 12 ≡ ok p) × Says p (from_hex (id 0)) 1 12)
unfolding from_hex hex_value
encode_commitment-encode_close_example =
    encode_commitment-encode_close (id 0) 1 12 refl (omega arith) (omega arith)
