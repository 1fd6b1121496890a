-- ===== src/X402/Bridge/Queue.antt =====
-- The queue of `X402CellBridge` (tools/x402-bridge/bridge.ts): one activation at a time.
use semantos_edge.Base.{
  ℕ, ◌+◌, ◌/◌, Bool, true, false, ◌&&◌, Option, none, some, List, [], ◌∷◌, ltb, ◌==◌, if◌then◌else◌,
  length, Result, ok, thrown,
}
use semantos_edge.Base.Map.{Str, str_eq, get, put}
use semantos_edge.Cell.Actuator.{Activate, build_actuator_activate}
use semantos_edge.Templog.Text.{codes, to_hex}
use semantos_edge.Templog.Serial.{decimal}
use semantos_edge.X402.Payment.{Headers}
use semantos_edge.X402.Bridge.{
  Settings, Bridge, Ticket, lighting, lit, failed, Failure, mesh_error, injector_timeout,
  device_timeout, not_acknowledged, commitment_failed, Response, Body, failed_with, activated,
  added_seconds, ticket_status, queue_length,
}
use semantos_edge.X402.Bridge.Request.{Job, refuse, non_empty}

-- What the mesh did with an activation, and what the meter did with a payment.
pub data MeshOutcome : Type 0 where
  mesh_threw timed_out : MeshOutcome
  acknowledged : Bool → MeshOutcome

pub data MeterOutcome : Type 0 where
  meter_threw meter_timed_out refused : MeterOutcome
  -- tenths of a second, added and left
  added : ℕ → ℕ → MeterOutcome

-- `t` is the ticket of the map, which `enqueue` put there.
unfoldable pub set_ticket : Str → (Ticket → Ticket) → Bridge → Bridge
set_ticket key change b = elim (get key b.tickets) [
  | none ↦ b
  | some t ↦ record b { tickets = put key (change t) b.tickets }
]

abbrev pub light : Ticket → Ticket
light t = record t { state = lighting }

-- The start of `actuate`. The count of the cell that an activation without a meter builds goes up.
unfoldable pub begin : Settings → Job → Bridge → Bridge
begin cfg j b =
    let lit_up = set_ticket j.ticket light b in
    if cfg.metered then lit_up else record lit_up { counter = lit_up.counter + 1 }

-- The cell that is broadcast for an activation without a meter.
module _ (sha256 : List ℕ → List ℕ) (sign : List ℕ → List ℕ × List ℕ)
    (sign_cell : List ℕ → List ℕ) where
  unfoldable pub activation_cell : Settings → ℕ → ℕ → Result Activate
  activation_cell cfg now counter =
      build_actuator_activate sha256 sign sign_cell cfg.offer cfg.owner_id now counter 0x41

  -- A cell that cannot be built is an error of the mesh.
  unfoldable pub outcome_of : Settings → ℕ → ℕ → MeshOutcome → MeshOutcome
  outcome_of cfg now counter mesh = elim (activation_cell cfg now counter) [
    | thrown ↦ mesh_threw
    | ok cell ↦ mesh
  ]

abbrev pub fail : Failure → Ticket → Ticket
fail e t = record t { state = failed; error = some e }

-- t.state = 'failed'; t.error = …; return this.error(status, t.error)
unfoldable pub failing : ℕ → Failure → Job → Bridge → Response × Bridge
failing status e j b = (refuse status (failed_with e), set_ticket j.ticket (fail e) b)

txid_header : Option Str → Headers
txid_header none = []
txid_header (some id) = (codes "x-bsv-payment-txid", id) ∷ []

-- The headers of a receipt, for amounts below 10 ^ 16.
receipt_headers : Job → Headers
unfolding txid_header
receipt_headers j =
    (codes "content-type", codes "application/json")
    ∷ (codes "x-bsv-payment-satoshis-paid", decimal 16 j.satoshis_paid)
    ∷ txid_header (non_empty j.txid)

abbrev pub light_up : Str → Ticket → Ticket
light_up at t = record t { state = lit; lit_at = some at }

-- The end of `actuate` without a meter; `at` is the time that it writes down.
unfoldable pub finish_plain : Settings → Str → MeshOutcome → Job → Bridge → Response × Bridge
unfolding receipt_headers
finish_plain cfg at mesh_threw j b = failing 502 mesh_error j b
finish_plain cfg at timed_out j b = failing 504 device_timeout j b
finish_plain cfg at (acknowledged false) j b = failing 504 not_acknowledged j b
finish_plain cfg at (acknowledged true) j b = (
  record {
    status = 200;
    headers = receipt_headers j;
    body =
        activated (to_hex cfg.offer.offer_id) cfg.offer.duration_ms j.satoshis_paid
          (non_empty j.txid) at;
  },
  set_ticket j.ticket (light_up at) b,
)

-- Math.round(secondsAdded), of tenths of a second
abbrev pub whole_seconds : ℕ → ℕ
whole_seconds tenths = (tenths + 5) / 10

abbrev pub light_for : Str → ℕ → Ticket → Ticket
light_for at tenths t = record t {
  state = lit;
  lit_at = some at;
  seconds_added = some tenths;
  message = some (whole_seconds tenths);
}

-- The end of `actuateMetered`.
unfoldable pub finish_metered : Str → MeterOutcome → Job → Bridge → Response × Bridge
unfolding receipt_headers
finish_metered at meter_threw j b = failing 502 mesh_error j b
finish_metered at meter_timed_out j b = failing 504 injector_timeout j b
finish_metered at refused j b = failing 504 commitment_failed j b
finish_metered at (added tenths left) j b = (
  record {
    status = 200;
    headers = receipt_headers j;
    body = added_seconds j.satoshis_paid tenths left (whole_seconds tenths) (non_empty j.txid) at;
  },
  set_ticket j.ticket (light_for at tenths) b,
)

-- r.status === 200 && this.holdMs > 0
unfoldable pub holds : Settings → Response → Bool
holds cfg r = r.status == 200 && ltb 0 cfg.hold_ms

-- The first place of a text, taken out.
unfoldable pub splice : Str → List Str → List Str
splice t [] = []
splice t (u ∷ us) = let rest = splice t us in if str_eq u t then us else u ∷ rest

-- `done`
unfoldable pub release : Str → Bridge → Bridge
release ticket b = record b { pending = splice ticket b.pending }

-- pending.indexOf(ticket), or 0
place_from : ℕ → Str → List Str → ℕ
place_from n t [] = 0
place_from n t (u ∷ us) = let later = place_from (n + 1) t us in if str_eq u t then n else later

unfoldable pub place_of : Str → List Str → ℕ
unfolding place_from
place_of = place_from 0

any_lighting : List (Str × Ticket) → Bool
any_lighting [] = false
any_lighting ((k, t) ∷ ts) = elim t.state [ lighting ↦ true | other ↦ any_lighting ts ]

-- queueStatus(ticket), where no ticket and an empty one are the same
unfoldable pub queue_status : Option Str → Bridge → Body
unfolding any_lighting
queue_status ticket b = elim (non_empty ticket) [
  | none ↦ queue_length (length b.pending) (any_lighting b.tickets)
  | some t ↦ ticket_status t (get t b.tickets) (place_of t b.pending) (length b.pending)
]
