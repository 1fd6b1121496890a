-- ===== src/X402/Bridge.antt =====
-- `X402CellBridge` of tools/x402-bridge/bridge.ts: what it is made of, and how it answers a request.
pub mod Request
pub mod Queue
pub mod Steps
pub mod Once
pub mod Turns
use semantos_edge.Base.{
  ℕ, ◌+◌, max, min, Bool, false, Option, none, some, List, [], ◌∷◌, if◌then◌else◌, take,
}
use semantos_edge.Base.Map.{Str, str_eq}
use semantos_edge.Cell.Actuator.{ActuatorOffer}
use semantos_edge.X402.Payment.{Headers, Refusal}

pub record BridgeConfig : Type 0 where
  pub offer : ActuatorOffer
  pub wallet_pub : List ℕ
  pub activation_timeout_ms : Option ℕ
  pub receive_script : Option Str
  pub broadcast_on_verify : Option Bool
  pub hold_ms : Option ℕ
  pub queue_timeout_ms : Option ℕ
  pub metered : Bool
  pub meter_options : Option (List ℕ)
  pub max_sats : Option ℕ

pub data TicketState : Type 0 where
  queued lighting lit failed : TicketState

-- Why an activation failed: the mesh threw, or answered in no time; the injector, the device and
-- the commitment each have a sentence of their own.
pub data Failure : Type 0 where
  mesh_error injector_timeout device_timeout not_acknowledged commitment_failed : Failure

pub record Ticket : Type 0 where
  pub state : TicketState
  pub lit_at : Option Str
  pub error : Option Failure
  pub seconds_added : Option ℕ
  -- `≈N s of light added`, as its N
  pub message : Option ℕ

abbrev pub new_ticket : Ticket
new_ticket = record {
  state = queued;
  lit_at = none;
  error = none;
  seconds_added = none;
  message = none;
}

-- The fields that do not change.
pub record Settings : Type 0 where
  pub offer : ActuatorOffer
  pub owner_id : List ℕ
  pub timeout_ms : ℕ
  pub receive_script : Option Str
  pub broadcast_on_verify : Bool
  pub hold_ms : ℕ
  pub queue_timeout_ms : ℕ
  pub metered : Bool
  pub meter_options : List ℕ
  -- none for the maximum of no options, which is -Infinity
  pub max_sats : Option ℕ

-- A set of texts, and the tickets, by their text, in the order of their insertion. `pending` is an
-- array of tickets.
pub record Bridge : Type 0 where
  pub counter : ℕ
  pub pending : List Str
  pub tickets : List (Str × Ticket)
  pub used : List Str

abbrev pub or_else {ℓ} : {A : Type ℓ} → Option A → A → A
or_else none d = d
or_else (some a) d = a

-- Math.max(...options) and Math.min(...options), where no options give an infinite number
unfoldable pub largest : List ℕ → Option ℕ
largest [] = none
largest (n ∷ ns) = elim (largest ns) [ none ↦ some n | some m ↦ some (max n m) ]

unfoldable pub least : List ℕ → Option ℕ
least [] = none
least (n ∷ ns) = elim (least ns) [ none ↦ some n | some m ↦ some (min n m) ]

or_largest : Option ℕ → List ℕ → Option ℕ
or_largest none options = largest options
or_largest (some n) options = some n

-- The constructor's settings.
unfoldable pub settings_of : BridgeConfig → Settings
unfolding or_largest
settings_of cfg =
    let options = or_else cfg.meter_options (12 ∷ 36 ∷ 72 ∷ []) in
    let timeout = or_else cfg.activation_timeout_ms 8000 in
    record {
      offer = cfg.offer;
      owner_id = take 16 cfg.wallet_pub;
      timeout_ms = timeout;
      receive_script = cfg.receive_script;
      broadcast_on_verify = or_else cfg.broadcast_on_verify false;
      hold_ms = or_else cfg.hold_ms (if cfg.metered then 0 else cfg.offer.duration_ms + 500);
      queue_timeout_ms = or_else cfg.queue_timeout_ms (timeout + 10000);
      metered = cfg.metered;
      meter_options = options;
      max_sats = or_largest cfg.max_sats options;
    }

abbrev pub new_bridge : Bridge
new_bridge = record { counter = 0; pending = []; tickets = []; used = [] }

-- What a response says.
pub data Body : Type 0 where
  choose_between : Option ℕ → Option ℕ → Body
  payment_required : ℕ → Str → Option Str → Body
  malformed_payment : Body
  payment_rejected : Refusal → Body
  already_used : Str → Body
  broadcast_failed : Body
  queued_as : Str → ℕ → Option Str → Body
  failed_with : Failure → Body
  activated : Str → ℕ → ℕ → Option Str → Str → Body
  added_seconds : ℕ → ℕ → ℕ → ℕ → Option Str → Str → Body
  ticket_status : Str → Option Ticket → ℕ → ℕ → Body
  queue_length : ℕ → Bool → Body

pub record Response : Type 0 where
  pub status : ℕ
  pub headers : Headers
  pub body : Body
