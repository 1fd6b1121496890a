-- ===== src/X402/Bridge/Once.antt =====
-- One payment, one light: the claims of `X402CellBridge` (tools/x402-bridge/bridge.ts).
use semantos_edge.Base.{
  ℕ, ◌+◌, ◌≤◌, ◌≡◌, refl, true, false, Option, none, some, List, [], ◌∷◌, ◌++◌, map, arith,
  if◌then◌else◌, Bool-cases, Option-cases, inl, inr, Result, ok, thrown,
}
use semantos_edge.Base.Map.{Str, str_eq, str_eq_iff, get}
use semantos_edge.Templog.Json.{Json, Fields}
use semantos_edge.X402.Payment.{VerifyResult, accepted, rejected}
use semantos_edge.X402.Bridge.{Settings, Bridge, Ticket, Response}
use semantos_edge.X402.Bridge.Request.{
  Received, answered, threw, claimed, Claim, Job, has, insert, delete_from, claim, verified,
  with_payment, with_header, challenged, challenge, receive, price_of, non_empty,
}
use semantos_edge.X402.Bridge.Queue.{
  MeshOutcome, MeterOutcome, mesh_threw, timed_out, acknowledged, meter_threw, meter_timed_out,
  refused, added, set_ticket, begin, finish_plain, finish_metered, failing,
}
use semantos_edge.X402.Bridge.Steps.{System, Active, idle, actuating, holding}

-- How often a text stands in a list.
abbrev pub occurs : Str → List Str → ℕ
occurs t [] = 0
occurs t (u ∷ us) = (if str_eq u t then 1 else 0) + occurs t us

abbrev pub claim_tickets : List Claim → List Str
claim_tickets cs = map (λ (c : Claim). c.ticket) cs

abbrev pub job_tickets : List Job → List Str
job_tickets js = map (λ (j : Job). j.ticket) js

abbrev pub active_tickets : Active → List Str
active_tickets idle = []
active_tickets (actuating j) = j.ticket ∷ []
active_tickets (holding t held) = t ∷ []

pub occurs-append : (t : Str) (us vs : List Str) → occurs t (us ++ vs) ≡ occurs t us + occurs t vs
occurs-append t [] vs = omega arith
occurs-append t (u ∷ us) vs = omega (arith, occurs-append t us vs)

pub has-append_one :
    (t u : Str) (us : List Str) → has t (us ++ (u ∷ [])) ≡ (if has t us then true else str_eq u t)
unfolding has
has-append_one t u [] = ground arith
has-append_one t u (v ∷ us) = ground (arith, has-append_one t u us)

pub has-delete_from :
    (t u : Str) (us : List Str)
    → has t (delete_from u us) ≡ (if str_eq u t then false else has t us)
unfolding has delete_from
has-delete_from t u [] = ground arith
has-delete_from t u (v ∷ us) =
    ground (arith, has-delete_from t u us, str_eq_iff v u, str_eq_iff u t, str_eq_iff v t)

-- A payment is claimed, or its activation enqueued, at most once, and only where it is in the set of
-- used ones; the activations begin in the order in which they were enqueued; and `pending` names
-- those that have not ended.
pub record IsOnce (s : System) : Type 0 where
  pub once :
      (t : Str)
      → occurs t (claim_tickets s.claims) + occurs t s.enqueued
        ≤ (if has t s.bridge.used then 1 else 0)
  pub order : s.started ++ job_tickets s.waiting ≡ s.enqueued
  pub line : s.bridge.pending ≡ active_tickets s.active ++ job_tickets s.waiting

-- What a request leaves of the bridge.
pub data ReceivedOf (b : Bridge) : Received × Bridge → Type 0 where
  kept : (r : Response) → ReceivedOf b (answered r, b)
  kept_throwing : ReceivedOf b (threw, b)
  claiming :
      (c : Claim)
      → has c.ticket b.used ≡ false
      → ReceivedOf b (claimed c, record b { used = b.used ++ (c.ticket ∷ []) })

claim-ReceivedOf : (c : Claim) (b : Bridge) → ReceivedOf b (claim c b)
unfolding claim insert
claim-ReceivedOf c b = elim (Bool-cases (has c.ticket b.used)) [
  | inl e ↦ rw e (kept _)
  | inr e ↦ rw (e, insert) (claiming c e)
]

challenged-ReceivedOf : (r : Result Response) (b : Bridge) → ReceivedOf b (challenged r, b)
unfolding challenged
challenged-ReceivedOf thrown b = kept_throwing
challenged-ReceivedOf (ok r) b = kept r

module _ (cfg : Settings) (parse : Str → Result Fields) (verify : Fields → ℕ → VerifyResult)
    (key : Json → Option Str → Str) where
  verified-ReceivedOf :
      (payment : Fields) (v : VerifyResult) (b : Bridge)
      → ReceivedOf b (verified parse verify key payment v b)
  unfolding verified
  verified-ReceivedOf payment (rejected reason) b = kept _
  verified-ReceivedOf payment (accepted paid txid) b = claim-ReceivedOf _ b

  with_payment-ReceivedOf :
      (price : ℕ) (p : Result Fields) (b : Bridge)
      → ReceivedOf b (with_payment parse verify key price p b)
  unfolding with_payment
  with_payment-ReceivedOf price thrown b = kept _
  with_payment-ReceivedOf price (ok payment) b =
      verified-ReceivedOf payment (verify payment price) b

  with_header-ReceivedOf :
      (price : ℕ) (header : Option Str) (prefix : Str) (b : Bridge)
      → ReceivedOf b (with_header parse verify key cfg price header prefix b)
  unfolding with_header
  with_header-ReceivedOf price none prefix b = challenged-ReceivedOf (challenge cfg price prefix) b
  with_header-ReceivedOf price (some header) prefix b =
      with_payment-ReceivedOf price (parse header) b

  -- A request answers, or claims a payment that was not claimed before.
  pub receive-ReceivedOf :
      (header : Option Str) (sats : Option Json) (prefix : Str) (b : Bridge)
      → ReceivedOf b (receive parse verify key cfg header sats prefix b)
  unfolding receive
  receive-ReceivedOf header sats prefix b = elim (Option-cases (price_of cfg sats)) [
    | inl e ↦ rw (e, receive) (kept _)
    | inr (price, e) ↦ rw (e, receive) (with_header-ReceivedOf price (non_empty header) prefix b)
  ]

set_ticket-same :
    (k : Str) (f : Ticket → Ticket) (b : Bridge)
    → ((set_ticket k f b).used ≡ b.used) × ((set_ticket k f b).pending ≡ b.pending)
unfolding set_ticket
set_ticket-same k f b = elim (Option-cases (get k b.tickets)) [
  | inl e ↦ rw (e, set_ticket) (refl, refl)
  | inr (t, e) ↦ rw (e, set_ticket) (refl, refl)
]

pub begin-same :
    (cfg : Settings) (j : Job) (b : Bridge)
    → ((begin cfg j b).used ≡ b.used) × ((begin cfg j b).pending ≡ b.pending)
unfolding begin
begin-same cfg j b = elim (Bool-cases cfg.metered) [
  | inl e ↦ rw e (set_ticket-same j.ticket _ b)
  | inr e ↦ rw e (set_ticket-same j.ticket _ b)
]

pub finish_plain-same :
    (cfg : Settings) (at : Str) (o : MeshOutcome) (j : Job) (b : Bridge)
    → ((finish_plain cfg at o j b).1.used ≡ b.used)
      × ((finish_plain cfg at o j b).1.pending ≡ b.pending)
unfolding finish_plain failing
finish_plain-same cfg at mesh_threw j b = set_ticket-same j.ticket _ b
finish_plain-same cfg at timed_out j b = set_ticket-same j.ticket _ b
finish_plain-same cfg at (acknowledged false) j b = set_ticket-same j.ticket _ b
finish_plain-same cfg at (acknowledged true) j b = set_ticket-same j.ticket _ b

pub finish_metered-same :
    (at : Str) (o : MeterOutcome) (j : Job) (b : Bridge)
    → ((finish_metered at o j b).1.used ≡ b.used)
      × ((finish_metered at o j b).1.pending ≡ b.pending)
unfolding finish_metered failing
finish_metered-same at meter_threw j b = set_ticket-same j.ticket _ b
finish_metered-same at meter_timed_out j b = set_ticket-same j.ticket _ b
finish_metered-same at refused j b = set_ticket-same j.ticket _ b
finish_metered-same at (added tenths left) j b = set_ticket-same j.ticket _ b
