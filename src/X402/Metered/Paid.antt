-- ===== src/X402/Metered/Paid.antt =====
-- What the answer to a payer says of the payer's ticket (tools/x402-bridge/bridge.ts).
use semantos_edge.Base.{◌≡◌, refl, ap, true, false, Option, none, some, ◌==◌, if◌then◌else◌}
use semantos_edge.Base.Map.{Str, get, get-put_self}
use semantos_edge.X402.Bridge.{Settings, Bridge, Response, Ticket, TicketState, lit, failed}
use semantos_edge.X402.Bridge.Request.{Job}
use semantos_edge.X402.Bridge.Queue.{
  MeshOutcome, mesh_threw, timed_out, acknowledged, MeterOutcome, meter_threw, meter_timed_out,
  refused, added, finish_plain, finish_metered, failing, set_ticket,
}

-- The state of a ticket, by the answer to its payer.
abbrev pub state_for : Response → TicketState
state_for r = if r.status == 200 then lit else failed

abbrev pub state_of : Option Ticket → Option TicketState
state_of none = none
state_of (some t) = some t.state

set_ticket-state :
    (k : Str) (f : Ticket → Ticket) (s : TicketState) (t : Ticket) (b : Bridge)
    → get k b.tickets ≡ some t
    → (f t).state ≡ s
    → state_of (get k (set_ticket k f b).tickets) ≡ some s
unfolding set_ticket
set_ticket-state k f s t b h e =
    rw (h, set_ticket) (rw (get-put_self k (f t) b.tickets) (ap some e))

finish_plain-state :
    (cfg : Settings) (at : Str) (o : MeshOutcome) (j : Job) (t : Ticket) (b : Bridge)
    → get j.ticket b.tickets ≡ some t
    → state_of (get j.ticket (finish_plain cfg at o j b).1.tickets)
      ≡ some (state_for (finish_plain cfg at o j b).0)
unfolding finish_plain failing
finish_plain-state cfg at mesh_threw j t b h = set_ticket-state j.ticket _ failed t b h refl
finish_plain-state cfg at timed_out j t b h = set_ticket-state j.ticket _ failed t b h refl
finish_plain-state cfg at (acknowledged false) j t b h =
    set_ticket-state j.ticket _ failed t b h refl
finish_plain-state cfg at (acknowledged true) j t b h = set_ticket-state j.ticket _ lit t b h refl

finish_metered-state :
    (at : Str) (o : MeterOutcome) (j : Job) (t : Ticket) (b : Bridge)
    → get j.ticket b.tickets ≡ some t
    → state_of (get j.ticket (finish_metered at o j b).1.tickets)
      ≡ some (state_for (finish_metered at o j b).0)
unfolding finish_metered failing
finish_metered-state at meter_threw j t b h = set_ticket-state j.ticket _ failed t b h refl
finish_metered-state at meter_timed_out j t b h = set_ticket-state j.ticket _ failed t b h refl
finish_metered-state at refused j t b h = set_ticket-state j.ticket _ failed t b h refl
finish_metered-state at (added tenths left) j t b h = set_ticket-state j.ticket _ lit t b h refl

-- A ticket that is known is lit at the end of its activation exactly if its payer is answered 200,
-- and failed otherwise, with a meter as without one.
pub finish-state :
    (cfg : Settings) (at : Str) (o : MeshOutcome) (p : MeterOutcome) (j : Job) (t : Ticket)
    (b : Bridge)
    → get j.ticket b.tickets ≡ some t
    → (state_of (get j.ticket (finish_plain cfg at o j b).1.tickets)
        ≡ some (state_for (finish_plain cfg at o j b).0))
      × (state_of (get j.ticket (finish_metered at p j b).1.tickets)
          ≡ some (state_for (finish_metered at p j b).0))
finish-state cfg at o p j t b h =
    (finish_plain-state cfg at o j t b h, finish_metered-state at p j t b h)
