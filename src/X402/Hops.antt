-- ===== src/X402/Hops.antt =====
-- The route /inject-forward-v1 of tools/x402-bridge/mesh-control.ts up to the cell that it injects:
-- it counts a hop for each of the two devices of the route, and builds the payload whose commitments
-- name what they are paid. SHA-256 and the clock are parameters.
pub mod Named
mod Examples
use semantos_edge.Base.{
  ℕ, ◌+◌, ◌*◌, ◌==◌, Bool, false, Option, none, some, List, [], ◌∷◌, if◌then◌else◌, Result, ok,
  thrown, ◌>>=◌,
}
use semantos_edge.Base.Map.{Str, get}
use semantos_edge.Templog.Text.{codes}
use semantos_edge.Cell.Wire.{type_hash}
use semantos_edge.X402.Channel.{ChannelState, accumulate_hop}
use semantos_edge.X402.Forward.{Commitment, encode_rule, build_forward_v1_payload}

-- FWD_V1_HOP_COST
abbrev pub hop_cost : ℕ
hop_cost = 10

-- What the source has counted for a device.
pub record Hop : Type 0 where
  pub seq : ℕ
  pub share : ℕ

-- fwdV1Ch
pub record Hops : Type 0 where
  pub b : Hop
  pub c : Hop

abbrev pub no_hops : Hops
no_hops = record { b = record { seq = 0; share = 0 }; c = record { seq = 0; share = 0 } }

abbrev pub count_hop : Hop → Hop
count_hop h = record { seq = h.seq + 1; share = h.share + hop_cost }

-- The names behind TYPES.
abbrev pub type_names : List (Str × Str)
type_names =
    (codes "heartbeat", codes "cellmesh.heartbeat.v0")
    ∷ (codes "tap", codes "cellmesh.tap.v0")
    ∷ (codes "scripted", codes "cellmesh.scripted.v0")
    ∷ (codes "rule", codes "cellmesh.rule.v0")
    ∷ (codes "forward", codes "cellmesh.forward.v0")
    ∷ (codes "forwardV1", codes "cellmesh.forward.v1")
    ∷ (codes "forwardV2", codes "cellmesh.forward.v2")
    ∷ (codes "routingContV0", codes "cellmesh.routing.cont.v0")
    ∷ (codes "capabilityV0", codes "cellmesh.capability.v0")
    ∷ (codes "channelSettle", codes "cellmesh.channel_settle.v0")
    ∷ []

-- MAC_B and MAC_C
abbrev pub route : List (List ℕ)
route =
    (0x58 ∷ 0xe6 ∷ 0xc5 ∷ 0x1a ∷ 0x8c ∷ 0x54 ∷ [])
    ∷ (0x58 ∷ 0xe6 ∷ 0xc5 ∷ 0x1a ∷ 0x8c ∷ 0xf8 ∷ [])
    ∷ []

-- The body of a request, and what the server holds when it comes: the clock, the channel and the
-- hash of its certificate. `certified` is whether the certificate was injected before, or its
-- injection does not throw.
pub record Request : Type 0 where
  pub hop_verb : Option ℕ
  pub trigger : Option Str
  pub blink_ms : Option ℕ
  pub now : ℕ
  pub channel_id : List ℕ
  pub cert_hash : Option (List ℕ)
  pub certified : Bool

-- A request is refused, throws, or has a payload to inject.
pub data Prepared : Type 0 where
  bad_trigger failed : Prepared
  sends : List ℕ → Prepared

unfoldable pub prepared : Result (List ℕ) → Prepared
prepared thrown = failed
prepared (ok p) = sends p

unfoldable pub given {ℓ} : {A : Type ℓ} → A → Option A → A
given d none = d
given d (some a) = a

unfoldable pub commitment : Request → Hop → Commitment
commitment r h = record {
  channel_id = r.channel_id;
  seq = h.seq;
  share = h.share;
  expiry_ms = 0x7fff_ffff_ffff_ffff;
  cert_hash = r.cert_hash;
}

module _ (sha256 : List ℕ → List ℕ) where
  -- TYPES[...], for a name that no object inherits
  unfoldable pub type_of : Option Str → Option (List ℕ)
  type_of none = none
  type_of (some name) = some (type_hash sha256 name)

  unfoldable pub rule_of : Request → Option (List ℕ) → Option (Result (List ℕ))
  rule_of r none = none
  rule_of r (some trig) = some (encode_rule trig (given 2000 r.blink_ms) none)

  -- The inner payload, or nothing where the trigger is none of the types.
  unfoldable pub inner_of : Request → Option (Result (List ℕ))
  inner_of r =
      if given 0 r.hop_verb == 2
      then rule_of r (type_of (get (given (codes "tap") r.trigger) type_names))
      else some (ok [])

  unfoldable pub hop_payload : Request → Hops → Option (Result (List ℕ)) → Prepared
  hop_payload r hops none = bad_trigger
  hop_payload r hops (some inner) = prepared (
      inner
      >>= build_forward_v1_payload sha256 r.now (given 0 r.hop_verb) route
          (commitment r hops.b ∷ commitment r hops.c ∷ []))

  -- Behind the certificate both hops are counted, and then the trigger is looked up.
  unfoldable pub prepare_v1 : Request → Hops → Prepared × Hops
  prepare_v1 r hops =
      let counted : Hops = record { b = count_hop hops.b; c = count_hop hops.c } in
      if r.certified then (hop_payload r counted (inner_of r), counted) else (failed, hops)

-- /inject-forward-v1-bad-key counts both hops too, behind its certificate.
unfoldable pub count_bad_key : Bool → Hops → Hops
count_bad_key certified hops =
    if certified then record { b = count_hop hops.b; c = count_hop hops.c } else hops

-- What changes the counts: a request for a forward.v1 cell or for one with a bad key, and a channel that
-- was opened, which sets them back.
pub data Event : Type 0 where
  forward : Request → Event
  bad_key : Bool → Event
  opened : Event

module _ (sha256 : List ℕ → List ℕ) where
  unfoldable pub after_event : Event → Hops → Hops
  after_event (forward r) hops = (prepare_v1 sha256 r hops).1
  after_event (bad_key certified) hops = count_bad_key certified hops
  after_event opened hops = no_hops

  unfoldable pub after_all : List Event → Hops → Hops
  after_all [] hops = hops
  after_all (e ∷ es) hops = after_all es (after_event e hops)

-- What follows the injection: an open channel counts both hops, and tells whether to settle.
unfoldable pub count_on_channel : Hops → Option ChannelState → Bool × Option ChannelState
count_on_channel hops none = (false, none)
count_on_channel hops (some ch) =
    if ch.settled
    then (false, some ch)
    else let counted = accumulate_hop ch (hop_cost * 2) 0 hops.b.seq in (counted.0, some counted.1)
