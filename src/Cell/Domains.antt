-- ===== src/Cell/Domains.antt =====
-- The authority rails of the cell types: tools/x402-bridge/cell-domains.ts and tools/domains.ts.
-- SHA-256 is a parameter.
pub mod Rails
use semantos_edge.Base.{
  ℕ, Bool, true, false, Option, none, some, List, [], ◌∷◌, map, ◌==◌, if◌then◌else◌, Result, ok,
  thrown, ◌>>=◌,
}
use semantos_edge.Base.Map.{Str, get, put}
use semantos_edge.Templog.Text.{codes, to_hex}
use semantos_edge.Cell.Wire.{type_hash}

-- DOMAIN
abbrev pub mesh_relay : ℕ
mesh_relay = 0x00f1_0001

abbrev pub mesh_payment : ℕ
mesh_payment = 0x00f1_0010

abbrev pub mesh_control : ℕ
mesh_control = 0x00f1_0020

abbrev pub mesh_telemetry : ℕ
mesh_telemetry = 0x00f1_0030

abbrev pub mesh_script : ℕ
mesh_script = 0x00f1_0040

abbrev pub domain : List (Str × ℕ)
domain =
    (codes "zone", 0x0000_000e)
    ∷ (codes "fleetDevice", 0x00f1_0001)
    ∷ (codes "orgMember", 0x00f1_0002)
    ∷ (codes "meshRelay", mesh_relay)
    ∷ (codes "meshPayment", mesh_payment)
    ∷ (codes "meshControl", mesh_control)
    ∷ (codes "meshTelemetry", mesh_telemetry)
    ∷ (codes "meshScript", mesh_script)
    ∷ []

-- The first entry of DOMAIN with the flag, where `domainName` writes `unknown(…)` for none.
unfoldable pub name_of : ℕ → List (Str × ℕ) → Option Str
name_of flag [] = none
name_of flag ((name, v) ∷ rest) = if v == flag then some name else name_of flag rest

-- RAIL
abbrev pub rail : List (Str × ℕ)
rail =
    (codes "cellmesh.capability.v0", mesh_relay)
    ∷ (codes "cellmesh.forward.v0", mesh_relay)
    ∷ (codes "cellmesh.forward.v1", mesh_relay)
    ∷ (codes "cellmesh.forward.v2", mesh_relay)
    ∷ (codes "cellmesh.routing.cont.v0", mesh_relay)
    ∷ (codes "cellmesh.channel_open.v0", mesh_payment)
    ∷ (codes "cellmesh.channel_commitment.v0", mesh_payment)
    ∷ (codes "cellmesh.channel_close.v0", mesh_payment)
    ∷ (codes "cellmesh.channel_settle.v0", mesh_payment)
    ∷ (codes "cellmesh.actuator_offer.v0", mesh_control)
    ∷ (codes "cellmesh.actuator_activate.v0", mesh_control)
    ∷ (codes "cellmesh.confirmed_tap.v0", mesh_control)
    ∷ (codes "cellmesh.rule.v0", mesh_control)
    ∷ (codes "cellmesh.scripted.v0", mesh_script)
    ∷ (codes "cellmesh.heartbeat.v0", mesh_telemetry)
    ∷ (codes "cellmesh.tap.v0", mesh_telemetry)
    ∷ (codes "cellmesh.telemetry.v0", mesh_telemetry)
    ∷ (codes "scada.event.v0", mesh_telemetry)
    ∷ []

-- KNOWN_CELL_TYPES
abbrev pub known_cell_types : List Str
known_cell_types = map (λ (r : Str × ℕ). r.0) rail

abbrev pub Done : Type 0
Done = Unit

module _ (sha256 : List ℕ → List ℕ) where
  -- new Map(entries): a later entry with the key of an earlier one takes its place.
  unfoldable pub by_type_hash : List (Str × ℕ) → List (Str × ℕ) → List (Str × ℕ)
  by_type_hash [] m = m
  by_type_hash ((name, flag) ∷ rest) m =
      by_type_hash rest (put (to_hex (type_hash sha256 name)) flag m)

  unfoldable pub domain_for_type : List ℕ → Result ℕ
  domain_for_type type = elim (get (to_hex type) (by_type_hash rail [])) [
    | none ↦ thrown
    | some flag ↦ ok flag
  ]

  -- The types of the loop of assertRelayRailConsistent, against the flag of the cert.
  unfoldable pub all_on : ℕ → List Str → Result Done
  all_on cert [] = ok tt
  all_on cert (t ∷ ts) = do
    got ← domain_for_type (type_hash sha256 t)
    if got == cert then all_on cert ts else thrown

  unfoldable pub assert_relay_rail_consistent : Result Done
  assert_relay_rail_consistent = do
    cert ← domain_for_type (type_hash sha256 (codes "cellmesh.capability.v0"))
    all_on cert (
        codes "cellmesh.forward.v0"
        ∷ codes "cellmesh.forward.v1"
        ∷ codes "cellmesh.forward.v2"
        ∷ codes "cellmesh.routing.cont.v0"
        ∷ [])
