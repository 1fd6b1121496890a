-- ===== src/Cell/Capability/Issued.antt =====
-- The two makers of a certificate: tools/fleet/fleet.ts and tools/x402-bridge/capability-cert.ts.
use semantos_edge.Base.{
  ℕ, ◌≡◌, refl, inl, inr, false, List, ◌==◌, length, take, Result, ok, thrown, Bool-cases,
  Result-cases,
}
use semantos_edge.Templog.Text.{codes}
use semantos_edge.Cell.Wire.{mint_cell, type_hash}
use semantos_edge.Cell.Capability.{
  FleetNode, DeviceProvision, CertCell, cap_route_fwd_v1, device_domain,
  build_capability_cert_payload, build_capability_cert_cell, channel_id_for, issue_cert,
  hash_of_cert,
}

abbrev pub of_provision : Result DeviceProvision → Result (List ℕ × List ℕ × List ℕ)
of_provision thrown = thrown
of_provision (ok p) = ok (p.cert_cell, p.cert_sig, p.cert_hash)

abbrev pub of_cert : Result CertCell → Result (List ℕ × List ℕ × List ℕ)
of_cert thrown = thrown
of_cert (ok c) = ok (c.cell, c.sig, c.payload_hash)

build_capability_cert_payload-refused :
    (edge_pk channel_id : List ℕ) (expiry_ms route_type valid_from_ms : ℕ)
    → (length edge_pk == 33) ≡ false
    → build_capability_cert_payload edge_pk channel_id expiry_ms route_type valid_from_ms ≡ thrown
unfolding build_capability_cert_payload
build_capability_cert_payload-refused edge_pk channel_id expiry_ms route_type valid_from_ms e =
    rw e refl

-- The fleet provisions a unit with the cell, the signature and the hash of the certificate that the
-- bridge makes for the unit's key and channel with the operator as its master, stamped with the
-- issue time, and throws where that throws.
pub issue_cert-build_capability_cert_cell :
    (sha256 sign : List ℕ → List ℕ) (operator_pk sk : List ℕ) (node : FleetNode)
    (expiry_ms valid_from_ms : ℕ)
    → of_provision (issue_cert sha256 sign operator_pk node expiry_ms valid_from_ms)
      ≡ of_cert (
          build_capability_cert_cell sha256 sign
            (channel_id_for sha256 node.cert_id)
            (record { sk = sk; pk = node.public_key })
            operator_pk
            expiry_ms
            valid_from_ms
            valid_from_ms)
unfolding issue_cert build_capability_cert_cell hash_of_cert
issue_cert-build_capability_cert_cell sha256 sign operator_pk sk node expiry_ms valid_from_ms =
    let channel = channel_id_for sha256 node.cert_id in
    let type = type_hash sha256 (codes "cellmesh.capability.v0") in
    elim (Bool-cases (length node.public_key == 33)) [
      | inr e ↦ rw e (
          rw
            (build_capability_cert_payload-refused node.public_key channel expiry_ms _ valid_from_ms
              e)
            refl)
      | inl e ↦
          elim (Result-cases (
            build_capability_cert_payload node.public_key channel expiry_ms cap_route_fwd_v1
              valid_from_ms)) [
                | inl f ↦ rw e (rw f refl)
                | inr (payload, f) ↦ rw e (
                    rw f
                      (elim (Result-cases (
                        mint_cell sha256 type payload (take 16 operator_pk) valid_from_ms
                          device_domain)) [ inl g ↦ rw g refl | inr (cell, g) ↦ rw g refl ]))
              ]
    ]
