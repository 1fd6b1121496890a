-- ===== src/Cell/Capability/Payload.antt =====
-- What the certificates of tools/x402-bridge/capability-cert.ts say.
use semantos_edge.Base.{
  ℕ, ◌%◌, length-append, ==_iff, ◌>>=◌, ◌≡◌, refl, ap, ◌∙◌, inl, inr, ◌&&◌, List, [], ◌∷◌, ◌++◌,
  ◌==◌, if◌then◌else◌, length, replicate, set, ok, thrown, arith, Bool-cases,
}
use semantos_edge.Base.Bytes.{
  overwrite, set_at, set-overwrite, overwrite_all, length-overwrite, overwrite_next, set_at_fits,
}
use semantos_edge.Cell.Words.{write_u64, write_u64_lem, le64}
use semantos_edge.Cell.Capability.{build_capability_cert_payload}

-- The bytes of a certificate.
abbrev pub cert_bytes : List ℕ → List ℕ → ℕ → ℕ → ℕ → List ℕ
cert_bytes edge_pk channel_id expiry_ms route_type valid_from_ms =
    (((edge_pk ++ channel_id) ++ le64 expiry_ms) ++ (route_type % 256 ∷ [])) ++ le64 valid_from_ms

cert_bytes-written :
    (edge_pk channel_id : List ℕ) (expiry_ms route_type valid_from_ms : ℕ)
    → length edge_pk ≡ 33
    → length channel_id ≡ 16
    → write_u64
        (set
          (write_u64 (overwrite (overwrite (replicate 66 0) 0 edge_pk) 33 channel_id) 49 expiry_ms)
          57
          (route_type % 256))
        58
        valid_from_ms
      ≡ cert_bytes edge_pk channel_id expiry_ms route_type valid_from_ms
cert_bytes-written edge_pk channel_id expiry_ms route_type valid_from_ms h k =
    let z : List ℕ = replicate 66 0 in
    let a1 = length-append edge_pk channel_id in
    let a2 = length-append (edge_pk ++ channel_id) (le64 expiry_ms) in
    let a3 = length-append ((edge_pk ++ channel_id) ++ le64 expiry_ms) (route_type % 256 ∷ []) in
    let a4 =
      length-append (((edge_pk ++ channel_id) ++ le64 expiry_ms) ++ (route_type % 256 ∷ []))
        (le64 valid_from_ms) in
    let s1 = overwrite_next (overwrite z 0 edge_pk) z 33 edge_pk channel_id refl (omega arith) in
    let s2 =
      write_u64_lem _ 49 expiry_ms ∙ overwrite_next _ z 49 _ (le64 expiry_ms) s1 (omega arith) in
    let s3 = set-overwrite _ 57 (route_type % 256) ∙ overwrite_next _ z 57 _ _ s2 (omega arith) in
    let s4 =
      write_u64_lem _ 58 valid_from_ms
      ∙ overwrite_next _ z 58 _ (le64 valid_from_ms) s3 (omega arith) in
    s4 ∙ overwrite_all z _ (omega arith)

payload-written :
    (edge_pk channel_id : List ℕ) (expiry_ms route_type valid_from_ms : ℕ)
    → length edge_pk ≡ 33
    → length channel_id ≡ 16
    → (set_at (replicate 66 0) 0 edge_pk >>= λ p. set_at p 33 channel_id >>= λ p.
        ok (write_u64 (set (write_u64 p 49 expiry_ms) 57 (route_type % 256)) 58 valid_from_ms))
      ≡ ok (cert_bytes edge_pk channel_id expiry_ms route_type valid_from_ms)
payload-written edge_pk channel_id expiry_ms route_type valid_from_ms h k =
    let z : List ℕ = replicate 66 0 in
    let long = length-overwrite z 0 edge_pk in
    rw (set_at_fits z 0 edge_pk (omega arith)) (
      rw (set_at_fits (overwrite z 0 edge_pk) 33 channel_id (omega arith))
        (ap ok (cert_bytes-written edge_pk channel_id expiry_ms route_type valid_from_ms h k)))

-- The payload is there for a key of 33 bytes and a channel of 16 bytes, and then is the key, the
-- channel, the expiry, the route and the issue time, one behind the other; else the call throws.
pub build_capability_cert_payload_lem :
    (edge_pk channel_id : List ℕ) (expiry_ms route_type valid_from_ms : ℕ)
    → build_capability_cert_payload edge_pk channel_id expiry_ms route_type valid_from_ms ≡ (
        if (length edge_pk == 33) && (length channel_id == 16)
        then ok (cert_bytes edge_pk channel_id expiry_ms route_type valid_from_ms)
        else thrown)
unfolding build_capability_cert_payload
build_capability_cert_payload_lem edge_pk channel_id expiry_ms route_type valid_from_ms =
    elim (Bool-cases (length edge_pk == 33)) [
      | inr e ↦ rw e refl
      | inl e ↦ elim (Bool-cases (length channel_id == 16)) [
        | inr f ↦ rw e (rw f refl)
        | inl f ↦ rw e (
            rw f (
              payload-written edge_pk channel_id expiry_ms route_type valid_from_ms
                ((==_iff _ 33).0 e) ((==_iff _ 16).0 f)))
      ]
    ]
