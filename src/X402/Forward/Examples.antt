-- ===== src/X402/Forward/Examples.antt =====
-- A route of two hops of tools/x402-bridge/mesh-control.ts, with a stand-in for SHA-256.
use semantos_edge.Base.{ℕ, ◌%◌, ◌≡◌, refl, none, some, List, [], ◌∷◌, length, replicate, ok}
use semantos_edge.Base.Bytes.{slice}
use semantos_edge.X402.Forward.{
  Commitment, build_forward_v1_payload, build_forward_v2_payload_b, build_burst, routing_flow_id,
}
use semantos_edge.X402.Forward.Route.{route_bytes}
use semantos_edge.X402.Forward.Bound.{
  build_forward_v1_payload-build_forward_v2_payload_b, build_burst-routing_flow_id,
}

abbrev hash : List ℕ → List ℕ
hash bytes = (length bytes % 256) ∷ replicate 31 0

abbrev macs : List (List ℕ)
macs = (2 ∷ 0 ∷ 0 ∷ 0 ∷ 0 ∷ 0xb ∷ []) ∷ (2 ∷ 0 ∷ 0 ∷ 0 ∷ 0 ∷ 0xc ∷ []) ∷ []

abbrev commitments : List Commitment
commitments =
    record {
      channel_id = replicate 16 1;
      seq = 1;
      share = 10;
      expiry_ms = 0x7fff_ffff_ffff_ffff;
      cert_hash = some (replicate 32 9);
    }
    ∷ record {
      channel_id = replicate 16 1;
      seq = 1;
      share = 10;
      expiry_ms = 0x7fff_ffff_ffff_ffff;
      cert_hash = none;
    }
    ∷ []

build_forward_v1_payload-build_forward_v2_payload_b_example :
    (v : List ℕ) × (b : List ℕ) × (build_forward_v1_payload hash 1000 2 macs commitments
        (7 ∷ 8 ∷ [])
      ≡ ok v)
    × (build_forward_v2_payload_b hash (replicate 16 3) macs commitments ≡ ok b)
    × (slice 24 296 v ≡ slice 24 296 b)
    × (slice 320 2 v ≡ 7 ∷ 8 ∷ [])
build_forward_v1_payload-build_forward_v2_payload_b_example =
    build_forward_v1_payload-build_forward_v2_payload_b macs commitments hash 1000 2 (7 ∷ 8 ∷ [])
      (replicate 16 3)

hash-long : (bytes : List ℕ) → length (hash bytes) ≡ 32
hash-long bytes = refl

build_burst-routing_flow_id_example :
    (a : List ℕ) × (b : List ℕ) × (build_burst hash 1000 2 macs commitments (7 ∷ 8 ∷ [])
      ≡ ok (a, b))
    × (slice 0 16 a ≡ routing_flow_id hash b)
    × (slice 0 16 b ≡ routing_flow_id hash b)
    × (slice 24 296 b ≡ route_bytes macs commitments (replicate 296 0))
    × (slice 24 2 a ≡ 7 ∷ 8 ∷ [])
build_burst-routing_flow_id_example =
    build_burst-routing_flow_id macs commitments hash hash-long 1000 2 (7 ∷ 8 ∷ [])
