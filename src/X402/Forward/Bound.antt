-- ===== src/X402/Forward/Bound.antt =====
-- The cells of forward.v2 of tools/x402-bridge/mesh-control.ts are bound to their route, which is laid
-- out as that of forward.v1.
use semantos_edge.Base.{
  ℕ, ◌+◌, ◌%◌, ◌≤◌, ◌≡◌, refl, sym, ap, ◌∙◌, true, List, [], ◌∷◌, length, length-replicate, take,
  set, replicate, Result, ok, thrown, ◌>>=◌, arith, ltb,
}
use semantos_edge.Base.Bytes.{
  overwrite, set_at_fits, slice, length-overwrite, set-overwrite, slice-overwrite_before,
  slice-overwrite_after, slice-overwrite_self,
}
use semantos_edge.Base.Writes.{
  Writes, fill, Fits, is_clear, length-fill, slice-fill, slice-replicate, length-take_le, take_all,
  length-take_fits, overwrite_nil,
}
use semantos_edge.Cell.Words.{le32}
use semantos_edge.X402.Forward.{
  Commitment, put_segments, put_commitments, put_inner, clock_flow_id, put_base,
  build_forward_v1_payload, build_forward_v2_payload_a, build_forward_v2_payload_b, routing_flow_id,
  build_burst,
}
use semantos_edge.X402.Forward.Route.{route_bytes, put_route_lem, word_after}

bind_assoc {ℓ} :
    {A : Type ℓ} (r : Result A) (f g : A → Result A) → (r >>= λ x. f x >>= g) ≡ (r >>= f >>= g)
bind_assoc (ok a) f g = refl
bind_assoc thrown f g = refl

byte_after : (b c : List ℕ) (o v : ℕ) → b ≡ c → set b o v ≡ overwrite c o (v ∷ [])
byte_after b c o v e = set-overwrite b o v ∙ ap (λ t. overwrite t o (v ∷ [])) e

put_inner_lem :
    (o : ℕ) (inner b : List ℕ)
    → o + length inner ≤ length b
    → put_inner o inner b ≡ ok (overwrite b o inner)
unfolding put_inner
put_inner_lem o [] b h = ap ok (sym (overwrite_nil b o))
put_inner_lem o (x ∷ inner) b h =
    let some_inner : ltb 0 (length (x ∷ inner)) ≡ true = ground arith in
    rw some_inner (set_at_fits b o (x ∷ inner) h)

module _ (macs : List (List ℕ)) (cs : List Commitment) where
  -- A route put behind writes that stay in front of it.
  routed :
      (n : ℕ) (front : Writes) (b : List ℕ)
      → b ≡ fill front (replicate n 0)
      → 320 ≤ n
      → Fits front
      → is_clear 24 296 front ≡ true
      → (b' : List ℕ) × (length b' ≡ n)
        × ((put_segments 4 0 macs b >>= put_commitments 4 0 cs) ≡ ok b')
        × (slice 24 296 b' ≡ route_bytes macs cs (replicate 296 0))
  routed n front b e h fits clear =
      let zeros = length-replicate {A = ℕ} n 0 in
      let filled = length-fill front (replicate n 0) in
      let long : length b ≡ n = ap length e ∙ filled ∙ zeros in
      let r = put_route_lem macs cs b (omega arith) in
      (
        r.0,
        r.1 ∙ long,
        r.2,
        r.3
            ∙ ap (λ t. route_bytes macs cs (slice 24 296 t)) e
            ∙ ap (route_bytes macs cs) (
                slice-fill 24 296 front (replicate n 0) fits clear
                ∙ slice-replicate 24 296 n 0 (omega arith)),
      )

  module _ (sha256 : List ℕ → List ℕ) where
    v1_front : ℕ → ℕ → ℕ → Writes
    v1_front now hop_verb n =
        (0, 16, clock_flow_id sha256 now)
        ∷ (16, 1, 0 ∷ [])
        ∷ (17, 1, length macs % 256 ∷ [])
        ∷ (18, 1, length macs % 256 ∷ [])
        ∷ (19, 1, hop_verb % 256 ∷ [])
        ∷ (20, 4, le32 n)
        ∷ []

    pub v1_routed :
        (now hop_verb : ℕ) (inner : List ℕ)
        → (v : List ℕ) × (build_forward_v1_payload sha256 now hop_verb macs cs inner ≡ ok v)
          × (slice 24 296 v ≡ route_bytes macs cs (replicate 296 0))
          × (slice 320 (length inner) v ≡ inner)
    unfolding build_forward_v1_payload put_base v1_front clock_flow_id
    v1_routed now hop_verb inner =
        let n : ℕ = length inner in
        let z : List ℕ = replicate (320 + n) 0 in
        let long = length-replicate {A = ℕ} (320 + n) 0 in
        let flow : List ℕ = clock_flow_id sha256 now in
        let short : length flow ≤ 16 = length-take_le 16 _ in
        let start : overwrite z 0 flow ≡ overwrite z 0 flow = refl in
        let base =
          word_after _ _ 20 20 n
            (byte_after _ _ 19 (hop_verb % 256) (
              byte_after _ _ 18 (length macs % 256)
                (byte_after _ _ 17 (length macs % 256) (byte_after _ _ 16 0 start))))
            refl in
        let one : 1 ≤ 1 = omega arith in
        let four : 4 ≤ 4 = omega arith in
        let r =
          routed (320 + n) (v1_front now hop_verb n) _ base (omega arith)
            (short, (one, (one, (one, (one, (four, tt)))))) refl in
        let long' = r.1 in
        (
          overwrite r.0 320 inner,
          rw (set_at_fits z 0 flow (omega arith)) (
              bind_assoc _ (put_commitments 4 0 cs) (put_inner 320 inner)
              ∙ rw r.2 (put_inner_lem 320 inner r.0 (omega arith))),
          slice-overwrite_before r.0 320 24 296 inner (omega arith) ∙ r.3,
          slice-overwrite_self r.0 320 n inner refl (omega arith),
        )

    b_routed :
        (flow_id : List ℕ)
        → (b : List ℕ) × (length b ≡ 320)
          × (build_forward_v2_payload_b sha256 flow_id macs cs ≡ ok b)
          × (slice 24 296 b ≡ route_bytes macs cs (replicate 296 0))
    unfolding build_forward_v2_payload_b
    b_routed flow_id =
        let z : List ℕ = replicate 320 0 in
        let long = length-replicate {A = ℕ} 320 0 in
        let flow : List ℕ = take 16 flow_id in
        let short : length flow ≤ 16 = length-take_le 16 flow_id in
        let start : overwrite z 0 flow ≡ overwrite z 0 flow = refl in
        let front : Writes =
          (0, 16, flow) ∷ (16, 1, 0 ∷ []) ∷ (17, 1, length macs % 256 ∷ []) ∷ [] in
        let base = byte_after _ _ 17 (length macs % 256) (byte_after _ _ 16 0 start) in
        let one : 1 ≤ 1 = omega arith in
        let r = routed 320 front _ base (omega arith) (short, (one, (one, tt))) refl in
        (r.0, r.1, rw (set_at_fits z 0 flow (omega arith)) r.2, r.3)

    -- The payload of forward.v1 and the routing cell of forward.v2 are built for every route, and carry
    -- the same segments and commitments in the same bytes, 24 to 319; forward.v1 has the inner
    -- payload behind them.
    pub build_forward_v1_payload-build_forward_v2_payload_b :
        (now hop_verb : ℕ) (inner flow_id : List ℕ)
        → (v : List ℕ) × (b : List ℕ) × (build_forward_v1_payload sha256 now hop_verb macs cs inner
            ≡ ok v)
          × (build_forward_v2_payload_b sha256 flow_id macs cs ≡ ok b)
          × (slice 24 296 v ≡ slice 24 296 b)
          × (slice 320 (length inner) v ≡ inner)
    build_forward_v1_payload-build_forward_v2_payload_b now hop_verb inner flow_id =
        let v = v1_routed now hop_verb inner in
        let b = b_routed flow_id in (v.0, b.0, v.1, b.2, v.2 ∙ sym b.3, v.3)

    a_bound :
        (bound : List ℕ) (hop_verb count : ℕ) (inner : List ℕ)
        → length bound ≡ 16
        → (a : List ℕ) × (build_forward_v2_payload_a sha256 bound hop_verb count inner ≡ ok a)
          × (slice 0 16 a ≡ bound)
          × (slice 24 (length inner) a ≡ inner)
    unfolding build_forward_v2_payload_a
    a_bound bound hop_verb count inner size =
        let n : ℕ = length inner in
        let z : List ℕ = replicate (24 + n) 0 in
        let long = length-replicate {A = ℕ} (24 + n) 0 in
        let b1 : List ℕ = overwrite z 0 bound in
        let start : b1 ≡ b1 = refl in
        let later : Writes =
          (16, 1, 0 ∷ [])
          ∷ (17, 1, count % 256 ∷ [])
          ∷ (18, 1, hop_verb % 256 ∷ [])
          ∷ (19, 1, 1 ∷ [])
          ∷ (20, 4, le32 n)
          ∷ [] in
        let base =
          word_after _ _ 20 20 n
            (byte_after _ _ 19 1 (
              byte_after _ _ 18 (hop_verb % 256)
                (byte_after _ _ 17 (count % 256) (byte_after _ _ 16 0 start))))
            refl in
        let filled : List ℕ = fill later b1 in
        let long1 = length-overwrite z 0 bound in
        let long2 = length-fill later b1 in
        let one : 1 ≤ 1 = omega arith in
        let four : 4 ≤ 4 = omega arith in
        (
          overwrite filled 24 inner,
          rw (take_all 16 bound size) (
              rw (set_at_fits z 0 bound (omega arith))
                (ap (put_inner 24 inner) base ∙ put_inner_lem 24 inner filled (omega arith))),
          slice-overwrite_before filled 24 0 16 inner (omega arith)
              ∙ slice-fill 0 16 later b1 (one, (one, (one, (one, (four, tt))))) refl
              ∙ slice-overwrite_self z 0 16 bound size (omega arith),
          slice-overwrite_self filled 24 n inner refl (omega arith),
        )

    -- Where SHA-256 gives 32 bytes, both payloads of a burst are built, and start with the flow id
    -- that the routing payload as it is sent gives: writing it into the payload did not change it.
    -- The routing payload carries the route, and the other one the inner payload.
    pub build_burst-routing_flow_id :
        ((bytes : List ℕ) → length (sha256 bytes) ≡ 32)
        → (now hop_verb : ℕ) (inner : List ℕ)
        → (a : List ℕ) × (b : List ℕ) × (build_burst sha256 now hop_verb macs cs inner ≡ ok (a, b))
          × (slice 0 16 a ≡ routing_flow_id sha256 b)
          × (slice 0 16 b ≡ routing_flow_id sha256 b)
          × (slice 24 296 b ≡ route_bytes macs cs (replicate 296 0))
          × (slice 24 (length inner) a ≡ inner)
    unfolding build_burst
    build_burst-routing_flow_id long now hop_verb inner =
        let r = b_routed (clock_flow_id sha256 now) in
        let pb : List ℕ = r.0 in
        let size_pb = r.1 in
        let bound : List ℕ = routing_flow_id sha256 pb in
        let full = long (slice 16 304 pb) in
        let size : length bound ≡ 16 =
          unfold routing_flow_id in length-take_fits 16 (sha256 (slice 16 304 pb)) (omega arith) in
        let sent : List ℕ = overwrite pb 0 bound in
        let same : bound ≡ routing_flow_id sha256 sent =
          unfold routing_flow_id in
          ap (λ t. take 16 (sha256 t))
            (sym (slice-overwrite_after pb 0 16 304 bound (omega arith))) in
        let a = a_bound bound hop_verb 2 inner size in
        (
          a.0,
          sent,
          rw r.2 (rw (set_at_fits pb 0 bound (omega arith)) (rw a.1 refl)),
          a.2 ∙ same,
          slice-overwrite_self pb 0 16 bound size (omega arith) ∙ same,
          slice-overwrite_after pb 0 24 296 bound (omega arith) ∙ r.3,
          a.3,
        )
