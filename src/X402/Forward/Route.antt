-- ===== src/X402/Forward/Route.antt =====
-- Where the builders of tools/x402-bridge/mesh-control.ts put a route: the segments and the
-- commitments go into bytes 24 to 319 of a payload, whichever cell it is for.
use semantos_edge.Base.{
  ℕ, zero, suc, ◌+◌, ◌-◌, ◌*◌, ◌/◌, ◌%◌, ◌^◌, ◌≤◌, ◌≡◌, refl, sym, ap, ◌∙◌, Option, none, some,
  List, [], ◌∷◌, ◌++◌, ◌==◌, ==_iff, Bool-cases, inl, inr, length, take, ok, ◌>>=◌, arith,
  if◌then◌else◌,
}
use semantos_edge.Base.Bytes.{overwrite, set_at_fits, slice, length-overwrite}
use semantos_edge.Base.Writes.{
  Writes, fill, moved, moved-append, length-fill, slice-fill-moved, slice-fill_front, fill-append,
  length-take_le,
}
use semantos_edge.Cell.Words.{le32, write_u32, write_u32_lem}
use semantos_edge.X402.Forward.{
  Commitment, put_segments, put_cert_hash, put_commitment, put_commitments,
}

-- The writes of the segments into the part from byte 24 on.
abbrev pub segment_writes : ℕ → ℕ → List (List ℕ) → Writes
segment_writes zero i macs = []
segment_writes (suc room) i [] = []
segment_writes (suc room) i (mac ∷ macs) = (i * 6, 6, take 6 mac) ∷ segment_writes room (i + 1) macs

unfoldable pub cert_writes : ℕ → Option (List ℕ) → Writes
cert_writes off none = []
cert_writes off (some hash) = if length hash == 32 then (off + 36, 32, hash) ∷ [] else []

abbrev pub slot_writes : ℕ → Commitment → Writes
slot_writes off c =
    (off, 16, take 16 c.channel_id)
    ∷ (off + 16, 4, le32 c.seq)
    ∷ (off + 20, 4, le32 c.share)
    ∷ (off + 24, 4, le32 (100_000 - c.share))
    ∷ (off + 28, 4, le32 (c.expiry_ms % 2 ^ 32))
    ∷ (off + 32, 4, le32 (c.expiry_ms / 2 ^ 32 % 2 ^ 32))
    ∷ cert_writes off c.cert_hash

abbrev pub commitment_writes : ℕ → ℕ → List Commitment → Writes
commitment_writes zero i cs = []
commitment_writes (suc room) i [] = []
commitment_writes (suc room) i (c ∷ cs) =
    slot_writes (24 + i * 68) c ++ commitment_writes room (i + 1) cs

put_segments_lem :
    (room i : ℕ) (macs : List (List ℕ)) (b : List ℕ)
    → 24 + (i + room) * 6 ≤ length b
    → put_segments room i macs b ≡ ok (fill (moved 24 (segment_writes room i macs)) b)
unfolding put_segments
put_segments_lem zero i macs b h = refl
put_segments_lem (suc room) i [] b h = refl
put_segments_lem (suc room) i (mac ∷ macs) b h =
    let short = length-take_le 6 mac in
    let long = length-overwrite b (24 + i * 6) (take 6 mac) in
    rw (set_at_fits b (24 + i * 6) (take 6 mac) (omega arith))
      (put_segments_lem room (i + 1) macs (overwrite b (24 + i * 6) (take 6 mac)) (omega arith))

put_cert_hash_lem :
    (hash : Option (List ℕ)) (off : ℕ) (b : List ℕ)
    → 24 + off + 68 ≤ length b
    → put_cert_hash hash (24 + off) b ≡ ok (fill (moved 24 (cert_writes off hash)) b)
unfolding put_cert_hash cert_writes
put_cert_hash_lem none off b h = refl
put_cert_hash_lem (some hash) off b h = elim (Bool-cases (length hash == 32)) [
  | inl e ↦
      let size = (==_iff (length hash) 32).0 e in
      let place : 24 + off + 36 ≡ 24 + (off + 36) = omega arith in
      rw e
        (set_at_fits b (24 + off + 36) hash (omega arith) ∙ ap (λ o. ok (overwrite b o hash)) place)
  | inr e ↦ rw e refl
]

-- A word behind other writes, at a place that two sums name.
pub word_after :
    (b c : List ℕ) (o p v : ℕ) → b ≡ c → o ≡ p → write_u32 b o v ≡ overwrite c p (le32 v)
word_after b c o p v e h = write_u32_lem b o v ∙ λ i. overwrite (e i) (h i) (le32 v)

put_commitment_lem :
    (c : Commitment) (off : ℕ) (b : List ℕ)
    → 24 + off + 68 ≤ length b
    → put_commitment (24 + off) c b ≡ ok (fill (moved 24 (slot_writes off c)) b)
unfolding put_commitment
put_commitment_lem c off b h =
    let short = length-take_le 16 c.channel_id in
    let words : Writes =
      (24 + off, 16, take 16 c.channel_id)
      ∷ (24 + (off + 16), 4, le32 c.seq)
      ∷ (24 + (off + 20), 4, le32 c.share)
      ∷ (24 + (off + 24), 4, le32 (100_000 - c.share))
      ∷ (24 + (off + 28), 4, le32 (c.expiry_ms % 2 ^ 32))
      ∷ (24 + (off + 32), 4, le32 (c.expiry_ms / 2 ^ 32 % 2 ^ 32))
      ∷ [] in
    let long = length-fill words b in
    let named : List ℕ = overwrite b (24 + off) (take 16 c.channel_id) in
    let start : named ≡ named = refl in
    let filled =
      word_after _ _ (24 + off + 32) (24 + (off + 32)) (c.expiry_ms / 2 ^ 32 % 2 ^ 32)
        (word_after _ _ (24 + off + 28) (24 + (off + 28)) (c.expiry_ms % 2 ^ 32)
          (word_after _ _ (24 + off + 24) (24 + (off + 24)) (100_000 - c.share)
            (word_after _ _ (24 + off + 20) (24 + (off + 20)) c.share
              (word_after _ _ (24 + off + 16) (24 + (off + 16)) c.seq start (omega arith))
              (omega arith))
            (omega arith))
          (omega arith))
        (omega arith) in
    rw (set_at_fits b (24 + off) (take 16 c.channel_id) (omega arith)) (
      ap (put_cert_hash c.cert_hash (24 + off)) filled
      ∙ put_cert_hash_lem c.cert_hash off (fill words b) (omega arith))

put_commitments_lem :
    (room i : ℕ) (cs : List Commitment) (b : List ℕ)
    → 48 + (i + room) * 68 ≤ length b
    → put_commitments room i cs b ≡ ok (fill (moved 24 (commitment_writes room i cs)) b)
unfolding put_commitments
put_commitments_lem zero i cs b h = refl
put_commitments_lem (suc room) i [] b h = refl
put_commitments_lem (suc room) i (c ∷ cs) b h =
    let place : 48 + i * 68 ≡ 24 + (24 + i * 68) = omega arith in
    let first : Writes = slot_writes (24 + i * 68) c in
    let rest : Writes = commitment_writes room (i + 1) cs in
    let long = length-fill (moved 24 first) b in
    let one : put_commitment (48 + i * 68) c b ≡ ok (fill (moved 24 first) b) =
      ap (λ o. put_commitment o c b) place ∙ put_commitment_lem c (24 + i * 68) b (omega arith) in
    let split : fill (moved 24 (first ++ rest)) b ≡ fill (moved 24 rest) (fill (moved 24 first) b) =
      ap (λ ws. fill ws b) (moved-append 24 first rest)
      ∙ fill-append (moved 24 first) (moved 24 rest) b in
    rw one (
      put_commitments_lem room (i + 1) cs (fill (moved 24 first) b) (omega arith)
      ∙ ap ok (sym split))

-- The route as bytes 24 to 319 of a payload.
unfoldable pub route_bytes : List (List ℕ) → List Commitment → List ℕ → List ℕ
route_bytes macs cs b = fill (segment_writes 4 0 macs ++ commitment_writes 4 0 cs) b

-- The segments, then the commitments, in a payload with room for them.
pub put_route_lem :
    (macs : List (List ℕ)) (cs : List Commitment) (b : List ℕ)
    → 320 ≤ length b
    → (b' : List ℕ) × (length b' ≡ length b)
      × ((put_segments 4 0 macs b >>= put_commitments 4 0 cs) ≡ ok b')
      × (slice 24 296 b' ≡ route_bytes macs cs (slice 24 296 b))
      × (slice 0 24 b' ≡ slice 0 24 b)
unfolding route_bytes
put_route_lem macs cs b h =
    let segs : Writes = segment_writes 4 0 macs in
    let slots : Writes = commitment_writes 4 0 cs in
    let b1 : List ℕ = fill (moved 24 segs) b in
    let b2 : List ℕ = fill (moved 24 slots) b1 in
    let long1 = length-fill (moved 24 segs) b in
    let long2 = length-fill (moved 24 slots) b1 in
    (
      b2,
      long2 ∙ long1,
      rw (put_segments_lem 4 0 macs b (omega arith)) (put_commitments_lem 4 0 cs b1 (omega arith)),
      slice-fill-moved 24 296 slots b1
          ∙ ap (fill slots) (slice-fill-moved 24 296 segs b)
          ∙ sym (fill-append segs slots (slice 24 296 b)),
      slice-fill_front 24 24 slots b1 (omega arith) ∙ slice-fill_front 24 24 segs b (omega arith),
    )
