-- ===== src/X402/Meter/Said.antt =====
-- What the commitments of `ChannelMeter` (tools/x402-bridge/meter.ts) say.
use semantos_edge.Base.{
  ℕ, ◌^◌, ◌≤◌, ◌<◌, ◌≡◌, refl, sym, ap, ◌∙◌, List, [], ◌∷◌, ◌++◌, length, length-append, replicate,
  drop, ok, arith,
}
use mathlib.Core.List.{append_assoc}
use semantos_edge.Base.Map.{Str}
use semantos_edge.Base.Bytes.{overwrite, slice, overwrite_next, set_at_fits}
use semantos_edge.Templog.Text.{from_hex}
use semantos_edge.Cell.Words.{le32, le64, read_u32, write_u32, write_u32_lem, write_u64_lem}
use semantos_edge.Cell.Actuator.RoundTrip.{slice-part, read_u32-part}
use semantos_edge.X402.Meter.Frames.{encode_commitment, encode_close, expiry_ms}

overwrite_front :
    (z xs : List ℕ) → length xs ≤ length z → overwrite z 0 xs ≡ xs ++ drop (length xs) z
unfolding overwrite
overwrite_front [] [] h = refl
overwrite_front [] (x ∷ xs) h = absurd (omega arith)
overwrite_front (y ∷ z) [] h = refl
overwrite_front (y ∷ z) (x ∷ xs) h = ap (λ t. x ∷ t) (overwrite_front z xs (omega arith))

-- The payload names the channel, its seq and its share.
pub record Says (p : List ℕ) (channel : List ℕ) (seq share : ℕ) : Type 0 where
  pub channel_id : slice 0 16 p ≡ channel
  pub seq_read : read_u32 p 16 ≡ seq
  pub share_read : read_u32 p 20 ≡ share

Says-front :
    (p id rest : List ℕ) (seq share : ℕ)
    → length id ≡ 16
    → seq < 2 ^ 32
    → share < 2 ^ 32
    → p ≡ ((id ++ le32 seq) ++ le32 share) ++ rest
    → Says p id seq share
Says-front p id rest seq share h s k e =
    let e2 : p ≡ (id ++ le32 seq) ++ (le32 share ++ rest) =
      e ∙ append_assoc (id ++ le32 seq) (le32 share) rest in
    let e1 : p ≡ id ++ (le32 seq ++ (le32 share ++ rest)) =
      e2 ∙ append_assoc id (le32 seq) (le32 share ++ rest) in
    let long = length-append id (le32 seq) in
    record {
      channel_id = slice-part p [] (le32 seq ++ (le32 share ++ rest)) 0 refl id 16 (sym h) e1;
      seq_read = read_u32-part p id (le32 share ++ rest) 16 (sym h) seq s e1;
      share_read = read_u32-part p (id ++ le32 seq) rest 20 (omega arith) share k e2;
    }

-- The first three parts, over `z`.
front-written :
    (z id : List ℕ) (seq share : ℕ)
    → length id ≡ 16
    → write_u32 (write_u32 (overwrite z 0 id) 16 seq) 20 share
      ≡ overwrite z 0 ((id ++ le32 seq) ++ le32 share)
front-written z id seq share h =
    let long = length-append id (le32 seq) in
    let s1 =
      write_u32_lem (overwrite z 0 id) 16 seq ∙ overwrite_next _ z 16 id (le32 seq) refl (sym h) in
    write_u32_lem _ 20 share ∙ overwrite_next _ z 20 (id ++ le32 seq) (le32 share) s1 (omega arith)

module _ (channel_id_hex : Str) (seq share : ℕ) (h : length (from_hex channel_id_hex) ≡ 16)
    (s : seq < 2 ^ 32) (k : share < 2 ^ 32) where
  encode_close-Says :
      (p : List ℕ) × (encode_close channel_id_hex seq share ≡ ok p)
      × Says p (from_hex channel_id_hex) seq share
  unfolding encode_close
  encode_close-Says =
      let id : List ℕ = from_hex channel_id_hex in
      let z : List ℕ = replicate 24 0 in
      let front : List ℕ = (id ++ le32 seq) ++ le32 share in
      let l1 = length-append id (le32 seq) in
      let l2 = length-append (id ++ le32 seq) (le32 share) in
      (
        overwrite z 0 front,
        rw (set_at_fits z 0 id (omega arith)) (ap ok (front-written z id seq share h)),
        Says-front _ id _ seq share h s k (overwrite_front z front (omega arith)),
      )

  encode_commitment-Says :
      (p : List ℕ) × (encode_commitment channel_id_hex seq share ≡ ok p)
      × Says p (from_hex channel_id_hex) seq share
  unfolding encode_commitment
  encode_commitment-Says =
      let id : List ℕ = from_hex channel_id_hex in
      let z : List ℕ = replicate 68 0 in
      let front : List ℕ = (id ++ le32 seq) ++ le32 share in
      let l1 = length-append id (le32 seq) in
      let l2 = length-append (id ++ le32 seq) (le32 share) in
      let l3 = length-append front (le32 0) in
      let l4 = length-append (front ++ le32 0) (le64 expiry_ms) in
      let s3 =
        write_u32_lem _ 24 0
        ∙ overwrite_next _ z 24 front (le32 0) (front-written z id seq share h) (omega arith) in
      let s4 =
        write_u64_lem _ 28 expiry_ms
        ∙ overwrite_next _ z 28 (front ++ le32 0) (le64 expiry_ms) s3 (omega arith) in
      let whole : List ℕ = (front ++ le32 0) ++ le64 expiry_ms in
      let e =
        overwrite_front z whole (omega arith)
        ∙ append_assoc (front ++ le32 0) (le64 expiry_ms) _
        ∙ append_assoc front (le32 0) _ in
      (
        overwrite z 0 whole,
        rw (set_at_fits z 0 id (omega arith)) (ap ok s4),
        Says-front _ id _ seq share h s k e,
      )

  -- For a channel id that decodes to 16 bytes, and a seq and a share below 2 ^ 32, the payloads of the
  -- commitment and of the close are built, and both name the channel, the seq and the share.
  pub encode_commitment-encode_close :
      ((p : List ℕ) × (encode_commitment channel_id_hex seq share ≡ ok p)
        × Says p (from_hex channel_id_hex) seq share)
      × ((p : List ℕ) × (encode_close channel_id_hex seq share ≡ ok p)
          × Says p (from_hex channel_id_hex) seq share)
  encode_commitment-encode_close = (encode_commitment-Says, encode_close-Says)
