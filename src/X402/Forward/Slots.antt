-- ===== src/X402/Forward/Slots.antt =====
-- The numbers in the first two slots of a route of tools/x402-bridge/mesh-control.ts.
use semantos_edge.Base.{
  ℕ, ◌+◌, ◌^◌, ◌≤◌, ◌<◌, ◌≡◌, refl, ap, ◌∙◌, true, Option, none, some, List, [], ◌∷◌, ◌++◌, ◌==◌,
  ==_iff, Bool-cases, inl, inr, leb, length, take, arith,
}
use semantos_edge.Base.Bytes.{slice}
use semantos_edge.Base.Writes.{
  Writes, fill, Fits, is_clear, length-fill, slice-fill_field, fill-append, length-take_le,
  Fits-append, is_clear-append, get_or-slice,
}
use semantos_edge.Cell.Words.{le32, read_u32}
use semantos_edge.Cell.Wire.Minted.{read_u32-slice}
use semantos_edge.X402.Forward.{Commitment}
use semantos_edge.X402.Forward.Route.{
  route_bytes, cert_writes, segment_writes, slot_writes, commitment_writes,
}

-- A word of a part is the word of the array.
pub read_u32-part :
    (b : List ℕ) (from n i k : ℕ)
    → i ≡ from + k
    → k + 4 ≤ n
    → read_u32 b i ≡ read_u32 (slice from n b) k
unfolding read_u32
read_u32-part b from n i k e h =
    let g0 = get_or-slice from n i k 0 b e (omega arith) in
    let g1 = get_or-slice from n (i + 1) (k + 1) 0 b (omega arith) (omega arith) in
    let g2 = get_or-slice from n (i + 2) (k + 2) 0 b (omega arith) (omega arith) in
    let g3 = get_or-slice from n (i + 3) (k + 3) 0 b (omega arith) (omega arith) in
    rw (g0, g1, g2, g3) refl

cert_writes-Fits : (off : ℕ) (hash : Option (List ℕ)) → Fits (cert_writes off hash)
unfolding cert_writes
cert_writes-Fits off none = tt
cert_writes-Fits off (some hash) = elim (Bool-cases (length hash == 32)) [
  | inl e ↦ let size = (==_iff (length hash) 32).0 e in rw e (omega arith, tt)
  | inr e ↦ rw e tt
]

cert_writes-clear :
    (off : ℕ) (hash : Option (List ℕ)) (from n : ℕ)
    → from + n ≤ off + 36
    → is_clear from n (cert_writes off hash) ≡ true
unfolding cert_writes
cert_writes-clear off none from n h = refl
cert_writes-clear off (some hash) from n h = elim (Bool-cases (length hash == 32)) [
  | inl e ↦ let before : leb (from + n) (off + 36) ≡ true = ground arith in rw e (rw before refl)
  | inr e ↦ rw e refl
]

module _ (m1 m2 : List ℕ) (c1 c2 : Commitment) (z : List ℕ) (long : length z ≡ 296) where
  all : Writes
  all = segment_writes 4 0 (m1 ∷ m2 ∷ []) ++ commitment_writes 4 0 (c1 ∷ c2 ∷ [])

  words-Fits : (off : ℕ) (c : Commitment) (ws : Writes) → Fits ws → Fits (slot_writes off c ++ ws)
  words-Fits off c ws f =
      let four : 4 ≤ 4 = omega arith in
      (
        length-take_le 16 c.channel_id,
        (
          four,
          (
            four,
            (
              four,
              (
                four,
                (
                  four,
                  Fits-append (cert_writes off c.cert_hash) ws (cert_writes-Fits off c.cert_hash) f,
                ),
              ),
            ),
          ),
        ),
      )

  all-Fits : Fits all
  unfolding all
  all-Fits = (
    length-take_le 6 m1,
    (length-take_le 6 m2, words-Fits 24 c1 (slot_writes 92 c2 ++ []) (words-Fits 92 c2 [] tt)),
  )

  second-clear :
      (from : ℕ) → from + 4 ≤ 128 → is_clear from 4 (cert_writes 92 c2.cert_hash ++ []) ≡ true
  second-clear from h =
      is_clear-append from 4 (cert_writes 92 c2.cert_hash) []
        (cert_writes-clear 92 c2.cert_hash from 4 h) refl

  pub slot_words :
      c1.seq < 2 ^ 32
      → c1.share < 2 ^ 32
      → c2.seq < 2 ^ 32
      → c2.share < 2 ^ 32
      → (read_u32 (route_bytes (m1 ∷ m2 ∷ []) (c1 ∷ c2 ∷ []) z) 40 ≡ c1.seq)
        × (read_u32 (route_bytes (m1 ∷ m2 ∷ []) (c1 ∷ c2 ∷ []) z) 44 ≡ c1.share)
        × (read_u32 (route_bytes (m1 ∷ m2 ∷ []) (c1 ∷ c2 ∷ []) z) 108 ≡ c2.seq)
        × (read_u32 (route_bytes (m1 ∷ m2 ∷ []) (c1 ∷ c2 ∷ []) z) 112 ≡ c2.share)
  unfolding route_bytes all
  slot_words u1 h1 u2 h2 =
      let rest : Writes = slot_writes 92 c2 ++ [] in
      let cert1 : Writes = cert_writes 24 c1.cert_hash in
      let clear40 : is_clear 40 4 (cert1 ++ rest) ≡ true =
        is_clear-append 40 4 cert1 rest (cert_writes-clear 24 c1.cert_hash 40 4 (omega arith))
          (second-clear 40 (omega arith)) in
      let clear44 : is_clear 44 4 (cert1 ++ rest) ≡ true =
        is_clear-append 44 4 cert1 rest (cert_writes-clear 24 c1.cert_hash 44 4 (omega arith))
          (second-clear 44 (omega arith)) in
      let front : Writes = (0, 6, take 6 m1) ∷ (6, 6, take 6 m2) ∷ slot_writes 24 c1 in
      let b : List ℕ = fill front z in
      let size = length-fill front z in
      let split : fill all z ≡ fill rest b = fill-append front rest z in
      let fits2 = words-Fits 92 c2 [] tt in
      (
        read_u32-slice _ 40 c1.seq u1
            (slice-fill_field 3 40 4 (le32 c1.seq) all z refl refl all-Fits clear40 (omega arith)),
        read_u32-slice _ 44 c1.share h1 (
            slice-fill_field 4 44 4 (le32 c1.share) all z refl refl all-Fits clear44 (omega arith)),
        read_u32-slice _ 108 c2.seq u2 (
            ap (slice 108 4) split
            ∙ slice-fill_field 1 108 4 (le32 c2.seq) rest b refl refl fits2
                (second-clear 108 (omega arith)) (omega arith)),
        read_u32-slice _ 112 c2.share h2 (
            ap (slice 112 4) split
            ∙ slice-fill_field 2 112 4 (le32 c2.share) rest b refl refl fits2
                (second-clear 112 (omega arith)) (omega arith)),
      )
