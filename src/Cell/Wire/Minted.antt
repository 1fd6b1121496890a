-- ===== src/Cell/Wire/Minted.antt =====
-- `mintCell` of tools/x402-bridge/cell-codec.ts as the list of its writes.
use semantos_edge.Base.{
  ℕ, ◌+◌, ◌<◌, ◌≤◌, ◌≡◌, refl, sym, ap, ◌∙◌, List, [], ◌∷◌, ◌++◌, length, replicate,
  length-replicate, ok, arith, ◌^◌, ltb, false, ◌-◌,
}
use semantos_edge.Base.Bytes.{overwrite, set_at_fits, slice, length-overwrite}
use semantos_edge.Base.Writes.{
  Writes, fill, Fits, Fits-take, length-fill, slice-fill, slice-overwrite_at, overwrite-replicate,
  slice-replicate, get_or-slice, take_all,
}
use semantos_edge.Cell.Words.{
  write_u32, read_u32, read_u64, le32, le64, write_u32_lem, write_u64_lem, read_u32-le32,
  read_u64-le64,
}
use semantos_edge.Cell.Wire.{magic, write_magic, mint_cell}

-- What a cell has room for.
pub record IsMintable (type payload owner_id : List ℕ) (timestamp_ms domain_flag : ℕ) : Type 0 where
  pub type_fits : length type ≡ 32
  pub payload_fits : length payload ≤ 768
  pub owner_fits : length owner_id ≡ 16
  pub timestamp_fits : timestamp_ms < 2 ^ 64
  pub domain_fits : domain_flag < 2 ^ 32

pub read_u32-slice : (b : List ℕ) (o v : ℕ) → v < 2 ^ 32 → slice o 4 b ≡ le32 v → read_u32 b o ≡ v
unfolding read_u32
read_u32-slice b o v h e =
    let g0 = sym (get_or-slice o 4 o 0 0 b (omega arith) (omega arith)) in
    let g1 = sym (get_or-slice o 4 (o + 1) 1 0 b (omega arith) (omega arith)) in
    let g2 = sym (get_or-slice o 4 (o + 2) 2 0 b (omega arith) (omega arith)) in
    let g3 = sym (get_or-slice o 4 (o + 3) 3 0 b (omega arith) (omega arith)) in
    rw (g0, g1, g2, g3) (rw e (read_u32-le32 v [] h))

pub read_u64-slice : (b : List ℕ) (o v : ℕ) → v < 2 ^ 64 → slice o 8 b ≡ le64 v → read_u64 b o ≡ v
unfolding read_u64 read_u32
read_u64-slice b o v h e =
    let g0 = sym (get_or-slice o 8 o 0 0 b (omega arith) (omega arith)) in
    let g1 = sym (get_or-slice o 8 (o + 1) 1 0 b (omega arith) (omega arith)) in
    let g2 = sym (get_or-slice o 8 (o + 2) 2 0 b (omega arith) (omega arith)) in
    let g3 = sym (get_or-slice o 8 (o + 3) 3 0 b (omega arith) (omega arith)) in
    let g4 = sym (get_or-slice o 8 (o + 4) 4 0 b (omega arith) (omega arith)) in
    let g5 = sym (get_or-slice o 8 (o + 4 + 1) 5 0 b (omega arith) (omega arith)) in
    let g6 = sym (get_or-slice o 8 (o + 4 + 2) 6 0 b (omega arith) (omega arith)) in
    let g7 = sym (get_or-slice o 8 (o + 4 + 3) 7 0 b (omega arith) (omega arith)) in
    rw (g0, g1, g2, g3, g4, g5, g6, g7) (rw e (read_u64-le64 [] [] 0 v refl h))

-- The payload area of a cell.
abbrev pub padded : List ℕ → List ℕ
padded payload = payload ++ replicate (768 - length payload) 0

abbrev magic_writes : Writes
magic_writes =
    (0, 4, le32 0xdead_beef)
    ∷ (4, 4, le32 0xcafe_babe)
    ∷ (8, 4, le32 0x1337_1337)
    ∷ (12, 4, le32 0x4242_4242)
    ∷ []

write_u32_after : (b c : List ℕ) (o v : ℕ) → b ≡ c → write_u32 b o v ≡ overwrite c o (le32 v)
write_u32_after b c o v e = write_u32_lem b o v ∙ ap (λ t. overwrite t o (le32 v)) e

write_magic_lem : (b : List ℕ) → write_magic 0 magic b ≡ fill magic_writes b
unfolding write_magic
write_magic_lem b = write_u32_after _ _ 12 0x4242_4242 (
    write_u32_after _ _ 8 0x1337_1337
      (write_u32_after _ _ 4 0xcafe_babe (write_u32_after _ _ 0 0xdead_beef refl)))

module _ (sha256 : List ℕ → List ℕ) (type payload owner_id : List ℕ)
    (timestamp_ms domain_flag : ℕ) where
  abbrev before_type : Writes
  before_type = magic_writes ++ ((16, 4, le32 2) ∷ (24, 4, le32 domain_flag) ∷ (20, 4, le32 2) ∷ [])

  abbrev before_payload : Writes
  before_payload =
      before_type ++ ((30, 32, type) ∷ (62, 16, owner_id) ∷ (78, 8, le64 timestamp_ms) ∷ [])

  abbrev before_root : Writes
  before_root = before_payload ++ ((256, 768, payload) ∷ (90, 4, le32 (length payload)) ∷ [])

  abbrev pub cell_writes : Writes
  cell_writes = before_root ++ ((224, 32, sha256 (padded payload)) ∷ [])

  pub cell_writes-Fits :
      length (sha256 (padded payload)) ≡ 32
      → IsMintable type payload owner_id timestamp_ms domain_flag
      → Fits cell_writes
  cell_writes-Fits h v =
      let four : 4 ≤ 4 = omega arith in
      let eight : 8 ≤ 8 = omega arith in
      let pay = v.payload_fits in
      let ty = v.type_fits in
      let ow = v.owner_fits in
      (
        four,
        (
          four,
          (
            four,
            (
              four,
              (
                four,
                (
                  four,
                  (four, (omega arith, (omega arith, (eight, (pay, (four, (omega arith, tt))))))),
                ),
              ),
            ),
          ),
        ),
      )

  -- The bytes that the payload hash is of.
  slice-before_root :
      length (sha256 (padded payload)) ≡ 32
      → IsMintable type payload owner_id timestamp_ms domain_flag
      → slice 256 768 (fill before_root (replicate 1024 0)) ≡ padded payload
  slice-before_root h v =
      let z : List ℕ = replicate 1024 0 in
      let small = v.payload_fits in
      let tail : Writes = (90, 4, le32 (length payload)) ∷ [] in
      slice-fill 256 768 tail (overwrite (fill before_payload z) 256 payload) (omega arith, tt) refl
      ∙ slice-overwrite_at (fill before_payload z) 256 768 payload
      ∙ ap (λ t. overwrite t 0 payload)
          (slice-fill 256 768 before_payload z (Fits-take 10 cell_writes (cell_writes-Fits h v))
              refl
            ∙ slice-replicate 256 768 1024 0 (omega arith))
      ∙ overwrite-replicate 768 0 payload small

  head_lem :
      (z : List ℕ)
      → write_u32 (write_u32 (write_u32 (write_magic 0 magic z) 16 2) 24 domain_flag) 20 2
        ≡ fill before_type z
  head_lem z =
      write_u32_after _ _ 20 2
        (write_u32_after _ _ 24 domain_flag (write_u32_after _ _ 16 2 (write_magic_lem z)))

  pub mint_cell_lem :
      length (sha256 (padded payload)) ≡ 32
      → IsMintable type payload owner_id timestamp_ms domain_flag
      → mint_cell sha256 type payload owner_id timestamp_ms domain_flag
        ≡ ok (fill cell_writes (replicate 1024 0))
  unfolding mint_cell
  mint_cell_lem h v =
      let z : List ℕ = replicate 1024 0 in
      let long = length-replicate {A = ℕ} 1024 0 in
      let small = v.payload_fits in
      let l1 = length-fill before_type z in
      let l2 = length-fill before_payload z in
      let l3 = length-fill before_root z in
      let ty = v.type_fits in
      let ow = v.owner_fits in
      let small_enough : ltb 768 (length payload) ≡ false = ground arith in
      let t1 = set_at_fits (fill before_type z) 30 type (omega arith) in
      let c1 : List ℕ = overwrite (fill before_type z) 30 type in
      let e1 = length-overwrite (fill before_type z) 30 type in
      let t2 = set_at_fits c1 62 owner_id (omega arith) in
      let c2 : List ℕ = overwrite c1 62 owner_id in
      let t3 = set_at_fits (fill before_payload z) 256 payload (omega arith) in
      let c3 : List ℕ = overwrite (fill before_payload z) 256 payload in
      let t4 = set_at_fits (fill before_root z) 224 (sha256 (padded payload)) (omega arith) in
      rw small_enough (
        rw (head_lem z) (
          rw t1 (
            rw (take_all 16 owner_id ow) (
              rw t2 (
                rw (write_u64_lem c2 78 timestamp_ms) (
                  rw t3 (
                    rw (write_u32_lem c3 90 (length payload)) (rw (slice-before_root h v) t4))))))))

  pub slice-payload :
      length (sha256 (padded payload)) ≡ 32
      → IsMintable type payload owner_id timestamp_ms domain_flag
      → slice 256 768 (fill cell_writes (replicate 1024 0)) ≡ padded payload
  slice-payload h v =
      let tail : Writes = (224, 32, sha256 (padded payload)) ∷ [] in
      slice-fill 256 768 tail (fill before_root (replicate 1024 0)) (omega arith, tt) refl
      ∙ slice-before_root h v
