-- ===== src/Cell/Actuator/Layout.antt =====
-- The bytes of the activate payload of tools/x402-bridge/cell-codec.ts.
use semantos_edge.Base.{
  ℕ, ◌+◌, ◌≤◌, ◌≡◌, refl, sym, ap, ◌∙◌, List, ◌++◌, length, length-append, length-replicate,
  replicate, ok, arith,
}
use semantos_edge.Base.Bytes.{
  overwrite, set_at, overwrite_next, set_at_fits, overwrite_all, length-overwrite,
}
use semantos_edge.Cell.Words.{
  write_u16, le16, le32, le64, write_u16_lem, write_u32_lem, write_u64_lem,
}
use semantos_edge.Cell.Actuator.{ActuatorOffer, activate_payload}

-- A source array behind what was written.
set_at-next :
    (c b : List ℕ) (p : ℕ) (xs src : List ℕ)
    → c ≡ overwrite b 0 xs
    → p ≡ length xs
    → p + length src ≤ length b
    → set_at c p src ≡ ok (overwrite b 0 (xs ++ src))
set_at-next c b p xs src e h k =
    let long : length c ≡ length b = ap length e ∙ length-overwrite b 0 xs in
    set_at_fits c p src (omega arith) ∙ ap ok (overwrite_next c b p xs src e h)

-- The payload up to the end of each of its parts.
module _ (offer : ActuatorOffer) (unlock : List ℕ) (counter : ℕ) where
  abbrev pub part1 : List ℕ
  part1 = le16 (length offer.lock_script)

  abbrev pub part2 : List ℕ
  part2 = part1 ++ offer.lock_script

  abbrev pub part3 : List ℕ
  part3 = part2 ++ le16 (length unlock)

  abbrev pub part4 : List ℕ
  part4 = part3 ++ unlock

  abbrev pub part5 : List ℕ
  part5 = part4 ++ le16 (length offer.tx_template)

  abbrev pub part6 : List ℕ
  part6 = part5 ++ offer.tx_template

  abbrev pub part7 : List ℕ
  part7 = part6 ++ le32 offer.input_idx

  abbrev pub part8 : List ℕ
  part8 = part7 ++ le64 offer.input_value

  abbrev pub part9 : List ℕ
  part9 = part8 ++ offer.offer_id

  abbrev pub activate_bytes : List ℕ
  activate_bytes = part9 ++ le32 counter

  -- Where the parts end.
  pub record Ends : Type 0 where
    pub end2 : length part2 ≡ 2 + length offer.lock_script
    pub end3 : length part3 ≡ 2 + length offer.lock_script + 2
    pub end4 : length part4 ≡ 2 + length offer.lock_script + 2 + length unlock
    pub end5 : length part5 ≡ 2 + length offer.lock_script + 2 + length unlock + 2
    pub end6 :
        length part6
        ≡ 2 + length offer.lock_script + 2 + length unlock + 2 + length offer.tx_template
    pub end7 : length part7 ≡ length part6 + 4
    pub end8 : length part8 ≡ length part6 + 12
    pub end9 : length part9 ≡ length part6 + 12 + length offer.offer_id
    pub end10 : length activate_bytes ≡ length part6 + 16 + length offer.offer_id

  pub ends : Ends
  ends =
      let e2 : length part2 ≡ _ = length-append part1 offer.lock_script in
      let e3 = length-append part2 (le16 (length unlock)) in
      let e4 = length-append part3 unlock in
      let e5 = length-append part4 (le16 (length offer.tx_template)) in
      let e6 = length-append part5 offer.tx_template in
      let e7 = length-append part6 (le32 offer.input_idx) in
      let e8 = length-append part7 (le64 offer.input_value) in
      let e9 = length-append part8 offer.offer_id in
      let e10 = length-append part9 (le32 counter) in
      record {
        end2 = omega arith;
        end3 = omega arith;
        end4 = omega arith;
        end5 = omega arith;
        end6 = omega arith;
        end7 = omega arith;
        end8 = omega arith;
        end9 = omega arith;
        end10 = omega arith;
      }

  pub activate_payload_lem :
      length offer.offer_id ≡ 16 → activate_payload offer unlock counter ≡ ok activate_bytes
  unfolding activate_payload
  activate_payload_lem h =
      let l : ℕ = length offer.lock_script in
      let u : ℕ = length unlock in
      let n : ℕ = length offer.tx_template in
      let end : ℕ = 2 + l + 2 + u + 2 + n in
      let zero_byte : ℕ = 0 in
      let z : List ℕ = replicate (end + 32) zero_byte in
      let long = length-replicate (end + 32) zero_byte in
      let e = ends in
      let f2 = e.end2 in
      let f3 = e.end3 in
      let f4 = e.end4 in
      let f5 = e.end5 in
      let f6 = e.end6 in
      let f7 = e.end7 in
      let f8 = e.end8 in
      let f9 = e.end9 in
      let f10 = e.end10 in
      let s1 = write_u16_lem z 0 l in
      let t2 = set_at-next (write_u16 z 0 l) z 2 part1 offer.lock_script s1 refl (omega arith) in
      let s3 =
        write_u16_lem (overwrite z 0 part2) (2 + l) u
        ∙ overwrite_next _ z (2 + l) part2 (le16 u) refl (sym f2) in
      let t4 = set_at-next _ z (2 + l + 2) part3 unlock s3 (sym f3) (omega arith) in
      let s5 =
        write_u16_lem (overwrite z 0 part4) (2 + l + 2 + u) n
        ∙ overwrite_next _ z (2 + l + 2 + u) part4 (le16 n) refl (sym f4) in
      let t6 =
        set_at-next _ z (2 + l + 2 + u + 2) part5 offer.tx_template s5 (sym f5) (omega arith) in
      let s7 =
        write_u32_lem (overwrite z 0 part6) end offer.input_idx
        ∙ overwrite_next _ z end part6 _ refl (sym f6) in
      let s8 =
        write_u64_lem _ (end + 4) offer.input_value
        ∙ overwrite_next _ z (end + 4) part7 _ s7 (omega arith) in
      let t9 = set_at-next _ z (end + 12) part8 offer.offer_id s8 (omega arith) (omega arith) in
      let s10 =
        write_u32_lem (overwrite z 0 part9) (end + 28) counter
        ∙ overwrite_next _ z (end + 28) part9 (le32 counter) refl (omega arith) in
      rw t2 (rw t4 (rw t6 (rw t9 (ap ok (s10 ∙ overwrite_all z activate_bytes (omega arith))))))
