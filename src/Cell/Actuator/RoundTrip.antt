-- ===== src/Cell/Actuator/RoundTrip.antt =====
-- The activate payload of tools/x402-bridge/cell-codec.ts, read back.
use semantos_edge.Base.{
  ℕ, ◌+◌, ◌^◌, ◌<◌, ◌≡◌, refl, sym, ap, ◌∙◌, List, [], ◌++◌, length, take, drop, ok, arith,
}
use mathlib.Core.List.{append_assoc, append-nil}
use semantos_edge.Base.Bytes.{slice, take-append, drop-append}
use semantos_edge.Cell.Words.{
  read_u16, read_u32, read_u64, le16, le32, le64, read_u16-append, read_u32-append, read_u16-le16,
  read_u32-le32, read_u64-le64,
}
use semantos_edge.Cell.Actuator.{
  ActuatorOffer, ActivatePayload, activate_payload, decode_actuator_activate,
}
use semantos_edge.Cell.Actuator.Layout.{
  part1, part2, part3, part4, part5, part6, part7, part8, part9, activate_bytes, ends,
  activate_payload_lem,
}

-- A part that stands behind a prefix.
module _ (b pre rest : List ℕ) (o : ℕ) (at : o ≡ length pre) where
  pub slice-part :
      (xs : List ℕ) (n : ℕ) → n ≡ length xs → b ≡ pre ++ (xs ++ rest) → slice o n b ≡ xs
  slice-part xs n h e =
      ap (λ t. take n (drop o t)) e
      ∙ ap (take n) (drop-append pre (xs ++ rest) o at)
      ∙ take-append xs rest n h

  read_u16-part : (v : ℕ) → v < 2 ^ 16 → b ≡ pre ++ (le16 v ++ rest) → read_u16 b o ≡ v
  read_u16-part v h e =
      ap (λ t. read_u16 t o) e ∙ read_u16-append pre _ o 0 (omega arith) ∙ read_u16-le16 v rest h

  pub read_u32-part : (v : ℕ) → v < 2 ^ 32 → b ≡ pre ++ (le32 v ++ rest) → read_u32 b o ≡ v
  read_u32-part v h e =
      ap (λ t. read_u32 t o) e ∙ read_u32-append pre _ o 0 (omega arith) ∙ read_u32-le32 v rest h

  read_u64-part : (v : ℕ) → v < 2 ^ 64 → b ≡ pre ++ (le64 v ++ rest) → read_u64 b o ≡ v
  read_u64-part v h e = ap (λ t. read_u64 t o) e ∙ read_u64-le64 pre rest o v at h

-- What a payload can carry.
pub record IsActivate (offer : ActuatorOffer) (script : List ℕ) (n : ℕ) : Type 0 where
  pub lock_script : length offer.lock_script < 2 ^ 16
  pub unlock_script : length script < 2 ^ 16
  pub tx_template : length offer.tx_template < 2 ^ 16
  pub input_idx : offer.input_idx < 2 ^ 32
  pub input_value : offer.input_value < 2 ^ 64
  pub offer_id : length offer.offer_id ≡ 16
  pub counter : n < 2 ^ 32

-- What the payload says.
abbrev pub activate_of : ActuatorOffer → List ℕ → ℕ → ActivatePayload
activate_of offer unlock counter = record {
  lock_script = offer.lock_script;
  unlock_script = unlock;
  tx_bytes = offer.tx_template;
  input_idx = offer.input_idx;
  input_value = offer.input_value;
  offer_id = offer.offer_id;
  counter = counter;
}

module _ (offer : ActuatorOffer) (unlock : List ℕ) (counter : ℕ)
    (v : IsActivate offer unlock counter) where
  decode-activate_bytes :
      decode_actuator_activate (activate_bytes offer unlock counter)
      ≡ activate_of offer unlock counter
  unfolding decode_actuator_activate
  decode-activate_bytes =
      let b : List ℕ = activate_bytes offer unlock counter in
      let l : ℕ = length offer.lock_script in
      let u : ℕ = length unlock in
      let n : ℕ = length offer.tx_template in
      let p1 = part1 offer unlock counter in
      let p2 = part2 offer unlock counter in
      let p3 = part3 offer unlock counter in
      let p4 = part4 offer unlock counter in
      let p5 = part5 offer unlock counter in
      let p6 = part6 offer unlock counter in
      let p7 = part7 offer unlock counter in
      let p8 = part8 offer unlock counter in
      let p9 = part9 offer unlock counter in
      let r9 : List ℕ = le32 counter in
      let r8 : List ℕ = offer.offer_id ++ r9 in
      let r7 : List ℕ = le64 offer.input_value ++ r8 in
      let r6 : List ℕ = le32 offer.input_idx ++ r7 in
      let r5 : List ℕ = offer.tx_template ++ r6 in
      let r4 : List ℕ = le16 n ++ r5 in
      let r3 : List ℕ = unlock ++ r4 in
      let r2 : List ℕ = le16 u ++ r3 in
      let e9 : b ≡ p9 ++ (r9 ++ []) = ap (λ t. p9 ++ t) (sym (append-nil r9)) in
      let e8 : b ≡ p8 ++ r8 = append_assoc p8 offer.offer_id r9 in
      let e7 : b ≡ p7 ++ r7 = e8 ∙ append_assoc p7 (le64 offer.input_value) r8 in
      let e6 : b ≡ p6 ++ r6 = e7 ∙ append_assoc p6 (le32 offer.input_idx) r7 in
      let e5 : b ≡ p5 ++ r5 = e6 ∙ append_assoc p5 offer.tx_template r6 in
      let e4 : b ≡ p4 ++ r4 = e5 ∙ append_assoc p4 (le16 n) r5 in
      let e3 : b ≡ p3 ++ r3 = e4 ∙ append_assoc p3 unlock r4 in
      let e2 : b ≡ p2 ++ r2 = e3 ∙ append_assoc p2 (le16 u) r3 in
      let e1 : b ≡ p1 ++ (offer.lock_script ++ r2) = e2 ∙ append_assoc p1 offer.lock_script r2 in
      let f = ends offer unlock counter in
      let f2 = f.end2 in
      let f3 = f.end3 in
      let f4 = f.end4 in
      let f5 = f.end5 in
      let f6 = f.end6 in
      let f7 = f.end7 in
      let f8 = f.end8 in
      let f9 = f.end9 in
      let id = v.offer_id in
      let end : ℕ = 2 + l + 2 + u + 2 + n in
      let q0 = read_u16-part b [] (offer.lock_script ++ r2) 0 refl l v.lock_script e1 in
      let q1 = slice-part b p1 r2 2 refl offer.lock_script l refl e1 in
      let q2 = read_u16-part b p2 r3 (2 + l) (sym f2) u v.unlock_script e2 in
      let q3 = slice-part b p3 r4 (2 + l + 2) (sym f3) unlock u refl e3 in
      let q4 = read_u16-part b p4 r5 (2 + l + 2 + u) (sym f4) n v.tx_template e4 in
      let q5 = slice-part b p5 r6 (2 + l + 2 + u + 2) (sym f5) offer.tx_template n refl e5 in
      let q6 = read_u32-part b p6 r7 end (sym f6) offer.input_idx v.input_idx e6 in
      let q7 = read_u64-part b p7 r8 (end + 4) (omega arith) offer.input_value v.input_value e7 in
      let q8 = slice-part b p8 r9 (end + 12) (omega arith) offer.offer_id 16 (sym id) e8 in
      let q9 = read_u32-part b p9 [] (end + 28) (omega arith) counter v.counter e9 in
      rw q0 (
        rw q2 (
          rw q4 (λ i. record {
            lock_script = q1 i;
            unlock_script = q3 i;
            tx_bytes = q5 i;
            input_idx = q6 i;
            input_value = q7 i;
            offer_id = q8 i;
            counter = q9 i;
          })))

  -- For scripts and a template shorter than 2 ^ 16 bytes, an offer id of 16 bytes and numbers that fit
  -- their fields, the activate payload is built, and decodes to what it was built from.
  pub decode_actuator_activate-activate_payload :
      (p : List ℕ) × (activate_payload offer unlock counter ≡ ok p)
      × (decode_actuator_activate p ≡ activate_of offer unlock counter)
  decode_actuator_activate-activate_payload = (
    activate_bytes offer unlock counter,
    activate_payload_lem offer unlock counter v.offer_id,
    decode-activate_bytes,
  )
