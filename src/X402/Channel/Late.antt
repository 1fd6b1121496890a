-- ===== src/X402/Channel/Late.antt =====
-- A hop that tools/x402-bridge/mesh-control.ts counts while a settlement waits for the miner.
use semantos_edge.Base.{
  ℕ, ◌+◌, ◌-◌, ◌%◌, ◌^◌, ◌≤◌, ◌<◌, ◌≡◌, refl, true, leb, ap, ◌∙◌, false, List, [], ◌∷◌, length,
  length-replicate, replicate, ok, arith,
}
use semantos_edge.Base.Int.{pos}
use semantos_edge.Base.Map.{Str}
use semantos_edge.Base.Bytes.{
  overwrite, set_at_fits, length-overwrite, slice-overwrite_before, slice-overwrite_self,
}
use semantos_edge.Cell.Words.{le32, write_u32_lem, read_u32}
use semantos_edge.Cell.Wire.Minted.{read_u32-slice}
use semantos_edge.Templog.Text.{from_hex}
use semantos_edge.X402.Channel.{
  ChannelState, TxOut, bits_64, accumulate_hop, settle_outputs, settle_reply, build_settle_payload,
}

payload-share :
    (ch : ChannelState) (txid : Str)
    → length ch.channel_id ≡ 16
    → length (from_hex txid) ≡ 32
    → ch.device_share_accum < 2 ^ 32
    → (p : List ℕ) × (build_settle_payload ch txid ≡ ok p) × (read_u32 p 20 ≡ ch.device_share_accum)
unfolding build_settle_payload
payload-share ch txid id size small =
    let z : List ℕ = replicate 56 0 in
    let long = length-replicate {A = ℕ} 56 0 in
    let b1 : List ℕ = overwrite z 0 ch.channel_id in
    let b2 : List ℕ = overwrite b1 16 (le32 ch.final_seq) in
    let b3 : List ℕ = overwrite b2 20 (le32 ch.device_share_accum) in
    let l1 = length-overwrite z 0 ch.channel_id in
    let l2 = length-overwrite b1 16 (le32 ch.final_seq) in
    let l3 = length-overwrite b2 20 (le32 ch.device_share_accum) in
    (
      overwrite b3 24 (from_hex txid),
      rw (set_at_fits z 0 ch.channel_id (omega arith)) (
          rw (write_u32_lem b1 16 ch.final_seq) (
            rw (write_u32_lem b2 20 ch.device_share_accum)
              (set_at_fits b3 24 (from_hex txid) (omega arith)))),
      read_u32-slice _ 20 ch.device_share_accum small (
          slice-overwrite_before b3 24 20 4 (from_hex txid) (omega arith)
          ∙ slice-overwrite_self b2 20 4 (le32 ch.device_share_accum) refl (omega arith)),
    )

late-share :
    (st : ChannelState) (share user seq : ℕ) (txid : Str)
    → st.settled ≡ false
    → ((settle_reply (ok txid) (accumulate_hop st share user seq).1).1).device_share_accum
      ≡ st.device_share_accum + share
unfolding settle_reply accumulate_hop
late-share st share user seq txid e = rw e refl

late-id :
    (st : ChannelState) (share user seq : ℕ) (txid : Str)
    → st.settled ≡ false
    → ((settle_reply (ok txid) (accumulate_hop st share user seq).1).1).channel_id ≡ st.channel_id
unfolding settle_reply accumulate_hop
late-id st share user seq txid e = rw e refl

settle_outputs-first :
    (st : ChannelState)
    → st.settled ≡ false
    → st.device_share_accum + 746 ≤ st.funding_sats
    → st.device_share_accum < 2 ^ 32
    → (user : TxOut) × (settle_outputs st
        ≡ ok (record { sats = st.device_share_accum; lock_hex = st.funding_lock_hex } ∷ user ∷ []))
unfolding settle_outputs bits_64
settle_outputs-first st e covered small =
    let rest : ℕ = st.funding_sats - (st.device_share_accum + 200) in
    let enough : leb (st.device_share_accum + 200) st.funding_sats ≡ true = ground arith in
    let above_dust : leb (546 + 0) (rest + 0) ≡ true = ground arith in
    let whole : st.device_share_accum % 2 ^ 64 ≡ st.device_share_accum = omega arith in
    (
      record { sats = bits_64 (pos rest); lock_hex = st.funding_lock_hex },
      rw e (rw enough (rw above_dust (rw whole refl))),
    )

-- Where a hop is counted while the settlement of an open channel waits for its answer, the payload
-- that tells the mesh of the settlement names the device's share with that hop's, although the
-- transaction pays the share without it. The channel id has 16 bytes, the txid 32, the funding covers
-- the share and 746 satoshis, and the shares fit 32 bits.
pub build_settle_payload-late :
    (st : ChannelState) (share user seq : ℕ) (txid : Str)
    → st.settled ≡ false
    → length st.channel_id ≡ 16
    → length (from_hex txid) ≡ 32
    → st.device_share_accum + 746 ≤ st.funding_sats
    → st.device_share_accum + share < 2 ^ 32
    → (rest : TxOut) × (p : List ℕ) × (settle_outputs st
        ≡ ok (record { sats = st.device_share_accum; lock_hex = st.funding_lock_hex } ∷ rest ∷ []))
      × (build_settle_payload (settle_reply (ok txid) (accumulate_hop st share user seq).1).1 txid
          ≡ ok p)
      × (read_u32 p 20 ≡ st.device_share_accum + share)
build_settle_payload-late st share user seq txid e id size covered small =
    let late : ChannelState = (settle_reply (ok txid) (accumulate_hop st share user seq).1).1 in
    let counted = late-share st share user seq txid e in
    let named = late-id st share user seq txid e in
    let outs = settle_outputs-first st e covered (omega arith) in
    let told = payload-share late txid (ap length named ∙ id) size (omega arith) in
    (outs.0, told.0, outs.1, told.1, told.2 ∙ counted)
