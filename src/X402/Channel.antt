-- ===== src/X402/Channel.antt =====
-- tools/x402-bridge/channel-anchor.ts: a payment channel that is funded, accumulates the shares of
-- hops and is settled on chain, and the payload by which mesh-control.ts tells the mesh of it. The
-- hash functions, the signature of the wallet's key, the wallet's transaction and what parses it, and
-- the answer of the miner are parameters.
mod Books
mod Late
mod Serialised
mod Examples
use semantos_edge.Base.{
  ℕ, suc, ◌+◌, ◌-◌, ◌/◌, ◌%◌, ◌^◌, max, Bool, true, false, not, Option, none, some, List, [], ◌∷◌,
  ◌++◌, map, ltb, leb, if◌then◌else◌, length, take, replicate, Result, ok, thrown, ◌>>=◌,
}
use mathlib.Core.List.{reverse}
use semantos_edge.Base.Int.{ℤ, pos, negsuc, sub_ℕ, leb_ℤ}
use semantos_edge.Base.Map.{Str, str_eq}
use semantos_edge.Base.Bytes.{set_at}
use semantos_edge.Cell.Words.{le16, le32, le64, write_u32}
use semantos_edge.Cell.Sighash.{TxInputView, TxOutputView, bip143_sighash, ecdsa_der}
use semantos_edge.Templog.Text.{from_hex, to_hex}

pub record ChannelState : Type 0 where
  pub txid : Str
  pub vout : ℕ
  pub funding_sats : ℕ
  pub channel_id : List ℕ
  pub funding_lock_hex : Str
  pub refund_tx_hex : Str
  pub opened_at_ms : ℕ
  pub device_share_accum : ℕ
  pub user_share_accum : ℕ
  pub final_seq : ℕ
  pub settled : Bool
  pub settle_txid : Option Str

abbrev pub channel_funding_sats : ℕ
channel_funding_sats = 10_000

abbrev pub settle_threshold_sats : ℕ
settle_threshold_sats = 50

abbrev pub refund_locktime_offset : ℕ
refund_locktime_offset = 86_400

-- p2pkhLock, of the bytes of the key
unfoldable pub p2pkh_lock : (List ℕ → List ℕ) → List ℕ → List ℕ
p2pkh_lock hash160 pub_key = 0x76 ∷ 0xa9 ∷ 0x14 ∷ (hash160 pub_key ++ (0x88 ∷ 0xac ∷ []))

unfoldable pub varint : ℕ → List ℕ
varint n = if ltb n 0xfd then n ∷ [] else if leb n 0xffff then 0xfd ∷ le16 n else 0xfe ∷ le32 n

pub record TxIn : Type 0 where
  pub txid : Str
  pub vout : ℕ
  pub sequence : ℕ

-- `sats` is the 64 bits that writeU64LE writes.
pub record TxOut : Type 0 where
  pub sats : ℕ
  pub lock_hex : Str

-- The low 64 bits of a bigint.
unfoldable pub bits_64 : ℤ → ℕ
bits_64 (pos n) = n % 2 ^ 64
bits_64 (negsuc n) = (2 ^ 64 - suc n % 2 ^ 64) % 2 ^ 64

-- The value and the script of an output.
unfoldable pub out_bytes : TxOut → List ℕ
out_bytes out =
    let script = from_hex out.lock_hex in le64 out.sats ++ (varint (length script) ++ script)

unfoldable pub outs_bytes : List TxOut → List ℕ
outs_bytes [] = []
outs_bytes (out ∷ outs) = out_bytes out ++ outs_bytes outs

-- prevouts[i], where prevouts were given.
unfoldable pub prevout_bytes : Option (List TxOut) → Result (List ℕ)
prevout_bytes none = ok []
prevout_bytes (some []) = thrown
prevout_bytes (some (p ∷ ps)) = ok (out_bytes p)

unfoldable pub later_prevouts : Option (List TxOut) → Option (List TxOut)
later_prevouts none = none
later_prevouts (some []) = some []
later_prevouts (some (p ∷ ps)) = some ps

-- scriptsigs[i] ?? new Uint8Array(0)
unfoldable pub first_script : List (List ℕ) → List ℕ
first_script [] = []
first_script (s ∷ ss) = s

unfoldable pub later_scripts : List (List ℕ) → List (List ℕ)
later_scripts [] = []
later_scripts (s ∷ ss) = ss

unfoldable pub in_bytes : TxIn → List ℕ → List ℕ
in_bytes i script =
    reverse (from_hex i.txid)
    ++ (le32 i.vout ++ (varint (length script) ++ (script ++ le32 i.sequence)))

-- The loop over the inputs.
unfoldable pub ins_bytes : List TxIn → List (List ℕ) → Option (List TxOut) → Result (List ℕ)
ins_bytes [] scripts prevouts = ok []
ins_bytes (i ∷ is) scripts prevouts = do
  p ← prevout_bytes prevouts
  rest ← ins_bytes is (later_scripts scripts) (later_prevouts prevouts)
  ok (in_bytes i (first_script scripts) ++ (p ++ rest))

-- The marker of the extended format.
unfoldable pub marker : Option (List TxOut) → List ℕ
marker none = []
marker (some ps) = 0 ∷ 0 ∷ 0 ∷ 0 ∷ 0 ∷ 0xef ∷ []

unfoldable pub serialise_tx :
    List TxIn → List TxOut → ℕ → List (List ℕ) → Option (List TxOut) → Result Str
serialise_tx inputs outputs locktime scriptsigs prevouts = do
  ins ← ins_bytes inputs scriptsigs prevouts
  ok (
      to_hex (
        1
        ∷ 0
        ∷ 0
        ∷ 0
        ∷ (marker prevouts
            ++ (varint (length inputs)
                ++ (ins ++ (varint (length outputs) ++ (outs_bytes outputs ++ le32 locktime)))))))

unfoldable pub input_view : TxIn → TxInputView
input_view i = record {
  prev_txid = reverse (from_hex i.txid);
  prev_vout = i.vout;
  sequence = i.sequence;
}

unfoldable pub output_view : TxOut → TxOutputView
output_view out = record { value = out.sats; script = from_hex out.lock_hex }

-- Math.max(finalSeq, seq), and whether the threshold is reached.
unfoldable pub accumulate_hop : ChannelState → ℕ → ℕ → ℕ → Bool × ChannelState
accumulate_hop st device_share user_share seq = if st.settled then (false, st) else (
  leb settle_threshold_sats (st.device_share_accum + device_share),
  record st {
    device_share_accum = st.device_share_accum + device_share;
    user_share_accum = st.user_share_accum + user_share;
    final_seq = max st.final_seq seq;
  },
)

-- The two outputs of a settlement.
unfoldable pub settle_outputs : ChannelState → Result (List TxOut)
settle_outputs st =
    let remaining = sub_ℕ st.funding_sats (st.device_share_accum + 200) in
    if st.settled
    then thrown
    else if not (leb_ℤ (pos 546) remaining)
    then thrown
    else ok (
        record { sats = bits_64 (pos st.device_share_accum); lock_hex = st.funding_lock_hex }
        ∷ record { sats = bits_64 remaining; lock_hex = st.funding_lock_hex }
        ∷ [])

-- What follows the miner's answer, on the state as it is by then.
unfoldable pub settle_reply : Result Str → ChannelState → Result Str × ChannelState
settle_reply thrown st = (thrown, st)
settle_reply (ok txid) st = (ok txid, record st { settled = true; settle_txid = some txid })

-- channelIdFromTxid
unfoldable pub channel_id_from_txid : Str → List ℕ
channel_id_from_txid txid = take 16 (from_hex txid)

-- The place of the first output with this script, or 0.
unfoldable pub find_vout : Str → ℕ → List Str → ℕ
find_vout lock_hex i [] = 0
find_vout lock_hex i (l ∷ ls) =
    let rest = find_vout lock_hex (i + 1) ls in if str_eq l lock_hex then i else rest

unfoldable pub vout_of : Str → Option (List Str) → ℕ
vout_of lock_hex none = 0
vout_of lock_hex (some locks) = find_vout lock_hex 0 locks

-- buildSettlePayload of mesh-control.ts
unfoldable pub build_settle_payload : ChannelState → Str → Result (List ℕ)
build_settle_payload ch settle_txid = do
  p ← set_at (replicate 56 0) 0 ch.channel_id
  set_at (write_u32 (write_u32 p 16 ch.final_seq) 20 ch.device_share_accum) 24
      (from_hex settle_txid)

-- `sign` gives the big-endian bytes of the two numbers of a signature by the wallet's key.
module _ (sha256 hash160 : List ℕ → List ℕ) (sign : List ℕ → List ℕ × List ℕ)
    (pub_key : List ℕ) where
  -- signP2PKH, for the type of signature that the callers take
  unfoldable pub sign_p2pkh : List TxIn → List TxOut → ℕ → ℕ → ℕ → List ℕ → Result (List ℕ)
  sign_p2pkh inputs outputs locktime input_idx input_value lock_script = do
    sighash ←
        bip143_sighash sha256 1 (map input_view inputs) (map output_view outputs) locktime input_idx
          lock_script input_value 0x41
    let signature = sign sighash
    let sig = ecdsa_der signature.0 signature.1 ++ (0x41 ∷ [])
    ok (length sig % 256 ∷ (sig ++ (length pub_key % 256 ∷ pub_key)))

  -- The refund transaction, which is signed when the channel opens.
  unfoldable pub refund_tx : Str → ℕ → ℕ → ℕ → Result Str
  refund_tx txid vout funding_sats now_ms = do
    let lock = p2pkh_lock hash160 pub_key
    let ins = record { txid = txid; vout = vout; sequence = 0xffff_fffe } ∷ []
    let outs = record { sats = bits_64 (sub_ℕ funding_sats 200); lock_hex = to_hex lock } ∷ []
    let locktime = now_ms / 1000 + refund_locktime_offset
    sig ← sign_p2pkh ins outs locktime 0 funding_sats lock
    serialise_tx ins outs locktime (sig ∷ []) none

  -- openChannel. `raw` is the wallet's transaction, `locks` its scripts where it parses, and
  -- `broadcast` the miner's answer; the clock does not move.
  unfoldable pub open_channel :
      Option ℕ
      → Option Str
      → (Str → Option (List Str))
      → (Str → Result Str)
      → ℕ
      → Result ChannelState
  open_channel funding none locks broadcast now_ms = thrown
  open_channel funding (some raw) locks broadcast now_ms = do
    let sats = elim funding as (λ f. ℕ) [ none ↦ channel_funding_sats | some n ↦ n ]
    let lock_hex = to_hex (p2pkh_lock hash160 pub_key)
    txid ← broadcast raw
    let vout = vout_of lock_hex (locks raw)
    refund ← refund_tx txid vout sats now_ms
    ok (record {
      txid = txid;
      vout = vout;
      funding_sats = sats;
      channel_id = channel_id_from_txid txid;
      funding_lock_hex = lock_hex;
      refund_tx_hex = refund;
      opened_at_ms = now_ms;
      device_share_accum = 0;
      user_share_accum = 0;
      final_seq = 0;
      settled = false;
      settle_txid = none;
    })

  -- The transaction that a settlement broadcasts, in the extended format.
  unfoldable pub settle_tx : ChannelState → Result Str
  settle_tx st = do
    outs ← settle_outputs st
    let ins = record { txid = st.txid; vout = st.vout; sequence = 0xffff_ffff } ∷ []
    let lock = from_hex st.funding_lock_hex
    sig ← sign_p2pkh ins outs 0 0 st.funding_sats lock
    serialise_tx ins outs 0 (sig ∷ []) (
        some (record { sats = bits_64 (pos st.funding_sats); lock_hex = st.funding_lock_hex } ∷ []))

  -- settleChannel, where no other call comes in between
  unfoldable pub settle_channel : (Str → Result Str) → ChannelState → Result Str × ChannelState
  settle_channel broadcast st = elim (settle_tx st) [
    | thrown ↦ (thrown, st)
    | ok tx ↦ settle_reply (broadcast tx) st
  ]
