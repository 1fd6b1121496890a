-- ===== src/X402/Channel/Examples.antt =====
-- A channel of tools/x402-bridge/channel-anchor.ts with three hops.
use semantos_edge.Base.{ℕ, ◌≡◌, refl, false, none, List, [], ◌∷◌, replicate, length, ok, arith}
use semantos_edge.Base.Map.{Str}
use semantos_edge.Cell.Words.{read_u32}
use semantos_edge.Templog.Text.{from_hex, hex_value}
use semantos_edge.X402.Payment.{accepted, default_verify, to_number, spare_bits}
use semantos_edge.X402.Payment.Funded.{paying}
use semantos_edge.X402.Channel.{
  ChannelState, TxIn, TxOut, bits_64, accumulate_hop, settle_outputs, settle_reply,
  build_settle_payload, serialise_tx,
}
use semantos_edge.X402.Channel.Books.{
  Reachable, IsBooked, opened, hopped, requested, confirmed, Reachable-IsBooked,
}
use semantos_edge.X402.Channel.Serialised.{default_verify-serialise_tx}
use semantos_edge.X402.Channel.Late.{build_settle_payload-late}

abbrev txid : Str
txid = replicate 64 48

abbrev fresh : ChannelState
fresh = record {
  txid = txid;
  vout = 0;
  funding_sats = 10_000;
  channel_id = replicate 16 0;
  funding_lock_hex = 0x61 ∷ 0x62 ∷ [];
  refund_tx_hex = [];
  opened_at_ms = 1000;
  device_share_accum = 0;
  user_share_accum = 0;
  final_seq = 0;
  settled = false;
  settle_txid = none;
}

abbrev hop : ChannelState → ChannelState
hop st = (accumulate_hop st 20 0 1).1

-- Two hops, a settlement that is asked for, a third hop, and the answer.
abbrev settled : ChannelState
settled = (settle_reply (ok txid) (hop (hop (hop fresh)))).1

-- The outputs of that settlement.
abbrev outs : List TxOut
outs =
    record { sats = 40; lock_hex = 0x61 ∷ 0x62 ∷ [] }
    ∷ record { sats = 9760; lock_hex = 0x61 ∷ 0x62 ∷ [] }
    ∷ []

settled-Reachable : Reachable fresh settled 60 (outs ∷ []) (outs ∷ [])
unfolding accumulate_hop settle_reply settle_outputs bits_64
settled-Reachable =
    confirmed txid [] [] outs
      (hopped 20 0 1
        (requested outs (hopped 20 0 1 (hopped 20 0 1 (opened refl refl (omega arith)))) refl))
      refl

Reachable-IsBooked_example : IsBooked fresh settled 60 (outs ∷ []) (outs ∷ [])
Reachable-IsBooked_example =
    Reachable-IsBooked fresh settled 60 (outs ∷ []) (outs ∷ []) settled-Reachable

txid-long : length (from_hex txid) ≡ 32
unfolding from_hex hex_value
txid-long = refl

build_settle_payload-late_example :
    (rest : TxOut) × (p : List ℕ) × (settle_outputs fresh
      ≡ ok (record { sats = 0; lock_hex = 0x61 ∷ 0x62 ∷ [] } ∷ rest ∷ []))
    × (build_settle_payload (settle_reply (ok txid) (accumulate_hop fresh 20 0 1).1).1 txid ≡ ok p)
    × (read_u32 p 20 ≡ 20)
build_settle_payload-late_example =
    build_settle_payload-late fresh 20 0 1 txid refl refl txid-long (omega arith) (omega arith)

abbrev input : TxIn
input = record { txid = txid; vout = 1; sequence = 0xffff_fffe }

abbrev output : TxOut
output = record { sats = 9800; lock_hex = 0x61 ∷ 0x62 ∷ [] }

short-lock : length (from_hex (0x61 ∷ 0x62 ∷ [])) ≡ 1
unfolding from_hex hex_value
short-lock = refl

default_verify-serialise_tx_example :
    (raw : Str) × (serialise_tx (input ∷ []) (output ∷ []) 86_401 ((1 ∷ 7 ∷ []) ∷ []) none ≡ ok raw)
    × (default_verify (paying raw) 5000 ≡ accepted 9800 none)
unfolding to_number spare_bits
default_verify-serialise_tx_example =
    default_verify-serialise_tx (input ∷ []) (output ∷ []) 86_401 ((1 ∷ 7 ∷ []) ∷ []) (omega arith)
      (omega arith) (txid-long, tt) ((omega arith, omega (arith, short-lock)), tt)
      ((omega arith, (omega arith, (omega arith, tt))), tt) 5000
