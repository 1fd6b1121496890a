-- ===== src/X402/Forward/Rules.antt =====
-- `encodeRule` of tools/x402-bridge/mesh-control.ts has room for a type hash.
use semantos_edge.Base.{ℕ, ◌≡◌, refl, Option, List, set, replicate, length, ok, arith}
use semantos_edge.Base.Bytes.{set_at_fits, overwrite}
use semantos_edge.X402.Forward.{Quorum, encode_rule, trigger_kind, put_quorum}
use semantos_edge.Cell.Words.{write_u16}

pub encode_rule-built :
    (trigger_type : List ℕ) (blink_ms : ℕ) (quorum : Option Quorum)
    → length trigger_type ≡ 32
    → (rule : List ℕ) × (encode_rule trigger_type blink_ms quorum ≡ ok rule)
unfolding encode_rule
encode_rule-built trigger_type blink_ms quorum h =
    let b : List ℕ = set (set (replicate 139 0) 0 0x01) 1 (trigger_kind quorum) in
    let long : length b ≡ 139 = refl in
    (
      write_u16 (set (put_quorum quorum (overwrite b 2 trigger_type)) 38 0x01) 39 blink_ms,
      rw (set_at_fits b 2 trigger_type (omega arith)) refl,
    )
