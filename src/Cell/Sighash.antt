-- ===== src/Cell/Sighash.antt =====
-- `bip143Sighash` and `ecdsaDer` of tools/x402-bridge/cell-codec.ts.
use Prim.Native.Nat.{bit_and}
use semantos_edge.Base.{
  ℕ, zero, suc, ◌+◌, ◌*◌, ◌%◌, List, [], ◌∷◌, ◌++◌, ◌==◌, if◌then◌else◌, length, replicate, Result,
  ok, thrown, ◌>>=◌,
}
use semantos_edge.Base.Bytes.{set_at}
use semantos_edge.Cell.Words.{write_u32, write_u64}

pub record TxInputView : Type 0 where
  pub prev_txid : List ℕ
  pub prev_vout : ℕ
  pub sequence : ℕ

pub record TxOutputView : Type 0 where
  pub value : ℕ
  pub script : List ℕ

-- A number in an array of its own.
abbrev pub four_bytes : ℕ → List ℕ
four_bytes v = write_u32 (replicate 4 0) 0 v

abbrev pub eight_bytes : ℕ → List ℕ
eight_bytes v = write_u64 (replicate 8 0) 0 v

-- The loop that writes the outpoints, from input `i` on.
unfoldable pub prevouts : ℕ → List TxInputView → List ℕ → Result (List ℕ)
prevouts i [] op = ok op
prevouts i (t ∷ ts) op = set_at op (36 * i) t.prev_txid >>= λ op.
    prevouts (i + 1) ts (write_u32 op (36 * i + 32) t.prev_vout)

sequences : ℕ → List TxInputView → List ℕ → List ℕ
sequences i [] sb = sb
sequences i (t ∷ ts) sb = sequences (i + 1) ts (write_u32 sb (4 * i) t.sequence)

-- A length goes into one byte, which keeps it below 256.
with_length : List ℕ → List ℕ
with_length script = length script % 256 ∷ script

output_bytes : List TxOutputView → List ℕ
unfolding with_length
output_bytes [] = []
output_bytes (t ∷ ts) = eight_bytes t.value ++ (with_length t.script ++ output_bytes ts)

-- inputs[i], where reading a field of it throws if there is none.
unfoldable pub input_at : ℕ → List TxInputView → Result TxInputView
input_at i [] = thrown
input_at zero (t ∷ ts) = ok t
input_at (suc i) (t ∷ ts) = input_at i ts

-- A leading 0 where the number would read as negative.
der_integer : List ℕ → List ℕ
der_integer [] = []
der_integer (b ∷ bs) = if bit_and b 0x80 == 0 then b ∷ bs else 0 ∷ b ∷ bs

-- `r` and `s` are the big-endian bytes of the signature's numbers.
unfoldable pub ecdsa_der : List ℕ → List ℕ → List ℕ
unfolding der_integer
ecdsa_der r s =
    let rd = der_integer r in
    let sd = der_integer s in
    let body = 0x02 ∷ length rd % 256 ∷ (rd ++ (0x02 ∷ length sd % 256 ∷ sd)) in
    0x30 ∷ length body % 256 ∷ body

module _ (sha256 : List ℕ → List ℕ) where
  unfoldable pub dsha256 : List ℕ → List ℕ
  dsha256 bytes = sha256 (sha256 bytes)

  unfoldable pub bip143_sighash :
      ℕ → List TxInputView → List TxOutputView → ℕ → ℕ → List ℕ → ℕ → ℕ → Result (List ℕ)
  unfolding prevouts sequences output_bytes input_at with_length
  bip143_sighash version inputs outputs locktime input_idx script_code input_value sighash_type = do
    op ← prevouts 0 inputs (replicate (36 * length inputs) 0)
    let hash_sequence = dsha256 (sequences 0 inputs (replicate (4 * length inputs) 0))
    let hash_outputs = dsha256 (output_bytes outputs)
    input ← input_at input_idx inputs
    ok (
        dsha256 (
          four_bytes version
          ++ (dsha256 op
              ++ (hash_sequence
                  ++ (input.prev_txid
                      ++ (four_bytes input.prev_vout
                          ++ (with_length script_code
                              ++ (eight_bytes input_value
                                  ++ (four_bytes input.sequence
                                      ++ (hash_outputs
                                          ++ (four_bytes locktime
                                              ++ four_bytes sighash_type)))))))))))
