-- ===== src/X402/Channel/Serialised.antt =====
-- A transaction that tools/x402-bridge/channel-anchor.ts serialises, before the payment verifier of
-- tools/x402-bridge/x402.ts.
use semantos_edge.Base.{
  ℕ, suc, ◌+◌, ◌*◌, ◌/◌, ◌^◌, ◌<◌, ◌≡◌, refl, sym, ap, ◌∙◌, none, some, List, [], ◌∷◌, ◌++◌, ltb,
  if◌then◌else◌, length, length-append, All, All-append, ok, arith, ◌⊎◌, Option-cases, inl, inr,
}
use mathlib.Core.List.{append_assoc, reverse, reverse_aux}
use mathlib.Core.Path.{subst}
use semantos_edge.Base.Map.{Str}
use semantos_edge.Cell.Words.{le32, le64}
use semantos_edge.Templog.Text.{IsByte, from_hex, to_hex, hex_value}
use semantos_edge.X402.Payment.{accepted, rejected, underpaid, default_verify, to_number}
use semantos_edge.X402.Payment.Accepts as Accepts
use semantos_edge.X402.Payment.Funded.{paying, default_verify-tx_bytes}
use semantos_edge.X402.Channel.{
  TxIn, TxOut, varint, out_bytes, outs_bytes, prevout_bytes, later_prevouts, first_script,
  later_scripts, in_bytes, ins_bytes, marker, serialise_tx,
}

varint-short : (n : ℕ) → n < 253 → varint n ≡ n ∷ []
unfolding varint
varint-short n h = ground arith

hex_value-bound : (c v : ℕ) → hex_value c ≡ some v → v < 16
unfolding hex_value
hex_value-bound c v h = ground arith

from_hex-pair :
    (c d : ℕ) (s : Str)
    → (from_hex (c ∷ d ∷ s) ≡ []) ⊎ ((b : ℕ) × (b < 256) × (from_hex (c ∷ d ∷ s) ≡ b ∷ from_hex s))
unfolding from_hex
from_hex-pair c d s = elim (Option-cases (hex_value c)) [
  | inl e ↦ inl (rw (e, from_hex) refl)
  | inr (hi, e) ↦ elim (Option-cases (hex_value d)) [
    | inl f ↦ inl (rw (e, from_hex) (rw (f, from_hex) refl))
    | inr (lo, f) ↦
        let high = hex_value-bound c hi e in
        let low = hex_value-bound d lo f in
        inr (hi * 16 + lo, omega arith, rw (e, from_hex) (rw (f, from_hex) refl))
  ]
]

from_hex-IsByte : (s : Str) → All IsByte (from_hex s)
from_hex-IsByte [] = unfold from_hex in tt
from_hex-IsByte (c ∷ []) = unfold from_hex in tt
from_hex-IsByte (c ∷ d ∷ s) =
    let rest : All IsByte (from_hex s) = from_hex-IsByte s in
    elim (from_hex-pair c d s) [
      | inl e ↦ subst (All IsByte) (sym e) tt
      | inr (b, h, e) ↦ subst (All IsByte) (sym e) (h, rest)
    ]

All-reverse_aux :
    (xs acc : List ℕ) → All IsByte xs → All IsByte acc → All IsByte (reverse_aux xs acc)
All-reverse_aux [] acc h k = k
All-reverse_aux (x ∷ xs) acc (p, h) k = All-reverse_aux xs (x ∷ acc) h (p, k)

length-reverse_aux : (xs acc : List ℕ) → length (reverse_aux xs acc) ≡ length xs + length acc
length-reverse_aux [] acc = omega arith
length-reverse_aux (x ∷ xs) acc = omega (arith, length-reverse_aux xs (x ∷ acc))

-- The inputs and outputs as the verifier's side has them.
abbrev pub input_of : TxIn → List ℕ → Accepts.TxIn
input_of i script = record {
  outpoint = reverse (from_hex i.txid) ++ le32 i.vout;
  script = script;
  sequence = le32 i.sequence;
}

abbrev pub inputs_of : List TxIn → List (List ℕ) → List Accepts.TxIn
inputs_of [] scripts = []
inputs_of (i ∷ is) [] = input_of i [] ∷ inputs_of is []
inputs_of (i ∷ is) (s ∷ ss) = input_of i s ∷ inputs_of is ss

abbrev pub output_of : TxOut → Accepts.TxOut
output_of out = record { value = out.sats; script = from_hex out.lock_hex }

abbrev pub outputs_of : List TxOut → List Accepts.TxOut
outputs_of [] = []
outputs_of (out ∷ outs) = output_of out ∷ outputs_of outs

-- What a script of less than 253 bytes, a txid of 32 bytes and a value of 64 bits are.
abbrev pub IsScript : List ℕ → Type 0
IsScript script = (length script < 253) × All IsByte script

abbrev pub IsInput : TxIn → Type 0
IsInput i = length (from_hex i.txid) ≡ 32

abbrev pub IsOutput : TxOut → Type 0
IsOutput out = (out.sats < 2 ^ 64) × (length (from_hex out.lock_hex) < 253)

outs_bytes_lem :
    (outs : List TxOut) (rest : List ℕ)
    → All IsOutput outs
    → outs_bytes outs ++ rest ≡ Accepts.out_bytes (outputs_of outs) rest
unfolding outs_bytes out_bytes
outs_bytes_lem [] rest h = refl
outs_bytes_lem (out ∷ outs) rest ((v, short), h) =
    let script : List ℕ = from_hex out.lock_hex in
    let tail = outs_bytes_lem outs rest h in
    rw (varint-short (length script) short)
      (simp append_assoc (ap (λ t. le64 out.sats ++ (length script ∷ (script ++ t))) tail))

in_bytes_lem :
    (i : TxIn) (script tail : List ℕ)
    → length script < 253
    → in_bytes i script ++ tail ≡ Accepts.in_bytes (input_of i script ∷ []) tail
unfolding in_bytes
in_bytes_lem i script tail h = rw (varint-short (length script) h) (simp append_assoc)

ins_bytes_lem :
    (is : List TxIn) (scripts : List (List ℕ)) (rest : List ℕ)
    → All IsScript scripts
    → (b : List ℕ) × (ins_bytes is scripts none ≡ ok b)
      × (b ++ rest ≡ Accepts.in_bytes (inputs_of is scripts) rest)
unfolding ins_bytes prevout_bytes later_prevouts first_script later_scripts
ins_bytes_lem [] scripts rest h = ([], refl, refl)
ins_bytes_lem (i ∷ is) [] rest h =
    let later = ins_bytes_lem is [] rest tt in
    (
      in_bytes i [] ++ later.0,
      rw later.1 refl,
      append_assoc (in_bytes i []) later.0 rest
          ∙ ap (λ t. in_bytes i [] ++ t) later.2
          ∙ in_bytes_lem i [] _ (omega arith),
    )
ins_bytes_lem (i ∷ is) (s ∷ ss) rest ((short, v), h) =
    let later = ins_bytes_lem is ss rest h in
    (
      in_bytes i s ++ later.0,
      rw later.1 refl,
      append_assoc (in_bytes i s) later.0 rest
          ∙ ap (λ t. in_bytes i s ++ t) later.2
          ∙ in_bytes_lem i s _ short,
    )

outpoint-size : (i : TxIn) → IsInput i → length (reverse (from_hex i.txid) ++ le32 i.vout) ≡ 36
outpoint-size i h = omega (
  arith,
  length-append (reverse (from_hex i.txid)) (le32 i.vout),
  length-reverse_aux (from_hex i.txid) [],
)

le32-All : (v : ℕ) → All IsByte (le32 v)
le32-All v = (omega arith, (omega arith, (omega arith, (omega arith, tt))))

le64-All : (v : ℕ) → All IsByte (le64 v)
le64-All v = All-append IsByte (le32 v) (le32 (v / 2 ^ 32)) (le32-All v) (le32-All (v / 2 ^ 32))

one-All :
    (i : TxIn) (script tail : List ℕ)
    → length script < 253
    → All IsByte script
    → All IsByte tail
    → All IsByte (Accepts.in_bytes (input_of i script ∷ []) tail)
one-All i script tail short v k =
    let place : All IsByte (reverse (from_hex i.txid) ++ le32 i.vout) =
      All-append IsByte (reverse (from_hex i.txid)) (le32 i.vout)
        (All-reverse_aux (from_hex i.txid) [] (from_hex-IsByte i.txid) tt) (le32-All i.vout) in
    let size : IsByte (length script) = omega arith in
    All-append IsByte _ _ place (
      size,
      All-append IsByte script (le32 i.sequence ++ tail) v
          (All-append IsByte (le32 i.sequence) tail (le32-All i.sequence) k),
    )

inputs_of-IsTxIn :
    (is : List TxIn) (scripts : List (List ℕ))
    → All IsInput is
    → All IsScript scripts
    → All Accepts.IsTxIn (inputs_of is scripts)
inputs_of-IsTxIn [] scripts h k = tt
inputs_of-IsTxIn (i ∷ is) [] (size, h) k =
    let place = outpoint-size i size in
    (
      record { outpoint = place; script = omega arith; sequence = refl },
      inputs_of-IsTxIn is [] h tt,
    )
inputs_of-IsTxIn (i ∷ is) (s ∷ ss) (size, h) ((short, v), k) =
    let place = outpoint-size i size in
    (record { outpoint = place; script = short; sequence = refl }, inputs_of-IsTxIn is ss h k)

outputs_of-IsTxOut : (outs : List TxOut) → All IsOutput outs → All Accepts.IsTxOut (outputs_of outs)
outputs_of-IsTxOut [] h = tt
outputs_of-IsTxOut (out ∷ outs) ((v, short), h) =
    (record { value = v; script = short }, outputs_of-IsTxOut outs h)

out_bytes-All :
    (outs : List TxOut) (rest : List ℕ)
    → All IsOutput outs
    → All IsByte rest
    → All IsByte (Accepts.out_bytes (outputs_of outs) rest)
out_bytes-All [] rest h k = k
out_bytes-All (out ∷ outs) rest ((v, short), h) k =
    let script : List ℕ = from_hex out.lock_hex in
    let tail : List ℕ = Accepts.out_bytes (outputs_of outs) rest in
    let size : IsByte (length script) = omega arith in
    All-append IsByte (le64 out.sats) (length script ∷ (script ++ tail)) (le64-All out.sats) (
      size,
      All-append IsByte script tail (from_hex-IsByte out.lock_hex) (out_bytes-All outs rest h k),
    )

in_bytes-All :
    (is : List TxIn) (scripts : List (List ℕ)) (rest : List ℕ)
    → All IsScript scripts
    → All IsByte rest
    → All IsByte (Accepts.in_bytes (inputs_of is scripts) rest)
in_bytes-All [] scripts rest h k = k
in_bytes-All (i ∷ is) [] rest h k =
    one-All i [] (Accepts.in_bytes (inputs_of is []) rest) (omega arith) tt
      (in_bytes-All is [] rest tt k)
in_bytes-All (i ∷ is) (s ∷ ss) rest ((short, v), h) k =
    one-All i s (Accepts.in_bytes (inputs_of is ss) rest) short v (in_bytes-All is ss rest h k)

length-outputs_of : (outs : List TxOut) → length (outputs_of outs) ≡ length outs
length-outputs_of [] = refl
length-outputs_of (out ∷ outs) = ap suc (length-outputs_of outs)

length-inputs_of :
    (is : List TxIn) (scripts : List (List ℕ)) → length (inputs_of is scripts) ≡ length is
length-inputs_of [] scripts = refl
length-inputs_of (i ∷ is) [] = ap suc (length-inputs_of is [])
length-inputs_of (i ∷ is) (s ∷ ss) = ap suc (length-inputs_of is ss)

module _ (is : List TxIn) (outs : List TxOut) (locktime : ℕ) (scripts : List (List ℕ)) where
  abbrev bytes : List ℕ
  bytes =
      Accepts.tx_bytes (1 ∷ 0 ∷ 0 ∷ 0 ∷ []) (inputs_of is scripts) (outputs_of outs) (le32 locktime)

  serialised :
      length is < 253
      → length outs < 253
      → All IsOutput outs
      → All IsScript scripts
      → serialise_tx is outs locktime scripts none ≡ ok (to_hex bytes)
  unfolding serialise_tx marker
  serialised few_in few_out vo vs =
      let end : List ℕ = length outs ∷ (outs_bytes outs ++ le32 locktime) in
      let read = ins_bytes_lem is scripts end vs in
      let tail = outs_bytes_lem outs (le32 locktime) vo in
      let n_in = sym (length-inputs_of is scripts) in
      let n_out = sym (length-outputs_of outs) in
      rw read.1 (
        rw (varint-short (length is) few_in, varint-short (length outs) few_out)
          (ap (λ t. ok (to_hex (1 ∷ 0 ∷ 0 ∷ 0 ∷ length is ∷ t)))
              (read.2 ∙ (λ i. Accepts.in_bytes (inputs_of is scripts) (n_out i ∷ tail i)))
            ∙ (λ i. ok (
                to_hex (
                  1
                  ∷ 0
                  ∷ 0
                  ∷ 0
                  ∷ n_in i
                  ∷ Accepts.in_bytes (inputs_of is scripts) (
                      length (outputs_of outs)
                      ∷ Accepts.out_bytes (outputs_of outs) (le32 locktime)))))))

  -- A transaction with fewer than 253 inputs and outputs, each with a script of less than 253 bytes,
  -- each input with a txid of 32 bytes and each output with a value of 64 bits, is serialised, and
  -- the default payment verifier decides what was serialised by the largest of these values, and
  -- accepts it as paying the double that is nearest to that.
  pub default_verify-serialise_tx :
      length is < 253
      → length outs < 253
      → All IsInput is
      → All IsOutput outs
      → All IsScript scripts
      → (required : ℕ)
      → (raw : Str) × (serialise_tx is outs locktime scripts none ≡ ok raw)
        × (default_verify (paying raw) required ≡ (
            if ltb (Accepts.most_of (outputs_of outs) 0) required
            then rejected (underpaid (Accepts.most_of (outputs_of outs) 0) required)
            else accepted (to_number (Accepts.most_of (outputs_of outs) 0)) none))
  default_verify-serialise_tx few_in few_out vi vo vs required =
      let n_in = length-inputs_of is scripts in
      let n_out = length-outputs_of outs in
      let none_set : IsByte 0 = omega arith in
      let one : IsByte 1 = omega arith in
      let in_size : IsByte (length (inputs_of is scripts)) = omega arith in
      let out_size : IsByte (length (outputs_of outs)) = omega arith in
      let tail = out_bytes-All outs (le32 locktime) vo (le32-All locktime) in
      let body =
        in_bytes-All is scripts
          (length (outputs_of outs) ∷ Accepts.out_bytes (outputs_of outs) (le32 locktime)) vs
          (out_size, tail) in
      (
        to_hex bytes,
        serialised few_in few_out vo vs,
        default_verify-tx_bytes (1 ∷ 0 ∷ 0 ∷ 0 ∷ []) (inputs_of is scripts) (outputs_of outs)
            (le32 locktime) required refl (omega arith) (omega arith)
            (inputs_of-IsTxIn is scripts vi vs) (outputs_of-IsTxOut outs vo)
            (one, (none_set, (none_set, (none_set, (in_size, body))))),
      )
