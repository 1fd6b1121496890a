-- ===== src/X402/Payment/Funded.antt =====
-- `DefaultPaymentVerifier` of tools/x402-bridge/x402.ts on the transaction of a payment.
use semantos_edge.Base.{
  ℕ, suc, ◌+◌, ◌*◌, ◌/◌, ◌%◌, ◌^◌, true, ◌≤◌, ◌<◌, ◌≡◌, refl, ap, ◌∙◌, false, Option, none, List,
  [], ◌∷◌, arith, ltb, length, length-append, All, Result, ok, thrown, Bool-cases, inl, inr,
  if◌then◌else◌,
}
use semantos_edge.Base.Map.{Str, str_eq}
use semantos_edge.Cell.Words.{le64, read_u32, read_u64}
use semantos_edge.Templog.Text.{IsByte, codes, to_hex, from_hex-to_hex, length-to_hex}
use semantos_edge.Templog.Json.{
  Json, str, null, bool, num, fraction, arr, obj, undefined, Fields, end, field, member,
}
use semantos_edge.X402.Payment.{
  byte_at, advance, advance_by, is_long, rounds, skip_inputs, output_value, max_outputs,
  max_output_bytes, max_output_value, accepted, rejected, underpaid, verify_funded, to_number,
  spare_bits, verify_transaction, default_verify,
}
use semantos_edge.X402.Payment.Accepts.{
  TxIn, TxOut, IsTxIn, IsTxOut, tx_bytes, most_of, max_output_bytes-tx_bytes,
}

-- A payment that names its transaction.
abbrev pub paying : Str → Fields
paying transaction = field (codes "transaction") (str transaction) end

verify_transaction-str :
    (t : Str) (required : ℕ)
    → 0 < length t
    → verify_transaction (str t) required ≡ verify_funded (max_output_value t) required
unfolding verify_transaction
verify_transaction-str [] required h = absurd (omega arith)
verify_transaction-str (c ∷ s) required h = refl

default_verify-paying :
    (t : Str) (required : ℕ)
    → 0 < length t
    → default_verify (paying t) required ≡ verify_funded (max_output_value t) required
unfolding default_verify member str_eq
default_verify-paying t required h = verify_transaction-str t required h

verify_funded-accepted :
    (r : Result ℕ) (required paid : ℕ) (txid : Option Str)
    → verify_funded r required ≡ accepted paid txid
    → (funded : ℕ) × (r ≡ ok funded) × (required ≤ funded) × (paid ≡ to_number funded)
unfolding verify_funded
verify_funded-accepted thrown required paid txid h = absurd (cc h)
verify_funded-accepted (ok funded) required paid txid h = elim (Bool-cases (ltb funded required)) [
  | inl e ↦ ground arith
  | inr e ↦ (funded, refl, ground arith, ground arith)
]

verify_transaction-accepted :
    (j : Json) (required paid : ℕ) (txid : Option Str)
    → verify_transaction j required ≡ accepted paid txid
    → (t : Str) × (j ≡ str t)
      × (funded : ℕ) × (max_output_value t ≡ ok funded)
      × (required ≤ funded)
      × (paid ≡ to_number funded)
unfolding verify_transaction
verify_transaction-accepted null required paid txid h = absurd (cc h)
verify_transaction-accepted (bool b) required paid txid h = absurd (cc h)
verify_transaction-accepted (num n) required paid txid h = absurd (cc h)
verify_transaction-accepted fraction required paid txid h = absurd (cc h)
verify_transaction-accepted (str []) required paid txid h = absurd (cc h)
verify_transaction-accepted (str (c ∷ s)) required paid txid h =
    let f = verify_funded-accepted (max_output_value (c ∷ s)) required paid txid h in
    (c ∷ s, refl, f.0, f.1, f.2, f.3)
verify_transaction-accepted (arr items) required paid txid h = absurd (cc h)
verify_transaction-accepted (obj fields) required paid txid h = absurd (cc h)
verify_transaction-accepted undefined required paid txid h = absurd (cc h)

-- The payments that the default verifier accepts name a transaction whose largest output covers what
-- is required; the amount paid is the double that is nearest to it.
pub default_verify-accepted :
    (payment : Fields) (required paid : ℕ) (txid : Option Str)
    → default_verify payment required ≡ accepted paid txid
    → (t : Str) × (member (codes "transaction") payment ≡ str t)
      × (funded : ℕ) × (max_output_value t ≡ ok funded)
      × (required ≤ funded)
      × (paid ≡ to_number funded)
unfolding default_verify
default_verify-accepted payment required paid txid h =
    verify_transaction-accepted (member (codes "transaction") payment) required paid txid h

max_output_value-to_hex :
    (tx : List ℕ) → All IsByte tx → max_output_value (to_hex tx) ≡ max_output_bytes tx
unfolding max_output_value
max_output_value-to_hex tx bytes = ap max_output_bytes (from_hex-to_hex tx bytes)

-- A number below 2 ^ 53 is a double.
pub to_number-exact : (v : ℕ) → v < 2 ^ 53 → to_number v ≡ v
unfolding to_number spare_bits
to_number-exact v h =
    let small : ltb v 0x20_0000_0000_0000 ≡ true = ground arith in
    let whole : v % 1 ≡ 0 = omega arith in
    let same : v / 1 * 1 ≡ v = omega arith in rw small (rw whole same)

-- A transaction as the wallet sends it is judged by its largest output: it is underpaid, or accepted as
-- paying the double that is nearest to that output.
pub default_verify-tx_bytes :
    (version : List ℕ) (is : List TxIn) (os : List TxOut) (locktime : List ℕ) (required : ℕ)
    → length version ≡ 4
    → length is < 253
    → length os < 253
    → All IsTxIn is
    → All IsTxOut os
    → All IsByte (tx_bytes version is os locktime)
    → default_verify (paying (to_hex (tx_bytes version is os locktime))) required ≡ (
        if ltb (most_of os 0) required
        then rejected (underpaid (most_of os 0) required)
        else accepted (to_number (most_of os 0)) none)
default_verify-tx_bytes version is os locktime required four few_in few_out vi vo bytes =
    let tx : List ℕ = tx_bytes version is os locktime in
    let long : length tx ≡ length version + suc _ = length-append version _ in
    default_verify-paying (to_hex tx) required (omega (arith, length-to_hex tx, long))
    ∙ ap (λ r. verify_funded r required)
        (max_output_value-to_hex tx bytes
          ∙ max_output_bytes-tx_bytes version is os locktime four few_in few_out vi vo)
    ∙ (unfold verify_funded in refl)

cut_short-IsByte : (v : ℕ) → All IsByte (0 ∷ 0 ∷ 0 ∷ 0 ∷ 0 ∷ 1 ∷ le64 v)
cut_short-IsByte v = omega arith

max_output_bytes-cut_short :
    (v : ℕ) → v < 2 ^ 64 → max_output_bytes (0 ∷ 0 ∷ 0 ∷ 0 ∷ 0 ∷ 1 ∷ le64 v) ≡ ok v
unfolding max_output_bytes byte_at advance advance_by is_long rounds skip_inputs output_value
    max_outputs read_u64 read_u32
max_output_bytes-cut_short v h = ap ok (omega arith)

-- A text that ends behind the value of its only output, with no script and no locktime, is
-- accepted like a transaction with that output, as paying the double that is nearest to it.
pub default_verify-cut_short :
    (v required : ℕ)
    → v < 2 ^ 64
    → required ≤ v
    → default_verify (paying (to_hex (0 ∷ 0 ∷ 0 ∷ 0 ∷ 0 ∷ 1 ∷ le64 v))) required
      ≡ accepted (to_number v) none
default_verify-cut_short v required h k =
    let tx : List ℕ = 0 ∷ 0 ∷ 0 ∷ 0 ∷ 0 ∷ 1 ∷ le64 v in
    let covers : ltb v required ≡ false = ground arith in
    default_verify-paying (to_hex tx) required (omega (arith, length-to_hex tx))
    ∙ ap (λ r. verify_funded r required)
        (max_output_value-to_hex tx (cut_short-IsByte v) ∙ max_output_bytes-cut_short v h)
    ∙ (unfold verify_funded in rw covers refl)
