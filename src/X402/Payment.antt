-- ===== src/X402/Payment.antt =====
-- tools/x402-bridge/x402.ts: the challenge, the payment header and the default verifier. JSON.parse
-- and the decoding of base64 are parameters.
pub mod Accepts
pub mod Funded
use semantos_edge.Base.{
  ℕ, zero, suc, ◌+◌, ◌-◌, ◌*◌, ◌/◌, ◌%◌, ◌^◌, ◌==◌, ◌&&◌, ◌||◌, max, Bool, true, false, Option,
  none, some, List, [], ◌∷◌, ltb, leb, if◌then◌else◌, length, Result, ok, thrown,
}
use semantos_edge.Base.Int.{ℤ, pos, negsuc}
use semantos_edge.Base.Map.{Str}
use semantos_edge.Cell.Words.{read_u64}
use semantos_edge.Templog.Text.{codes, from_hex}
use semantos_edge.Templog.Serial.{decimal, trim, starts}
use semantos_edge.Templog.Json.{Json, str, arr, obj, Fields, end, member}

abbrev pub Headers : Type 0
Headers = List (Str × Str)

-- buildChallengeHeaders, for a price below 10 ^ 16
unfoldable pub build_challenge_headers : ℤ → Str → Result Headers
build_challenge_headers (negsuc n) prefix = thrown
build_challenge_headers (pos satoshis) prefix =
    if ltb 0 satoshis
    then ok (
        (codes "x-bsv-payment-version", codes "1.0")
        ∷ (codes "x-bsv-payment-satoshis-required", decimal 16 satoshis)
        ∷ (codes "x-bsv-payment-derivation-prefix", prefix)
        ∷ (codes "x-bsv-payment-transports", codes "header,multipart")
        ∷ [])
    else thrown

module _ (parse_json : Str → Option Json) (from_base64 : Str → Str) where
  header_text : Str → Str
  header_text trimmed = if starts (codes "{") trimmed then trimmed else from_base64 trimmed

  -- parsePaymentHeader. An array is an object too, with none of the fields that are read.
  unfoldable pub parse_payment_header : Str → Result Fields
  unfolding header_text
  parse_payment_header header = elim (parse_json (header_text (trim header))) [
    | none ↦ thrown
    | some j ↦ elim j [ obj fields ↦ ok fields | arr items ↦ ok end | other ↦ thrown ]
  ]

-- tx[o], where a number that is none and an index that is out of the array give undefined
unfoldable pub byte_at : List ℕ → Option ℕ → Option ℕ
byte_at b none = none
byte_at [] (some i) = none
byte_at (x ∷ xs) (some zero) = some x
byte_at (x ∷ xs) (some (suc i)) = byte_at xs (some i)

-- o + n for a number o that may be NaN, and for an n that may be undefined
unfoldable pub advance : Option ℕ → ℕ → Option ℕ
advance none n = none
advance (some o) n = some (o + n)

unfoldable pub advance_by : Option ℕ → Option ℕ → Option ℕ
advance_by o none = none
advance_by o (some n) = advance o n

-- n >= 0xfd
unfoldable pub is_long : Option ℕ → Bool
is_long none = false
is_long (some n) = leb 0xfd n

-- How many rounds a loop up to this bound has.
unfoldable pub rounds : Option ℕ → ℕ
rounds none = 0
rounds (some n) = n

-- The loop over the inputs.
unfoldable pub skip_inputs : ℕ → List ℕ → Option ℕ → Result (Option ℕ)
skip_inputs zero tx o = ok o
skip_inputs (suc n) tx o =
    let at = advance o 36 in
    let sl = byte_at tx at in
    let rest = skip_inputs n tx (advance (advance_by (advance at 1) sl) 4) in
    if is_long sl then thrown else rest

-- The eight bytes at o as a number: BigInt(undefined) throws.
unfoldable pub output_value : List ℕ → Option ℕ → Result ℕ
output_value tx none = thrown
output_value tx (some o) = if ltb (length tx) (o + 8) then thrown else ok (read_u64 tx o)

-- The loop over the outputs.
unfoldable pub max_outputs : ℕ → List ℕ → Option ℕ → ℕ → Result ℕ
max_outputs zero tx o most = ok most
max_outputs (suc n) tx o most = elim (output_value tx o) [
  | thrown ↦ thrown
  | ok v ↦
      let sl = byte_at tx (advance o 8) in
      let rest = max_outputs n tx (advance_by (advance o 9) sl) (max most v) in
      if is_long sl then thrown else rest
]

unfoldable pub max_output_bytes : List ℕ → Result ℕ
max_output_bytes tx =
    let in_count = byte_at tx (some 4) in
    if is_long in_count then thrown else elim (skip_inputs (rounds in_count) tx (some 5)) [
      | thrown ↦ thrown
      | ok o ↦
          let out_count = byte_at tx o in
          if is_long out_count then thrown else max_outputs (rounds out_count) tx (advance o 1) 0
    ]

-- maxOutputValue
unfoldable pub max_output_value : Str → Result ℕ
max_output_value raw = max_output_bytes (from_hex raw)

pub data Refusal : Type 0 where
  missing_transaction unparseable : Refusal
  underpaid : ℕ → ℕ → Refusal

pub data VerifyResult : Type 0 where
  accepted : ℕ → Option Str → VerifyResult
  rejected : Refusal → VerifyResult

-- The bits that a double of 53 leaves out of a number below 2 ^ 64, on fuel for eleven.
unfoldable pub spare_bits : ℕ → ℕ → ℕ
spare_bits zero v = 0
spare_bits (suc n) v =
    let rest = spare_bits n (v / 2) in if ltb v 0x20_0000_0000_0000 then 0 else rest + 1

-- Number(v): the nearest double, of two that are as near the one whose last bit is 0
unfoldable pub to_number : ℕ → ℕ
to_number v =
    let unit = 2 ^ spare_bits 11 v in
    let low = v % unit in
    let up = ltb unit (2 * low) || (2 * low == unit && v / unit % 2 == 1) in
    if up then (v / unit + 1) * unit else v / unit * unit

unfoldable pub verify_funded : Result ℕ → ℕ → VerifyResult
verify_funded thrown required = rejected unparseable
verify_funded (ok funded) required =
    if ltb funded required
    then rejected (underpaid funded required)
    else accepted (to_number funded) none

unfoldable pub verify_transaction : Json → ℕ → VerifyResult
verify_transaction (str (c ∷ s)) required = verify_funded (max_output_value (c ∷ s)) required
verify_transaction _ required = rejected missing_transaction

-- DefaultPaymentVerifier.verify
unfoldable pub default_verify : Fields → ℕ → VerifyResult
default_verify payment required = verify_transaction (member (codes "transaction") payment) required
