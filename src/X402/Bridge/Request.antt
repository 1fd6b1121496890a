-- ===== src/X402/Bridge/Request.antt =====
-- The part of `activate` (tools/x402-bridge/bridge.ts) up to the broadcast of a payment, and what
-- follows it.
use semantos_edge.Base.{
  ℕ, Bool, true, false, ◌&&◌, ◌||◌, Option, none, some, List, [], ◌∷◌, ◌++◌, leb, if◌then◌else◌,
  length, Result, ok, thrown,
}
use semantos_edge.Base.Int.{pos}
use semantos_edge.Base.Map.{Str, str_eq, put}
use semantos_edge.Templog.Text.{codes, to_hex}
use semantos_edge.Templog.Json.{Json, str, num, Fields, member}
use semantos_edge.X402.Payment.{Headers, VerifyResult, accepted, rejected, build_challenge_headers}
use semantos_edge.X402.Bridge.{
  Settings, Bridge, Response, Body, choose_between, payment_required, malformed_payment,
  payment_rejected, already_used, broadcast_failed, queued_as, least, new_ticket,
}

-- used.has, used.add, used.delete
unfoldable pub has : Str → List Str → Bool
has t [] = false
has t (u ∷ us) = str_eq u t || has t us

unfoldable pub insert : Str → List Str → List Str
insert t us = if has t us then us else us ++ (t ∷ [])

unfoldable pub delete_from : Str → List Str → List Str
delete_from t [] = []
delete_from t (u ∷ us) = let rest = delete_from t us in if str_eq u t then rest else u ∷ rest

abbrev pub json : Headers
json = (codes "content-type", codes "application/json") ∷ []

-- this.error(status, message)
abbrev pub refuse : ℕ → Body → Response
refuse status body = record { status = status; headers = json; body = body }

-- min <= chosen <= maxSats for a whole number
unfoldable pub within : Option ℕ → Option ℕ → ℕ → Bool
within (some low) (some high) n = leb low n && leb n high
within _ _ n = false

whole_within : Option ℕ → Option ℕ → Json → Option ℕ
whole_within low high (num (pos n)) = if within low high n then some n else none
whole_within low high _ = none

-- opts.sats ?? this.meterOptions[0]
chosen : List ℕ → Option Json → Json
chosen options (some sats) = sats
chosen [] none = Json.undefined
chosen (n ∷ ns) none = num (pos n)

-- The price of one activation, or none where what was chosen is out of the bounds.
unfoldable pub price_of : Settings → Option Json → Option ℕ
unfolding whole_within chosen
price_of cfg sats =
    if cfg.metered
    then whole_within (least cfg.meter_options) cfg.max_sats (chosen cfg.meter_options sats)
    else some cfg.offer.cost_sats

-- A payment whose txid is claimed: what is left of the request.
pub record Claim : Type 0 where
  pub ticket : Str
  pub satoshis_paid : ℕ
  pub transaction : Json
  pub claimed_txid : Json
  pub verified_txid : Option Str

-- The challenge, which throws for a price of 0.
unfoldable pub challenge : Settings → ℕ → Str → Result Response
challenge cfg price prefix = elim (build_challenge_headers (pos price) prefix) [
  | thrown ↦ thrown
  | ok headers ↦ ok (record {
    status = 402;
    headers = headers ++ json;
    body = payment_required price (to_hex cfg.offer.offer_id) cfg.receive_script;
  })
]

-- What a request comes to before anything is awaited.
pub data Received : Type 0 where
  answered : Response → Received
  threw : Received
  claimed : Claim → Received

unfoldable pub challenged : Result Response → Received
challenged thrown = threw
challenged (ok r) = answered r

unfoldable pub non_empty : Option Str → Option Str
non_empty none = none
non_empty (some []) = none
non_empty (some (c ∷ s)) = some (c ∷ s)

-- The parser of transactions (@bsv/sdk), SHA-256 in hexadecimal, JSON.stringify and toLowerCase are
-- parameters.
module _ (tx_id : Str → Option Str) (hash : Str → Str) (stringify : Json → Str)
    (to_lower : Str → Str) where
  key_of_transaction : Json → Str
  key_of_transaction (str t) = elim (tx_id t) [ some id ↦ id | none ↦ hash (to_lower t) ]
  key_of_transaction j = hash (stringify j)

  -- paymentKey
  unfoldable pub payment_key : Json → Option Str → Str
  unfolding key_of_transaction non_empty
  payment_key transaction txid = elim (non_empty txid) [
    | some id ↦ to_lower id
    | none ↦ key_of_transaction transaction
  ]

-- A payment lights once: its key is claimed before anything awaits.
unfoldable pub claim : Claim → Bridge → Received × Bridge
claim c b =
    if has c.ticket b.used
    then (answered (refuse 409 (already_used c.ticket)), b)
    else (claimed c, record b { used = insert c.ticket b.used })

-- The payment header, read and verified, and the key of a payment.
module _ (parse : Str → Result Fields) (verify : Fields → ℕ → VerifyResult)
    (key : Json → Option Str → Str) where
  claim_of : Fields → ℕ → Option Str → Claim
  claim_of payment paid txid =
      let transaction = member (codes "transaction") payment in
      record {
        ticket = key transaction txid;
        satoshis_paid = paid;
        transaction = transaction;
        claimed_txid = member (codes "txid") payment;
        verified_txid = txid;
      }

  unfoldable pub verified : Fields → VerifyResult → Bridge → Received × Bridge
  unfolding claim_of
  verified payment (rejected reason) b = (answered (refuse 402 (payment_rejected reason)), b)
  verified payment (accepted paid txid) b = claim (claim_of payment paid txid) b

  unfoldable pub with_payment : ℕ → Result Fields → Bridge → Received × Bridge
  with_payment price thrown b = (answered (refuse 400 malformed_payment), b)
  with_payment price (ok payment) b = verified payment (verify payment price) b

  unfoldable pub with_header : Settings → ℕ → Option Str → Str → Bridge → Received × Bridge
  with_header cfg price none prefix b = (challenged (challenge cfg price prefix), b)
  with_header cfg price (some header) prefix b = with_payment price (parse header) b

  -- `activate` up to its first await; `prefix` is the nonce that is drawn for a challenge.
  unfoldable pub receive : Settings → Option Str → Option Json → Str → Bridge → Received × Bridge
  receive cfg header sats prefix b = elim (price_of cfg sats) [
    | none ↦ (answered (refuse 400 (choose_between (least cfg.meter_options) cfg.max_sats)), b)
    | some price ↦ with_header cfg price (non_empty header) prefix b
  ]

-- this.broadcastOnVerify && typeof payment.transaction === 'string'
is_string : Json → Bool
is_string (str t) = true
is_string _ = false

unfoldable pub broadcasts : Settings → Claim → Bool
unfolding is_string
broadcasts cfg c = cfg.broadcast_on_verify && is_string c.transaction

-- (typeof payment.txid === 'string' && payment.txid) || v.txid
unfoldable pub payer_txid : Claim → Option Str
payer_txid c = elim c.claimed_txid [ str (d ∷ s) ↦ some (d ∷ s) | other ↦ c.verified_txid ]

-- An activation in the queue.
pub record Job : Type 0 where
  pub ticket : Str
  pub satoshis_paid : ℕ
  pub txid : Option Str

-- `enqueue`: the job that is chained onto the queue, and the bridge with its ticket.
unfoldable pub job_of : Claim → Option Str → Job
job_of c txid = record { ticket = c.ticket; satoshis_paid = c.satoshis_paid; txid = txid }

unfoldable pub enqueue : Str → Bridge → Bridge
enqueue ticket b = record b {
  tickets = put ticket new_ticket b.tickets;
  pending = b.pending ++ (ticket ∷ []);
}

-- The answer to a caller that does not wait, made with the bridge as it was before `enqueue`.
unfoldable pub accepted_response : Job → Bridge → Response
accepted_response j b = record {
  status = 202;
  headers = json;
  body = queued_as j.ticket (length b.pending) (non_empty j.txid);
}

-- A payment that was not broadcast never settled: its payer may try again.
unfoldable pub release_claim : Claim → Bridge → Response × Bridge
release_claim c b = (refuse 502 broadcast_failed, record b { used = delete_from c.ticket b.used })
