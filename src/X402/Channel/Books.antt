-- ===== src/X402/Channel/Books.antt =====
-- What a channel of tools/x402-bridge/channel-anchor.ts earns, asks for and is paid, in any order of
-- hops, settlements and answers of the miner: other calls run while a settlement waits for its answer.
use mathlib.Core.Path.{subst}
use semantos_edge.Base.{
  ◌-◌, ◌%◌, ◌^◌, ◌<◌, leb, ap, ◌++◌, Result, thrown, ℕ, ◌+◌, ◌≤◌, ◌≡◌, refl, sym, ◌∙◌, true, false,
  Bool-cases, inl, inr, List, [], ◌∷◌, ltb, if◌then◌else◌, length, All, ok, arith,
}
use semantos_edge.Base.Map.{Str}
use semantos_edge.X402.Channel.{
  ChannelState, TxOut, bits_64, accumulate_hop, settle_outputs, settle_reply,
}

-- The state of a channel that was opened as `start`, what its hops earned while it was not settled,
-- and the outputs of the settlements that were asked for and that the miner confirmed.
pub data Reachable (start : ChannelState)
    : ChannelState → ℕ → List (List TxOut) → List (List TxOut) → Type 0 where
  opened :
      start.device_share_accum ≡ 0
      → start.settled ≡ false
      → start.funding_sats < 2 ^ 64
      → Reachable start start 0 [] []
  hopped :
      {st : ChannelState} {earned : ℕ} {asked paid : List (List TxOut)} (share user seq : ℕ)
      → Reachable start st earned asked paid
      → Reachable start
          (accumulate_hop st share user seq).1
          (if st.settled then earned else earned + share)
          asked
          paid
  requested :
      {st : ChannelState} {earned : ℕ} {asked paid : List (List TxOut)} (outs : List TxOut)
      → Reachable start st earned asked paid
      → settle_outputs st ≡ ok outs
      → Reachable start st earned (outs ∷ asked) paid
  confirmed :
      {st : ChannelState} {earned : ℕ} {asked paid : List (List TxOut)} (txid : Str)
      (before after : List (List TxOut)) (outs : List TxOut)
      → Reachable start st earned asked paid
      → asked ≡ before ++ (outs ∷ after)
      → Reachable start (settle_reply (ok txid) st).1 earned asked (outs ∷ paid)

-- The outputs pay the device no more than was earned and the funder the rest of the funding but for the
-- fee, which is 546 satoshis or more, and both by the funding's script.
pub record IsCovered (start : ChannelState) (earned : ℕ) (outs : List TxOut) : Type 0 where
  pub device : ℕ
  pub rest : ℕ
  pub outputs : outs ≡ (
      record { sats = device; lock_hex = start.funding_lock_hex }
      ∷ record { sats = rest; lock_hex = start.funding_lock_hex }
      ∷ [])
  pub no_more : device ≤ earned
  pub above : 546 ≤ rest
  pub whole : device + rest + 200 ≡ start.funding_sats

pub record IsBooked (start st : ChannelState) (earned : ℕ) (asked paid : List (List TxOut))
    : Type 0 where
  pub device : st.device_share_accum ≡ earned
  pub funding : st.funding_sats ≡ start.funding_sats
  pub script : st.funding_lock_hex ≡ start.funding_lock_hex
  pub small : start.funding_sats < 2 ^ 64
  pub requests : All (IsCovered start earned) asked
  pub payments : All (IsCovered start earned) paid
  pub settled : ltb 0 (length paid) ≡ st.settled

settle_outputs-covered :
    (st : ChannelState) (outs : List TxOut)
    → settle_outputs st ≡ ok outs
    → (st.settled ≡ false) × (st.device_share_accum + 746 ≤ st.funding_sats)
unfolding settle_outputs
settle_outputs-covered st outs h = (ground arith, ground arith)

settle_outputs-built :
    (st : ChannelState)
    → st.settled ≡ false
    → st.device_share_accum + 746 ≤ st.funding_sats
    → st.funding_sats < 2 ^ 64
    → settle_outputs st
      ≡ ok (
          record { sats = st.device_share_accum; lock_hex = st.funding_lock_hex }
          ∷ record {
            sats = st.funding_sats - (st.device_share_accum + 200);
            lock_hex = st.funding_lock_hex;
          }
          ∷ [])
unfolding settle_outputs bits_64
settle_outputs-built st e covered small =
    let left : ℕ = st.funding_sats - (st.device_share_accum + 200) in
    let enough : leb (st.device_share_accum + 200) st.funding_sats ≡ true = ground arith in
    let above_dust : leb (546 + 0) (left + 0) ≡ true = ground arith in
    let first : st.device_share_accum % 2 ^ 64 ≡ st.device_share_accum = omega arith in
    let second : left % 2 ^ 64 ≡ left = omega arith in
    rw e (rw enough (rw above_dust (rw (first, second) refl)))

abbrev outs_of : Result (List TxOut) → List TxOut
outs_of thrown = []
outs_of (ok outs) = outs

settle_outputs-IsCovered :
    (start st : ChannelState) (earned : ℕ) (asked paid : List (List TxOut)) (outs : List TxOut)
    → IsBooked start st earned asked paid
    → settle_outputs st ≡ ok outs
    → IsCovered start earned outs
settle_outputs-IsCovered start st earned asked paid outs b h =
    let covered = settle_outputs-covered st outs h in
    let enough = covered.1 in
    let device = b.device in
    let funding = b.funding in
    let small = b.small in
    let left : ℕ = st.funding_sats - (st.device_share_accum + 200) in
    let built = settle_outputs-built st covered.0 enough (omega arith) in
    record {
      device = st.device_share_accum;
      rest = left;
      outputs = ap outs_of (sym h ∙ built) ∙ (λ i.
          record { sats = st.device_share_accum; lock_hex = b.script i }
          ∷ record { sats = left; lock_hex = b.script i }
          ∷ []);
      no_more = omega arith;
      above = omega arith;
      whole = omega arith;
    }

All-more :
    (start : ChannelState) (a b : ℕ) (xs : List (List TxOut))
    → a ≤ b
    → All (IsCovered start a) xs
    → All (IsCovered start b) xs
All-more start a b [] h all = tt
All-more start a b (x ∷ xs) h (c, all) =
    let no_more = c.no_more in
    (
      record {
        device = c.device;
        rest = c.rest;
        outputs = c.outputs;
        no_more = omega arith;
        above = c.above;
        whole = c.whole;
      },
      All-more start a b xs h all,
    )

All-behind {κ} :
    (P : List TxOut → Type κ) (xs : List (List TxOut)) (y : List TxOut) (ys : List (List TxOut))
    → All P (xs ++ (y ∷ ys))
    → P y
All-behind P [] y ys (p, all) = p
All-behind P (x ∷ xs) y ys (p, all) = All-behind P xs y ys all

hopped-IsBooked :
    (start st : ChannelState) (earned : ℕ) (asked paid : List (List TxOut)) (share user seq : ℕ)
    → IsBooked start st earned asked paid
    → IsBooked start
        (accumulate_hop st share user seq).1
        (if st.settled then earned else earned + share)
        asked
        paid
unfolding accumulate_hop
hopped-IsBooked start st earned asked paid share user seq b = elim (Bool-cases st.settled) [
  | inl e ↦ rw e (record {
    device = b.device;
    funding = b.funding;
    script = b.script;
    small = b.small;
    requests = b.requests;
    payments = b.payments;
    settled = b.settled ∙ e;
  })
  | inr e ↦
      let device = b.device in
      let more : earned ≤ earned + share = omega arith in
      rw e (record {
        device = omega arith;
        funding = b.funding;
        script = b.script;
        small = b.small;
        requests = All-more start earned (earned + share) asked more b.requests;
        payments = All-more start earned (earned + share) paid more b.payments;
        settled = b.settled ∙ e;
      })
]

confirmed-IsBooked :
    (start st : ChannelState) (earned : ℕ) (asked paid : List (List TxOut)) (txid : Str)
    (before after : List (List TxOut)) (outs : List TxOut)
    → IsBooked start st earned asked paid
    → asked ≡ before ++ (outs ∷ after)
    → IsBooked start (settle_reply (ok txid) st).1 earned asked (outs ∷ paid)
unfolding settle_reply
confirmed-IsBooked start st earned asked paid txid before after outs b h = record {
  device = b.device;
  funding = b.funding;
  script = b.script;
  small = b.small;
  requests = b.requests;
  payments = (
    All-behind (IsCovered start earned) before outs after
        (subst (All (IsCovered start earned)) h b.requests),
    b.payments,
  );
  settled = ground arith;
}

-- Whatever the order of hops, of settlements that are asked for and of the miner's answers, hops
-- between a request and its answer included, a channel that was opened with nothing earned, not
-- settled and with a funding of 64 bits has accumulated exactly the device's shares of the hops that
-- came before the first confirmed settlement. The two outputs of each settlement that was asked for
-- or confirmed pay the device no more than that, and the funder at least 546 satoshis: what is left
-- of the funding behind the device's output and the fee of 200. The channel counts as settled exactly
-- if a settlement was confirmed.
pub Reachable-IsBooked :
    (start st : ChannelState) (earned : ℕ) (asked paid : List (List TxOut))
    → Reachable start st earned asked paid
    → IsBooked start st earned asked paid
Reachable-IsBooked start _ _ _ _ (opened none_earned is_open few) = record {
  device = none_earned;
  funding = refl;
  script = refl;
  small = few;
  requests = tt;
  payments = tt;
  settled = sym is_open;
}
Reachable-IsBooked start _ _ _ _ (hopped {st} {earned} {asked} {paid} share user seq r) =
    hopped-IsBooked start st earned asked paid share user seq
      (Reachable-IsBooked start st earned asked paid r)
Reachable-IsBooked start _ _ _ _ (requested {st} {earned} {asked} {paid} outs r h) =
    let b = Reachable-IsBooked start st earned asked paid r in
    record {
      device = b.device;
      funding = b.funding;
      script = b.script;
      small = b.small;
      requests = (settle_outputs-IsCovered start st earned asked paid outs b h, b.requests);
      payments = b.payments;
      settled = b.settled;
    }
Reachable-IsBooked start _ _ _ _
      (confirmed {st} {earned} {asked} {paid} txid before after outs r h) =
    confirmed-IsBooked start st earned asked paid txid before after outs
      (Reachable-IsBooked start st earned asked paid r) h
