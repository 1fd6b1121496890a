-- ===== src/X402/Meter/Session.antt =====
-- The operations of `ChannelMeter` (tools/x402-bridge/meter.ts).
use semantos_edge.Base.{
  ℕ, zero, suc, ◌+◌, ◌-◌, ◌*◌, ◌/◌, max, Bool, true, false, ◌||◌, Option, none, some, List, [], ◌∷◌,
  ◌++◌, ltb, leb, if◌then◌else◌, Result, ok, thrown, length,
}
use semantos_edge.Base.Map.{Str}
use semantos_edge.X402.Meter.{
  MeterSettings, MeterState, Meter, FrameKind, open_channel, commitment, close_channel, Frame, Air,
  broken, unheard, heard, Run, ◌>>=◌, return, lift, Done, modify, ask,
}
use semantos_edge.X402.Meter.Frames.{encode_open, encode_commitment, encode_close, sealed_cell}

-- What a meter starts with: the state of the file, or a channel with the id that is drawn.
abbrev pub fresh_state : Str → ℕ → MeterState
fresh_state id sats_paid = record {
  channel_id_hex = id;
  seq = 0;
  share = 0;
  sats_paid = sats_paid;
  meter_start_at = none;
}

-- consumedAt in millionths of a satoshi: milliseconds times thousandths per second
unfoldable pub consumed_at : ℕ → MeterState → ℕ → ℕ
consumed_at rate s t = elim s.meter_start_at [ none ↦ 0 | some from ↦ (t - from) * rate ]

-- Math.ceil of millionths
abbrev pub whole_sats : ℕ → ℕ
whole_sats millionths = (millionths + 999999) / 1000000

pub record MeterStatus : Type 0 where
  pub channel_id : Str
  pub seq : ℕ
  pub share : ℕ
  pub sats_paid : ℕ
  -- tenths of a second
  pub seconds_left : ℕ
  pub lit : Bool

-- Math.round of tenths: millionths left, of `100 * rate` millionths in a tenth of a second
abbrev pub tenths_of : ℕ → ℕ → ℕ
tenths_of rate millionths = (2 * millionths + 100 * rate) / (200 * rate)

unfoldable pub status_at : ℕ → MeterState → ℕ → MeterStatus
status_at rate s t =
    let left = s.share * 1000000 - consumed_at rate s t in
    record {
      channel_id = s.channel_id_hex;
      seq = s.seq;
      share = s.share;
      sats_paid = s.sats_paid;
      seconds_left = tenths_of rate left;
      lit = ltb 0 left;
    }

-- { ok, secondsAdded, secondsLeft, error }
pub data Added : Type 0 where
  lit_for : ℕ → ℕ → Added
  not_broadcast : ℕ → Added

-- writeFileSync and renameSync, either of which may throw
unfoldable pub saved_by : List Bool → Run Done
saved_by [] m = (ok tt, record m { saved = m.state })
saved_by (true ∷ d) m = (ok tt, record m { saved = m.state; disk = d })
saved_by (false ∷ d) m = (thrown, record m { disk = d })

-- The clock by the number of the reading, the injector by the number of the cell, and the random
-- channel ids by the number of the draw; SHA-256 and the signature of a cell.
module _ (sha256 : List ℕ → List ℕ) (sign_cell : List ℕ → List ℕ) (clock : ℕ → ℕ) (air : ℕ → Air)
    (random_id : ℕ → Str) (cfg : MeterSettings) where
  unfoldable pub now : Run ℕ
  now m = (ok (clock m.reads), record m { reads = m.reads + 1 })

  unfoldable pub save : Run Done
  save m = saved_by m.disk m

  heard_of : Air → Result Bool
  heard_of broken = thrown
  heard_of unheard = ok false
  heard_of heard = ok true

  unfoldable pub broadcast : Frame → Run Bool
  unfolding heard_of
  broadcast f m = (heard_of (air (length m.sent)), record m { sent = m.sent ++ (f ∷ []) })

  -- The cell is made before anything is broadcast.
  unfoldable pub seal : FrameKind → List ℕ → Run Frame
  seal kind payload = do
    at ← now
    let f : Frame = record { kind = kind; payload = payload; timestamp_ms = at }
    cell ← lift (sealed_cell sha256 sign_cell cfg.pub_key f)
    return f

  unfoldable pub copies : ℕ → Frame → Bool → Run Bool
  copies zero f any = return any
  copies (suc n) f any = do went ← broadcast f; copies n f (went || any)

  unfoldable pub send : FrameKind → List ℕ → ℕ → Run Bool
  send kind payload times = do f ← seal kind payload; copies times f false

  unfoldable pub send_open : ℕ → Run Bool
  send_open times = do
    at ← now
    id ← ask (λ m. m.state.channel_id_hex)
    payload ← lift (encode_open cfg.pub_key id at)
    went ← send open_channel payload times
    if went
        then (do t ← now; ignored ← modify (λ m. record m { last_open_at = some t }); return went)
        else return went

  -- The repeats of the last commitment, whose failure is caught.
  unfoldable pub flush : Run Done
  flush m = elim m.tail [
    | none ↦ (ok tt, m)
    | some (f, n) ↦ (ok tt, record (copies n f false m).1 { tail = none })
  ]

  -- The last commitment and the end of the channel, if there was one.
  unfoldable pub end_channel : Run Done
  end_channel = do
    s ← ask (λ m. m.state)
    if ltb 0 s.seq
        then (do
          last ← lift (encode_commitment s.channel_id_hex s.seq s.share)
          ignored ← send commitment last 1
          end ← lift (encode_close s.channel_id_hex s.seq s.share)
          ignored ← send close_channel end cfg.repeat
          return tt)
        else return tt

  unfoldable pub draw : Run Str
  draw m = (ok (random_id m.draws), record m { draws = m.draws + 1 })

  unfoldable pub new_session : Run Bool
  new_session = do
    ignored ← end_channel
    id ← draw
    ignored ← modify (λ m. record m { state = fresh_state id m.state.sats_paid })
    ignored ← save
    send_open cfg.repeat

  unfoldable pub start : Run Bool
  start = do
    ignored ← flush
    seq ← ask (λ m. m.state.seq)
    if ltb 0 seq then new_session else send_open cfg.repeat

  -- this.state.seq > 0 && this.consumedAt(this.now()) >= this.state.share
  unfoldable pub is_dark : Run Bool
  is_dark = do
    s ← ask (λ m. m.state)
    if ltb 0 s.seq
        then (do t ← now; return (leb (s.share * 1000000) (consumed_at cfg.rate s t)))
        else return false

  -- this.lastOpenAt === null || this.now() - this.lastOpenAt > this.reopenEveryMs
  unfoldable pub reopens : Run Bool
  reopens = do
    last ← ask (λ m. m.last_open_at)
    elim last [
      | none ↦ return true
      | some at ↦ (do t ← now; return (ltb (at + cfg.reopen_every_ms) t))
    ]

  -- The channel that a payment is after_commit in.
  unfoldable pub prepare : Run Bool
  prepare = do
    dark ← is_dark
    if dark then new_session else (do again ← reopens; if again then send_open 1 else return true)

  -- The share that `sats` more are after_commit as: they start from what the chip will have consumed
  -- when the commitment lands.
  unfoldable pub next_share : MeterState → ℕ → ℕ → ℕ
  next_share s at sats =
      max s.share (whole_sats (consumed_at cfg.rate s (at + cfg.in_flight_ms))) + sats

  -- What a commitment that was broadcast changes.
  unfoldable pub settle : Frame → ℕ → ℕ → Run Done
  settle f share sats = do
    s ← ask (λ m. m.state)
    from ← elim s.meter_start_at [ none ↦ (do t ← now; return (some t)) | some t ↦ return (some t) ]
    ignored ← modify (λ m. record m {
      state = record m.state {
        seq = m.state.seq + 1;
        share = share;
        sats_paid = m.state.sats_paid + sats;
        meter_start_at = from;
      };
    })
    ignored ← save
    modify (λ m. record m {
      tail = if ltb 1 cfg.commit_repeat then some (f, cfg.commit_repeat - 1) else m.tail;
    })

  -- The commitment, and whether the injector broadcast it.
  unfoldable pub commit : ℕ → Run Bool
  commit sats = do
    at ← now
    s ← ask (λ m. m.state)
    let share = next_share s at sats
    payload ← lift (encode_commitment s.channel_id_hex (s.seq + 1) share)
    f ← seal commitment payload
    went ← broadcast f
    if went then (do ignored ← settle f share sats; return went) else return went

  unfoldable pub status : Run MeterStatus
  status = do t ← now; ask (λ m. status_at cfg.rate m.state t)

  -- One call, while no other is on its way: the repeats of the one before are waited for by `flush`.
  unfoldable pub add_sats : ℕ → Run Added
  add_sats sats = do
    ignored ← flush
    ignored ← prepare
    went ← commit sats
    left ← status
    return (
        if went
        then lit_for ((20000 * sats + cfg.rate) / (2 * cfg.rate)) left.seconds_left
        else not_broadcast left.seconds_left)

  -- The constructor, with the state that `load` found, if it did.
  unfoldable pub new_meter : Option MeterState → List Bool → Meter
  new_meter loaded disk =
      let state : MeterState = elim loaded [ none ↦ fresh_state (random_id 0) 0 | some s ↦ s ] in
      record {
        state = state;
        last_open_at = none;
        tail = none;
        saved = state;
        disk = disk;
        sent = [];
        reads = 0;
        draws = elim loaded [ none ↦ 1 | some s ↦ 0 ];
      }
