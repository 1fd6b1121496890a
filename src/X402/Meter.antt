-- ===== src/X402/Meter.antt =====
-- The books of `ChannelMeter` (tools/x402-bridge/meter.ts), and the radio and the clock that it
-- works with.
pub mod Frames
pub mod Session
pub mod Runs
pub mod Kept
pub mod Said
pub mod Books
pub mod Payments
mod Examples
use semantos_edge.Base.{
  Bool, ℕ, ◌+◌, max, Option, none, some, List, [], ◌∷◌, ◌++◌, Result, ok, thrown,
}
use semantos_edge.Base.Map.{Str}
use semantos_edge.X402.Bridge.{or_else}

-- The fields that do not change. The rate is in thousandths of a satoshi per second.
pub record MeterSettings : Type 0 where
  pub pub_key : List ℕ
  pub rate : ℕ
  pub reopen_every_ms : ℕ
  pub repeat : ℕ
  pub commit_repeat : ℕ
  pub in_flight_ms : ℕ

pub record MeterConfig : Type 0 where
  pub pub_key : List ℕ
  pub rate : Option ℕ
  pub reopen_every_ms : Option ℕ
  pub repeat : Option ℕ
  pub commit_repeat : Option ℕ
  pub in_flight_ms : Option ℕ

unfoldable pub meter_settings : MeterConfig → MeterSettings
meter_settings cfg = record {
  pub_key = cfg.pub_key;
  rate = or_else cfg.rate 1200;
  reopen_every_ms = or_else cfg.reopen_every_ms 10000;
  repeat = max 1 (or_else cfg.repeat 2);
  commit_repeat = max 1 (or_else cfg.commit_repeat 2);
  in_flight_ms = or_else cfg.in_flight_ms 2600;
}

pub record MeterState : Type 0 where
  pub channel_id_hex : Str
  pub seq : ℕ
  pub share : ℕ
  pub sats_paid : ℕ
  pub meter_start_at : Option ℕ

pub data FrameKind : Type 0 where
  open_channel commitment close_channel : FrameKind

-- A sealed cell, as what it is minted from.
pub record Frame : Type 0 where
  pub kind : FrameKind
  pub payload : List ℕ
  pub timestamp_ms : ℕ

-- What the injector does with a cell: it fails, it does not broadcast in time, it broadcasts.
pub data Air : Type 0 where
  broken unheard heard : Air

-- `tail` is the background repeats that the next operation waits for: they are run when it does.
-- `saved` is the state file, where the meter has one, and `sent` the cells that went to the injector.
-- `disk` is whether the coming writes of the state file succeed; those beyond its end do, as all do
-- where there is no file.
pub record Meter : Type 0 where
  pub state : MeterState
  pub last_open_at : Option ℕ
  pub tail : Option (Frame × ℕ)
  pub saved : MeterState
  pub disk : List Bool
  pub sent : List Frame
  -- how often the clock was read, and random bytes were drawn
  pub reads : ℕ
  pub draws : ℕ

-- A call on the meter: it returns or throws, and leaves the meter.
abbrev pub Run {ℓ} : Type ℓ → Type ℓ
Run A = Meter → Result A × Meter

abbrev pub and_then {ℓ κ} :
    {A : Type ℓ} {B : Type κ} → Result A × Meter → (A → Run B) → Result B × Meter
and_then (ok a, m) k = k a m
and_then (thrown, m) k = (thrown, m)

infixl 5 ◌>>=◌
unfoldable pub ◌>>=◌ {ℓ κ} : {A : Type ℓ} {B : Type κ} → Run A → (A → Run B) → Run B
(r >>= k) m = and_then (r m) k

unfoldable pub return {ℓ} : {A : Type ℓ} → A → Run A
return a m = (ok a, m)

unfoldable pub lift {ℓ} : {A : Type ℓ} → Result A → Run A
lift r m = (r, m)

abbrev pub Done : Type 0
Done = Unit

unfoldable pub modify : (Meter → Meter) → Run Done
modify f m = (ok tt, f m)

unfoldable pub ask {ℓ} : {A : Type ℓ} → (Meter → A) → Run A
ask f m = (ok (f m), m)
