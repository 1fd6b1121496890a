-- ===== src/Templog/Sim/Node.antt =====
-- `SimNode` of tools/templog-bridge/sim.ts. The maps `flash` and `epochs`, which the code only looks
-- up, sets and deletes from, are functions.
use semantos_edge.Base.{
  ℕ, zero, suc, ◌+◌, ◌-◌, ◌%◌, max, min, Bool, not, ◌&&◌, ◌||◌, Option, none, some, List, [], ◌∷◌,
  ltb, leb, ◌==◌, if◌then◌else◌, Result, ok, thrown,
}
use semantos_edge.Base.Int.{ℤ, pos, negsuc, pos_part, neg_part, sub_ℕ, leb_ℤ}
use semantos_edge.Base.Map.{Str}
use semantos_edge.Templog.Codec.{SampleFields, encode_batch}

pub record FlashRecord : Type 0 where
  pub boot_id : ℕ
  pub uptime_s : ℤ
  pub centi_c : ℤ
  pub flags : ℕ

pub record SimNode : Type 0 where
  pub mac : Str
  pub log_id : ℕ
  pub capacity : ℕ
  pub interval_s : ℕ
  pub band_min : ℤ
  pub band_max : ℤ
  pub boot_id : ℕ
  pub next_seq : ℕ
  pub oldest_seq : ℕ
  pub acked_through : ℕ
  pub boot_unix_s : ℤ
  pub flash : ℕ → Option FlashRecord
  pub epochs : ℕ → Option ℤ

abbrev pub or_default {ℓ} : {A : Type ℓ} → Option A → A → A
or_default none d = d
or_default (some a) d = a

-- The fields that the constructor and the initialisers set.
abbrev pub fresh_node : Str → ℕ → ℤ → ℕ → ℕ → ℤ × ℤ → SimNode
fresh_node mac log_id boot_unix_s capacity interval band = record {
  mac = mac;
  log_id = log_id;
  capacity = capacity;
  interval_s = interval;
  band_min = band.0;
  band_max = band.1;
  boot_id = 1;
  next_seq = 1;
  oldest_seq = 1;
  acked_through = 0;
  boot_unix_s = boot_unix_s;
  flash = λ q. none;
  epochs = λ b. none;
}

-- new SimNode({ mac, logId, bootUnixS, capacity, intervalS, band })
unfoldable pub new_node : Str → ℕ → ℤ → Option ℕ → Option ℕ → Option (ℤ × ℤ) → Result SimNode
new_node mac log_id boot_unix_s capacity interval band =
    let capacity = or_default capacity 512 in
    if not (capacity % 256 == 0) || ltb capacity 512
    then thrown
    else ok (
        fresh_node mac log_id boot_unix_s capacity (or_default interval 60)
          (or_default band (negsuc 199, pos 2800)))

-- a - b
unfoldable pub minus_ℤ : ℤ → ℤ → ℤ
minus_ℤ a b = sub_ℕ (pos_part a + neg_part b) (neg_part a + pos_part b)

-- uptimeS(nowUnixS)
unfoldable pub uptime_s : ℤ → SimNode → ℤ
uptime_s now n = minus_ℤ now n.boot_unix_s

-- The loop that deletes the seqs from `from` up to `to`, which it leaves.
unfoldable pub erase : ℕ → ℕ → (ℕ → Option FlashRecord) → ℕ → Option FlashRecord
erase from to flash q = if leb from q && ltb q to then none else flash q

-- Whether writing `seq` begins a sector that holds records already.
unfoldable pub starts_sector : ℕ → ℕ → Bool
starts_sector capacity seq = (seq - 1) % capacity % 256 == 0 && ltb (capacity - 256) seq

-- append, which returns the seq that was next.
unfoldable pub append : SimNode → SimNode
append n =
    let seq = n.next_seq in
    let survivor = seq - (n.capacity - 256) in
    if starts_sector n.capacity seq
    then record n {
      flash = erase n.oldest_seq survivor n.flash;
      oldest_seq = if ltb n.oldest_seq survivor then survivor else n.oldest_seq;
      next_seq = seq + 1;
    }
    else record n { next_seq = seq + 1 }

-- this.flash.set(seq, r)
unfoldable pub write_flash : ℕ → FlashRecord → (ℕ → Option FlashRecord) → ℕ → Option FlashRecord
write_flash seq r flash q = if seq == q then some r else flash q

-- SENSOR_ERROR with no reading, POLICY_REJECT out of the band
unfoldable pub judge : SimNode → Option ℤ → ℕ
judge n none = 0x04
judge n (some c) = if leb_ℤ n.band_min c && leb_ℤ c n.band_max then 0 else 0x01

-- sample(nowUnixS, centiC)
unfoldable pub sample : ℤ → Option ℤ → SimNode → SimNode
sample now reading n =
    let seq = n.next_seq in
    let m = append n in
    record m {
      flash =
          write_flash seq
            (record {
              boot_id = n.boot_id;
              uptime_s = uptime_s now n;
              centi_c = or_default reading (negsuc 32767);
              flags = judge n reading;
            })
            m.flash;
    }

unfoldable pub burn : SimNode → SimNode
burn n = append n

unfoldable pub reboot : ℤ → SimNode → SimNode
reboot now n = record n { boot_id = n.boot_id + 1; boot_unix_s = now }

unfoldable pub lost_through : SimNode → ℕ
lost_through n = if ltb (n.acked_through + 1) n.oldest_seq then n.oldest_seq - 1 else 0

unfoldable pub pending_first : SimNode → ℕ
pending_first n = max (n.acked_through + 1) n.oldest_seq

unfoldable pub pending : SimNode → ℕ
pending n = if ltb (pending_first n) n.next_seq then n.next_seq - pending_first n else 0

-- TEMP_INVALID, RECORD_LOST | SENSOR_ERROR
abbrev pub placeholder : SampleFields
placeholder = record { uptime_s = pos 0; centi_c = negsuc 32767; flags = pos 0x14 }

-- The loop over the seqs, with room for `room` samples more.
unfoldable pub collect : ℕ → ℕ → ℕ → ℕ → (ℕ → Option FlashRecord) → List SampleFields
collect zero seq next boot flash = []
collect (suc room) seq next boot flash =
    let rest = collect room (seq + 1) next boot flash in
    if ltb seq next
    then elim (flash seq) [
      | none ↦ placeholder ∷ rest
      | some r ↦
          if r.boot_id == boot
          then record { uptime_s = r.uptime_s; centi_c = r.centi_c; flags = pos r.flags } ∷ rest
          else []
    ]
    else []

-- head ? head.bootId : this.bootId
unfoldable pub batch_boot : SimNode → ℕ
batch_boot n = elim (n.flash (pending_first n)) [ none ↦ n.boot_id | some r ↦ r.boot_id ]

unfoldable pub batch_samples : SimNode → List SampleFields
batch_samples n = collect 91 (pending_first n) n.next_seq (batch_boot n) n.flash

-- buildBatch(nowUnixS)
unfoldable pub build_batch : ℤ → SimNode → Option (Result (List ℕ))
build_batch now n =
    if pending n == 0
    then none
    else some (
        encode_batch
          (record {
            first_seq = pos (pending_first n);
            boot_id = pos (batch_boot n);
            boot_now = pos n.boot_id;
            uptime_now_s = uptime_s now n;
            boot_epoch_s = or_default (n.epochs (batch_boot n)) (pos 0);
            lost_through = pos (lost_through n);
            sample_interval_s = pos n.interval_s;
            policy_min_centi = n.band_min;
            policy_max_centi = n.band_max;
            log_id = pos n.log_id;
            flags = none;
          })
          (batch_samples n))

unfoldable pub set_epoch : ℕ → ℤ → (ℕ → Option ℤ) → ℕ → Option ℤ
set_epoch boot e epochs b = if boot == b then some e else epochs b

-- applyAck(ackedThrough, hostUnixS, nowUnixS)
unfoldable pub apply_ack : ℕ → ℤ → ℤ → SimNode → SimNode
apply_ack acked_through host_unix_s now n =
    let up = uptime_s now n in
    record n {
      acked_through = min acked_through (n.next_seq - 1);
      epochs =
          if not (leb_ℤ host_unix_s up)
          then set_epoch n.boot_id (minus_ℤ host_unix_s up) n.epochs
          else n.epochs;
    }
