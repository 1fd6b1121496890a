-- ===== src/Templog/Codec.antt =====
-- The batch and ack payloads of tools/templog-bridge/codec.ts.
pub mod Layout
pub mod RoundTrip
pub mod Acks
mod Examples
use semantos_edge.Base.{
  ℕ, zero, suc, ◌+◌, ◌-◌, ◌*◌, ◌%◌, ◌^◌, ◌≡◌, Bool, true, false, not, ◌&&◌, ◌||◌, Option, none,
  some, List, [], ◌∷◌, ◌++◌, ltb, leb, ◌==◌, if◌then◌else◌, get_or, set, length, replicate, take,
  drop, Result, ok, thrown, ◌>>=◌,
}
use semantos_edge.Base.Int.{ℤ, pos, negsuc, leb_ℤ}
use semantos_edge.Base.Map.{Str}
use semantos_edge.Base.Bytes.{set_at, slice}
use semantos_edge.Cell.Words.{write_u16, write_u32, read_u16, read_u32}
use semantos_edge.Templog.Mac.{mac_to_bytes, mac_to_string}
use semantos_edge.Templog.Batch.{BatchHeader, BatchSample, DecodedBatch}

-- (PAYLOAD_SIZE - BATCH_HEADER_SIZE) / SAMPLE_SIZE
abbrev pub batch_max_samples : ℕ
batch_max_samples = 91

-- checkInt, over whole numbers.
unfoldable pub check_int : ℤ → ℤ → ℤ → Result ℤ
check_int v low high = if not (leb_ℤ low v) || not (leb_ℤ v high) then thrown else ok v

-- A number in a range of naturals, as the natural that it is.
natural : Result ℤ → Result ℕ
natural thrown = thrown
natural (ok (pos n)) = ok n
natural (ok (negsuc n)) = thrown

unfoldable pub u32 : ℤ → Result ℕ
unfolding check_int natural
u32 v = natural (check_int v (pos 0) (pos 0xffff_ffff))

unfoldable pub u8 : ℤ → Result ℕ
unfolding check_int natural
u8 v = natural (check_int v (pos 0) (pos 0xff))

unfoldable pub i16 : ℤ → Result ℤ
unfolding check_int
i16 v = check_int v (negsuc 0x7fff) (pos 0x7fff)

-- v & 0xffff, on two's complement
unfoldable pub low_16 : ℤ → ℕ
low_16 (pos n) = n % 2 ^ 16
low_16 (negsuc n) = 0xffff - n % 2 ^ 16

-- (readU16LE(b, o) << 16) >> 16
unfoldable pub read_i16 : List ℕ → ℕ → ℤ
read_i16 b o = let v = read_u16 b o in if ltb v 0x8000 then pos v else negsuc (0xffff - v)

-- What a sender chooses for a batch header. `flags` may be left out.
pub record BatchHeaderFields : Type 0 where
  pub first_seq : ℤ
  pub boot_id : ℤ
  pub boot_now : ℤ
  pub uptime_now_s : ℤ
  pub boot_epoch_s : ℤ
  pub lost_through : ℤ
  pub sample_interval_s : ℤ
  pub policy_min_centi : ℤ
  pub policy_max_centi : ℤ
  pub log_id : ℤ
  pub flags : Option ℤ

pub record SampleFields : Type 0 where
  pub uptime_s : ℤ
  pub centi_c : ℤ
  pub flags : ℤ

-- h.flags ?? 0
or_zero : Option ℤ → ℤ
or_zero none = pos 0
or_zero (some v) = v

put_u32 : ℕ → ℤ → List ℕ → Result (List ℕ)
put_u32 o v p = do n ← u32 v; ok (write_u32 p o n)

put_i16 : ℕ → ℤ → List ℕ → Result (List ℕ)
put_i16 o v p = do n ← i16 v; ok (write_u16 p o (low_16 n))

put_u8 : ℕ → ℤ → List ℕ → Result (List ℕ)
put_u8 o v p = do n ← u8 v; ok (set p o n)

-- The writes of the header into the new array.
encode_header : BatchHeaderFields → ℕ → List ℕ → Result (List ℕ)
unfolding put_u32 put_i16 put_u8 or_zero
encode_header h count p = do
  p ← put_u8 1 (or_zero h.flags) (set p 0 0)
  p ← put_u32 4 h.first_seq (write_u16 p 2 count)
  p ← put_u32 8 h.boot_id p
  p ← put_u32 12 h.boot_now p
  p ← put_u32 16 h.uptime_now_s p
  p ← put_u32 20 h.boot_epoch_s p
  p ← put_u32 24 h.lost_through p
  p ← put_u32 28 h.sample_interval_s p
  p ← put_i16 32 h.policy_min_centi p
  p ← put_i16 34 h.policy_max_centi p
  put_u32 36 h.log_id p

encode_sample : ℕ → SampleFields → List ℕ → Result (List ℕ)
unfolding put_u32 put_i16 put_u8
encode_sample o s p = do
  p ← put_u32 o s.uptime_s p
  p ← put_i16 (o + 4) s.centi_c p
  p ← put_u8 (o + 6) s.flags p
  ok (set p (o + 7) 0)

-- samples.forEach, from sample `i` on.
encode_samples : ℕ → List SampleFields → List ℕ → Result (List ℕ)
encode_samples i [] p = ok p
encode_samples i (s ∷ ss) p = encode_sample (40 + i * 8) s p >>= encode_samples (i + 1) ss

unfoldable pub encode_batch : BatchHeaderFields → List SampleFields → Result (List ℕ)
unfolding encode_header encode_samples encode_sample
encode_batch h samples = if ltb batch_max_samples (length samples) then thrown else do
  p ← encode_header h (length samples) (replicate (40 + length samples * 8) 0)
  encode_samples 0 samples p

unfoldable pub decode_sample : List ℕ → ℕ → ℕ → BatchSample
decode_sample p first_seq i =
    let o = 40 + i * 8 in
    record {
      seq = (first_seq + i) % 2 ^ 32;
      uptime_s = read_u32 p o;
      centi_c = read_i16 p (o + 4);
      flags = get_or p (o + 6) 0;
    }

-- The loop over the samples, with `n` of them to go.
unfoldable pub decode_samples : ℕ → ℕ → List ℕ → ℕ → List BatchSample
decode_samples zero i p first_seq = []
decode_samples (suc n) i p first_seq =
    decode_sample p first_seq i ∷ decode_samples n (i + 1) p first_seq

unfoldable pub decode_header : List ℕ → BatchHeader
decode_header p = record {
  version = get_or p 0 0;
  flags = get_or p 1 0;
  count = read_u16 p 2;
  first_seq = read_u32 p 4;
  boot_id = read_u32 p 8;
  boot_now = read_u32 p 12;
  uptime_now_s = read_u32 p 16;
  boot_epoch_s = read_u32 p 20;
  lost_through = read_u32 p 24;
  sample_interval_s = read_u32 p 28;
  policy_min_centi = read_i16 p 32;
  policy_max_centi = read_i16 p 34;
  log_id = read_u32 p 36;
}

unfoldable pub decode_batch : List ℕ → Option DecodedBatch
decode_batch p =
    if ltb (length p) 40
    then none
    else if not (get_or p 0 0 == 0)
    then none
    else let count = read_u16 p 2 in
      if ltb batch_max_samples count
      then none
      else if ltb (length p) (40 + count * 8)
      then none
      else some
          (record { header = decode_header p; samples = decode_samples count 0 p (read_u32 p 4) })

pub record Ack : Type 0 where
  pub target_mac : Str
  pub acked_through : ℕ
  pub host_unix_s : ℕ

unfoldable pub encode_ack : Str → ℤ → ℤ → Result (List ℕ)
unfolding put_u32
encode_ack target_mac acked_through host_unix_s = do
  mac ← mac_to_bytes target_mac
  p ← set_at (set (replicate 16 0) 0 0) 2 mac
  p ← put_u32 8 acked_through p
  put_u32 12 host_unix_s p

-- The six bytes of the MAC are there, so `macToString` does not throw.
unfoldable pub decode_ack : List ℕ → Option Ack
decode_ack p =
    if ltb (length p) 16
    then none
    else if not (get_or p 0 0 == 0)
    then none
    else elim (mac_to_string (slice 2 6 p)) [
      | thrown ↦ none
      | ok mac ↦
          some
            (record { target_mac = mac; acked_through = read_u32 p 8; host_unix_s = read_u32 p 12 })
    ]
