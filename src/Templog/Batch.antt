-- ===== src/Templog/Batch.antt =====
-- The records of tools/templog-bridge/codec.ts that the store takes: a decoded batch and the flag
-- bits of a sample.
use semantos_edge.Base.{ℕ, ◌^◌, ◌<◌, List, All}
use semantos_edge.Base.Int.{ℤ}

pub record BatchHeader : Type 0 where
  pub version : ℕ
  pub flags : ℕ
  pub count : ℕ
  pub first_seq : ℕ
  pub boot_id : ℕ
  pub boot_now : ℕ
  pub uptime_now_s : ℕ
  pub boot_epoch_s : ℕ
  pub lost_through : ℕ
  pub sample_interval_s : ℕ
  pub policy_min_centi : ℤ
  pub policy_max_centi : ℤ
  pub log_id : ℕ

pub record BatchSample : Type 0 where
  pub seq : ℕ
  pub uptime_s : ℕ
  pub centi_c : ℤ
  pub flags : ℕ

pub record DecodedBatch : Type 0 where
  pub header : BatchHeader
  pub samples : List BatchSample

abbrev pub IsU32 : ℕ → Type 0
IsU32 v = v < 2 ^ 32

-- What `decodeBatch` guarantees of the fields that the store computes with.
pub record IsWire (b : DecodedBatch) : Type 0 where
  pub first_seq : IsU32 b.header.first_seq
  pub lost_through : IsU32 b.header.lost_through
  pub log_id : IsU32 b.header.log_id
  pub seqs : All (λ (s : BatchSample). IsU32 s.seq) b.samples

-- SF.RECORD_LOST
abbrev pub record_lost : ℕ
record_lost = 0x10
