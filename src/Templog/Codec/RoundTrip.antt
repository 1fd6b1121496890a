-- ===== src/Templog/Codec/RoundTrip.antt =====
-- Decoding what the encoder of tools/templog-bridge/codec.ts wrote.
use semantos_edge.Base.{
  ℕ, ◌+◌, ◌-◌, ◌*◌, ◌%◌, ◌^◌, ◌≤◌, ◌<◌, ◌≡◌, refl, sym, ap, ◌∙◌, true, false, some, List, [], ◌∷◌,
  ◌++◌, map, arith, ltb, get_or, length, length-append, All, ok,
}
use mathlib.Core.List.{append_assoc}
use semantos_edge.Base.Int.{ℤ, pos, negsuc}
use semantos_edge.Base.Bytes.{get_or-append}
use semantos_edge.Cell.Words.{
  le16, le32, read_u16, read_u32, read_u16-append, read_u32-append, read_u16-le16, read_u32-le32,
}
use semantos_edge.Templog.Batch.{BatchHeader, BatchSample}
use semantos_edge.Templog.Codec.{
  low_16, read_i16, encode_batch, decode_batch, decode_header, decode_sample, decode_samples,
}
use semantos_edge.Templog.Codec.Layout.{
  IsI16, IsHeader, IsSample, header_fields, sample_fields, header_bytes, sample_bytes,
  samples_bytes, encode_batch-bytes, length-samples_bytes,
}

low_16-bound : (v : ℤ) → low_16 v < 2 ^ 16
unfolding low_16
low_16-bound (pos n) = omega arith
low_16-bound (negsuc n) = omega arith

read_i16-le16 : (v : ℤ) (xs : List ℕ) → IsI16 v → read_i16 (le16 (low_16 v) ++ xs) 0 ≡ v
unfolding read_i16 low_16
read_i16-le16 (pos n) xs h =
    let small : ltb (n % 2 ^ 16) 0x8000 ≡ true = ground arith in
    rw (read_u16-le16 (n % 2 ^ 16) xs (omega arith)) (rw small (ap pos (omega arith)))
read_i16-le16 (negsuc n) xs h =
    let large : ltb (0xffff - n % 2 ^ 16) 0x8000 ≡ false = ground arith in
    rw (read_u16-le16 (0xffff - n % 2 ^ 16) xs (omega arith)) (rw large (ap negsuc (omega arith)))

read_i16-append :
    (pre xs : List ℕ) (o k : ℕ) → o ≡ length pre + k → read_i16 (pre ++ xs) o ≡ read_i16 xs k
unfolding read_i16
read_i16-append pre xs o k h = rw (read_u16-append pre xs o k h) refl

-- The header and the samples that a receiver reads: version 0, the number of samples, and the seqs
-- from `first_seq` on.
abbrev pub sent_header : BatchHeader → ℕ → BatchHeader
sent_header h count = record {
  version = 0;
  flags = h.flags;
  count = count;
  first_seq = h.first_seq;
  boot_id = h.boot_id;
  boot_now = h.boot_now;
  uptime_now_s = h.uptime_now_s;
  boot_epoch_s = h.boot_epoch_s;
  lost_through = h.lost_through;
  sample_interval_s = h.sample_interval_s;
  policy_min_centi = h.policy_min_centi;
  policy_max_centi = h.policy_max_centi;
  log_id = h.log_id;
}

abbrev pub numbered : ℕ → ℕ → List BatchSample → List BatchSample
numbered first i [] = []
numbered first i (s ∷ ss) =
    record {
      seq = (first + i) % 2 ^ 32;
      uptime_s = s.uptime_s;
      centi_c = s.centi_c;
      flags = s.flags;
    }
    ∷ numbered first (i + 1) ss

decode_sample-bytes :
    (pre rest : List ℕ) (s : BatchSample) (first i : ℕ)
    → 40 + i * 8 ≡ length pre
    → IsSample s
    → decode_sample (pre ++ (sample_bytes s ++ rest)) first i ≡ record {
      seq = (first + i) % 2 ^ 32;
      uptime_s = s.uptime_s;
      centi_c = s.centi_c;
      flags = s.flags;
    }
unfolding decode_sample
decode_sample-bytes pre rest s first i h v =
    let o : ℕ = 40 + i * 8 in
    let t : List ℕ = sample_bytes s ++ rest in
    let up : read_u32 (pre ++ t) o ≡ s.uptime_s =
      read_u32-append pre t o 0 (omega arith) ∙ read_u32-le32 s.uptime_s _ v.uptime_s in
    let ce : read_i16 (pre ++ t) (o + 4) ≡ s.centi_c =
      read_i16-append pre t (o + 4) 4 (omega arith)
      ∙ read_i16-append (le32 s.uptime_s) _ 4 0 refl
      ∙ read_i16-le16 s.centi_c _ v.centi_c in
    let fl : get_or (pre ++ t) (o + 6) 0 ≡ s.flags =
      get_or-append pre t (o + 6) 6 0 (omega arith) in
    rw (up, ce, fl) refl

decode_samples-bytes :
    (ss : List BatchSample) (pre : List ℕ) (first i : ℕ)
    → 40 + i * 8 ≡ length pre
    → All IsSample ss
    → decode_samples (length ss) i (pre ++ samples_bytes ss) first ≡ numbered first i ss
unfolding decode_samples
decode_samples-bytes [] pre first i h v = refl
decode_samples-bytes (s ∷ ss) pre first i h (v, vs) =
    let pre' : List ℕ = pre ++ sample_bytes s in
    let split : pre ++ (sample_bytes s ++ samples_bytes ss) ≡ pre' ++ samples_bytes ss =
      sym (append_assoc pre (sample_bytes s) (samples_bytes ss)) in
    let head : decode_sample (pre ++ (sample_bytes s ++ samples_bytes ss)) first i ≡ _ =
      decode_sample-bytes pre (samples_bytes ss) s first i h v in
    let tail : decode_samples (length ss) (i + 1) (pre' ++ samples_bytes ss) first
        ≡ numbered first (i + 1) ss =
      decode_samples-bytes ss pre' first (i + 1) (omega (arith, length-append pre (sample_bytes s)))
        vs in
    rw (head, split, tail) refl

-- The header fields, read from a buffer that starts with `header_bytes`.
decode_header-bytes :
    (h : BatchHeader) (count : ℕ) (rest : List ℕ)
    → IsHeader h
    → count ≤ 91
    → decode_header (header_bytes h count ++ rest) ≡ sent_header h count
unfolding decode_header read_u32 read_u16 read_i16
decode_header-bytes h count rest v few =
    let b : List ℕ = header_bytes h count ++ rest in
    let count_read : read_u16 b 2 ≡ count = read_u16-le16 count [] (omega arith) in
    let first_seq : read_u32 b 4 ≡ h.first_seq = read_u32-le32 h.first_seq [] v.first_seq in
    let boot_id : read_u32 b 8 ≡ h.boot_id = read_u32-le32 h.boot_id [] v.boot_id in
    let boot_now : read_u32 b 12 ≡ h.boot_now = read_u32-le32 h.boot_now [] v.boot_now in
    let uptime_now_s : read_u32 b 16 ≡ h.uptime_now_s =
      read_u32-le32 h.uptime_now_s [] v.uptime_now_s in
    let boot_epoch_s : read_u32 b 20 ≡ h.boot_epoch_s =
      read_u32-le32 h.boot_epoch_s [] v.boot_epoch_s in
    let lost_through : read_u32 b 24 ≡ h.lost_through =
      read_u32-le32 h.lost_through [] v.lost_through in
    let sample_interval_s : read_u32 b 28 ≡ h.sample_interval_s =
      read_u32-le32 h.sample_interval_s [] v.sample_interval_s in
    let log_id : read_u32 b 36 ≡ h.log_id = read_u32-le32 h.log_id [] v.log_id in
    let policy_min_centi : read_i16 b 32 ≡ h.policy_min_centi =
      read_i16-le16 h.policy_min_centi [] v.policy_min_centi in
    let policy_max_centi : read_i16 b 34 ≡ h.policy_max_centi =
      read_i16-le16 h.policy_max_centi [] v.policy_max_centi in
    λ i. record {
      version = 0;
      flags = h.flags;
      count = count_read i;
      first_seq = first_seq i;
      boot_id = boot_id i;
      boot_now = boot_now i;
      uptime_now_s = uptime_now_s i;
      boot_epoch_s = boot_epoch_s i;
      lost_through = lost_through i;
      sample_interval_s = sample_interval_s i;
      policy_min_centi = policy_min_centi i;
      policy_max_centi = policy_max_centi i;
      log_id = log_id i;
    }

-- Encoding a header and at most 91 samples whose fields fit gives a payload, and decoding that
-- payload gives the header with version 0 and the number of samples, and the samples in order with
-- the seqs from `first_seq` on.
pub decode_batch-encode_batch :
    (h : BatchHeader) (ss : List BatchSample)
    → IsHeader h
    → All IsSample ss
    → length ss ≤ 91
    → (p : List ℕ) × (encode_batch (header_fields h) (map sample_fields ss) ≡ ok p)
      × (decode_batch p
          ≡ some
              (record { header = sent_header h (length ss); samples = numbered h.first_seq 0 ss }))
unfolding decode_batch
decode_batch-encode_batch h ss v vs few =
    let n : ℕ = length ss in
    let p : List ℕ = header_bytes h n ++ samples_bytes ss in
    let long : length p ≡ 40 + n * 8 =
      omega (arith, length-append (header_bytes h n) (samples_bytes ss), length-samples_bytes ss) in
    let head : decode_header p ≡ sent_header h n =
      decode_header-bytes h n (samples_bytes ss) v few in
    let cn : read_u16 p 2 ≡ n =
      read_u16-append (0 ∷ h.flags ∷ []) _ 2 0 refl ∙ read_u16-le16 n _ (omega arith) in
    let first : read_u32 p 4 ≡ h.first_seq =
      read_u32-append (0 ∷ h.flags ∷ le16 n) _ 4 0 refl ∙ read_u32-le32 h.first_seq _ v.first_seq in
    let body : decode_samples n 0 p h.first_seq ≡ numbered h.first_seq 0 ss =
      decode_samples-bytes ss (header_bytes h n) h.first_seq 0 refl vs in
    let one : ltb (length p) 40 ≡ false = ground (arith, long) in
    let two : ltb 91 n ≡ false = ground arith in
    let three : ltb (length p) (40 + n * 8) ≡ false = ground (arith, long) in
    (p, encode_batch-bytes h ss v vs few, rw (one, cn, two, three, head, first, body) refl)
