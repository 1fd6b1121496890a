-- ===== src/Templog/Codec/Layout.antt =====
-- The bytes that the encoders of tools/templog-bridge/codec.ts write.
use semantos_edge.Base.{
  ℕ, ◌+◌, ◌*◌, ◌^◌, ◌≤◌, ◌<◌, ◌≡◌, refl, ap, ◌∙◌, false, some, List, [], ◌∷◌, ◌++◌, map, arith, ltb,
  set, length, length-append, length-map, length-replicate, replicate, All, ok,
}
use mathlib.Core.List.{append_assoc, append-nil}
use semantos_edge.Base.Int.{ℤ, pos, negsuc}
use semantos_edge.Base.Bytes.{overwrite, set-overwrite, overwrite_merge, overwrite_all}
use semantos_edge.Cell.Words.{le16, le32, write_u16_lem, write_u32_lem}
use semantos_edge.Templog.Batch.{BatchHeader, BatchSample, IsU32}
use semantos_edge.Templog.Codec.{
  BatchHeaderFields, SampleFields, u32, u8, i16, low_16, put_u32, put_i16, put_u8, encode_header,
  encode_sample, encode_samples, encode_batch, or_zero,
}

-- -32768..32767
abbrev pub IsI16 : ℤ → Type 0
IsI16 (pos n) = n < 2 ^ 15
IsI16 (negsuc n) = n < 2 ^ 15

pub record IsHeader (h : BatchHeader) : Type 0 where
  pub flags : h.flags < 256
  pub first_seq : IsU32 h.first_seq
  pub boot_id : IsU32 h.boot_id
  pub boot_now : IsU32 h.boot_now
  pub uptime_now_s : IsU32 h.uptime_now_s
  pub boot_epoch_s : IsU32 h.boot_epoch_s
  pub lost_through : IsU32 h.lost_through
  pub sample_interval_s : IsU32 h.sample_interval_s
  pub policy_min_centi : IsI16 h.policy_min_centi
  pub policy_max_centi : IsI16 h.policy_max_centi
  pub log_id : IsU32 h.log_id

pub record IsSample (s : BatchSample) : Type 0 where
  pub uptime_s : IsU32 s.uptime_s
  pub centi_c : IsI16 s.centi_c
  pub flags : s.flags < 256

-- What a sender gives for a header and for a sample with these values.
abbrev pub header_fields : BatchHeader → BatchHeaderFields
header_fields h = record {
  first_seq = pos h.first_seq;
  boot_id = pos h.boot_id;
  boot_now = pos h.boot_now;
  uptime_now_s = pos h.uptime_now_s;
  boot_epoch_s = pos h.boot_epoch_s;
  lost_through = pos h.lost_through;
  sample_interval_s = pos h.sample_interval_s;
  policy_min_centi = h.policy_min_centi;
  policy_max_centi = h.policy_max_centi;
  log_id = pos h.log_id;
  flags = some (pos h.flags);
}

abbrev pub sample_fields : BatchSample → SampleFields
sample_fields s = record { uptime_s = pos s.uptime_s; centi_c = s.centi_c; flags = pos s.flags }

pub u32_pos : (n : ℕ) → IsU32 n → u32 (pos n) ≡ ok n
unfolding u32
u32_pos n h = ground arith

pub u8_pos : (n : ℕ) → n < 256 → u8 (pos n) ≡ ok n
unfolding u8
u8_pos n h = ground arith

pub i16_lem : (v : ℤ) → IsI16 v → i16 v ≡ ok v
unfolding i16
i16_lem (pos n) h = ground arith
i16_lem (negsuc n) h = ground arith

-- A field written right behind the bytes `xs` at the front of an array.
module _ (p xs : List ℕ) (o : ℕ) (h : o ≡ length xs) where
  put_u32_next :
      (n : ℕ) → IsU32 n → put_u32 o (pos n) (overwrite p 0 xs) ≡ ok (overwrite p 0 (xs ++ le32 n))
  unfolding put_u32
  put_u32_next n u =
      rw (u32_pos n u, put_u32)
        (ap ok (write_u32_lem _ o n ∙ overwrite_merge p 0 o xs (le32 n) (omega arith)))

  put_i16_next :
      (v : ℤ)
      → IsI16 v
      → put_i16 o v (overwrite p 0 xs) ≡ ok (overwrite p 0 (xs ++ le16 (low_16 v)))
  unfolding put_i16
  put_i16_next v u =
      rw (i16_lem v u, put_i16)
        (ap ok (write_u16_lem _ o _ ∙ overwrite_merge p 0 o xs (le16 (low_16 v)) (omega arith)))

  put_u8_next :
      (n : ℕ) → n < 256 → put_u8 o (pos n) (overwrite p 0 xs) ≡ ok (overwrite p 0 (xs ++ (n ∷ [])))
  unfolding put_u8
  put_u8_next n u =
      rw (u8_pos n u, put_u8)
        (ap ok (set-overwrite _ o n ∙ overwrite_merge p 0 o xs (n ∷ []) (omega arith)))

  set_next : (n : ℕ) → set (overwrite p 0 xs) o n ≡ overwrite p 0 (xs ++ (n ∷ []))
  set_next n = set-overwrite _ o n ∙ overwrite_merge p 0 o xs (n ∷ []) (omega arith)

abbrev pub sample_bytes : BatchSample → List ℕ
sample_bytes s = le32 s.uptime_s ++ (le16 (low_16 s.centi_c) ++ (s.flags ∷ 0 ∷ []))

abbrev pub samples_bytes : List BatchSample → List ℕ
samples_bytes [] = []
samples_bytes (s ∷ ss) = sample_bytes s ++ samples_bytes ss

encode_sample-bytes :
    (p xs : List ℕ) (o : ℕ) (s : BatchSample)
    → o ≡ length xs
    → IsSample s
    → encode_sample o (sample_fields s) (overwrite p 0 xs)
      ≡ ok (overwrite p 0 (xs ++ sample_bytes s))
unfolding encode_sample
encode_sample-bytes p xs o s h v =
    let ys : List ℕ = xs ++ le32 s.uptime_s in
    let zs : List ℕ = ys ++ le16 (low_16 s.centi_c) in
    let ws : List ℕ = zs ++ (s.flags ∷ []) in
    let long_y : length ys ≡ length xs + 4 = length-append xs (le32 s.uptime_s) in
    let long_z : length zs ≡ length ys + 2 = length-append ys (le16 (low_16 s.centi_c)) in
    let long_w : length ws ≡ length zs + 1 = length-append zs (s.flags ∷ []) in
    let whole : ws ++ (0 ∷ []) ≡ xs ++ sample_bytes s = simp append_assoc refl in
    rw (put_u32_next p xs o h s.uptime_s v.uptime_s, encode_sample)
      (rw (put_i16_next p ys (o + 4) (omega arith) s.centi_c v.centi_c) (
        rw (put_u8_next p zs (o + 6) (omega arith) s.flags v.flags)
          (ap ok (set_next p ws (o + 7) (omega arith) 0 ∙ ap (overwrite p 0) whole))))

encode_samples-bytes :
    (ss : List BatchSample) (p xs : List ℕ) (i : ℕ)
    → 40 + i * 8 ≡ length xs
    → All IsSample ss
    → encode_samples i (map sample_fields ss) (overwrite p 0 xs)
      ≡ ok (overwrite p 0 (xs ++ samples_bytes ss))
unfolding encode_samples
encode_samples-bytes [] p xs i h v = rw append-nil refl
encode_samples-bytes (s ∷ ss) p xs i h (v, vs) =
    rw (encode_sample-bytes p xs (40 + i * 8) s h v, encode_samples)
      (encode_samples-bytes ss p (xs ++ sample_bytes s) (i + 1)
          (omega (arith, length-append xs (sample_bytes s))) vs
        ∙ ap (λ t. ok (overwrite p 0 t)) (append_assoc xs (sample_bytes s) (samples_bytes ss)))

abbrev pub header_bytes : BatchHeader → ℕ → List ℕ
header_bytes h count =
    0 ∷ h.flags ∷ le16 count
    ++ (le32 h.first_seq
        ++ (le32 h.boot_id
            ++ (le32 h.boot_now
                ++ (le32 h.uptime_now_s
                    ++ (le32 h.boot_epoch_s
                        ++ (le32 h.lost_through
                            ++ (le32 h.sample_interval_s
                                ++ (le16 (low_16 h.policy_min_centi)
                                    ++ (le16 (low_16 h.policy_max_centi) ++ le32 h.log_id)))))))))

encode_header-bytes :
    (h : BatchHeader) (count : ℕ) (p : List ℕ)
    → IsHeader h
    → encode_header (header_fields h) count p ≡ ok (overwrite p 0 (header_bytes h count))
unfolding encode_header or_zero
encode_header-bytes h count p v =
    let b0 : List ℕ = 0 ∷ [] in
    let b1 : List ℕ = b0 ++ (h.flags ∷ []) in
    let b2 : List ℕ = b1 ++ le16 count in
    let b3 : List ℕ = b2 ++ le32 h.first_seq in
    let b4 : List ℕ = b3 ++ le32 h.boot_id in
    let b5 : List ℕ = b4 ++ le32 h.boot_now in
    let b6 : List ℕ = b5 ++ le32 h.uptime_now_s in
    let b7 : List ℕ = b6 ++ le32 h.boot_epoch_s in
    let b8 : List ℕ = b7 ++ le32 h.lost_through in
    let b9 : List ℕ = b8 ++ le32 h.sample_interval_s in
    let b10 : List ℕ = b9 ++ le16 (low_16 h.policy_min_centi) in
    let b11 : List ℕ = b10 ++ le16 (low_16 h.policy_max_centi) in
    rw (set-overwrite p 0 0) (
      rw (put_u8_next p b0 1 refl h.flags v.flags) (
        rw (write_u16_lem (overwrite p 0 b1) 2 count ∙ overwrite_merge p 0 2 b1 (le16 count) refl) (
          rw (put_u32_next p b2 4 refl h.first_seq v.first_seq) (
            rw (put_u32_next p b3 8 refl h.boot_id v.boot_id) (
              rw (put_u32_next p b4 12 refl h.boot_now v.boot_now) (
                rw (put_u32_next p b5 16 refl h.uptime_now_s v.uptime_now_s) (
                  rw (put_u32_next p b6 20 refl h.boot_epoch_s v.boot_epoch_s) (
                    rw (put_u32_next p b7 24 refl h.lost_through v.lost_through) (
                      rw (put_u32_next p b8 28 refl h.sample_interval_s v.sample_interval_s) (
                        rw (put_i16_next p b9 32 refl h.policy_min_centi v.policy_min_centi) (
                          rw (put_i16_next p b10 34 refl h.policy_max_centi v.policy_max_centi)
                            (put_u32_next p b11 36 refl h.log_id v.log_id))))))))))))

pub length-samples_bytes : (ss : List BatchSample) → length (samples_bytes ss) ≡ length ss * 8
length-samples_bytes [] = omega arith
length-samples_bytes (s ∷ ss) = omega (arith, length-samples_bytes ss)

-- A batch of at most 91 samples whose fields fit is its header's bytes and its samples' bytes.
pub encode_batch-bytes :
    (h : BatchHeader) (ss : List BatchSample)
    → IsHeader h
    → All IsSample ss
    → length ss ≤ 91
    → encode_batch (header_fields h) (map sample_fields ss)
      ≡ ok (header_bytes h (length ss) ++ samples_bytes ss)
unfolding encode_batch
encode_batch-bytes h ss v vs few =
    let fs : List SampleFields = map sample_fields ss in
    let same : length fs ≡ length ss = length-map sample_fields ss in
    let p : List ℕ = replicate (40 + length fs * 8) 0 in
    let fits : ltb 91 (length fs) ≡ false = ground (arith, same) in
    let whole : overwrite p 0 (header_bytes h (length fs) ++ samples_bytes ss)
        ≡ header_bytes h (length fs) ++ samples_bytes ss =
      overwrite_all p _ (
        omega (
          arith,
          length-append (header_bytes h (length fs)) (samples_bytes ss),
          length-samples_bytes ss,
          length-replicate {A = ℕ} (40 + length fs * 8) 0,
          same,
        )) in
    rw (fits, encode_batch)
      (rw (encode_header-bytes h (length fs) p v, encode_batch)
        (encode_samples-bytes ss p (header_bytes h (length fs)) 0 refl vs
          ∙ ap ok whole
          ∙ ap (λ t. ok (header_bytes h t ++ samples_bytes ss)) same))
