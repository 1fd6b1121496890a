-- ===== src/Templog/Codec/Acks.antt =====
-- The ack payload of tools/templog-bridge/codec.ts, encoded and decoded.
use semantos_edge.Base.{ℕ, ◌≡◌, refl, some, List, [], ◌∷◌, ◌++◌, ok}
use semantos_edge.Base.Int.{pos}
use semantos_edge.Base.Map.{Str}
use semantos_edge.Base.Bytes.{set_at, overwrite}
use semantos_edge.Cell.Words.{le32, write_u32, read_u32}
use semantos_edge.Templog.Mac.{mac_to_bytes, mac_to_string}
use semantos_edge.Templog.Batch.{IsU32}
use semantos_edge.Templog.Codec.{put_u32, encode_ack, decode_ack}
use semantos_edge.Templog.Codec.Layout.{u32_pos}
use semantos_edge.Cell.Words.{read_u32-le32}

abbrev pub ack_bytes : List ℕ → ℕ → ℕ → List ℕ
ack_bytes mac a h = 0 ∷ 0 ∷ (mac ++ (le32 a ++ le32 h))

module _ (mac text : Str) (a h b0 b1 b2 b3 b4 b5 : ℕ) where
  abbrev six : List ℕ
  six = b0 ∷ b1 ∷ b2 ∷ b3 ∷ b4 ∷ b5 ∷ []

  pub encode_ack-bytes :
      mac_to_bytes mac ≡ ok six
      → IsU32 a
      → IsU32 h
      → encode_ack mac (pos a) (pos h) ≡ ok (ack_bytes six a h)
  unfolding encode_ack put_u32 set_at overwrite write_u32
  encode_ack-bytes m ua uh = rw (m, encode_ack) (rw (u32_pos a ua) (rw (u32_pos h uh) refl))

  pub decode_ack-bytes :
      mac_to_string six ≡ ok text
      → IsU32 a
      → IsU32 h
      → decode_ack (ack_bytes six a h)
        ≡ some (record { target_mac = text; acked_through = a; host_unix_s = h })
  unfolding decode_ack read_u32
  decode_ack-bytes t ua uh =
      rw (t, decode_ack)
        (λ i. some (record {
          target_mac = text;
          acked_through = read_u32-le32 a [] ua i;
          host_unix_s = read_u32-le32 h [] uh i;
        }))

-- Encoding an ack for a MAC, with a pointer and a time that fit 32 bits, gives 16 bytes, and
-- decoding them gives the MAC in its canonical text, the pointer and the time.
pub decode_ack-encode_ack :
    (mac text : Str) (a h b0 b1 b2 b3 b4 b5 : ℕ)
    → mac_to_bytes mac ≡ ok (b0 ∷ b1 ∷ b2 ∷ b3 ∷ b4 ∷ b5 ∷ [])
    → mac_to_string (b0 ∷ b1 ∷ b2 ∷ b3 ∷ b4 ∷ b5 ∷ []) ≡ ok text
    → IsU32 a
    → IsU32 h
    → (p : List ℕ) × (encode_ack mac (pos a) (pos h) ≡ ok p)
      × (decode_ack p ≡ some (record { target_mac = text; acked_through = a; host_unix_s = h }))
decode_ack-encode_ack mac text a h b0 b1 b2 b3 b4 b5 m t ua uh = (
  ack_bytes (b0 ∷ b1 ∷ b2 ∷ b3 ∷ b4 ∷ b5 ∷ []) a h,
  encode_ack-bytes mac text a h b0 b1 b2 b3 b4 b5 m ua uh,
  decode_ack-bytes mac text a h b0 b1 b2 b3 b4 b5 t ua uh,
)
