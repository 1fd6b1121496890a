-- ===== src/Templog/Mac/Chars.antt =====
-- The characters of the text that `macToString` of tools/templog-bridge/codec.ts returns.
use semantos_edge.Base.{
  ℕ, zero, suc, ◌/◌, ◌%◌, ◌<◌, ◌≡◌, Bool, true, List, [], ◌∷◌, arith, ◌==◌, Bool-cases, inl, inr,
  length, ok, All, All-append,
}
use semantos_edge.Base.Map.{Str}
use semantos_edge.Templog.Text.{hex_digit, hex_pad}
use mathlib.Core.Path.{subst}
use semantos_edge.Templog.Mac.{join_hex, mac_to_string}

module _ (p : ℕ → Bool) (digits : (n : ℕ) → n < 16 → p (hex_digit n) ≡ true) where
  pub hex_pad-All : (w v : ℕ) → All (λ c. p c ≡ true) (hex_pad w v)
  unfolding hex_pad
  hex_pad-All zero v = tt
  hex_pad-All (suc w) v =
      All-append _ _ _ (hex_pad-All w (v / 16)) (digits (v % 16) (omega arith), tt)

  join_hex-All : p b':' ≡ true → (bs : List ℕ) → All (λ c. p c ≡ true) (join_hex bs)
  unfolding join_hex
  join_hex-All k [] = tt
  join_hex-All k (b ∷ []) = hex_pad-All 2 b
  join_hex-All k (b ∷ c ∷ bs) = All-append _ _ _ (hex_pad-All 2 b) (k, join_hex-All k (c ∷ bs))

  -- What holds of the digits and the colon holds of each character.
  pub mac_to_string-All :
      p b':' ≡ true
      → (bytes : List ℕ) (s : Str) → mac_to_string bytes ≡ ok s
      → All (λ c. p c ≡ true) s
  unfolding mac_to_string
  mac_to_string-All k bytes s h = elim (Bool-cases (length bytes == 6)) [
    | inl e ↦ subst (λ t. All (λ c. p c ≡ true) t) (ground arith) (join_hex-All k bytes)
    | inr e ↦ absurd (ground arith)
  ]
