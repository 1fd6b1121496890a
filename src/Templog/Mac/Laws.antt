-- ===== src/Templog/Mac/Laws.antt =====
-- The MAC addresses of tools/templog-bridge/codec.ts read back, and are canonical.
use semantos_edge.Base.{
  ℕ, ◌<◌, ◌≤◌, zero, suc, ◌/◌, ◌%◌, ◌≡◌, refl, sym, ap, Bool, true, List, [], ◌∷◌, ◌++◌, ◌∙◌, arith,
  ◌==◌, ==_iff, Bool-cases, inl, inr, length, ok, false, All,
}
use mathlib.Core.List.{append-nil}
use semantos_edge.Base.Map.{Str}
use semantos_edge.Templog.Text.{
  hex_digit, hex_pad, is_lower_hex, is_lower_hex-hex_digit, IsByte, to_hex, from_hex, is_hex,
  is_hex-hex_digit, from_hex-to_hex, hex_pad_byte, length-to_hex, all_hex-to_hex,
}
use semantos_edge.Templog.Mac.{
  mac_groups, mac_pattern, is_lower_mac, join_hex, mac_to_string, is_mac, mac_to_bytes,
  without_colons,
}

join_hex_lem :
    (b c : ℕ) (bs : List ℕ) → join_hex (b ∷ c ∷ bs) ≡ hex_pad 2 b ++ (b':' ∷ join_hex (c ∷ bs))
unfolding join_hex
join_hex_lem b c bs = refl

module _ (digit : ℕ → Bool) (digits : (n : ℕ) → n < 16 → digit (hex_digit n) ≡ true) where
  mac_groups_pair :
      (n b : ℕ) (s : Str)
      → mac_groups digit (suc n) (b':' ∷ (hex_pad 2 b ++ s)) ≡ mac_groups digit n s
  unfolding mac_groups hex_pad
  mac_groups_pair n b s = ground (arith, digits (b / 16 % 16), digits (b % 16))

  mac_groups_last : (b : ℕ) → mac_groups digit 1 (b':' ∷ hex_pad 2 b) ≡ true
  unfolding mac_groups hex_pad
  mac_groups_last b = ground (arith, digits (b / 16 % 16), digits (b % 16))

  mac_groups-join_hex :
      (n b : ℕ) (bs : List ℕ)
      → length bs ≡ n
      → mac_groups digit (suc n) (b':' ∷ join_hex (b ∷ bs)) ≡ true
  mac_groups-join_hex zero b [] h = unfold join_hex in mac_groups_last b
  mac_groups-join_hex (suc n) b [] h = absurd (omega arith)
  mac_groups-join_hex zero b (c ∷ bs) h = absurd (omega arith)
  mac_groups-join_hex (suc n) b (c ∷ bs) h =
      rw (join_hex_lem b c bs)
        (mac_groups_pair (suc n) b _ ∙ mac_groups-join_hex n c bs (omega arith))

  mac_pattern-join_hex : (bs : List ℕ) → length bs ≡ 6 → mac_pattern digit (join_hex bs) ≡ true
  mac_pattern-join_hex [] h = absurd (omega arith)
  mac_pattern-join_hex (b ∷ []) h = absurd (omega arith)
  mac_pattern-join_hex (b ∷ c ∷ bs) h =
      unfold mac_pattern join_hex hex_pad in
      ground (arith, digits (b / 16 % 16), digits (b % 16), groups)
    where
      groups : mac_groups digit 5 (b':' ∷ join_hex (c ∷ bs)) ≡ true
      groups = mac_groups-join_hex 4 c bs (omega arith)

-- A text that `macToString` returns fits the journal's pattern.
pub mac_to_string-is_lower_mac :
    (bytes : List ℕ) (s : Str) → mac_to_string bytes ≡ ok s → is_lower_mac s ≡ true
unfolding mac_to_string is_lower_mac
mac_to_string-is_lower_mac bytes s h = elim (Bool-cases (length bytes == 6)) [
  | inl e ↦
      ground
        (arith, mac_pattern-join_hex is_lower_hex is_lower_hex-hex_digit bytes ((==_iff _ _).0 e))
  | inr e ↦ ground arith
]

pub mac_to_string-is_mac : (bytes : List ℕ) (s : Str) → mac_to_string bytes ≡ ok s → is_mac s ≡ true
unfolding mac_to_string is_mac
mac_to_string-is_mac bytes s h = elim (Bool-cases (length bytes == 6)) [
  | inl e ↦ ground (arith, mac_pattern-join_hex is_hex is_hex-hex_digit bytes ((==_iff _ _).0 e))
  | inr e ↦ ground arith
]

pub is_mac-some : (s : Str) → is_mac s ≡ true → 1 ≤ length s
unfolding is_mac mac_pattern
is_mac-some [] h = absurd (cc h)
is_mac-some (c ∷ s) h = omega arith

digit_no_colon : (n : ℕ) → n < 16 → (hex_digit n == b':') ≡ false
unfolding hex_digit
digit_no_colon n h = ground arith

without_colons-hex_pad :
    (b : ℕ) (s : Str)
    → b < 256
    → without_colons (hex_pad 2 b ++ s) ≡ hex_digit (b / 16) ∷ hex_digit (b % 16) ∷ without_colons s
unfolding without_colons
without_colons-hex_pad b s h =
    rw (hex_pad_byte b h)
      (rw (digit_no_colon (b / 16) (omega arith), digit_no_colon (b % 16) (omega arith)) refl)

without_colons-colon : (s : Str) → without_colons (b':' ∷ s) ≡ without_colons s
unfolding without_colons
without_colons-colon s = refl

without_colons-nil : without_colons [] ≡ []
unfolding without_colons
without_colons-nil = refl

without_colons-join_hex : (bs : List ℕ) → All IsByte bs → without_colons (join_hex bs) ≡ to_hex bs
unfolding join_hex to_hex
without_colons-join_hex [] h = without_colons-nil
without_colons-join_hex (b ∷ []) (hb, h) =
    ap without_colons (sym (append-nil (hex_pad 2 b)))
    ∙ without_colons-hex_pad b [] hb
    ∙ ap (λ t. hex_digit (b / 16) ∷ hex_digit (b % 16) ∷ t) without_colons-nil
without_colons-join_hex (b ∷ c ∷ bs) (hb, h) =
    without_colons-hex_pad b _ hb
    ∙ ap (λ t. hex_digit (b / 16) ∷ hex_digit (b % 16) ∷ t)
        (without_colons-colon (join_hex (c ∷ bs)) ∙ without_colons-join_hex (c ∷ bs) h)

-- A MAC of six bytes is read back from its text.
pub mac_to_bytes-mac_to_string :
    (bs : List ℕ)
    → length bs ≡ 6
    → All IsByte bs
    → (mac : Str) × (mac_to_string bs ≡ ok mac) × (mac_to_bytes mac ≡ ok bs)
unfolding mac_to_string mac_to_bytes is_mac
mac_to_bytes-mac_to_string bs h v =
    let six : (length bs == 6) ≡ true = (==_iff _ _).1 h in
    let fits : mac_pattern is_hex (join_hex bs) ≡ true =
      mac_pattern-join_hex is_hex is_hex-hex_digit bs h in
    (
      join_hex bs,
      rw six refl,
      rw fits (ap ok (ap from_hex (without_colons-join_hex bs v) ∙ from_hex-to_hex bs v)),
    )

module _ (digit : ℕ → Bool) where
  mac_groups-no_colon : (x : ℕ) (s : Str) → (x == b':') ≡ false → mac_groups digit 5 (x ∷ s) ≡ false
  unfolding mac_groups
  mac_groups-no_colon x [] h = refl
  mac_groups-no_colon x (c ∷ []) h = refl
  mac_groups-no_colon x (c ∷ d ∷ s) h = rw h refl

  mac_pattern-no_colon :
      (c d x : ℕ) (s : Str) → (x == b':') ≡ false → mac_pattern digit (c ∷ d ∷ x ∷ s) ≡ false
  unfolding mac_pattern
  mac_pattern-no_colon c d x s h = ground (arith, mac_groups-no_colon x s h)

is_mac-to_hex : (b0 b1 : ℕ) (bs : List ℕ) → b1 < 256 → is_mac (to_hex (b0 ∷ b1 ∷ bs)) ≡ false
unfolding is_mac to_hex
is_mac-to_hex b0 b1 bs h =
    mac_pattern-no_colon is_hex (hex_digit (b0 / 16)) (hex_digit (b0 % 16)) (hex_digit (b1 / 16))
      (hex_digit (b1 % 16) ∷ to_hex bs) (digit_no_colon (b1 / 16) (omega arith))

-- The bare twelve digits of a MAC are read too.
pub mac_to_bytes-to_hex :
    (bs : List ℕ) → length bs ≡ 6 → All IsByte bs → mac_to_bytes (to_hex bs) ≡ ok bs
unfolding mac_to_bytes
mac_to_bytes-to_hex [] h v = absurd (omega arith)
mac_to_bytes-to_hex (b ∷ []) h v = absurd (omega arith)
mac_to_bytes-to_hex (b ∷ c ∷ bs) h (hb, (hc, v)) =
    let long : (length (to_hex (b ∷ c ∷ bs)) == 12) ≡ true =
      (==_iff _ _).1 (omega (arith, length-to_hex (b ∷ c ∷ bs))) in
    rw (is_mac-to_hex b c bs hc) (
      rw long (
        rw (all_hex-to_hex (b ∷ c ∷ bs) (hb, (hc, v)))
          (ap ok (from_hex-to_hex (b ∷ c ∷ bs) (hb, (hc, v))))))
