-- ===== src/Templog/Mac.antt =====
-- `macToBytes` and `macToString` of tools/templog-bridge/codec.ts, and the pattern that store.ts
-- tests the MAC of a journal line with.
pub mod Laws
pub mod Chars
use semantos_edge.Base.{
  ℕ, zero, suc, ◌/◌, ◌%◌, ◌≡◌, refl, Bool, true, false, ◌&&◌, List, [], ◌∷◌, ◌++◌, arith, ◌==◌,
  if◌then◌else◌, Bool-cases, inl, inr, All, length, Result, ok, thrown,
}
use semantos_edge.Base.Map.{Str, str_eq}
use semantos_edge.Templog.Text.{
  hex_digit, hex_pad, is_hex, is_lower_hex, all_hex, from_hex, IsByte, hex_value, hex_pad_byte,
  hex_value-hex_digit, is_hex-hex_digit, is_lower_hex-hex_digit,
}

-- /^XX(?::XX){n}$/ over a class of digits, behind the first pair: n groups of a colon and a pair.
mac_groups : (ℕ → Bool) → ℕ → Str → Bool
mac_groups digit zero [] = true
mac_groups digit zero (c ∷ s) = false
mac_groups digit (suc n) (k ∷ c ∷ d ∷ s) = (k == b':' && digit c && digit d) && mac_groups digit n s
mac_groups digit (suc n) _ = false

mac_pattern : (ℕ → Bool) → Str → Bool
unfolding mac_groups
mac_pattern digit (c ∷ d ∷ s) = (digit c && digit d) && mac_groups digit 5 s
mac_pattern digit _ = false

-- /^[0-9a-f]{2}(?::[0-9a-f]{2}){5}$/i, `MAC_RE` of codec.ts
unfoldable pub is_mac : Str → Bool
unfolding mac_pattern is_hex
is_mac = mac_pattern is_hex

-- The same without the flag `i`, `MAC_RE` of store.ts
unfoldable pub is_lower_mac : Str → Bool
unfolding mac_pattern is_lower_hex
is_lower_mac = mac_pattern is_lower_hex

-- mac.replace(/:/g, '')
without_colons : Str → Str
without_colons [] = []
without_colons (c ∷ s) = let rest = without_colons s in if c == b':' then rest else c ∷ rest

unfoldable pub mac_to_bytes : Str → Result (List ℕ)
unfolding is_mac without_colons
mac_to_bytes mac =
    if is_mac mac
    then ok (from_hex (without_colons mac))
    else if length mac == 12 && all_hex mac
    then ok (from_hex mac)
    else thrown

-- bytes.map(hex).join(':')
join_hex : List ℕ → Str
join_hex [] = []
join_hex (b ∷ []) = hex_pad 2 b
join_hex (b ∷ c ∷ bs) = hex_pad 2 b ++ (b':' ∷ join_hex (c ∷ bs))

unfoldable pub mac_to_string : List ℕ → Result Str
unfolding join_hex
mac_to_string bytes = if length bytes == 6 then ok (join_hex bytes) else thrown
