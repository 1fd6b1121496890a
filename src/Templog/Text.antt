-- ===== src/Templog/Text.antt =====
-- JavaScript text as the list of its code units, and the hexadecimal forms of
-- tools/templog-bridge/codec.ts (`toHex`, `hex8`, `parseInt(s, 16)`, `Buffer.from(s, 'hex')`).
use Prim.Native.Char.{code}
use Prim.Native.String.{String}
use semantos_edge.Base.{
  ℕ, zero, suc, ◌+◌, ◌-◌, ◌*◌, ◌/◌, ◌%◌, ◌^◌, ◌<◌, ◌≡◌, refl, ap, Bool, true, false, ◌&&◌, Option,
  none, some, List, [], ◌∷◌, ◌++◌, ◌≢◌, inl, inr, Option-cases, length-append, arith, ltb, leb,
  if◌then◌else◌, All, length,
}
use semantos_edge.Base.Map.{Str}
use native.Mathlib.Nat.{pow-suc}

-- The code units of a literal.
abbrev pub codes : String → Str
codes String.[] = []
codes (String.◌∷◌ c s) = code c ∷ codes s

-- One digit of `toString(16)`.
unfoldable pub hex_digit : ℕ → ℕ
hex_digit n = if ltb n 10 then 48 + n else 87 + n

-- `v.toString(16).padStart(w, '0')` for v below 16 ^ w: every caller's v is that small, being an
-- element of a Uint8Array (w = 2) or the result of `>>> 0` (w = 8).
unfoldable pub hex_pad : ℕ → ℕ → Str
hex_pad zero v = []
hex_pad (suc w) v = hex_pad w (v / 16) ++ (hex_digit (v % 16) ∷ [])

-- The value of a hexadecimal digit, in either case.
unfoldable pub hex_value : ℕ → Option ℕ
hex_value c =
    if leb 48 c && leb c 57
    then some (c - 48)
    else if leb 97 c && leb c 102
    then some (c - 87)
    else if leb 65 c && leb c 70
    then some (c - 55)
    else none

-- The class [0-9a-f] under the flag `i`, and without it.
unfoldable pub is_hex : ℕ → Bool
unfolding hex_value
is_hex c = elim (hex_value c) [ none ↦ false | some v ↦ true ]

unfoldable pub is_lower_hex : ℕ → Bool
is_lower_hex c = if leb 48 c && leb c 57 then true else leb 97 c && leb c 102

-- /^[0-9a-f]*$/i and /^[0-9a-f]*$/; the callers test the length.
unfoldable pub all_hex : Str → Bool
unfolding is_hex
all_hex [] = true
all_hex (c ∷ s) = is_hex c && all_hex s

unfoldable pub all_lower_hex : Str → Bool
unfolding is_lower_hex
all_lower_hex [] = true
all_lower_hex (c ∷ s) = is_lower_hex c && all_lower_hex s

-- `parseInt(s, 16)` over a text of hexadecimal digits.
unfoldable pub parse_hex : ℕ → Str → ℕ
parse_hex acc [] = acc
parse_hex acc (c ∷ s) = elim (hex_value c) [ none ↦ acc | some v ↦ parse_hex (acc * 16 + v) s ]

-- `Buffer.from(s, 'hex')`: pairs of digits, up to the first that is none.
unfoldable pub from_hex : Str → List ℕ
from_hex [] = []
from_hex (c ∷ []) = []
from_hex (c ∷ d ∷ s) = elim (hex_value c) [
  | none ↦ []
  | some hi ↦ elim (hex_value d) [ none ↦ [] | some lo ↦ (hi * 16 + lo) ∷ from_hex s ]
]

-- `Buffer.from(b).toString('hex')`
unfoldable pub to_hex : List ℕ → Str
to_hex [] = []
to_hex (b ∷ bs) = hex_digit (b / 16) ∷ hex_digit (b % 16) ∷ to_hex bs

pub hex_value-hex_digit : (n : ℕ) → n < 16 → hex_value (hex_digit n) ≡ some n
unfolding hex_value hex_digit
hex_value-hex_digit n h = ground arith

pub is_hex-hex_digit : (n : ℕ) → n < 16 → is_hex (hex_digit n) ≡ true
unfolding is_hex hex_digit
is_hex-hex_digit n h = ground arith

pub is_lower_hex-hex_digit : (n : ℕ) → n < 16 → is_lower_hex (hex_digit n) ≡ true
unfolding is_lower_hex hex_digit
is_lower_hex-hex_digit n h = ground arith

pub hex_pad_byte : (b : ℕ) → b < 256 → hex_pad 2 b ≡ hex_digit (b / 16) ∷ hex_digit (b % 16) ∷ []
unfolding hex_pad
hex_pad_byte b h =
    let e : b / 16 % 16 ≡ b / 16 = omega arith in
    ap (λ (n : ℕ). hex_digit n ∷ hex_digit (b % 16) ∷ []) e

all_lower_hex-snoc :
    (s : Str) (c : ℕ)
    → all_lower_hex s ≡ true
    → is_lower_hex c ≡ true
    → all_lower_hex (s ++ (c ∷ [])) ≡ true
unfolding all_lower_hex
all_lower_hex-snoc [] c h k = ground arith
all_lower_hex-snoc (d ∷ s) c h k = ground (arith, all_lower_hex-snoc s c)

pub all_lower_hex-hex_pad : (w v : ℕ) → all_lower_hex (hex_pad w v) ≡ true
unfolding hex_pad
all_lower_hex-hex_pad zero v = unfold all_lower_hex in refl
all_lower_hex-hex_pad (suc w) v =
    all_lower_hex-snoc _ _ (all_lower_hex-hex_pad w (v / 16))
      (is_lower_hex-hex_digit (v % 16) (omega arith))

lower_hex_value : (c : ℕ) → is_lower_hex c ≡ true → hex_value c ≢ none
unfolding is_lower_hex hex_value
lower_hex_value c h = ground arith

parse_hex-snoc :
    (s : Str) (acc n : ℕ)
    → all_lower_hex s ≡ true
    → n < 16
    → parse_hex acc (s ++ (hex_digit n ∷ [])) ≡ parse_hex acc s * 16 + n
unfolding parse_hex all_lower_hex
parse_hex-snoc [] acc n h k = ground (arith, hex_value-hex_digit n)
parse_hex-snoc (c ∷ s) acc n h k = elim (Option-cases (hex_value c)) [
  | inl e ↦ absurd (lower_hex_value c (ground arith) e)
  | inr (v, e) ↦ rw (e, parse_hex) (parse_hex-snoc s (acc * 16 + v) n (ground arith) k)
]

div_small : (w v : ℕ) → v < 16 ^ suc w → v / 16 < 16 ^ w
div_small w v h = omega (arith, pow-suc 16 w)

-- A padded number reads back.
pub parse_hex-hex_pad : (w v : ℕ) → v < 16 ^ w → parse_hex 0 (hex_pad w v) ≡ v
unfolding hex_pad
parse_hex-hex_pad zero v h = unfold parse_hex in omega arith
parse_hex-hex_pad (suc w) v h = omega (
  arith,
  parse_hex-snoc (hex_pad w (v / 16)) 0 (v % 16) (all_lower_hex-hex_pad w (v / 16)) (omega arith),
  parse_hex-hex_pad w (v / 16) (div_small w v h),
)

pub length-hex_pad : (w v : ℕ) → length (hex_pad w v) ≡ w
unfolding hex_pad
length-hex_pad zero v = refl
length-hex_pad (suc w) v =
    omega (
      arith,
      length-append (hex_pad w (v / 16)) (hex_digit (v % 16) ∷ []),
      length-hex_pad w (v / 16),
    )

pub length-to_hex : (bs : List ℕ) → length (to_hex bs) ≡ 2 * length bs
unfolding to_hex
length-to_hex [] = omega arith
length-to_hex (b ∷ bs) = omega (arith, length-to_hex bs)

abbrev pub IsByte : ℕ → Type 0
IsByte b = b < 256

pub from_hex-to_hex : (bs : List ℕ) → All IsByte bs → from_hex (to_hex bs) ≡ bs
unfolding from_hex to_hex
from_hex-to_hex [] h = refl
from_hex-to_hex (b ∷ bs) (hb, h) =
    ground (arith, hex_value-hex_digit (b / 16), hex_value-hex_digit (b % 16), from_hex-to_hex bs h)

pub all_hex-to_hex : (bs : List ℕ) → All IsByte bs → all_hex (to_hex bs) ≡ true
unfolding all_hex to_hex
all_hex-to_hex [] h = refl
all_hex-to_hex (b ∷ bs) (hb, h) =
    ground (arith, is_hex-hex_digit (b / 16), is_hex-hex_digit (b % 16), all_hex-to_hex bs h)
