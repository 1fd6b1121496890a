-- ===== src/Templog/Serial.antt =====
-- The serial lines of tools/templog-bridge/codec.ts: the gateway's TL lines and the host's AK lines.
pub mod Plain
pub mod Frame
pub mod AkLine
use semantos_edge.Base.{
  ℕ, zero, suc, ◌+◌, ◌-◌, ◌/◌, ◌%◌, Bool, true, false, not, ◌&&◌, ◌||◌, Option, none, some, List,
  [], ◌∷◌, ◌++◌, ltb, leb, ◌==◌, if◌then◌else◌, length, Result, ok, thrown, ◌>>=◌,
}
use semantos_edge.Base.Int.{ℤ}
use semantos_edge.Base.Map.{Str, str_eq}
use semantos_edge.Cell.Crc.{crc32}
use semantos_edge.Templog.Text.{codes, hex_pad, all_hex, parse_hex, from_hex, to_hex}
use semantos_edge.Templog.Mac.{is_mac, mac_to_bytes, mac_to_string}
use semantos_edge.Templog.Codec.{u32}

-- The class \s, which `trim` removes too.
unfoldable pub is_space : ℕ → Bool
is_space c =
    (leb 9 c && leb c 13)
    || c == 32
    || c == 0xa0
    || c == 0x1680
    || (leb 0x2000 c && leb c 0x200a)
    || c == 0x2028
    || c == 0x2029
    || c == 0x202f
    || c == 0x205f
    || c == 0x3000
    || c == 0xfeff

trim_start : Str → Str
trim_start [] = []
trim_start (c ∷ s) = let rest = trim_start s in if is_space c then rest else c ∷ s

-- `c` before what is left of the text behind it.
unfoldable pub keep_unless_end : ℕ → Str → Str
keep_unless_end c [] = if is_space c then [] else c ∷ []
keep_unless_end c (d ∷ s) = c ∷ d ∷ s

unfoldable pub trim_end : Str → Str
trim_end [] = []
trim_end (c ∷ s) = keep_unless_end c (trim_end s)

unfoldable pub trim : Str → Str
unfolding trim_start
trim s = trim_end (trim_start s)

-- s.startsWith(t)
unfoldable pub starts : Str → Str → Bool
starts [] s = true
starts (c ∷ t) [] = false
starts (c ∷ t) (d ∷ s) = c == d && starts t s

-- How many characters /^[0-9;]*[A-Za-z]/ matches, or 0 where it does not, behind `n` others.
escape_length : ℕ → Str → ℕ
escape_length n [] = 0
escape_length n (c ∷ s) =
    let rest = escape_length (n + 1) s in
    if (leb 48 c && leb c 57) || c == b';'
    then rest
    else if (leb 65 c && leb c 90) || (leb 97 c && leb c 122)
    then n + 1
    else 0

-- How long the match of ANSI_RE is at the front of the text, or 0.
ansi_length : Str → ℕ
unfolding escape_length
ansi_length (e ∷ b ∷ s) = if e == 0x1b && b == b'[' then escape_length 2 s else 0
ansi_length _ = 0

-- replace(ANSI_RE, ''), with `n` characters of a match still to drop.
unfoldable pub strip_ansi : ℕ → Str → Str
unfolding ansi_length
strip_ansi n [] = []
strip_ansi (suc n) (c ∷ s) = strip_ansi n s
strip_ansi zero (c ∷ s) =
    let n = ansi_length (c ∷ s) in if n == 0 then c ∷ strip_ansi 0 s else strip_ansi (n - 1) s

pub next_is_space : Str → Bool
next_is_space [] = false
next_is_space (c ∷ s) = is_space c

-- `c` as the first character of the first field.
onto_first : ℕ → List Str → List Str
onto_first c [] = (c ∷ []) ∷ []
onto_first c (f ∷ fs) = (c ∷ f) ∷ fs

-- s.split(/\s+/): a field ends at the last white space of a run.
unfoldable pub split_spaces : Str → List Str
unfolding next_is_space onto_first
split_spaces [] = [] ∷ []
split_spaces (c ∷ s) =
    let rest = split_spaces s in
    if not (is_space c) then onto_first c rest else if next_is_space s then rest else [] ∷ rest

lower : ℕ → ℕ
lower c = if leb 65 c && leb c 90 then c + 32 else c

-- toLowerCase of a text of hexadecimal digits and colons.
unfoldable pub to_lower : Str → Str
unfolding lower
to_lower [] = []
to_lower (c ∷ s) = lower c ∷ to_lower s

-- Why a TL line is bad; the source has a sentence for each.
pub data Reason : Type 0 where
  field_count bad_mac cell_length cell_digits crc_digits crc_mismatch : Reason

pub data LineClass : Type 0 where
  tl : Str → List ℕ → LineClass
  bad : Reason → LineClass
  other : LineClass

check_fields : Str → Str → Str → LineClass
check_fields mac cell_hex crc_hex =
    if not (is_mac mac)
    then bad bad_mac
    else if not (length cell_hex == 2048)
    then bad cell_length
    else if not (all_hex cell_hex)
    then bad cell_digits
    else if not (length crc_hex == 8) || not (all_hex crc_hex)
    then bad crc_digits
    else let cell = from_hex cell_hex in
      if not (crc32 cell == parse_hex 0 crc_hex) then bad crc_mismatch else tl (to_lower mac) cell

four_fields : List Str → LineClass
unfolding check_fields
four_fields (head ∷ mac ∷ cell_hex ∷ crc_hex ∷ []) = check_fields mac cell_hex crc_hex
four_fields _ = bad field_count

-- checkTlFrame
unfoldable pub check_tl_frame : Str → LineClass
unfolding four_fields
check_tl_frame frame = four_fields (split_spaces frame)

later_or : Str → Option Str → Option Str
later_or s (some t) = some t
later_or s none = if starts (codes "TL ") s then some s else none

-- The text from the last `TL ` on.
last_frame : Str → Option Str
unfolding later_or
last_frame [] = none
last_frame (c ∷ s) = later_or (c ∷ s) (last_frame s)

-- A frame behind other text counts where it is whole.
only_whole : LineClass → LineClass
only_whole (tl mac cell) = tl mac cell
only_whole (bad reason) = other
only_whole other = other

unfoldable pub classify_line : Str → LineClass
unfolding last_frame only_whole
classify_line raw =
    let line = trim (strip_ansi 0 raw) in
    if str_eq line (codes "TL") || starts (codes "TL ") line
    then check_tl_frame line
    else elim (last_frame line) [
      | none ↦ other
      | some frame ↦
          if ltb (length frame) (length line) then only_whole (check_tl_frame frame) else other
    ]

unfoldable pub parse_tl_line : Str → Option (Str × List ℕ)
parse_tl_line line = elim (classify_line line) [
  | tl mac cell ↦ some (mac, cell)
  | bad reason ↦ none
  | other ↦ none
]

unfoldable pub format_tl_line : Str → List ℕ → Result Str
format_tl_line mac cell = if not (length cell == 1024) then thrown else do
  bytes ← mac_to_bytes mac
  text ← mac_to_string bytes
  ok (codes "TL " ++ (text ++ (32 ∷ (to_hex cell ++ (32 ∷ (hex_pad 8 (crc32 cell) ++ (10 ∷ [])))))))

-- The decimal digits of a number below 10 ^ n.
unfoldable pub decimal : ℕ → ℕ → Str
decimal zero v = []
decimal (suc n) v = if ltb v 10 then (48 + v) ∷ [] else decimal n (v / 10) ++ ((48 + v % 10) ∷ [])

unfoldable pub format_ak_line : Str → ℤ → ℤ → Result Str
format_ak_line mac acked_through host_unix_s = do
  bytes ← mac_to_bytes mac
  a ← u32 acked_through
  h ← u32 host_unix_s
  ok (codes "AK " ++ (to_hex bytes ++ (32 ∷ (decimal 10 a ++ (32 ∷ (decimal 10 h ++ (10 ∷ [])))))))
