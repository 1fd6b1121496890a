-- ===== src/Templog/Serial/AkLine.antt =====
-- `parseAkLine` of tools/templog-bridge/codec.ts, against `formatAkLine`.
use semantos_edge.Base.{
  ℕ, zero, suc, ◌+◌, ◌-◌, ◌*◌, ◌/◌, ◌%◌, ◌<◌, ◌≤◌, ◌^◌, ◌≡◌, refl, sym, ap, ◌∙◌, Bool, true, false,
  ◌&&◌, ◌||◌, Option, none, some, List, [], ◌∷◌, ◌++◌, arith, ◌==◌, ==_iff, leb, ltb, All,
  All-append, length, length-append, take, drop, if◌then◌else◌, ok, thrown, ◌>>=◌, Bool-cases, inl,
  inr,
}
use mathlib.Core.List.{append_assoc}
use native.Mathlib.Nat.{pow-suc}
use semantos_edge.Base.Int.{pos}
use semantos_edge.Base.Map.{Str, str_eq}
use semantos_edge.Templog.Text.{codes, all_hex, to_hex, IsByte, length-to_hex, all_hex-to_hex}
use semantos_edge.Base.Bytes.{take-append, drop-append, drop-suc}
use semantos_edge.Templog.Mac.Laws.{mac_to_bytes-to_hex}
use semantos_edge.Templog.Mac.{mac_to_bytes, mac_to_string}
use semantos_edge.Templog.Batch.{IsU32}
use semantos_edge.Templog.Codec.Layout.{u32_pos}
use semantos_edge.Templog.Serial.{to_lower, lower, decimal, format_ak_line, trim}
use semantos_edge.Templog.Serial.Plain.{IsWord, trim-words, ascii_plain}

-- The class \d.
is_digit : ℕ → Bool
is_digit c = leb 48 c && leb c 57

onto : ℕ → Str × Str → Str × Str
onto c (ds, rest) = (c ∷ ds, rest)

-- The digits at the front of a text, and what is left.
digits_of : Str → Str × Str
unfolding onto
digits_of [] = ([], [])
digits_of (c ∷ s) = let r = digits_of s in if is_digit c then onto c r else ([], c ∷ s)

-- Number(s) of a text of digits
number_of : ℕ → Str → ℕ
number_of acc [] = acc
number_of acc (c ∷ s) = number_of (acc * 10 + (c - 48)) s

-- \d{1,10} matched what there is.
is_count : Str → Bool
is_count ds = leb 1 (length ds) && leb (length ds) 10

pub record AkLine : Type 0 where
  pub mac : Str
  pub acked_through : ℕ
  pub host_unix_s : ℕ

-- The object that the function returns once the pattern matched; `macToString` and `macToBytes` do
-- not throw on twelve hexadecimal digits.
ak_values : Str → ℕ → ℕ → Option AkLine
ak_values mac a h =
    if ltb 0xffff_ffff a || ltb 0xffff_ffff h
    then none
    else elim (mac_to_bytes mac >>= mac_to_string) [
      | thrown ↦ none
      | ok text ↦ some (record { mac = text; acked_through = a; host_unix_s = h })
    ]

-- (\d{1,10})$
ak_last : Str → ℕ → Str × Str → Option AkLine
unfolding is_count number_of ak_values
ak_last mac a (ds, []) = if is_count ds then ak_values mac a (number_of 0 ds) else none
ak_last mac a (ds, c ∷ s) = none

-- (\d{1,10}) (\d{1,10})$
ak_first : Str → Str × Str → Option AkLine
unfolding is_count number_of ak_last digits_of
ak_first mac (ds, []) = none
ak_first mac (ds, c ∷ s) =
    if is_count ds && c == 32 then ak_last mac (number_of 0 ds) (digits_of s) else none

unfoldable pub parse_ak_line : Str → Option AkLine
unfolding ak_first digits_of is_digit
parse_ak_line line =
    let t = trim line in
    let mac = take 12 (drop 3 t) in
    if str_eq (to_lower (take 3 t)) (codes "ak ")
      && (length mac == 12 && all_hex mac)
      && str_eq (take 1 (drop 15 t)) (codes " ")
    then ak_first mac (digits_of (drop 16 t))
    else none

-- Decimal digits read back.
decimal-digits : (n v : ℕ) → All (λ c. is_digit c ≡ true) (decimal n v)
unfolding decimal is_digit
decimal-digits zero v = tt
decimal-digits (suc n) v = elim (Bool-cases (ltb v 10)) [
  | inl e ↦ rw e (ground arith, tt)
  | inr e ↦ rw e (All-append _ _ _ (decimal-digits n (v / 10)) (ground arith, tt))
]

length-decimal : (n v : ℕ) → length (decimal n v) ≤ n
unfolding decimal
length-decimal zero v = omega arith
length-decimal (suc n) v = elim (Bool-cases (ltb v 10)) [
  | inl e ↦ rw e (omega arith)
  | inr e ↦ rw e (
      omega
        (arith, length-decimal n (v / 10), length-append (decimal n (v / 10)) ((48 + v % 10) ∷ [])))
]

decimal-some : (n v : ℕ) → 1 ≤ length (decimal (suc n) v)
unfolding decimal
decimal-some n v = elim (Bool-cases (ltb v 10)) [
  | inl e ↦ rw e (omega arith)
  | inr e ↦ rw e (omega (arith, length-append (decimal n (v / 10)) ((48 + v % 10) ∷ [])))
]

number_of-append :
    (acc c : ℕ) (s : Str) → number_of acc (s ++ (c ∷ [])) ≡ number_of acc s * 10 + (c - 48)
unfolding number_of
number_of-append acc c [] = refl
number_of-append acc c (d ∷ s) = number_of-append (acc * 10 + (d - 48)) c s

number_of-decimal : (n v : ℕ) → v < 10 ^ n → number_of 0 (decimal n v) ≡ v
unfolding decimal
number_of-decimal zero v h = unfold number_of in omega arith
number_of-decimal (suc n) v h = elim (Bool-cases (ltb v 10)) [
  | inl e ↦ rw e (unfold number_of in omega arith)
  | inr e ↦ rw e (
      omega (
        arith,
        pow-suc 10 n,
        number_of-append 0 (48 + v % 10) (decimal n (v / 10)),
        number_of-decimal n (v / 10) (omega (arith, pow-suc 10 n)),
      ))
]

digits_of-append :
    (ds : Str) (c : ℕ) (s : Str)
    → All (λ c. is_digit c ≡ true) ds
    → is_digit c ≡ false
    → digits_of (ds ++ (c ∷ s)) ≡ (ds, c ∷ s)
unfolding digits_of
digits_of-append [] c s h k = rw k refl
digits_of-append (d ∷ ds) c s (p, h) k =
    rw p (rw (digits_of-append ds c s h k, onto) (unfold onto in refl))

digits_of-all : (ds : Str) → All (λ c. is_digit c ≡ true) ds → digits_of ds ≡ (ds, [])
unfolding digits_of
digits_of-all [] h = refl
digits_of-all (d ∷ ds) (p, h) = rw p (rw (digits_of-all ds h, onto) (unfold onto in refl))

digits-IsWord : (s : Str) → All (λ c. is_digit c ≡ true) s → IsWord s
unfolding is_digit
digits-IsWord [] h = tt
digits-IsWord (c ∷ s) (p, h) = (ascii_plain c (ground arith) (ground arith), digits-IsWord s h)

is_count-some : (ds : Str) → 1 ≤ length ds → length ds ≤ 10 → is_count ds ≡ true
unfolding is_count
is_count-some ds h k = ground arith

module _ (hex : Str) (a h : ℕ) where
  abbrev ak_text : Str → Str
  ak_text end = codes "AK " ++ (hex ++ (32 ∷ (decimal 10 a ++ (32 ∷ end))))

  ak_text-append : (end : Str) → ak_text end ≡ ak_text [] ++ end
  ak_text-append end = simp append_assoc

  trim-ak_text : trim (ak_text (decimal 10 h ++ (10 ∷ []))) ≡ ak_text (decimal 10 h)
  trim-ak_text =
      let rest : Str = 75 ∷ 32 ∷ (hex ++ (32 ∷ (decimal 10 a ++ (32 ∷ [])))) in
      ap trim (ak_text-append (decimal 10 h ++ (10 ∷ [])))
      ∙ trim-words 65 rest (decimal 10 h) (ascii_plain 65 (omega arith) (omega arith))
          (digits-IsWord (decimal 10 h) (decimal-digits 10 h)) (decimal-some 9 h)
      ∙ sym (ak_text-append (decimal 10 h))

  ak_first-text :
      IsU32 a
      → IsU32 h
      → ak_first hex (digits_of (decimal 10 a ++ (32 ∷ decimal 10 h))) ≡ ak_values hex a h
  unfolding ak_first ak_last is_count
  ak_first-text ua uh =
      let d =
        digits_of-append (decimal 10 a) 32 (decimal 10 h) (decimal-digits 10 a)
          (unfold is_digit in refl) in
      let e = digits_of-all (decimal 10 h) (decimal-digits 10 h) in
      let na = number_of-decimal 10 a (omega arith) in
      let nh = number_of-decimal 10 h (omega arith) in
      let ca : is_count (decimal 10 a) ≡ true =
        is_count-some _ (decimal-some 9 a) (length-decimal 10 a) in
      let ch : is_count (decimal 10 h) ≡ true =
        is_count-some _ (decimal-some 9 h) (length-decimal 10 h) in
      ap (ak_first hex) d
      ∙ rw ca (
          ap (ak_last hex (number_of 0 (decimal 10 a))) e
          ∙ rw ch (λ i. ak_values hex (na i) (nh i)))

  parse-ak_text :
      length hex ≡ 12
      → all_hex hex ≡ true
      → IsU32 a
      → IsU32 h
      → parse_ak_line (ak_text (decimal 10 h ++ (10 ∷ []))) ≡ ak_values hex a h
  unfolding parse_ak_line str_eq to_lower lower
  parse-ak_text size digits ua uh =
      let behind : Str = 32 ∷ (decimal 10 a ++ (32 ∷ decimal 10 h)) in
      let front : take 12 (hex ++ behind) ≡ hex = take-append hex behind 12 (sym size) in
      let back : drop 12 (hex ++ behind) ≡ behind = drop-append hex behind 12 (sym size) in
      let back13 : drop 13 (hex ++ behind) ≡ drop 1 behind =
        drop-suc 12 (hex ++ behind) ∙ ap (drop 1) back in
      let twelve : (length hex == 12) ≡ true = (==_iff _ _).1 size in
      rw trim-ak_text (rw (front, back, back13) (rw (twelve, digits) (ak_first-text ua uh)))

format_ak_line_lem :
    (mac : Str) (bytes : List ℕ) (a h : ℕ)
    → mac_to_bytes mac ≡ ok bytes
    → IsU32 a
    → IsU32 h
    → format_ak_line mac (pos a) (pos h)
      ≡ ok (ak_text (to_hex bytes) a h (decimal 10 h ++ (10 ∷ [])))
unfolding format_ak_line
format_ak_line_lem mac bytes a h m ua uh = rw m (rw (u32_pos a ua) (rw (u32_pos h uh) refl))

ak_values_lem :
    (mac text : Str) (bytes : List ℕ) (a h : ℕ)
    → mac_to_bytes mac ≡ ok bytes
    → mac_to_string bytes ≡ ok text
    → IsU32 a
    → IsU32 h
    → ak_values mac a h ≡ some (record { mac = text; acked_through = a; host_unix_s = h })
unfolding ak_values
ak_values_lem mac text bytes a h m t ua uh =
    let small_a : ltb 0xffff_ffff a ≡ false = ground arith in
    let small_h : ltb 0xffff_ffff h ≡ false = ground arith in
    rw (small_a, small_h) (rw m (rw t refl))

-- For a MAC that reads as six bytes with a canonical text, and a pointer and a time that fit 32 bits,
-- `formatAkLine` gives a line, and `parseAkLine` reads that text, pointer and time from it.
pub parse_ak_line-format_ak_line :
    (mac text : Str) (bytes : List ℕ) (a h : ℕ)
    → mac_to_bytes mac ≡ ok bytes
    → mac_to_string bytes ≡ ok text
    → length bytes ≡ 6
    → All IsByte bytes
    → IsU32 a
    → IsU32 h
    → (line : Str) × (format_ak_line mac (pos a) (pos h) ≡ ok line)
      × (parse_ak_line line ≡ some (record { mac = text; acked_through = a; host_unix_s = h }))
parse_ak_line-format_ak_line mac text bytes a h m t six v ua uh = (
  ak_text (to_hex bytes) a h (decimal 10 h ++ (10 ∷ [])),
  format_ak_line_lem mac bytes a h m ua uh,
  parse-ak_text (to_hex bytes) a h (omega (arith, length-to_hex bytes)) (all_hex-to_hex bytes v) ua
        uh
      ∙ ak_values_lem (to_hex bytes) text bytes a h (mac_to_bytes-to_hex bytes six v) t ua uh,
)
