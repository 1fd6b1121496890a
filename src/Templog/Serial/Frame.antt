-- ===== src/Templog/Serial/Frame.antt =====
-- The TL line of tools/templog-bridge/codec.ts: what `formatTlLine` writes, `classifyLine` reads.
use semantos_edge.Base.{
  ℕ, ◌<◌, ◌≤◌, ◌≡◌, refl, sym, ap, ◌∙◌, Bool, true, false, List, [], ◌∷◌, ◌++◌, arith, ◌==◌, ==_iff,
  All, All-append, length, ok,
}
use mathlib.Core.List.{append_assoc, append-nil}
use semantos_edge.Base.Map.{Str, str_eq}
use semantos_edge.Cell.Crc.{crc32}
use semantos_edge.Cell.Crc.Bound.{crc32-lt}
use semantos_edge.Templog.Text.{
  codes, hex_digit, hex_pad, is_hex, all_hex, to_hex, parse_hex, IsByte, is_hex-hex_digit,
  length-to_hex, all_hex-to_hex, from_hex-to_hex, parse_hex-hex_pad, length-hex_pad,
}
use semantos_edge.Templog.Mac.{is_mac, mac_to_bytes, mac_to_string}
use semantos_edge.Templog.Mac.Laws.{is_mac-some, mac_to_string-is_mac}
use semantos_edge.Templog.Mac.Chars.{hex_pad-All, mac_to_string-All}
use semantos_edge.Templog.Serial.{
  tl, lower, to_lower, check_fields, four_fields, check_tl_frame, classify_line, format_tl_line,
  starts, split_spaces, trim, trim_end, next_is_space,
}
use semantos_edge.Templog.Serial.Plain.{
  is_plain, IsWord, IsClean, IsWord-IsClean, strip_ansi-clean, split_spaces-word, split_spaces-last,
  next_is_space-IsWord, trim-words, trim_end-words, trim-ended, ascii_plain, hex_digit_plain,
  hex_pad-IsWord, to_hex-IsWord,
}

-- A character that `toLowerCase` leaves as it is.
is_small : ℕ → Bool
is_small c = lower c == c

hex_digit_small : (n : ℕ) → n < 16 → is_small (hex_digit n) ≡ true
unfolding is_small lower hex_digit
hex_digit_small n h = ground arith

colon_small : is_small b':' ≡ true
unfolding is_small lower
colon_small = refl

to_lower-small : (s : Str) → All (λ c. is_small c ≡ true) s → to_lower s ≡ s
unfolding to_lower is_small
to_lower-small [] h = refl
to_lower-small (c ∷ s) (p, h) = λ i. (==_iff _ _).0 p i ∷ to_lower-small s h i

all_hex-All : (s : Str) → All (λ c. is_hex c ≡ true) s → all_hex s ≡ true
unfolding all_hex
all_hex-All [] h = refl
all_hex-All (c ∷ s) (p, h) = ground (arith, all_hex-All s h)

format_tl_line_lem :
    (mac text : Str) (bytes cell : List ℕ)
    → mac_to_bytes mac ≡ ok bytes
    → mac_to_string bytes ≡ ok text
    → length cell ≡ 1024
    → format_tl_line mac cell
      ≡ ok (
          codes "TL "
          ++ (text ++ (32 ∷ (to_hex cell ++ (32 ∷ (hex_pad 8 (crc32 cell) ++ (10 ∷ [])))))))
unfolding format_tl_line
format_tl_line_lem mac text bytes cell m t size =
    let whole : (length cell == 1024) ≡ true = (==_iff _ _).1 size in rw whole (rw m (rw t refl))

module _ (mac cell_hex crc_hex : Str) (m : IsWord mac) (c : IsWord cell_hex) (k : IsWord crc_hex)
    (m_some : 1 ≤ length mac) (c_some : 1 ≤ length cell_hex) (k_some : 1 ≤ length crc_hex) where
  -- A line with what follows the cell.
  abbrev frame : Str → Str
  frame end = codes "TL " ++ (mac ++ (32 ∷ (cell_hex ++ (32 ∷ end))))

  frame-append : (end : Str) → frame end ≡ frame [] ++ end
  frame-append end = simp append_assoc

  split_spaces-frame : split_spaces (frame crc_hex) ≡ codes "TL" ∷ mac ∷ cell_hex ∷ crc_hex ∷ []
  split_spaces-frame =
      split_spaces-word (codes "TL") (mac ++ (32 ∷ (cell_hex ++ (32 ∷ crc_hex))))
        (
          ascii_plain 84 (omega arith) (omega arith),
          (ascii_plain 76 (omega arith) (omega arith), tt),
        )
        (next_is_space-IsWord mac _ m m_some)
      ∙ ap (λ t. codes "TL" ∷ t)
          (split_spaces-word mac (cell_hex ++ (32 ∷ crc_hex)) m
              (next_is_space-IsWord cell_hex _ c c_some)
            ∙ ap (λ t. mac ∷ t)
                (split_spaces-word cell_hex crc_hex c next
                  ∙ ap (λ t. cell_hex ∷ t) (split_spaces-last crc_hex k)))
    where
      next : next_is_space crc_hex ≡ false
      next = ap next_is_space (sym (append-nil crc_hex)) ∙ next_is_space-IsWord crc_hex [] k k_some

  IsClean-frame : IsClean (frame (crc_hex ++ (10 ∷ [])))
  IsClean-frame = (
    refl,
    (
      refl,
      (
        refl,
        All-append _ mac _ (IsWord-IsClean mac m) (
          refl,
          All-append _ cell_hex _ (IsWord-IsClean cell_hex c)
              (refl, All-append _ crc_hex _ (IsWord-IsClean crc_hex k) (refl, tt)),
        ),
      ),
    ),
  )

  trim-frame : trim (frame (crc_hex ++ (10 ∷ []))) ≡ frame crc_hex
  trim-frame =
      let rest : Str = 76 ∷ 32 ∷ (mac ++ (32 ∷ (cell_hex ++ (32 ∷ [])))) in
      ap trim (frame-append (crc_hex ++ (10 ∷ [])))
      ∙ trim-words 84 rest crc_hex (ascii_plain 84 (omega arith) (omega arith)) k k_some
      ∙ sym (frame-append crc_hex)

  trim_end-frame : trim_end (frame (crc_hex ++ (10 ∷ []))) ≡ frame crc_hex
  trim_end-frame =
      ap trim_end (frame-append (crc_hex ++ (10 ∷ [])))
      ∙ trim_end-words (frame []) crc_hex k k_some
      ∙ sym (frame-append crc_hex)

  IsClean-short : IsClean (frame crc_hex)
  IsClean-short = (
    refl,
    (
      refl,
      (
        refl,
        All-append _ mac _ (IsWord-IsClean mac m) (
          refl,
          All-append _ cell_hex _ (IsWord-IsClean cell_hex c) (refl, IsWord-IsClean crc_hex k),
        ),
      ),
    ),
  )

  trim-short : trim (frame crc_hex) ≡ frame crc_hex
  trim-short =
      let rest : Str = 76 ∷ 32 ∷ (mac ++ (32 ∷ (cell_hex ++ (32 ∷ [])))) in
      ap trim (frame-append crc_hex)
      ∙ trim-ended 84 rest crc_hex (ascii_plain 84 (omega arith) (omega arith)) k k_some
      ∙ sym (frame-append crc_hex)

  classify_line-short :
      classify_line (trim_end (frame (crc_hex ++ (10 ∷ [])))) ≡ check_fields mac cell_hex crc_hex
  unfolding classify_line check_tl_frame four_fields str_eq starts
  classify_line-short =
      rw trim_end-frame
        (rw (strip_ansi-clean _ IsClean-short) (rw trim-short (rw split_spaces-frame refl)))

  classify_line-frame :
      classify_line (frame (crc_hex ++ (10 ∷ []))) ≡ check_fields mac cell_hex crc_hex
  unfolding classify_line check_tl_frame four_fields str_eq starts
  classify_line-frame =
      rw (strip_ansi-clean _ IsClean-frame) (rw trim-frame (rw split_spaces-frame refl))

check_fields-good :
    (mac : Str) (cell : List ℕ)
    → is_mac mac ≡ true
    → to_lower mac ≡ mac
    → length cell ≡ 1024
    → All IsByte cell
    → check_fields mac (to_hex cell) (hex_pad 8 (crc32 cell)) ≡ tl mac cell
unfolding check_fields
check_fields-good mac cell m l size bytes =
    let long : (length (to_hex cell) == 2048) ≡ true =
      (==_iff _ _).1 (omega (arith, length-to_hex cell)) in
    let eight : (length (hex_pad 8 (crc32 cell)) == 8) ≡ true =
      (==_iff _ _).1 (length-hex_pad 8 (crc32 cell)) in
    let digits = all_hex-All _ (hex_pad-All is_hex is_hex-hex_digit 8 (crc32 cell)) in
    let same : (crc32 cell == parse_hex 0 (hex_pad 8 (crc32 cell))) ≡ true =
      (==_iff _ _).1 (sym (parse_hex-hex_pad 8 (crc32 cell) (crc32-lt cell))) in
    rw m (
      rw long (
        rw (all_hex-to_hex cell bytes) (
          rw eight
            (rw digits (rw (from_hex-to_hex cell bytes) (rw same (ap (λ t. tl t cell) l)))))))

-- For a MAC that reads as `bytes` and the canonical text of these, and a cell of 1024 bytes,
-- `formatTlLine` gives a line, and `classifyLine` reads that text and that cell from it, with the
-- white space at its end or without.
pub classify_line-format_tl_line :
    (mac text : Str) (bytes cell : List ℕ)
    → mac_to_bytes mac ≡ ok bytes
    → mac_to_string bytes ≡ ok text
    → length cell ≡ 1024
    → All IsByte cell
    → (line : Str) × (format_tl_line mac cell ≡ ok line)
      × (classify_line line ≡ tl text cell)
      × (classify_line (trim_end line) ≡ tl text cell)
classify_line-format_tl_line mac text bytes cell m t size bound =
    let fits : is_mac text ≡ true = mac_to_string-is_mac bytes text t in
    let small =
      to_lower-small text (mac_to_string-All is_small hex_digit_small colon_small bytes text t) in
    let word =
      mac_to_string-All is_plain hex_digit_plain (ascii_plain 58 (omega arith) (omega arith)) bytes
        text t in
    let crc : Str = hex_pad 8 (crc32 cell) in
    let m_some = is_mac-some text fits in
    let c_some : 1 ≤ length (to_hex cell) = omega (arith, length-to_hex cell) in
    let k_some : 1 ≤ length crc = omega (arith, length-hex_pad 8 (crc32 cell)) in
    let good = check_fields-good text cell fits small size bound in
    let c_word = to_hex-IsWord cell bound in
    let k_word = hex_pad-IsWord 8 (crc32 cell) in
    (
      codes "TL " ++ (text ++ (32 ∷ (to_hex cell ++ (32 ∷ (crc ++ (10 ∷ [])))))),
      format_tl_line_lem mac text bytes cell m t size,
      classify_line-frame text (to_hex cell) crc word c_word k_word m_some c_some k_some ∙ good,
      classify_line-short text (to_hex cell) crc word c_word k_word m_some c_some k_some ∙ good,
    )
