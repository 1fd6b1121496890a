-- ===== src/Templog/Serial/Plain.antt =====
-- The text functions of tools/templog-bridge/codec.ts on text that is made of words: no white space
-- and no escape inside a word.
use semantos_edge.Base.{
  ℕ, zero, suc, ◌/◌, ◌%◌, ◌<◌, ◌≤◌, ◌≡◌, refl, ap, ◌∙◌, Bool, true, false, not, ◌&&◌, List, [], ◌∷◌,
  ◌++◌, arith, ◌==◌, All, All-append, length,
}
use semantos_edge.Base.Map.{Str}
use semantos_edge.Templog.Text.{hex_digit, hex_pad, to_hex, IsByte}
use semantos_edge.Templog.Serial.{
  is_space, trim_start, keep_unless_end, trim_end, trim, ansi_length, strip_ansi, next_is_space,
  onto_first, split_spaces,
}

unfoldable pub is_plain : ℕ → Bool
is_plain c = not (is_space c) && not (c == 0x1b)

-- A word of a line.
abbrev pub IsWord : Str → Type 0
IsWord s = All (λ c. is_plain c ≡ true) s

-- No escape sequence begins in the text.
abbrev pub IsClean : Str → Type 0
IsClean s = All (λ c. (c == 0x1b) ≡ false) s

plain_space : (c : ℕ) → is_plain c ≡ true → is_space c ≡ false
unfolding is_plain
plain_space c h = ground arith

plain_escape : (c : ℕ) → is_plain c ≡ true → (c == 0x1b) ≡ false
unfolding is_plain
plain_escape c h = ground arith

pub IsWord-IsClean : (s : Str) → IsWord s → IsClean s
IsWord-IsClean [] h = tt
IsWord-IsClean (c ∷ s) (p, h) = (plain_escape c p, IsWord-IsClean s h)

ansi_length-clean : (c : ℕ) (s : Str) → (c == 0x1b) ≡ false → ansi_length (c ∷ s) ≡ 0
unfolding ansi_length
ansi_length-clean c [] h = refl
ansi_length-clean c (d ∷ s) h = rw h refl

pub strip_ansi-clean : (s : Str) → IsClean s → strip_ansi 0 s ≡ s
unfolding strip_ansi
strip_ansi-clean [] h = refl
strip_ansi-clean (c ∷ s) (p, h) =
    rw (ansi_length-clean c s p) (ap (λ t. c ∷ t) (strip_ansi-clean s h))

keep_unless_end-append :
    (c d : ℕ) (s r : Str) → keep_unless_end c (s ++ (d ∷ r)) ≡ c ∷ (s ++ (d ∷ r))
unfolding keep_unless_end
keep_unless_end-append c d [] r = refl
keep_unless_end-append c d (e ∷ s) r = refl

-- White space at the end goes, and what stands before a word stays.
pub trim_end-append : (s t r : Str) (d : ℕ) → trim_end t ≡ d ∷ r → trim_end (s ++ t) ≡ s ++ (d ∷ r)
unfolding trim_end
trim_end-append [] t r d h = h
trim_end-append (c ∷ s) t r d h =
    ap (keep_unless_end c) (trim_end-append s t r d h) ∙ keep_unless_end-append c d s r

pub trim_end-word : (c : ℕ) (w : Str) → IsWord (c ∷ w) → trim_end (c ∷ (w ++ (10 ∷ []))) ≡ c ∷ w
unfolding trim_end
trim_end-word c [] (p, h) = unfold keep_unless_end is_space in rw (plain_space c p) refl
trim_end-word c (d ∷ w) (p, h) =
    ap (keep_unless_end c) (trim_end-word d w h) ∙ keep_unless_end-append c d [] w

trim_start-word : (c : ℕ) (s : Str) → is_plain c ≡ true → trim_start (c ∷ s) ≡ c ∷ s
unfolding trim_start
trim_start-word c s p = rw (plain_space c p) refl

split_spaces-space :
    (s : Str) → next_is_space s ≡ false → split_spaces (32 ∷ s) ≡ [] ∷ split_spaces s
unfolding split_spaces is_space
split_spaces-space s n = rw n refl

split_spaces-plain :
    (c : ℕ) (s : Str) → is_plain c ≡ true → split_spaces (c ∷ s) ≡ onto_first c (split_spaces s)
unfolding split_spaces
split_spaces-plain c s p = rw (plain_space c p) refl

pub split_spaces-word :
    (w s : Str)
    → IsWord w
    → next_is_space s ≡ false
    → split_spaces (w ++ (32 ∷ s)) ≡ w ∷ split_spaces s
split_spaces-word [] s h n = split_spaces-space s n
split_spaces-word (c ∷ w) s (p, h) n =
    split_spaces-plain c (w ++ (32 ∷ s)) p
    ∙ ap (onto_first c) (split_spaces-word w s h n)
    ∙ (unfold onto_first in refl)

pub split_spaces-last : (w : Str) → IsWord w → split_spaces w ≡ w ∷ []
split_spaces-last [] h = unfold split_spaces in refl
split_spaces-last (c ∷ w) (p, h) =
    split_spaces-plain c w p
    ∙ ap (onto_first c) (split_spaces-last w h)
    ∙ (unfold onto_first in refl)

pub next_is_space-IsWord : (w s : Str) → IsWord w → 1 ≤ length w → next_is_space (w ++ s) ≡ false
unfolding next_is_space
next_is_space-IsWord [] s h k = absurd (omega arith)
next_is_space-IsWord (c ∷ w) s (p, h) k = plain_space c p

pub trim-words :
    (c : ℕ) (s w : Str)
    → is_plain c ≡ true
    → IsWord w
    → 1 ≤ length w
    → trim (c ∷ (s ++ (w ++ (10 ∷ [])))) ≡ c ∷ (s ++ w)
unfolding trim
trim-words c s [] p h k = absurd (omega arith)
trim-words c s (d ∷ w) p h k =
    ap trim_end (trim_start-word c _ p) ∙ trim_end-append (c ∷ s) _ w d (trim_end-word d w h)

pub trim_end-words :
    (s w : Str) → IsWord w → 1 ≤ length w → trim_end (s ++ (w ++ (10 ∷ []))) ≡ s ++ w
trim_end-words s [] h k = absurd (omega arith)
trim_end-words s (d ∷ w) h k = trim_end-append s _ w d (trim_end-word d w h)

trim_end-ended : (c : ℕ) (w : Str) → IsWord (c ∷ w) → trim_end (c ∷ w) ≡ c ∷ w
unfolding trim_end
trim_end-ended c [] (p, h) = unfold keep_unless_end in rw (plain_space c p) refl
trim_end-ended c (d ∷ w) (p, h) =
    ap (keep_unless_end c) (trim_end-ended d w h) ∙ keep_unless_end-append c d [] w

pub trim-ended :
    (c : ℕ) (s w : Str)
    → is_plain c ≡ true
    → IsWord w
    → 1 ≤ length w
    → trim (c ∷ (s ++ w)) ≡ c ∷ (s ++ w)
unfolding trim
trim-ended c s [] p h k = absurd (omega arith)
trim-ended c s (d ∷ w) p h k =
    ap trim_end (trim_start-word c _ p) ∙ trim_end-append (c ∷ s) _ w d (trim_end-ended d w h)

-- The characters that a frame is made of.
pub ascii_plain : (c : ℕ) → 33 ≤ c → c < 127 → is_plain c ≡ true
unfolding is_plain is_space
ascii_plain c h k = ground arith

hex_digit_bounds : (n : ℕ) → n < 16 → (33 ≤ hex_digit n) × (hex_digit n < 127)
unfolding hex_digit
hex_digit_bounds n h = ground arith

pub hex_digit_plain : (n : ℕ) → n < 16 → is_plain (hex_digit n) ≡ true
hex_digit_plain n h = let b : _ = hex_digit_bounds n h in ascii_plain (hex_digit n) b.0 b.1

pub hex_pad-IsWord : (w v : ℕ) → IsWord (hex_pad w v)
unfolding hex_pad
hex_pad-IsWord zero v = tt
hex_pad-IsWord (suc w) v =
    All-append _ _ _ (hex_pad-IsWord w (v / 16)) (hex_digit_plain (v % 16) (omega arith), tt)

pub to_hex-IsWord : (bs : List ℕ) → All IsByte bs → IsWord (to_hex bs)
unfolding to_hex
to_hex-IsWord [] h = tt
to_hex-IsWord (b ∷ bs) (hb, h) = (
  hex_digit_plain (b / 16) (omega arith),
  (hex_digit_plain (b % 16) (omega arith), to_hex-IsWord bs h),
)
