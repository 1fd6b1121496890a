-- ===== src/Templog/Bridge/Stream.antt =====
-- `splitLines` and `pump` of tools/templog-bridge/bridge.ts. The chunks are the texts that the
-- TextDecoder returns for them, and `tail` is what it returns when it is flushed at the end.
use mathlib.Core.List.{map-append, append_assoc, append-nil}
use semantos_edge.Base.{
  ℕ, suc, ◌+◌, ◌≤◌, ◌≡◌, refl, sym, ap, ◌∙◌, false, Option, none, some, List, [], ◌∷◌, ◌++◌, map,
  ltb, ◌==◌, if◌then◌else◌, length, arith, Bool-cases, inl, inr,
}
use semantos_edge.Base.Map.{Str}

-- `c` in front of what was cut off: of the first line, or of the rest where there is no line.
unfoldable pub before : ℕ → List Str × Str → List Str × Str
before c ([], rest) = ([], c ∷ rest)
before c (l ∷ ls, rest) = ((c ∷ l) ∷ ls, rest)

-- The loop over the newlines of the buffer: the lines, and the rest that has no newline.
unfoldable pub cut : Str → List Str × Str
cut [] = ([], [])
cut (c ∷ s) = let after = cut s in if c == 10 then ([] ∷ after.0, after.1) else before c after

-- replace(/\r$/, '')
unfoldable pub strip_cr : Str → Str
strip_cr [] = []
strip_cr (c ∷ []) = if c == 13 then [] else c ∷ []
strip_cr (c ∷ d ∷ s) = c ∷ strip_cr (d ∷ s)

-- A rest without a newline in sight is dropped.
unfoldable pub keep_short : Str → Str
keep_short rest = if ltb 16384 (length rest) then [] else rest

-- buf.length > 0 at the end
unfoldable pub last_line : Str → List Str
last_line [] = []
last_line (c ∷ s) = strip_cr (c ∷ s) ∷ []

unfoldable pub split_lines : Str → Str → List Str → List Str
split_lines tail buf [] = last_line (buf ++ tail)
split_lines tail buf (chunk ∷ chunks) =
    let cuts = cut (buf ++ chunk) in
    map strip_cr cuts.0 ++ split_lines tail (keep_short cuts.1) chunks

abbrev pub concat : List Str → Str
concat [] = []
concat (s ∷ ss) = s ++ concat ss

-- No partial line outgrows what the bridge keeps.
abbrev pub StayShort : Str → List Str → Type 0
StayShort buf [] = Unit
StayShort buf (chunk ∷ chunks) =
    (length (cut (buf ++ chunk)).1 ≤ 16384) × StayShort (cut (buf ++ chunk)).1 chunks

-- The cuts of `b` behind the cuts of what comes first.
abbrev join_cuts : List Str × Str → Str → List Str × Str
join_cuts (ls, r) b = (ls ++ (cut (r ++ b)).0, (cut (r ++ b)).1)

before-join_cuts :
    (c : ℕ) (p : List Str × Str) (b : Str)
    → (c == 10) ≡ false
    → before c (join_cuts p b) ≡ join_cuts (before c p) b
unfolding before cut
before-join_cuts c ([], r) b e = rw e refl
before-join_cuts c (l ∷ ls, r) b e = refl

cut-append : (a b : Str) → cut (a ++ b) ≡ join_cuts (cut a) b
unfolding cut
cut-append [] b = refl
cut-append (c ∷ a) b = elim (Bool-cases (c == 10)) [
  | inl e ↦ rw e (ap (λ (p : List Str × Str). ([] ∷ p.0, p.1)) (cut-append a b))
  | inr e ↦ rw e (ap (before c) (cut-append a b) ∙ before-join_cuts c (cut a) b e)
]

before-rest :
    (c : ℕ) (p : List Str × Str)
    → (c == 10) ≡ false
    → cut p.1 ≡ ([], p.1)
    → cut (before c p).1 ≡ ([], (before c p).1)
unfolding before cut
before-rest c ([], r) e h = rw e (ap (before c) h)
before-rest c (l ∷ ls, r) e h = h

-- The rest has no newline.
cut-rest : (s : Str) → cut (cut s).1 ≡ ([], (cut s).1)
unfolding cut
cut-rest [] = refl
cut-rest (c ∷ s) = elim (Bool-cases (c == 10)) [
  | inl e ↦ rw e (cut-rest s)
  | inr e ↦ rw e (before-rest c (cut s) e (cut-rest s))
]

keep_short-lem : (r : Str) → length r ≤ 16384 → keep_short r ≡ r
unfolding keep_short
keep_short-lem r h = let e : ltb 16384 (length r) ≡ false = ground arith in rw e refl

-- The lines of a text in one piece, and the last one behind them.
abbrev whole_of : Str → List Str × Str → List Str
whole_of tail p = map strip_cr p.0 ++ last_line (p.1 ++ tail)

abbrev whole : Str → Str → List Str
whole tail s = whole_of tail (cut s)

split_lines-whole :
    (tail buf : Str) (chunks : List Str)
    → cut buf ≡ ([], buf)
    → StayShort buf chunks
    → split_lines tail buf chunks ≡ whole tail (buf ++ concat chunks)
unfolding split_lines
split_lines-whole tail buf [] h short =
    sym (ap (whole tail) (append-nil buf) ∙ ap (whole_of tail) h)
split_lines-whole tail buf (chunk ∷ chunks) h (first, short) =
    let r : Str = (cut (buf ++ chunk)).1 in
    let ls : List Str = (cut (buf ++ chunk)).0 in
    let cuts : cut (buf ++ (chunk ++ concat chunks))
        ≡ (ls ++ (cut (r ++ concat chunks)).0, (cut (r ++ concat chunks)).1) =
      ap cut (sym (append_assoc buf chunk (concat chunks)))
      ∙ cut-append (buf ++ chunk) (concat chunks) in
    let last : List Str = last_line ((cut (r ++ concat chunks)).1 ++ tail) in
    ap (λ b. map strip_cr ls ++ split_lines tail b chunks) (keep_short-lem r first)
    ∙ ap (λ t. map strip_cr ls ++ t)
        (split_lines-whole tail r chunks (cut-rest (buf ++ chunk)) short)
    ∙ sym (
        ap (whole_of tail) cuts
        ∙ ap (λ t. t ++ last) (map-append strip_cr ls (cut (r ++ concat chunks)).0)
        ∙ append_assoc (map strip_cr ls) (map strip_cr (cut (r ++ concat chunks)).0) last)

-- The lines do not depend on where the chunks end, where no partial line outgrows what is kept.
pub split_lines-chunks :
    (tail : Str) (xs ys : List Str)
    → concat xs ≡ concat ys
    → StayShort [] xs
    → StayShort [] ys
    → split_lines tail [] xs ≡ split_lines tail [] ys
unfolding cut
split_lines-chunks tail xs ys same short_xs short_ys =
    split_lines-whole tail [] xs (cut-rest []) short_xs
    ∙ ap (whole tail) same
    ∙ sym (split_lines-whole tail [] ys (cut-rest []) short_ys)

-- What `pump` wrote, and what its handler has become.
pub record Pumped {ℓ} (S : Type ℓ) : Type ℓ where
  pub written : List Str
  pub acks : ℕ
  pub state : S

-- A `LineHandler` with the state `S`.
module _ {ℓ} {S : Type ℓ} (handle : Str → S → Option Str × S) where
  -- One round of the loop over the lines.
  unfoldable pub pump_reply : Option Str × S → Pumped S → Pumped S
  pump_reply (none, s) p = record p { state = s }
  pump_reply (some ak, s) p = record {
    written = p.written ++ (ak ∷ []);
    acks = p.acks + 1;
    state = s;
  }

  unfoldable pub pump : List Str → Pumped S → Pumped S
  pump [] p = p
  pump (l ∷ ls) p = pump ls (pump_reply (handle l p.state) p)

  abbrev pub replied : Option Str → List Str → List Str
  replied none rest = rest
  replied (some ak) rest = ak ∷ rest

  -- The replies of the handler to the lines, in order, and what becomes of it.
  abbrev pub replies : List Str → S → List Str × S
  replies [] s = ([], s)
  replies (l ∷ ls) s =
      let a = handle l s in let rest = replies ls a.1 in (replied a.0 rest.0, rest.1)

  abbrev pub with_replies : Pumped S → List Str × S → Pumped S
  with_replies p r = record { written = p.written ++ r.0; acks = p.acks + length r.0; state = r.1 }

  pump_reply-replied :
      (a : Option Str × S) (p : Pumped S) (rest : List Str × S)
      → with_replies (pump_reply a p) rest ≡ with_replies p (replied a.0 rest.0, rest.1)
  unfolding pump_reply
  pump_reply-replied (none, s) p rest = refl
  pump_reply-replied (some ak, s) p rest = λ i. record {
    written = append_assoc p.written (ak ∷ []) rest.0 i;
    acks = one_more i;
    state = rest.1;
  }
    where
      one_more : p.acks + 1 + length rest.0 ≡ p.acks + suc (length rest.0)
      one_more = omega arith

  pump_reply-state : (a : Option Str × S) (p : Pumped S) → (pump_reply a p).state ≡ a.1
  unfolding pump_reply
  pump_reply-state (none, s) p = refl
  pump_reply-state (some ak, s) p = refl

  -- The pump writes the replies of the handler to the lines, each once and in order, and returns
  -- how many they are.
  pub pump-replies :
      (ls : List Str) (p : Pumped S) → pump ls p ≡ with_replies p (replies ls p.state)
  unfolding pump
  pump-replies [] p = λ i. record { written = same i; acks = none_more i; state = p.state }
    where
      same : p.written ≡ p.written ++ []
      same = sym (append-nil p.written)

      none_more : p.acks ≡ p.acks + 0
      none_more = omega arith
  pump-replies (l ∷ ls) p =
      let a : Option Str × S = handle l p.state in
      pump-replies ls (pump_reply a p)
      ∙ ap (λ s. with_replies (pump_reply a p) (replies ls s)) (pump_reply-state a p)
      ∙ pump_reply-replied a p (replies ls a.1)
