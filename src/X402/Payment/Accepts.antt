-- ===== src/X402/Payment/Accepts.antt =====
-- What the default verifier of tools/x402-bridge/x402.ts accepts.
use semantos_edge.Base.{
  ℕ, zero, suc, ◌+◌, ◌^◌, ◌<◌, ◌≡◌, refl, sym, ap, ◌∙◌, max, false, some, List, [], ◌∷◌, ◌++◌,
  arith, ltb, length, length-append, All, ok,
}
use mathlib.Core.List.{append_assoc}
use semantos_edge.Cell.Words.{le64, read_u64-le64}
use semantos_edge.X402.Payment.{
  byte_at, advance, advance_by, is_long, rounds, skip_inputs, output_value, max_outputs,
  max_output_bytes,
}

-- A transaction with scripts shorter than 253 bytes.
pub record TxIn : Type 0 where
  pub outpoint : List ℕ
  pub script : List ℕ
  pub sequence : List ℕ

pub record TxOut : Type 0 where
  pub value : ℕ
  pub script : List ℕ

pub record IsTxIn (i : TxIn) : Type 0 where
  pub outpoint : length i.outpoint ≡ 36
  pub script : length i.script < 253
  pub sequence : length i.sequence ≡ 4

pub record IsTxOut (o : TxOut) : Type 0 where
  pub value : o.value < 2 ^ 64
  pub script : length o.script < 253

-- The inputs, and the outputs, in front of what follows them.
abbrev pub in_bytes : List TxIn → List ℕ → List ℕ
in_bytes [] rest = rest
in_bytes (i ∷ is) rest =
    i.outpoint ++ (length i.script ∷ (i.script ++ (i.sequence ++ in_bytes is rest)))

abbrev pub out_bytes : List TxOut → List ℕ → List ℕ
out_bytes [] rest = rest
out_bytes (o ∷ os) rest = le64 o.value ++ (length o.script ∷ (o.script ++ out_bytes os rest))

abbrev pub in_length : List TxIn → ℕ
in_length [] = 0
in_length (i ∷ is) = 41 + length i.script + in_length is

abbrev pub most_of : List TxOut → ℕ → ℕ
most_of [] m = m
most_of (o ∷ os) m = most_of os (max m o.value)

byte_at-append :
    (pre xs : List ℕ) (o : ℕ) (x : ℕ) → o ≡ length pre → byte_at (pre ++ (x ∷ xs)) (some o) ≡ some x
unfolding byte_at
byte_at-append [] xs zero x h = refl
byte_at-append [] xs (suc o) x h = absurd (omega arith)
byte_at-append (y ∷ pre) xs zero x h = absurd (omega arith)
byte_at-append (y ∷ pre) xs (suc o) x h = byte_at-append pre xs o x (omega arith)

max_outputs-step :
    (n : ℕ) (tx : List ℕ) (o m v l : ℕ)
    → output_value tx (some o) ≡ ok v
    → byte_at tx (some (o + 8)) ≡ some l
    → l < 253
    → max_outputs (suc n) tx (some o) m ≡ max_outputs n tx (some (o + 9 + l)) (max m v)
unfolding max_outputs advance advance_by
max_outputs-step n tx o m v l e b h =
    let short : is_long (some l) ≡ false = unfold is_long in ground arith in
    rw (e, max_outputs) (rw b (rw short refl))

output_value-bytes :
    (pre xs : List ℕ) (o v : ℕ)
    → o ≡ length pre
    → v < 2 ^ 64
    → output_value (pre ++ (le64 v ++ xs)) (some o) ≡ ok v
unfolding output_value
output_value-bytes pre xs o v h b =
    let there : ltb (length (pre ++ (le64 v ++ xs))) (o + 8) ≡ false =
      ground (arith, length-append pre (le64 v ++ xs)) in
    rw there (ap ok (read_u64-le64 pre xs o v h b))

max_outputs-bytes :
    (os : List TxOut) (pre xs : List ℕ) (o m : ℕ)
    → o ≡ length pre
    → All IsTxOut os
    → max_outputs (length os) (pre ++ out_bytes os xs) (some o) m ≡ ok (most_of os m)
max_outputs-bytes [] pre xs o m h v = unfold max_outputs in refl
max_outputs-bytes (t ∷ os) pre xs o m h (v, vs) =
    let l : ℕ = length t.script in
    let rest : List ℕ = t.script ++ out_bytes os xs in
    let head : List ℕ = pre ++ le64 t.value in
    let next : List ℕ = head ++ (l ∷ t.script) in
    let as_head : pre ++ (le64 t.value ++ (l ∷ rest)) ≡ head ++ (l ∷ rest) =
      sym (append_assoc pre (le64 t.value) (l ∷ rest)) in
    let as_next : head ++ (l ∷ rest) ≡ next ++ out_bytes os xs =
      sym (append_assoc head (l ∷ t.script) (out_bytes os xs)) in
    let long_head : length head ≡ length pre + 8 = length-append pre (le64 t.value) in
    let long_next : length next ≡ length head + suc l = length-append head (l ∷ t.script) in
    let sized : byte_at (pre ++ out_bytes (t ∷ os) xs) (some (o + 8)) ≡ some l =
      ap (λ b. byte_at b (some (o + 8))) as_head
      ∙ byte_at-append head rest (o + 8) l (omega arith) in
    max_outputs-step (length os) (pre ++ out_bytes (t ∷ os) xs) o m t.value l
      (output_value-bytes pre (l ∷ rest) o t.value h v.value) sized v.script
    ∙ ap (λ b. max_outputs (length os) b (some (o + 9 + l)) (max m t.value)) (as_head ∙ as_next)
    ∙ max_outputs-bytes os next xs (o + 9 + l) (max m t.value) (omega arith) vs

skip_inputs-step :
    (n : ℕ) (tx : List ℕ) (o l : ℕ)
    → byte_at tx (some (o + 36)) ≡ some l
    → l < 253
    → skip_inputs (suc n) tx (some o) ≡ skip_inputs n tx (some (o + 36 + 1 + l + 4))
unfolding skip_inputs advance advance_by
skip_inputs-step n tx o l b h =
    let short : is_long (some l) ≡ false = unfold is_long in ground arith in rw b (rw short refl)

skip_inputs-bytes :
    (is : List TxIn) (pre xs : List ℕ) (o : ℕ)
    → o ≡ length pre
    → All IsTxIn is
    → skip_inputs (length is) (pre ++ in_bytes is xs) (some o) ≡ ok (some (o + in_length is))
skip_inputs-bytes [] pre xs o h v = unfold skip_inputs in ap (λ n. ok (some n)) (omega arith)
skip_inputs-bytes (i ∷ is) pre xs o h (v, vs) =
    let l : ℕ = length i.script in
    let after : List ℕ = i.sequence ++ in_bytes is xs in
    let head : List ℕ = pre ++ i.outpoint in
    let middle : List ℕ = head ++ (l ∷ i.script) in
    let next : List ℕ = middle ++ i.sequence in
    let as_head : pre ++ in_bytes (i ∷ is) xs ≡ head ++ (l ∷ (i.script ++ after)) =
      sym (append_assoc pre i.outpoint (l ∷ (i.script ++ after))) in
    let as_next : head ++ (l ∷ (i.script ++ after)) ≡ next ++ in_bytes is xs =
      sym (append_assoc head (l ∷ i.script) after)
      ∙ sym (append_assoc middle i.sequence (in_bytes is xs)) in
    let long_head : length head ≡ length pre + 36 =
      length-append pre i.outpoint ∙ ap (λ n. length pre + n) v.outpoint in
    let long_middle : length middle ≡ length head + suc l = length-append head (l ∷ i.script) in
    let long_next : length next ≡ length middle + 4 =
      length-append middle i.sequence ∙ ap (λ n. length middle + n) v.sequence in
    let sized : byte_at (pre ++ in_bytes (i ∷ is) xs) (some (o + 36)) ≡ some l =
      ap (λ b. byte_at b (some (o + 36))) as_head
      ∙ byte_at-append head (i.script ++ after) (o + 36) l (omega arith) in
    skip_inputs-step (length is) (pre ++ in_bytes (i ∷ is) xs) o l sized v.script
    ∙ ap (λ b. skip_inputs (length is) b (some (o + 36 + 1 + l + 4))) (as_head ∙ as_next)
    ∙ skip_inputs-bytes is next xs (o + 36 + 1 + l + 4) (omega arith) vs
    ∙ ap (λ n. ok (some n)) (omega arith)

length-in_bytes :
    (is : List TxIn) (xs : List ℕ)
    → All IsTxIn is
    → length (in_bytes is xs) ≡ in_length is + length xs
length-in_bytes [] xs v = omega arith
length-in_bytes (i ∷ is) xs (v, vs) = omega (
  arith,
  length-append i.outpoint (length i.script ∷ (i.script ++ (i.sequence ++ in_bytes is xs))),
  length-append i.script (i.sequence ++ in_bytes is xs),
  length-append i.sequence (in_bytes is xs),
  length-in_bytes is xs vs,
  v.outpoint,
  v.sequence,
)

split_inputs : (is : List TxIn) (xs : List ℕ) → in_bytes is xs ≡ in_bytes is [] ++ xs
split_inputs [] xs = refl
split_inputs (i ∷ is) xs = rw (split_inputs is xs) (simp append_assoc refl)

-- A transaction with a version of four bytes.
abbrev pub tx_bytes : List ℕ → List TxIn → List TxOut → List ℕ → List ℕ
tx_bytes version is os locktime =
    version ++ (length is ∷ in_bytes is (length os ∷ out_bytes os locktime))

-- The largest output value of every transaction with fewer than 253 inputs, outputs and bytes in
-- each script, whatever follows the outputs.
pub max_output_bytes-tx_bytes :
    (version : List ℕ) (is : List TxIn) (os : List TxOut) (locktime : List ℕ)
    → length version ≡ 4
    → length is < 253
    → length os < 253
    → All IsTxIn is
    → All IsTxOut os
    → max_output_bytes (tx_bytes version is os locktime) ≡ ok (most_of os 0)
unfolding max_output_bytes advance
max_output_bytes-tx_bytes version is os locktime four few_in few_out vi vo =
    let outs : List ℕ = out_bytes os locktime in
    let tx : List ℕ = tx_bytes version is os locktime in
    let head : List ℕ = version ++ (length is ∷ []) in
    let body : List ℕ = head ++ in_bytes is [] in
    let next : List ℕ = body ++ (length os ∷ []) in
    let as_head : tx ≡ head ++ in_bytes is (length os ∷ outs) =
      sym (append_assoc version (length is ∷ []) (in_bytes is (length os ∷ outs))) in
    let as_body : head ++ in_bytes is (length os ∷ outs) ≡ body ++ (length os ∷ outs) =
      ap (λ t. head ++ t) (split_inputs is (length os ∷ outs))
      ∙ sym (append_assoc head (in_bytes is []) (length os ∷ outs)) in
    let as_next : body ++ (length os ∷ outs) ≡ next ++ outs =
      sym (append_assoc body (length os ∷ []) outs) in
    let long_head : length head ≡ 5 =
      length-append version (length is ∷ []) ∙ omega (arith, four) in
    let long_body : length body ≡ 5 + in_length is =
      length-append head (in_bytes is []) ∙ omega (arith, long_head, length-in_bytes is [] vi) in
    let in_count : byte_at tx (some 4) ≡ some (length is) =
      byte_at-append version _ 4 (length is) (sym four) in
    let skipped : skip_inputs (length is) tx (some 5) ≡ ok (some (5 + in_length is)) =
      ap (λ b. skip_inputs (length is) b (some 5)) as_head
      ∙ skip_inputs-bytes is head (length os ∷ outs) 5 (sym long_head) vi in
    let out_count : byte_at tx (some (5 + in_length is)) ≡ some (length os) =
      ap (λ b. byte_at b (some (5 + in_length is))) (as_head ∙ as_body)
      ∙ byte_at-append body outs (5 + in_length is) (length os) (sym long_body) in
    let outputs : max_outputs (length os) tx (some (5 + in_length is + 1)) 0 ≡ ok (most_of os 0) =
      ap (λ b. max_outputs (length os) b (some (5 + in_length is + 1)) 0)
        (as_head ∙ as_body ∙ as_next)
      ∙ max_outputs-bytes os next locktime (5 + in_length is + 1) 0
          (omega (arith, length-append body (length os ∷ []), long_body)) vo in
    let short_in : is_long (some (length is)) ≡ false = unfold is_long in ground arith in
    let short_out : is_long (some (length os)) ≡ false = unfold is_long in ground arith in
    rw (in_count, short_in)
      (unfold rounds in rw (skipped, max_output_bytes) (rw (out_count, short_out) outputs))
