-- ===== src/Templog/Store/Lost.antt =====
-- How many readings the loss record of a batch says are missing (`planBatch`, store.ts).
use semantos_edge.Base.{
  ℕ, zero, suc, ◌+◌, ◌-◌, ◌<◌, ◌≤◌, ◌≡◌, refl, sym, ap, ◌∙◌, Bool, true, false, not, ◌&&◌, ◌||◌,
  Option, some, List, [], ◌∷◌, ◌++◌, map, ltb, ◌==◌, ==_iff, if◌then◌else◌, arith, Bool-cases, inl,
  inr,
}
use mathlib.Core.Path.{subst, fun_ext}
use semantos_edge.Base.Int.{pos, sub_ℕ, sub_ℕ-pos}
use semantos_edge.Base.Map.{Str}
use semantos_edge.Base.Members.{mem, add, add_all, count, mem-append, mem-add_all}
use semantos_edge.Templog.Batch.{DecodedBatch}
use semantos_edge.Templog.Store.Records.{LogState}
use semantos_edge.Templog.Store.Plan.{loss_of, start_through, seen_of, in_range, held_in}

abbrev pub NoDup : List ℕ → Type 0
NoDup [] = Unit
NoDup (x ∷ xs) = (mem x xs ≡ false) × NoDup xs

-- How many of the `n` seqs above `t` are not held.
abbrev pub absent : (ℕ → Bool) → ℕ → ℕ → ℕ
absent held t zero = 0
absent held t (suc n) = absent held t n + (if held (t + suc n) then 0 else 1)

NoDup-append_one : (xs : List ℕ) (a : ℕ) → NoDup xs → mem a xs ≡ false → NoDup (xs ++ (a ∷ []))
unfolding mem
NoDup-append_one [] a d h = (refl, tt)
NoDup-append_one (x ∷ xs) a (e, d) h = (
  ground (arith, mem-append x xs (a ∷ []), ==_iff x a, ==_iff a x),
  NoDup-append_one xs a d (ground arith),
)

NoDup-add_all : (qs s : List ℕ) → NoDup s → NoDup (add_all qs s)
unfolding add_all add
NoDup-add_all [] s d = d
NoDup-add_all (q ∷ qs) s d = elim (Bool-cases (mem q s)) [
  | inl e ↦ rw e (NoDup-add_all qs s d)
  | inr e ↦ rw e (NoDup-add_all qs (s ++ (q ∷ [])) (NoDup-append_one s q d e))
]

count-single :
    (p : ℕ → Bool) (a : ℕ) (xs : List ℕ)
    → NoDup xs
    → count (λ q. a == q && p q) xs ≡ (if mem a xs && p a then 1 else 0)
unfolding count mem
count-single p a [] d = refl
count-single p a (x ∷ xs) (e, d) = elim (Bool-cases (x == a)) [
  | inl g ↦
      let same : x ≡ a = (==_iff x a).0 g in
      let value : p x ≡ p a = ap p same in
      let gone : mem a xs ≡ false = sym (ap (λ y. mem y xs) same) ∙ e in
      let back : (a == x) ≡ true = (==_iff a x).1 (sym same) in
      rw (g, back, value) (ground (arith, count-single p a xs d))
  | inr g ↦
      let back : (a == x) ≡ false = ground (arith, ==_iff a x, ==_iff x a) in
      rw (g, back) (omega (arith, count-single p a xs d))
]

-- One more seq in the range.
count-range :
    (p : ℕ → Bool) (t n : ℕ) (xs : List ℕ)
    → count (λ q. in_range t (t + suc n) q && p q) xs
      ≡ count (λ q. in_range t (t + n) q && p q) xs + count (λ q. t + suc n == q && p q) xs
unfolding count in_range
count-range p t n [] = refl
count-range p t n (x ∷ xs) = ground (arith, count-range p t n xs, ==_iff (t + suc n) x)

count-all : (f : ℕ → Bool) (xs : List ℕ) → count (λ q. f q && true) xs ≡ count f xs
unfolding count
count-all f [] = refl
count-all f (x ∷ xs) = ground (arith, count-all f xs)

count-empty_range : (p : ℕ → Bool) (t : ℕ) (xs : List ℕ) → count (λ q. in_range t t q && p q) xs ≡ 0
unfolding count in_range
count-empty_range p t [] = refl
count-empty_range p t (x ∷ xs) = ground (arith, count-empty_range p t xs)

module _ (seen in_batch : List ℕ) (ds : NoDup seen) (db : NoDup in_batch) (t : ℕ) where
  -- What is held in a range and what is absent from it make it up.
  held_in-absent :
      (n : ℕ)
      → count (λ q. in_range t (t + n) q && true) seen
          + count (λ q. in_range t (t + n) q && not (mem q seen)) in_batch
          + absent (λ q. mem q seen || mem q in_batch) t n
        ≡ n
  held_in-absent zero =
      subst
        (λ m.
          count (λ q. in_range t m q && true) seen
            + count (λ q. in_range t m q && not (mem q seen)) in_batch
            + 0
          ≡ 0)
        (sym t_zero)
        (omega (
          arith,
          count-empty_range (λ q. true) t seen,
          count-empty_range (λ q. not (mem q seen)) t in_batch,
        ))
    where
      t_zero : t + 0 ≡ t
      t_zero = omega arith
  held_in-absent (suc n) = ground (
    arith,
    held_in-absent n,
    count-range (λ q. true) t n seen,
    count-range (λ q. not (mem q seen)) t n in_batch,
    count-single (λ q. true) (t + suc n) seen ds,
    count-single (λ q. not (mem q seen)) (t + suc n) in_batch db,
  )

held_in-range :
    (seen in_batch : List ℕ) (t lost : ℕ)
    → NoDup seen
    → NoDup in_batch
    → t ≤ lost
    → held_in t lost seen in_batch + absent (λ q. mem q seen || mem q in_batch) t (lost - t)
      ≡ lost - t
unfolding held_in
held_in-range seen in_batch t lost ds db h =
    let n : ℕ = lost - t in
    let top : t + n ≡ lost = omega arith in
    subst
      (λ m.
        count (in_range t m) seen
          + count (λ q. in_range t m q && not (mem q seen)) in_batch
          + absent (λ q. mem q seen || mem q in_batch) t n
        ≡ n)
      top
      (omega (arith, count-all (in_range t (t + n)) seen, held_in-absent seen in_batch ds db t n))

mem-members : (q : ℕ) (qs : List ℕ) → mem q (add_all qs []) ≡ mem q qs
unfolding mem
mem-members q qs = mem-add_all q qs []

-- Where a batch reports a loss beyond the pointer, the loss record spans the seqs from the one
-- above the pointer through the batch's lost_through, and its `missing` is the number of those
-- that neither the log nor the batch holds.
pub loss_of-missing :
    (prev : Option LogState) (mac log_id : Str) (batch : DecodedBatch) (now : ℕ)
    → NoDup (seen_of prev)
    → start_through prev batch.header < batch.header.lost_through
    → loss_of prev mac log_id batch now
      ≡ some (record {
        mac = mac;
        log_id = log_id;
        from_seq = some (start_through prev batch.header + 1);
        through_seq = batch.header.lost_through;
        missing = some (
            pos (
              absent
                (λ q. mem q (seen_of prev) || mem q (map (λ s. s.seq) batch.samples))
                (start_through prev batch.header)
                (batch.header.lost_through - start_through prev batch.header)));
        received_unix_s = now;
      })
unfolding loss_of
loss_of-missing prev mac log_id batch now d h =
    let t : ℕ = start_through prev batch.header in
    let lost : ℕ = batch.header.lost_through in
    let seen : List ℕ = seen_of prev in
    let seqs : List ℕ = map (λ s. s.seq) batch.samples in
    let in_batch : List ℕ = add_all seqs [] in
    let held : ℕ = held_in t lost seen in_batch in
    let reported : ltb t lost ≡ true = ground arith in
    let same : (λ (q : ℕ). mem q seen || mem q in_batch) ≡ (λ (q : ℕ). mem q seen || mem q seqs) =
      fun_ext (λ q. ap (λ b. mem q seen || b) (mem-members q seqs)) in
    let split : held + absent (λ q. mem q seen || mem q in_batch) t (lost - t) ≡ lost - t =
      held_in-range seen in_batch t lost d (NoDup-add_all seqs [] tt) (omega arith) in
    let missing : sub_ℕ lost (t + held)
        ≡ pos (absent (λ q. mem q seen || mem q seqs) t (lost - t)) =
      sub_ℕ-pos lost (t + held) (omega (arith, split))
      ∙ ap pos (omega (arith, split) ∙ ap (λ f. absent f t (lost - t)) same) in
    rw (reported, loss_of)
      (λ i. some (record {
        mac = mac;
        log_id = log_id;
        from_seq = some (t + 1);
        through_seq = lost;
        missing = some (missing i);
        received_unix_s = now;
      }))
