-- ===== src/Templog/Store/Taken.antt =====
-- What the loop over the samples of a batch takes: the seqs of the batch that were not held, once
-- each, in order.
use semantos_edge.Base.{
  ℕ, ◌+◌, ◌≡◌, refl, true, not, ◌&&◌, ◌||◌, List, [], ◌∷◌, map, arith, ◌==◌, ==_iff, Bool-cases,
  inl, inr, length, length-append, All,
}
use mathlib.Core.List.{map-append}
use semantos_edge.Base.Members.{mem, mem-append}
use semantos_edge.Templog.Batch.{BatchSample}
use semantos_edge.Templog.Store.Records.{SampleRecord}
use semantos_edge.Templog.Store.Plan.{Taken, take_one, take_samples}

abbrev pub seqs : List BatchSample → List ℕ
seqs ss = map (λ s. s.seq) ss

abbrev pub record_seqs : List SampleRecord → List ℕ
record_seqs rs = map (λ r. r.seq) rs

module _ (seen : List ℕ) (make : BatchSample → SampleRecord) where
  mem-take_one :
      (q : ℕ) (s : BatchSample) (t : Taken)
      → mem q (take_one seen make s t).added ≡ (mem q t.added || (s.seq == q && not (mem q seen)))
  unfolding take_one mem
  mem-take_one q s t = ground (arith, ==_iff s.seq q, mem-append q t.added (s.seq ∷ []))

  -- A seq is added exactly when it is in the batch and was not held.
  pub mem-take_samples :
      (q : ℕ) (ss : List BatchSample) (t : Taken)
      → mem q (take_samples seen make ss t).added
        ≡ (mem q t.added || (mem q (seqs ss) && not (mem q seen)))
  unfolding take_samples mem
  mem-take_samples q [] t = ground arith
  mem-take_samples q (s ∷ ss) t =
      ground (arith, mem-take_samples q ss (take_one seen make s t), mem-take_one q s t)

  length-take_one :
      (s : BatchSample) (t : Taken)
      → (take_one seen make s t).duplicates + length (take_one seen make s t).added
        ≡ t.duplicates + length t.added + 1
  unfolding take_one
  length-take_one s t = ground (arith, length-append t.added (s.seq ∷ []))

  -- Every sample is added or counted as a duplicate.
  pub length-take_samples :
      (ss : List BatchSample) (t : Taken)
      → (take_samples seen make ss t).duplicates + length (take_samples seen make ss t).added
        ≡ t.duplicates + length t.added + length ss
  unfolding take_samples
  length-take_samples [] t = omega arith
  length-take_samples (s ∷ ss) t =
      omega (arith, length-take_samples ss (take_one seen make s t), length-take_one s t)

  -- Where all is held, nothing is taken.
  pub take_samples_held :
      (ss : List BatchSample) (t : Taken)
      → All (λ (s : BatchSample). mem s.seq seen ≡ true) ss
      → take_samples seen make ss t ≡ record t { duplicates = t.duplicates + length ss }
  unfolding take_samples take_one
  take_samples_held [] t h = ground arith
  take_samples_held (s ∷ ss) t (h, hs) =
      rw h (ground (arith, take_samples_held ss (record t { duplicates = t.duplicates + 1 }) hs))

  module _ (keeps : (s : BatchSample) → (make s).seq ≡ s.seq) where
    record_seqs-take_one :
        (s : BatchSample) (t : Taken)
        → record_seqs t.new_samples ≡ t.added
        → record_seqs (take_one seen make s t).new_samples ≡ (take_one seen make s t).added
    unfolding take_one
    record_seqs-take_one s t h = elim (Bool-cases (mem s.seq seen || mem s.seq t.added)) [
      | inl e ↦ rw e h
      | inr e ↦ rw e (simp (map-append, h, keeps) refl)
    ]

    -- The new records carry the added seqs, in order.
    pub record_seqs-take_samples :
        (ss : List BatchSample) (t : Taken)
        → record_seqs t.new_samples ≡ t.added
        → record_seqs (take_samples seen make ss t).new_samples
          ≡ (take_samples seen make ss t).added
    unfolding take_samples
    record_seqs-take_samples [] t h = h
    record_seqs-take_samples (s ∷ ss) t h =
        record_seqs-take_samples ss (take_one seen make s t) (record_seqs-take_one s t h)
