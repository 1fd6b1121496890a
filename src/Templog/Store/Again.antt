-- ===== src/Templog/Store/Again.antt =====
-- The same batch once more: the node repeats a batch whose ack it did not hear.
use mathlib.Core.Path.{subst}
use semantos_edge.Base.{
  ℕ, ◌≤◌, ◌≡◌, refl, ◌∙◌, max, true, Option, none, some, List, [], ◌∷◌, arith, length, All, ==_iff,
}
use semantos_edge.Base.Map.{Str}
use semantos_edge.Base.Members.{mem, add_all}
use semantos_edge.Templog.Batch.{BatchSample, DecodedBatch}
use semantos_edge.Templog.Climb.{IsTop, IsTop-unique}
use semantos_edge.Templog.Store.Records.{LogState}
use semantos_edge.Templog.Store.Plan.{
  plan_batch, taken_of, seen_of, start_through, no_samples, loss_of, is_first, max_of, max_seq_of,
  log_id_hex,
}
use semantos_edge.Templog.Store.Ingest.{state_or, committed}
use semantos_edge.Templog.Store.Taken.{seqs, take_samples_held}
use semantos_edge.Templog.Store.Advance.{after, mem-after, after-IsTop}

all_mem :
    (ss : List BatchSample) (xs : List ℕ)
    → ((q : ℕ) → mem q (seqs ss) ≡ true → mem q xs ≡ true)
    → All (λ (s : BatchSample). mem s.seq xs ≡ true) ss
unfolding mem
all_mem [] xs h = tt
all_mem (s ∷ ss) xs h =
    (h s.seq (ground (arith, ==_iff s.seq s.seq)), all_mem ss xs (λ q e. h q (ground arith)))

module _ (prev : Option LogState) (mac : Str) (batch : DecodedBatch) (now : ℕ) where
  abbrev pub st' : LogState
  st' = after prev mac batch now

  batch_held :
      All (λ (s : BatchSample). mem s.seq (after prev mac batch now).seen ≡ true) batch.samples
  batch_held = all_mem batch.samples st'.seen (λ q e. mem-after prev mac batch now q ∙ ground arith)

  taken_again :
      (mac' log_id : Str) (now' : ℕ)
      → taken_of (some st') mac' log_id batch now'
        ≡ record { added = []; new_samples = []; duplicates = length batch.samples }
  unfolding taken_of seen_of
  taken_again mac' log_id now' =
      take_samples_held st'.seen _ batch.samples no_samples batch_held ∙ ground arith

  lost_again : batch.header.lost_through ≤ st'.through
  lost_again = omega (arith, (after-IsTop prev mac batch now).0.low)

  loss_again : (mac' log_id : Str) (now' : ℕ) → loss_of (some st') mac' log_id batch now' ≡ none
  unfolding loss_of start_through is_first
  loss_again mac' log_id now' = ground (arith, lost_again)

  pub plan_again :
      (mac' : Str) (now' : ℕ)
      → ((plan_batch (some st') mac' batch now').records ≡ [])
        × ((plan_batch (some st') mac' batch now').added ≡ [])
        × ((plan_batch (some st') mac' batch now').max_seq ≡ st'.max_seq)
  unfolding plan_batch max_of max_seq_of
  plan_again mac' now' =
      rw
        (
          taken_again mac' (log_id_hex batch.header.log_id) now',
          loss_again mac' (log_id_hex batch.header.log_id) now',
        )
        (refl, refl, refl)

  pub result_again :
      (mac' : Str) (now' : ℕ)
      → ((plan_batch (some st') mac' batch now').result.new_samples ≡ [])
        × ((plan_batch (some st') mac' batch now').result.lost ≡ none)
        × ((plan_batch (some st') mac' batch now').result.duplicates ≡ length batch.samples)
  unfolding plan_batch
  result_again mac' now' =
      rw
        (
          taken_again mac' (log_id_hex batch.header.log_id) now',
          loss_again mac' (log_id_hex batch.header.log_id) now',
        )
        (refl, refl, refl)

  IsTop-again : IsTop (λ q. mem q st'.seen) st'.through st'.through
  IsTop-again =
      let top = (after-IsTop prev mac batch now).0 in
      record { low = omega arith; held = λ q a b. absurd (omega arith); stop = top.stop }

  seen_again : (mac' : Str) (now' : ℕ) → (after (some st') mac' batch now').seen ≡ st'.seen
  unfolding committed state_or add_all
  seen_again mac' now' = rw ((plan_again mac' now').1) refl

  start_again : max (start_through (some st') batch.header) batch.header.lost_through ≡ st'.through
  unfolding start_through
  start_again = omega (arith, lost_again)

  through_again : (mac' : Str) (now' : ℕ) → (after (some st') mac' batch now').through ≡ st'.through
  through_again mac' now' =
      let top : IsTop (λ q. mem q st'.seen) st'.through (after (some st') mac' batch now').through =
        subst (λ (t : ℕ). IsTop (λ q. mem q st'.seen) t (after (some st') mac' batch now').through)
          start_again
          (subst
            (λ (xs : List ℕ).
              IsTop (λ q. mem q xs)
                (max (start_through (some st') batch.header) batch.header.lost_through)
                (after (some st') mac' batch now').through)
            (seen_again mac' now') ((after-IsTop (some st') mac' batch now').0)) in
      IsTop-unique _ _ _ _ top IsTop-again

  fields_again :
      (mac' : Str) (now' : ℕ)
      → ((after (some st') mac' batch now').mac ≡ st'.mac)
        × ((after (some st') mac' batch now').log_id ≡ st'.log_id)
        × ((after (some st') mac' batch now').max_seq ≡ st'.max_seq)
  fields_again mac' now' = (
    unfold committed state_or in refl,
    unfold committed state_or in refl,
    unfold committed in (plan_again mac' now').2,
  )

  pub after_again : (mac' : Str) (now' : ℕ) → after (some st') mac' batch now' ≡ st'
  after_again mac' now' = λ i. record {
    mac = (fields_again mac' now').0 i;
    log_id = (fields_again mac' now').1 i;
    through = through_again mac' now' i;
    seen = seen_again mac' now' i;
    max_seq = (fields_again mac' now').2 i;
  }
