-- ===== src/Templog/Store/Advance.antt =====
-- Where the delivery pointer of tools/templog-bridge/store.ts stands after a batch.
use semantos_edge.Base.{
  ℕ, ◌+◌, ◌≡◌, refl, sym, ap, ◌∙◌, max, not, ◌&&◌, ◌||◌, Option, none, some, List, ◌++◌, arith,
  length, length-append,
}
use mathlib.Core.Path.{subst, fun_ext}
use semantos_edge.Base.Map.{Str}
use semantos_edge.Base.Members.{mem, mem-append, mem-add_all}
use semantos_edge.Templog.Batch.{DecodedBatch}
use semantos_edge.Templog.Climb.{climb, IsTop, climb-IsTop}
use semantos_edge.Templog.Store.Records.{LogState}
use semantos_edge.Templog.Store.Plan.{
  plan_batch, taken_of, seen_of, is_held, past_loss, start_through, log_id_hex, no_samples,
  sample_record,
}
use semantos_edge.Templog.Store.Ingest.{state_or, committed}
use semantos_edge.Templog.Store.Taken.{seqs, mem-take_samples}

abbrev pub after : Option LogState → Str → DecodedBatch → ℕ → LogState
after prev mac batch now = committed prev mac batch (plan_batch prev mac batch now)

seen-state_or :
    (prev : Option LogState) (mac : Str) (batch : DecodedBatch)
    → (state_or prev mac batch).seen ≡ seen_of prev
unfolding state_or seen_of
seen-state_or none mac batch = refl
seen-state_or (some st) mac batch = refl

module _ (prev : Option LogState) (mac : Str) (batch : DecodedBatch) (now : ℕ) where
  mem-taken_of :
      (log_id : Str) (q : ℕ)
      → mem q (taken_of prev mac log_id batch now).added
        ≡ (mem q (seqs batch.samples) && not (mem q (seen_of prev)))
  unfolding taken_of mem
  mem-taken_of log_id q =
      mem-take_samples (seen_of prev) (sample_record mac log_id batch.header now) q batch.samples
        no_samples

  -- What is held after a batch is what was held before and the batch's seqs.
  pub mem-after :
      (q : ℕ)
      → mem q (after prev mac batch now).seen ≡ (mem q (seen_of prev) || mem q (seqs batch.samples))
  unfolding committed plan_batch
  mem-after q =
      mem-add_all q _ _
      ∙ ground (
        arith,
        ap (mem q) (seen-state_or prev mac batch),
        mem-taken_of (log_id_hex batch.header.log_id) q,
      )

  pub mem-is_held :
      (log_id : Str) (q : ℕ)
      → is_held (seen_of prev) (taken_of prev mac log_id batch now).added q
        ≡ mem q (after prev mac batch now).seen
  unfolding is_held
  mem-is_held log_id q = rw (mem-after q, mem-taken_of log_id q) (ground arith)

  past_loss-max :
      past_loss prev batch.header ≡ max (start_through prev batch.header) batch.header.lost_through
  unfolding past_loss
  past_loss-max = ground arith

  through-after-IsTop :
      (log_id : Str)
      → IsTop
          (is_held (seen_of prev) (taken_of prev mac log_id batch now).added)
          (past_loss prev batch.header)
          (climb
            (length (seen_of prev) + length (taken_of prev mac log_id batch now).added)
            (is_held (seen_of prev) (taken_of prev mac log_id batch now).added)
            (past_loss prev batch.header))
  through-after-IsTop log_id =
      let added : List ℕ = (taken_of prev mac log_id batch now).added in
      climb-IsTop _ _ (seen_of prev ++ added) _
        (λ q. unfold is_held in sym (mem-append q (seen_of prev) added))
        (omega (arith, length-append (seen_of prev) added))

  -- After a batch the pointer stands where a walk up over what the store now holds ends that
  -- starts at the higher of the pointer before (for a log seen for the first time, the seq below
  -- the batch's first) and the batch's lost_through: every seq between is held, and the next one
  -- is not. The ack carries that pointer.
  pub after-IsTop :
      IsTop
        (λ q. mem q (after prev mac batch now).seen)
        (max (start_through prev batch.header) batch.header.lost_through)
        (after prev mac batch now).through
      × ((plan_batch prev mac batch now).result.ack.acked_through
          ≡ (after prev mac batch now).through)
  after-IsTop =
      let log_id = log_id_hex batch.header.log_id in
      let top : IsTop (λ q. mem q (after prev mac batch now).seen) (past_loss prev batch.header)
          (after prev mac batch now).through =
        subst (λ has. IsTop has (past_loss prev batch.header) (after prev mac batch now).through)
          (fun_ext (mem-is_held log_id))
          (unfold committed plan_batch in through-after-IsTop log_id) in
      (rw past_loss-max at top, unfold committed plan_batch in refl)
