-- ===== src/Templog/Store/Repeat.antt =====
-- A call of `ingest` of tools/templog-bridge/store.ts with a batch that is stored already.
use semantos_edge.Base.{ℕ, min, ◌≡◌, refl, sym, ap, ◌∙◌, none, some, [], length, ok}
use semantos_edge.Base.Int.{pos}
use semantos_edge.Base.Map.{Str, str_eq_refl, get, get-put, put_same}
use semantos_edge.Templog.Batch.{DecodedBatch}
use semantos_edge.Templog.Store.Records.{LogState, IngestResult}
use semantos_edge.Templog.Store.Plan.{plan_batch, key_of, log_id_hex}
use semantos_edge.Templog.Store.Ingest.{Store, Write, append_records, ingest_canonical, ingest}
use semantos_edge.Templog.Store.Advance.{after, after-IsTop}
use semantos_edge.Templog.Store.Again.{plan_again, result_again, after_again}
use semantos_edge.Templog.Store.Commit.{ingest-Committed, ingest_ok}

-- A batch that plans no record for a log leaves the store as it is.
ingest_idle :
    (again : Write) (canon : Str) (batch : DecodedBatch) (later : ℕ) (s : Store) (st : LogState)
    → get (key_of canon (log_id_hex batch.header.log_id)) s.logs ≡ some st
    → (plan_batch (some st) canon batch later).records ≡ []
    → after (some st) canon batch later ≡ st
    → ingest_canonical again canon batch later s
      ≡ (ok (plan_batch (some st) canon batch later).result, s)
unfolding ingest_canonical append_records
ingest_idle again canon batch later s st found idle same =
    rw (found, ingest_canonical)
      (rw (idle, append_records)
        (rw found (
          rw same (
            rw (put_same _ st s.logs found) (λ i. (
              ok (plan_batch (some st) canon batch later).result,
              record s { journal = (append_records again (idle i) s.journal).1 },
            ))))))

-- The node sends a batch again when it did not hear the ack: once a batch is stored, the same
-- batch under the same name, at any later time and whether or not the journal can be written,
-- changes nothing. It is answered with the same pointer at the new time (in 32 bits), no new sample, no loss, and
-- each of its samples counted as a duplicate.
pub ingest_again :
    (written again : Write) (mac : Str) (batch : DecodedBatch) (now later : ℕ) (s s' : Store)
    (r : IngestResult)
    → ingest written mac batch (pos now) s ≡ (ok r, s')
    → (r' : IngestResult) × (ingest again mac batch (pos later) s' ≡ (ok r', s'))
      × (r'.ack.acked_through ≡ r.ack.acked_through)
      × (r'.ack.host_unix_s ≡ min later 0xffff_ffff)
      × (r'.new_samples ≡ [])
      × (r'.lost ≡ none)
      × (r'.duplicates ≡ length batch.samples)
ingest_again written again mac batch now later s s' r h =
    let c = ingest-Committed written mac batch now s r s' h in
    let st : LogState = after c.prev c.canon batch now in
    let k : Str = key_of c.canon (log_id_hex batch.header.log_id) in
    let found : get k s'.logs ≡ some st =
      ap (get k) c.logs ∙ get-put k k st s.logs ∙ rw (str_eq_refl k) refl in
    let (idle, none_added, same_max) = plan_again c.prev c.canon batch now c.canon later in
    let same : after (some st) c.canon batch later ≡ st =
      after_again c.prev c.canon batch now c.canon later in
    let (no_new, no_loss, all_known) = result_again c.prev c.canon batch now c.canon later in
    (
      (plan_batch (some st) c.canon batch later).result,
      ingest_ok again mac c.canon batch later s' c.is_canon
          ∙ ingest_idle again c.canon batch later s' st found idle same,
      (after-IsTop (some st) c.canon batch later).1
          ∙ ap (λ (x : LogState). x.through) same
          ∙ sym (after-IsTop c.prev c.canon batch now).1
          ∙ ap (λ (x : IngestResult). x.ack.acked_through) (sym c.result),
      (unfold plan_batch in refl),
      no_new,
      no_loss,
      all_known,
    )
