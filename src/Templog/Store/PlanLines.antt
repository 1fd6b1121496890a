-- ===== src/Templog/Store/PlanLines.antt =====
-- The lines that one batch adds to the journal of tools/templog-bridge/store.ts, read back.
use mathlib.Core.List.{map-append}
use semantos_edge.Base.{
  ℕ, ◌+◌, ◌≡◌, refl, ap, Bool, true, false, ◌&&◌, ◌||◌, Option, none, some, List, [], ◌∷◌, ◌++◌,
  map, ==_iff, if◌then◌else◌, Bool-cases, Result-cases, inl, inr, All, All-append, All-map, ltb, ok,
}
use semantos_edge.Base.Map.{Str}
use semantos_edge.Base.Members.{mem}
use semantos_edge.Templog.Text.{length-hex_pad, all_lower_hex-hex_pad}
use semantos_edge.Templog.Mac.{mac_to_bytes}
use semantos_edge.Templog.Mac.Laws.{mac_to_string-is_lower_mac}
use semantos_edge.Templog.Batch.{BatchSample, DecodedBatch, IsU32, IsWire}
use semantos_edge.Templog.Store.Records.{SampleRecord, LossRecord, LogState, sample}
use semantos_edge.Templog.Store.Plan.{
  Taken, plan_batch, taken_of, loss_of, take_one, take_samples, log_id_hex, sample_record,
  no_samples, start_records, loss_records, seen_of, start_through, is_first,
}
use semantos_edge.Templog.Store.Rebuild.{ReadKind}
use semantos_edge.Templog.Store.Ingest.{canonical}
use semantos_edge.Templog.Store.Taken.{record_seqs, record_seqs-take_samples}
use semantos_edge.Templog.Store.Reading.{IsName, Readable, kind_of}
use semantos_edge.Templog.Store.Finish.{loss_kinds}

-- A canonical MAC and an eight digit log id read back from the journal.
pub canonical-IsName :
    (mac canon : Str) (log_id : ℕ) → canonical mac ≡ ok canon → IsName canon (log_id_hex log_id)
unfolding canonical
canonical-IsName mac canon log_id h = elim (Result-cases (mac_to_bytes mac)) [
  | inl e ↦ absurd (cc (rw (e, canonical) at h))
  | inr (bytes, e) ↦ record {
    mac_ok = mac_to_string-is_lower_mac bytes canon (rw (e, canonical) at h);
    log_length = unfold log_id_hex in (==_iff _ 8).1 (length-hex_pad 8 _);
    log_ok = unfold log_id_hex in all_lower_hex-hex_pad 8 _;
  }
]

All-take_samples {κ} :
    (P : SampleRecord → Type κ) (seen : List ℕ) (make : BatchSample → SampleRecord)
    (ss : List BatchSample) (t : Taken)
    → All (λ s. P (make s)) ss
    → All P t.new_samples
    → All P (take_samples seen make ss t).new_samples
unfolding take_samples take_one
All-take_samples P seen make [] t h k = k
All-take_samples P seen make (s ∷ ss) t (h, hs) k =
    All-take_samples P seen make ss (take_one seen make s t) hs
      (one (mem s.seq seen || mem s.seq t.added))
  where
    one :
        (b : Bool)
        → All P
            (if b then record t { duplicates = t.duplicates + 1 } else record t {
              added = t.added ++ (s.seq ∷ []);
              new_samples = t.new_samples ++ (make s ∷ []);
            }).new_samples
    one true = k
    one false = All-append P t.new_samples (make s ∷ []) k (h, tt)

kinds_of_samples :
    (rs : List SampleRecord) → map kind_of (map sample rs) ≡ map ReadKind.sample (record_seqs rs)
kinds_of_samples [] = refl
kinds_of_samples (r ∷ rs) = ap (λ t. ReadKind.sample r.seq ∷ t) (kinds_of_samples rs)

kinds_of_loss : (l : Option LossRecord) → map kind_of (loss_records l) ≡ loss_kinds l
unfolding loss_records loss_kinds
kinds_of_loss none = refl
kinds_of_loss (some l) = refl

module _ (mac : Str) (batch : DecodedBatch) (now : ℕ) where
  abbrev pub hex : Str
  hex = log_id_hex batch.header.log_id

  abbrev pub taken : Option LogState → Taken
  taken prev = taken_of prev mac hex batch now

  abbrev pub batch_kinds : Option LogState → List ReadKind
  batch_kinds prev =
      loss_kinds (loss_of prev mac hex batch now) ++ map ReadKind.sample (taken prev).added

  rest_kinds :
      (prev : Option LogState)
      → map kind_of
          (loss_records (loss_of prev mac hex batch now) ++ map sample (taken prev).new_samples)
        ≡ batch_kinds prev
  rest_kinds prev = rw map-append (
      rw kinds_of_loss (
        rw kinds_of_samples (
          ap (λ t. loss_kinds (loss_of prev mac hex batch now) ++ map ReadKind.sample t)
            (unfold taken_of in
              record_seqs-take_samples (seen_of prev) (sample_record mac hex batch.header now)
                (λ s. unfold sample_record in refl) batch.samples no_samples refl))))

  pub kinds_first :
      map kind_of (plan_batch none mac batch now).records
      ≡ ReadKind.start batch.header.first_seq ∷ batch_kinds none
  unfolding plan_batch start_records
  kinds_first = ap (λ t. ReadKind.start batch.header.first_seq ∷ t) (rest_kinds none)

  pub kinds_next :
      (st : LogState)
      → map kind_of (plan_batch (some st) mac batch now).records ≡ batch_kinds (some st)
  unfolding plan_batch start_records
  kinds_next st = rest_kinds (some st)

  samples-Readable :
      (prev : Option LogState)
      → IsWire batch
      → All (λ (r : SampleRecord). Readable mac hex (sample r)) (taken prev).new_samples
  unfolding taken_of
  samples-Readable prev w =
      All-take_samples (λ (r : SampleRecord). Readable mac hex (sample r)) (seen_of prev)
        (sample_record mac hex batch.header now) batch.samples no_samples
        (made batch.samples w.seqs) tt
    where
      made :
          (ss : List BatchSample)
          → All (λ (s : BatchSample). IsU32 s.seq) ss
          → All (λ s. Readable mac hex (sample (sample_record mac hex batch.header now s))) ss
      made [] h = tt
      made (s ∷ ss) (h, hs) = (unfold sample_record in (refl, refl, h), made ss hs)

  loss-Readable :
      (prev : Option LogState)
      → IsWire batch
      → All (Readable mac hex) (loss_records (loss_of prev mac hex batch now))
  unfolding loss_records loss_of
  loss-Readable prev w =
      elim (Bool-cases (ltb (start_through prev batch.header) batch.header.lost_through)) [
        | inl e ↦ rw (e, loss_records) ((refl, refl, w.lost_through), tt)
        | inr e ↦ rw e (elim (Bool-cases (is_first prev && ltb 0 batch.header.lost_through)) [
          | inl f ↦ rw f ((refl, refl, w.lost_through), tt)
          | inr f ↦ rw f tt
        ])
      ]

  rest-Readable :
      (prev : Option LogState)
      → IsWire batch
      → All
          (Readable mac hex)
          (loss_records (loss_of prev mac hex batch now) ++ map sample (taken prev).new_samples)
  rest-Readable prev w =
      All-append (Readable mac hex) _ _ (loss-Readable prev w)
        (All-map (Readable mac hex) sample _ (samples-Readable prev w))

  pub records-Readable :
      (prev : Option LogState)
      → IsWire batch
      → All (Readable mac hex) (plan_batch prev mac batch now).records
  unfolding plan_batch start_records
  records-Readable none w = ((refl, refl, w.first_seq), rest-Readable none w)
  records-Readable (some st) w = rest-Readable (some st) w
