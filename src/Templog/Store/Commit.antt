-- ===== src/Templog/Store/Commit.antt =====
-- What a call of `ingest` of tools/templog-bridge/store.ts commits, and what it leaves alone.
use mathlib.Core.Path.{subst}
use semantos_edge.Base.{
  ℕ, ◌≡◌, ◌≢◌, refl, sym, ap, ◌∙◌, Option, none, some, take, List, [], ◌∷◌, map, Result-cases, inl,
  inr, Result, ok, thrown,
}
use semantos_edge.Base.Int.{ℤ, pos, negsuc}
use semantos_edge.Base.Map.{Str, get, put}
use semantos_edge.Templog.Batch.{DecodedBatch}
use semantos_edge.Templog.Store.Records.{LogState, IngestResult, JournalRecord}
use semantos_edge.Templog.Store.Plan.{plan_batch, key_of, log_id_hex}
use semantos_edge.Templog.Store.Rebuild.{Line}
use semantos_edge.Templog.Store.Ingest.{
  Store, Journal, Write, durable, failed, put_lines, put_piece, left_by, Done, outcome, line_of,
  append_records, canonical, ingest_canonical, ingest,
}
use semantos_edge.Templog.Store.Advance.{after}

-- `ingest` returned: the MAC is one, and what changed is the journal and the log of the batch.
pub record Committed (mac : Str) (batch : DecodedBatch) (now : ℕ) (s : Store) (r : IngestResult)
    (s' : Store) : Type 0 where
  pub canon : Str
  pub is_canon : canonical mac ≡ ok canon
  pub prev : Option LogState
  pub is_prev : get (key_of canon (log_id_hex batch.header.log_id)) s.logs ≡ prev
  pub result : r ≡ (plan_batch prev canon batch now).result
  pub logs :
      s'.logs
      ≡ put (key_of canon (log_id_hex batch.header.log_id)) (after prev canon batch now) s.logs
  pub skipped : s'.skipped_lines ≡ s.skipped_lines
  pub journal :
      (j : Journal)
      → s.journal ≡ some j
      → s'.journal ≡ some (put_lines (map line_of (plan_batch prev canon batch now).records) j)

outcome-ok : (w : Write) (d : Done) → outcome w ≡ ok d → w ≡ durable
unfolding outcome
outcome-ok durable d h = refl
outcome-ok (failed whole piece) d h = absurd (cc h)

outcome-thrown :
    (w : Write)
    → outcome w ≡ thrown
    → (whole : ℕ) × (piece : Option Line) × (w ≡ failed whole piece)
unfolding outcome
outcome-thrown durable h = absurd (cc h)
outcome-thrown (failed whole piece) h = (whole, piece, refl)

append_records-some :
    (written : Write) (rs : List JournalRecord) (j : Journal) (d : Done)
    → (append_records written rs (some j)).0 ≡ ok d
    → (append_records written rs (some j)).1 ≡ some (put_lines (map line_of rs) j)
unfolding append_records left_by put_lines
append_records-some written [] j d h = refl
append_records-some written (r ∷ rs) j d h = rw (outcome-ok written d h) refl

-- What a failed write leaves of the lines `ls` in a journal.
abbrev pub left_in : ℕ → Option Line → List Line → Journal → Journal
left_in whole piece ls j = put_piece piece (put_lines (take whole ls) j)

-- An append that throws is a write that failed, in a journal.
append_records-thrown :
    (written : Write) (rs : List JournalRecord) (j : Option Journal)
    → (append_records written rs j).0 ≡ thrown
    → (whole : ℕ) × (piece : Option Line) × (ls : List Line) × (before : Journal) × (written
        ≡ failed whole piece)
      × (j ≡ some before)
      × ((append_records written rs j).1 ≡ some (left_in whole piece ls before))
unfolding append_records left_by
append_records-thrown written [] j h = absurd (cc h)
append_records-thrown written (r ∷ rs) none h = absurd (cc h)
append_records-thrown written (r ∷ rs) (some j) h =
    let f = outcome-thrown written h in (f.0, f.1, map line_of (r ∷ rs), j, f.2, refl, rw f.2 refl)

append_records-durable :
    (rs : List JournalRecord) (j : Option Journal) → (append_records durable rs j).0 ≡ ok tt
unfolding append_records outcome
append_records-durable [] j = refl
append_records-durable (r ∷ rs) none = refl
append_records-durable (r ∷ rs) (some j) = refl

thrown_ne {ℓ} : {A : Type ℓ} {a : A} → thrown ≢ ok a
thrown_ne e = cc

module _ (written : Write) (canon : Str) (batch : DecodedBatch) (now : ℕ) (s : Store) where
  abbrev key : Str
  key = key_of canon (log_id_hex batch.header.log_id)

  abbrev before : Option LogState
  before = get key s.logs

  abbrev records : List JournalRecord
  records = (plan_batch before canon batch now).records

  abbrev stored : Option Journal → Store
  stored j = record s { logs = put key (after before canon batch now) s.logs; journal = j }

  abbrev Outcome : Type 0
  Outcome = Result IngestResult × Store

  abbrev appended : Result Done × Option Journal
  appended = append_records written records s.journal

  ingest_canonical_thrown :
      appended.0 ≡ thrown
      → ingest_canonical written canon batch now s ≡ (thrown, record s { journal = appended.1 })
  unfolding ingest_canonical
  ingest_canonical_thrown e = rw (e, ingest_canonical) refl

  ingest_canonical_ok :
      (d : Done)
      → appended.0 ≡ ok d
      → ingest_canonical written canon batch now s
        ≡ (ok (plan_batch before canon batch now).result, stored appended.1)
  unfolding ingest_canonical
  ingest_canonical_ok d e = rw (e, ingest_canonical) refl

  ingest_canonical-Committed :
      (mac : Str) (r : IngestResult) (s' : Store)
      → canonical mac ≡ ok canon
      → ingest_canonical written canon batch now s ≡ (ok r, s')
      → Committed mac batch now s r s'
  ingest_canonical-Committed mac r s' e h = elim (Result-cases appended.0) [
    | inl t ↦ absurd (
        thrown_ne (
          sym (ap (λ (p : Outcome). p.0) (ingest_canonical_thrown t))
          ∙ ap (λ (p : Outcome). p.0) h))
    | inr (d, t) ↦
        let same : ok (plan_batch before canon batch now).result ≡ ok r =
          sym (ap (λ (p : Outcome). p.0) (ingest_canonical_ok d t)) ∙ ap (λ (p : Outcome). p.0) h in
        let moved : s' ≡ stored appended.1 =
          sym (ap (λ (p : Outcome). p.1) h) ∙ ap (λ (p : Outcome). p.1) (ingest_canonical_ok d t) in
        record {
          canon = canon;
          is_canon = e;
          prev = before;
          is_prev = refl;
          result = cc;
          logs = ap (λ (x : Store). x.logs) moved;
          skipped = ap (λ (x : Store). x.skipped_lines) moved;
          journal = λ j k.
              ap (λ (x : Store). x.journal) moved
              ∙ ap (λ x. (append_records written records x).1) k
              ∙ append_records-some written records j d
                  (ap (λ x. (append_records written records x).0) (sym k) ∙ t);
        }
  ]

abbrev Outcome' : Type 0
Outcome' = Result IngestResult × Store

pub ingest_ok :
    (written : Write) (mac canon : Str) (batch : DecodedBatch) (now : ℕ) (s : Store)
    → canonical mac ≡ ok canon
    → ingest written mac batch (pos now) s ≡ ingest_canonical written canon batch now s
unfolding ingest
ingest_ok written mac canon batch now s e = rw (e, ingest) refl

ingest_refused :
    (written : Write) (mac : Str) (batch : DecodedBatch) (now : ℕ) (s : Store)
    → canonical mac ≡ thrown
    → ingest written mac batch (pos now) s ≡ (thrown, s)
unfolding ingest
ingest_refused written mac batch now s e = rw (e, ingest) refl

pub ingest-Committed :
    (written : Write) (mac : Str) (batch : DecodedBatch) (now : ℕ) (s : Store) (r : IngestResult)
    (s' : Store)
    → ingest written mac batch (pos now) s ≡ (ok r, s')
    → Committed mac batch now s r s'
ingest-Committed written mac batch now s r s' h = elim (Result-cases (canonical mac)) [
  | inl e ↦
      absurd (
        thrown_ne (ap (λ (p : Outcome'). p.0) (sym (ingest_refused written mac batch now s e) ∙ h)))
  | inr (canon, e) ↦
      ingest_canonical-Committed written canon batch now s mac r s' e
        (sym (ingest_ok written mac canon batch now s e) ∙ h)
]

-- What a call that throws leaves: the store as it was, or a failed write has changed the journal.
pub data Thrown (written : Write) (s : Store) : Store → Type 0 where
  kept : Thrown written s s
  wrote :
      (whole : ℕ) (piece : Option Line) (ls : List Line) (before : Journal)
      → written ≡ failed whole piece
      → s.journal ≡ some before
      → Thrown written s (record s { journal = some (left_in whole piece ls before) })

ingest_canonical-Thrown :
    (written : Write) (canon : Str) (batch : DecodedBatch) (now : ℕ) (s : Store)
    → (ingest_canonical written canon batch now s).0 ≡ thrown
    → Thrown written s (ingest_canonical written canon batch now s).1
ingest_canonical-Thrown written canon batch now s h =
    elim (Result-cases (appended written canon batch now s).0) [
      | inl t ↦
          let f = append_records-thrown written (records written canon batch now s) s.journal t in
          subst (Thrown written s)
            (sym (
              ap (λ (p : Outcome'). p.1) (ingest_canonical_thrown written canon batch now s t)
              ∙ (λ i. record s { journal = f.6 i })))
            (wrote f.0 f.1 f.2 f.3 f.4 f.5)
      | inr (d, t) ↦ absurd (
          thrown_ne (
            sym h ∙ ap (λ (p : Outcome'). p.0) (ingest_canonical_ok written canon batch now s d t)))
    ]

pub ingest-Thrown :
    (written : Write) (mac : Str) (batch : DecodedBatch) (now : ℤ) (s : Store)
    → (ingest written mac batch now s).0 ≡ thrown
    → Thrown written s (ingest written mac batch now s).1
ingest-Thrown written mac batch (negsuc n) s h = unfold ingest in kept
ingest-Thrown written mac batch (pos now) s h = elim (Result-cases (canonical mac)) [
  | inl e ↦
      subst (Thrown written s)
        (sym (ap (λ (p : Outcome'). p.1) (ingest_refused written mac batch now s e))) kept
  | inr (canon, e) ↦
      subst (Thrown written s)
        (sym (ap (λ (p : Outcome'). p.1) (ingest_ok written mac canon batch now s e)))
        (ingest_canonical-Thrown written canon batch now s
          (sym (ap (λ (p : Outcome'). p.0) (ingest_ok written mac canon batch now s e)) ∙ h))
]

-- A call whose write is durable answers and commits by the logs alone.
ingest_canonical-logs :
    (canon : Str) (batch : DecodedBatch) (now : ℕ) (s : Store) (j : Option Journal)
    → ((ingest_canonical durable canon batch now (record s { journal = j })).0
        ≡ (ingest_canonical durable canon batch now s).0)
      × ((ingest_canonical durable canon batch now (record s { journal = j })).1.logs
          ≡ (ingest_canonical durable canon batch now s).1.logs)
ingest_canonical-logs canon batch now s j =
    let s' : Store = record s { journal = j } in
    let there = ingest_canonical_ok durable canon batch now s' tt (append_records-durable _ j) in
    let here =
      ingest_canonical_ok durable canon batch now s tt (append_records-durable _ s.journal) in
    (
      ap (λ (p : Outcome'). p.0) there ∙ sym (ap (λ (p : Outcome'). p.0) here),
      ap (λ (p : Outcome'). p.1.logs) there ∙ sym (ap (λ (p : Outcome'). p.1.logs) here),
    )

ingest-logs :
    (mac : Str) (batch : DecodedBatch) (now : ℤ) (s : Store) (j : Option Journal)
    → ((ingest durable mac batch now (record s { journal = j })).0
        ≡ (ingest durable mac batch now s).0)
      × ((ingest durable mac batch now (record s { journal = j })).1.logs
          ≡ (ingest durable mac batch now s).1.logs)
unfolding ingest
ingest-logs mac batch (negsuc n) s j = (refl, refl)
ingest-logs mac batch (pos now) s j = elim (Result-cases (canonical mac)) [
  | inl e ↦ rw (e, ingest) (refl, refl)
  | inr (canon, e) ↦ rw (e, ingest) (ingest_canonical-logs canon batch now s j)
]

-- A call that throws, whatever the reason and whatever a failed write has left in the journal, leaves
-- the logs and the count of skipped lines as they were: nothing is committed. Any later call whose
-- write is durable gives the answer, and commits the logs, that it would have without the first.
pub ingest_thrown :
    (written : Write) (mac : Str) (batch : DecodedBatch) (now : ℤ) (s : Store) (mac' : Str)
    (later : DecodedBatch) (now' : ℤ)
    → (ingest written mac batch now s).0 ≡ thrown
    → ((ingest written mac batch now s).1.logs ≡ s.logs)
      × ((ingest written mac batch now s).1.skipped_lines ≡ s.skipped_lines)
      × ((ingest durable mac' later now' (ingest written mac batch now s).1).0
          ≡ (ingest durable mac' later now' s).0)
      × ((ingest durable mac' later now' (ingest written mac batch now s).1).1.logs
          ≡ (ingest durable mac' later now' s).1.logs)
ingest_thrown written mac batch now s mac' later now' h =
    go _ (ingest-Thrown written mac batch now s h)
  where
    go :
        (s' : Store)
        → Thrown written s s'
        → (s'.logs ≡ s.logs)
          × (s'.skipped_lines ≡ s.skipped_lines)
          × ((ingest durable mac' later now' s').0 ≡ (ingest durable mac' later now' s).0)
          × ((ingest durable mac' later now' s').1.logs ≡ (ingest durable mac' later now' s).1.logs)
    go _ kept = (refl, refl, refl, refl)
    go _ (wrote whole piece ls before e f) =
        let l = ingest-logs mac' later now' s (some (left_in whole piece ls before)) in
        (refl, refl, l.0, l.1)
