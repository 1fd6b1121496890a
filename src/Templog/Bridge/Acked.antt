-- ===== src/Templog/Bridge/Acked.antt =====
-- Which lines the bridge of tools/templog-bridge/bridge.ts acknowledges.
use semantos_edge.Base.{
  ℕ, ◌≡◌, ◌⊎◌, refl, ◌∙◌, Bool, true, false, ◌&&◌, some, Option, List, Bool-cases, Option-cases,
  Result-cases, inl, inr, ok, arith, thrown,
}
use semantos_edge.Base.Int.{ℤ}
use semantos_edge.Base.Map.{Str, str_eq, str_eq_iff, str_eq_refl}
use semantos_edge.Cell.Wire.{ParsedCell, CellKind, batch, ack, other, parse_cell}
use semantos_edge.Templog.Batch.{DecodedBatch}
use semantos_edge.Templog.Codec.{decode_batch}
use semantos_edge.Templog.Serial.{LineClass, Reason, tl, bad, classify_line}
use semantos_edge.Templog.Store.Records.{IngestResult}
use semantos_edge.Templog.Store.Rebuild.{Line}
use semantos_edge.Templog.Store.Ingest.{Store, Journal, Write, failed, ingest}
use semantos_edge.Templog.Store.Commit.{Thrown, kept, wrote, left_in, ingest-Thrown}
use semantos_edge.Templog.Bridge.Line.{
  ignored, reply_of, post_of, answer, batch_bytes, is_batch, on_batch, on_cell, on_line,
  handle_line,
}

-- A line that is a whole frame, of a batch cell that its sender owns and whose payload root holds,
-- whose batch decodes and was stored with result `r`.
pub record IsStored (sha256 : List ℕ → List ℕ) (written : Write) (now : ℤ) (s : Store) (line : Str)
    (r : IngestResult) (after : Store) : Type 0 where
  pub mac : Str
  pub bytes : List ℕ
  pub cell : ParsedCell
  pub decoded : DecodedBatch
  pub framed : classify_line line ≡ tl mac bytes
  pub parsed : parse_cell sha256 bytes ≡ some cell
  pub kind : cell.kind ≡ batch
  pub owner : cell.owner_mac ≡ mac
  pub root : cell.payload_root_ok ≡ true
  pub decodes : decode_batch (batch_bytes cell) ≡ some decoded
  pub stored : ingest written mac decoded now s ≡ (ok r, after)

is_batch_lem : (k : CellKind) → is_batch k ≡ true → k ≡ batch
unfolding is_batch
is_batch_lem batch h = refl
is_batch_lem ack h = absurd (cc h)
is_batch_lem other h = absurd (cc h)

LineClass-cases :
    (c : LineClass)
    → ((mac : Str) × (bytes : List ℕ) × (c ≡ tl mac bytes))
      ⊎ (((r : Reason) × (c ≡ bad r)) ⊎ (c ≡ LineClass.other))
LineClass-cases (tl mac bytes) = inl (mac, bytes, refl)
LineClass-cases (bad r) = inr (inl (r, refl))
LineClass-cases LineClass.other = inr (inr refl)

module _ (sha256 : List ℕ → List ℕ) (posting : Bool) (written : Write) (now : ℤ) (s : Store) where
  abbrev pub Answered : Str → Type 0
  Answered line =
      (r : IngestResult) × (after : Store) × (st : IsStored sha256 written now s line r after)
      × (handle_line sha256 posting written now s line
          ≡ record { reply = reply_of r; store = after; post = post_of posting st.decoded r })

  -- A line whose batch was not stored since the write to the journal failed: no reply, no POST, and
  -- the store as it was but for what that write left in its journal.
  abbrev pub Unwritten : Str → Type 0
  Unwritten line =
      (whole : ℕ) × (piece : Option Line) × (ls : List Line) × (before : Journal) × (written
        ≡ failed whole piece)
      × (s.journal ≡ some before)
      × (handle_line sha256 posting written now s line
          ≡ ignored (record s { journal = some (left_in whole piece ls before) }))

  -- What is answered where `ingest` throws.
  answer-thrown :
      (line : Str) (b : DecodedBatch) (s' : Store)
      → Thrown written s s'
      → handle_line sha256 posting written now s line ≡ answer posting b (thrown, s')
      → (handle_line sha256 posting written now s line ≡ ignored s)
        ⊎ (Unwritten line ⊎ Answered line)
  unfolding answer
  answer-thrown line b _ kept same = inl same
  answer-thrown line b _ (wrote whole piece ls before e f) same =
      inr (inl (whole, piece, ls, before, e, f, same))

  handle_line-cell :
      (line mac : Str) (bytes : List ℕ) (cell : ParsedCell)
      → classify_line line ≡ tl mac bytes
      → parse_cell sha256 bytes ≡ some cell
      → handle_line sha256 posting written now s line
        ≡ on_cell sha256 posting written now s mac (some cell)
  unfolding handle_line on_line
  handle_line-cell line mac bytes cell e p = rw (e, on_line) (rw p refl)

  on_cell-batch :
      (mac : Str) (cell : ParsedCell)
      → is_batch cell.kind ≡ true
      → str_eq cell.owner_mac mac ≡ true
      → cell.payload_root_ok ≡ true
      → on_cell sha256 posting written now s mac (some cell)
        ≡ on_batch sha256 posting written now s mac (decode_batch (batch_bytes cell))
  unfolding on_cell
  on_cell-batch mac cell k o p = ground arith

  on_cell-ignored :
      (mac : Str) (cell : ParsedCell)
      → (is_batch cell.kind && (str_eq cell.owner_mac mac && cell.payload_root_ok)) ≡ false
      → on_cell sha256 posting written now s mac (some cell) ≡ ignored s
  unfolding on_cell
  on_cell-ignored mac cell h = ground arith

  -- A stored batch is answered with the AK line of its result.
  pub handle_line-IsStored :
      (line : Str) (r : IngestResult) (after : Store)
      (st : IsStored sha256 written now s line r after)
      → handle_line sha256 posting written now s line
        ≡ record { reply = reply_of r; store = after; post = post_of posting st.decoded r }
  handle_line-IsStored line r after st =
      handle_line-cell line st.mac st.bytes st.cell st.framed st.parsed
      ∙ on_cell-batch st.mac st.cell (rw st.kind (unfold is_batch in refl))
          (rw st.owner (str_eq_refl st.mac)) st.root
      ∙ (unfold on_batch answer in rw (st.decodes, on_batch) (rw (st.stored, answer) refl))

  handle_line-decoded :
      (line mac : Str) (bytes : List ℕ) (cell : ParsedCell) (b : DecodedBatch)
      → classify_line line ≡ tl mac bytes
      → parse_cell sha256 bytes ≡ some cell
      → (is_batch cell.kind && (str_eq cell.owner_mac mac && cell.payload_root_ok)) ≡ true
      → decode_batch (batch_bytes cell) ≡ some b
      → (handle_line sha256 posting written now s line ≡ ignored s)
        ⊎ (Unwritten line ⊎ Answered line)
  handle_line-decoded line mac bytes cell b e p g d =
      let same : handle_line sha256 posting written now s line
          ≡ answer posting b (ingest written mac b now s) =
        handle_line-cell line mac bytes cell e p
        ∙ on_cell-batch mac cell (ground arith) (ground arith) (ground arith)
        ∙ (unfold on_batch in rw (d, on_batch) refl) in
      elim (Result-cases (ingest written mac b now s).0) [
        | inl t ↦
            answer-thrown line b _ (ingest-Thrown written mac b now s t)
              (same ∙ λ i. answer posting b (t i, (ingest written mac b now s).1))
        | inr (r, t) ↦
            let st : IsStored sha256 written now s line r (ingest written mac b now s).1 = record {
              mac = mac;
              bytes = bytes;
              cell = cell;
              decoded = b;
              framed = e;
              parsed = p;
              kind = is_batch_lem cell.kind (ground arith);
              owner = (str_eq_iff cell.owner_mac mac).0 (ground arith);
              root = ground arith;
              decodes = d;
              stored = λ i. (t i, (ingest written mac b now s).1);
            } in
            inr (inr (r, (ingest written mac b now s).1, st, handle_line-IsStored line r _ st))
      ]

  -- Every line is ignored, which leaves the store as it is, sends no reply and posts nothing; or the
  -- write of its batch failed, and then too nothing is sent or posted, and the store is as it was but
  -- for what that write left in the journal; or its batch was stored, and then the reply is the AK
  -- line of the result and what is posted is the body of its new samples.
  pub handle_line-cases :
      (line : Str)
      → (handle_line sha256 posting written now s line ≡ ignored s)
        ⊎ (Unwritten line ⊎ Answered line)
  unfolding handle_line
  handle_line-cases line = elim (LineClass-cases (classify_line line)) [
    | inr (inl (reason, e)) ↦ inl (unfold on_line in rw (e, on_line) refl)
    | inr (inr e) ↦ inl (unfold on_line in rw (e, on_line) refl)
    | inl (mac, bytes, e) ↦ elim (Option-cases (parse_cell sha256 bytes)) [
      | inl p ↦ inl (unfold on_line on_cell in rw (e, on_line) (rw (p, on_cell) refl))
      | inr (cell, p) ↦
          elim (Bool-cases
            (is_batch cell.kind && (str_eq cell.owner_mac mac && cell.payload_root_ok))) [
              | inr g ↦ inl (handle_line-cell line mac bytes cell e p ∙ on_cell-ignored mac cell g)
              | inl g ↦ elim (Option-cases (decode_batch (batch_bytes cell))) [
                | inl d ↦ inl (
                    handle_line-cell line mac bytes cell e p
                    ∙ on_cell-batch mac cell (ground arith) (ground arith) (ground arith)
                    ∙ (unfold on_batch in rw (d, on_batch) refl))
                | inr (b, d) ↦ handle_line-decoded line mac bytes cell b e p g d
              ]
            ]
    ]
  ]
