-- ===== src/Templog/Store/Glued.antt =====
-- A call of `ingest` of tools/templog-bridge/store.ts behind a write that broke off in a line.
use semantos_edge.Base.{
  ℕ, ◌+◌, ◌≤◌, ◌<◌, ◌≡◌, refl, ap, ◌∙◌, inl, inr, none, some, Option-cases, List, [], ◌∷◌, ◌++◌,
  map, arith, ok,
}
use semantos_edge.Base.Int.{pos}
use semantos_edge.Base.Map.{Str}
use semantos_edge.Templog.Batch.{DecodedBatch}
use semantos_edge.Templog.Store.Records.{IngestResult, JournalRecord}
use semantos_edge.Templog.Store.Plan.{plan_batch}
use semantos_edge.Templog.Store.Rebuild.{
  Line, blank, torn, value, as_record, Reading, read_line, read_lines, nothing_read, rebuild,
}
use semantos_edge.Templog.Store.Ingest.{Store, Journal, put_lines, line_of, durable, ingest}
use semantos_edge.Templog.Store.Reading.{read_lines-append}
use semantos_edge.Templog.Store.Commit.{Committed, ingest-Committed}

read_line-skips : (r : Reading) (l : Line) → r.skipped ≤ (read_line r l).skipped
unfolding read_line
read_line-skips r blank = omega arith
read_line-skips r torn = omega arith
read_line-skips r (value j) = elim (Option-cases (as_record j)) [
  | inl e ↦ rw (e, read_line) (omega arith)
  | inr (rec, e) ↦ rw (e, read_line) (omega arith)
]

read_lines-skips : (ls : List Line) (r : Reading) → r.skipped ≤ (read_lines r ls).skipped
unfolding read_lines
read_lines-skips [] r = omega arith
read_lines-skips (l ∷ ls) r =
    omega (arith, read_line-skips r l, read_lines-skips ls (read_line r l))

-- A torn line among others is skipped.
rebuild-torn : (xs ys : List Line) → 0 < (rebuild (xs ++ (torn ∷ ys))).skipped
unfolding rebuild
rebuild-torn xs ys =
    let before : Reading = read_lines nothing_read xs in
    let split = ap (λ (r : Reading). r.skipped) (read_lines-append xs (torn ∷ ys) nothing_read) in
    let behind : before.skipped + 1 ≤ (read_lines before (torn ∷ ys)).skipped =
      unfold read_lines read_line in
      read_lines-skips ys (record before { skipped = before.skipped + 1 }) in
    omega arith

-- What a batch with the records `rs` leaves of the journal `j`, whose last line is a piece.
abbrev pub GluedTo : Journal → List JournalRecord → Store → Type 0
GluedTo j [] s = s.journal ≡ some j
GluedTo j (r ∷ rs) s =
    (s.journal ≡ some (record { lines = j.lines ++ (torn ∷ map line_of rs); tail = none }))
    × (0 < (rebuild (j.lines ++ (torn ∷ map line_of rs))).skipped)

glued :
    (rs : List JournalRecord) (j : Journal) (piece : Line) (s : Store)
    → j.tail ≡ some piece
    → s.journal ≡ some (put_lines (map line_of rs) j)
    → GluedTo j rs s
unfolding put_lines
glued [] j piece s t e = e
glued (r ∷ rs) j piece s t e =
    let first : Line = torn in (e ∙ rw t refl, rebuild-torn j.lines (map line_of rs))

-- Where a write broke off and left a piece of a line behind the journal, a call of `ingest` that
-- returns, and so acknowledges its batch, has written all of its records but the first: that one is
-- on the line of the piece, which a rebuild over the lines skips. A batch that planned no record
-- leaves the journal as it was.
pub ingest-torn :
    (mac : Str) (batch : DecodedBatch) (now : ℕ) (s s' : Store) (r : IngestResult) (j : Journal)
    (piece : Line)
    → s.journal ≡ some j
    → j.tail ≡ some piece
    → ingest durable mac batch (pos now) s ≡ (ok r, s')
    → (c : Committed mac batch now s r s') × GluedTo j
        (plan_batch c.prev c.canon batch now).records
        s'
ingest-torn mac batch now s s' r j piece e t h =
    let c = ingest-Committed durable mac batch now s r s' h in
    (c, glued (plan_batch c.prev c.canon batch now).records j piece s' t (c.journal j e))
