-- ===== src/Templog/Store/Reading.antt =====
-- What `rebuild` of tools/templog-bridge/store.ts reads back of the lines that `ingest` writes.
use semantos_edge.Base.{
  ◌≡◌, refl, ap, ◌∙◌, true, some, List, [], ◌∷◌, ◌++◌, map, arith, ◌==◌, length, All,
}
use semantos_edge.Base.Map.{Str, str_eq, get, put, put-put, get-put_self}
use semantos_edge.Templog.Text.{all_lower_hex}
use semantos_edge.Templog.Mac.{is_lower_mac}
use semantos_edge.Templog.Json.{member}
use semantos_edge.Templog.Batch.{IsU32}
use semantos_edge.Templog.Store.Records.{JournalRecord, start, sample, loss, to_json}
use semantos_edge.Templog.Store.Plan.{key_of}
use semantos_edge.Templog.Store.Rebuild.{
  Line, ReadKind, ReadRecord, Acc, Accs, Reading, acc_step, acc_or, new_acc, add_record, read_line,
  read_lines, as_record,
}
use semantos_edge.Templog.Store.Ingest.{line_of}

pub read_lines-append :
    (xs ys : List Line) (r : Reading) → read_lines r (xs ++ ys) ≡ read_lines (read_lines r xs) ys
unfolding read_lines
read_lines-append [] ys r = refl
read_lines-append (x ∷ xs) ys r = read_lines-append xs ys (read_line r x)

-- A name under which lines read back.
pub record IsName (mac log_id : Str) : Type 0 where
  pub mac_ok : is_lower_mac mac ≡ true
  pub log_length : (length log_id == 8) ≡ true
  pub log_ok : all_lower_hex log_id ≡ true

-- A record under that name, whose number fits 32 bits.
abbrev pub Readable : Str → Str → JournalRecord → Type 0
Readable mac log_id (start r) = (r.mac ≡ mac) × (r.log_id ≡ log_id) × IsU32 r.first_seq
Readable mac log_id (sample r) = (r.mac ≡ mac) × (r.log_id ≡ log_id) × IsU32 r.seq
Readable mac log_id (loss r) = (r.mac ≡ mac) × (r.log_id ≡ log_id) × IsU32 r.through_seq

abbrev pub kind_of : JournalRecord → ReadKind
kind_of (start r) = ReadKind.start r.first_seq
kind_of (sample r) = ReadKind.sample r.seq
kind_of (loss r) = ReadKind.loss r.through_seq

abbrev pub record_as : Str → Str → ReadKind → ReadRecord
record_as mac log_id k = record { mac = mac; log_id = log_id; kind = k }

-- What the lines of one log do to the accumulators.
abbrev pub add_kinds : Str → Str → List ReadKind → Accs → Accs
add_kinds mac log_id [] accs = accs
add_kinds mac log_id (k ∷ ks) accs =
    add_kinds mac log_id ks (add_record accs (record_as mac log_id k))

module _ (mac log_id : Str) (named : IsName mac log_id) where
  as_record-to_json :
      (r : JournalRecord)
      → Readable mac log_id r
      → as_record (to_json r) ≡ some (record { mac = mac; log_id = log_id; kind = kind_of r })
  unfolding as_record to_json member str_eq
  as_record-to_json (start r) (p, q, u) =
      rw (p, q) (ground (arith, named.mac_ok, named.log_length, named.log_ok))
  as_record-to_json (sample r) (p, q, u) =
      rw (p, q) (ground (arith, named.mac_ok, named.log_length, named.log_ok))
  as_record-to_json (loss r) (p, q, u) =
      rw (p, q) (ground (arith, named.mac_ok, named.log_length, named.log_ok))

  read_line-line_of :
      (r : JournalRecord) (g : Reading)
      → Readable mac log_id r
      → read_line g (line_of r)
        ≡ record g { accs = add_record g.accs (record_as mac log_id (kind_of r)) }
  unfolding read_line line_of
  read_line-line_of r g h = rw (as_record-to_json r h, read_line) refl

  pub read_lines-line_of :
      (rs : List JournalRecord) (g : Reading)
      → All (Readable mac log_id) rs
      → read_lines g (map line_of rs)
        ≡ record g { accs = add_kinds mac log_id (map kind_of rs) g.accs }
  unfolding read_lines
  read_lines-line_of [] g h = refl
  read_lines-line_of (r ∷ rs) g (h, hs) =
      ap (λ x. read_lines x (map line_of rs)) (read_line-line_of r g h) ∙ read_lines-line_of rs _ hs

abbrev pub acc_steps : Acc → List ReadKind → Acc
acc_steps a [] = a
acc_steps a (k ∷ ks) = acc_steps (acc_step a k) ks

-- At least one line of a log: its accumulator takes them all, and the others stay.
pub add_kinds-cons :
    (mac log_id : Str) (k : ReadKind) (ks : List ReadKind) (accs : Accs)
    → add_kinds mac log_id (k ∷ ks) accs
      ≡ put
          (key_of mac log_id)
          (acc_steps (acc_or (new_acc mac log_id) (get (key_of mac log_id) accs)) (k ∷ ks))
          accs
unfolding add_record
add_kinds-cons mac log_id k [] accs = refl
add_kinds-cons mac log_id k (l ∷ ks) accs =
    add_kinds-cons mac log_id l ks _ ∙ rw get-put_self (put-put _ _ _ accs)
