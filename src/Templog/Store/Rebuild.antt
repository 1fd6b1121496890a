-- ===== src/Templog/Store/Rebuild.antt =====
-- `rebuild` of tools/templog-bridge/store.ts: the logs that a journal holds.
use semantos_edge.Base.{
  ℕ, ◌+◌, ◌-◌, max, Bool, false, ◌&&◌, Option, none, some, List, [], ◌∷◌, leb, ◌==◌, if◌then◌else◌,
  length,
}
use semantos_edge.Base.Int.{pos}
use semantos_edge.Base.Map.{Str, str_eq, get, put}
use semantos_edge.Base.Members.{mem, add}
use semantos_edge.Templog.Text.{codes, all_lower_hex, parse_hex}
use semantos_edge.Templog.Mac.{is_lower_mac}
use semantos_edge.Templog.Json.{Json, str, num, obj, Fields, member}
use semantos_edge.Templog.Climb.{climb}
use semantos_edge.Templog.Store.Records.{LogState}
use semantos_edge.Templog.Store.Plan.{key_of}

-- A line of the journal: blank, one that JSON.parse rejects, or the value that it returns.
pub data Line : Type 0 where
  blank torn : Line
  value : Json → Line

-- What `rebuild` reads of a record.
pub data ReadKind : Type 0 where
  start sample loss : ℕ → ReadKind

pub record ReadRecord : Type 0 where
  pub mac : Str
  pub log_id : Str
  pub kind : ReadKind

-- typeof r.mac === 'string' && MAC_RE.test(r.mac)
mac_of : Json → Option Str
mac_of (str s) = if is_lower_mac s then some s else none
mac_of _ = none

-- LOG_RE: eight lowercase digits
log_of : Json → Option Str
log_of (str s) = if length s == 8 && all_lower_hex s then some s else none
log_of _ = none

-- isCount
count_of : Json → Option ℕ
count_of (num (pos n)) = if leb n 0xffff_ffff then some n else none
count_of _ = none

is_text : Str → Json → Bool
is_text t (str s) = str_eq s t
is_text t _ = false

-- `if (r.kind === kind && isCount(r.name)) return …`, and what is tried next
read_as : Fields → Str → Str → (ℕ → ReadKind) → Option ReadKind → Option ReadKind
unfolding is_text count_of
read_as r kind name make next =
    if is_text kind (member (codes "kind") r)
    then elim (count_of (member name r)) [ none ↦ next | some n ↦ some (make n) ]
    else next

read_kind : Fields → Option ReadKind
unfolding read_as
read_kind r = read_as r (codes "start") (codes "firstSeq") start (
    read_as r (codes "sample") (codes "seq") sample
      (read_as r (codes "loss") (codes "throughSeq") loss none))

with_log : Str → Fields → Option Str → Option ReadRecord
unfolding read_kind
with_log mac r none = none
with_log mac r (some log_id) = elim (read_kind r) [
  | none ↦ none
  | some k ↦ some (record { mac = mac; log_id = log_id; kind = k })
]

with_mac : Fields → Option Str → Option ReadRecord
unfolding with_log log_of
with_mac r none = none
with_mac r (some mac) = with_log mac r (log_of (member (codes "logId") r))

-- An array has no `mac`, so it is turned away like any value that is no object.
unfoldable pub as_record : Json → Option ReadRecord
unfolding with_mac mac_of
as_record (obj r) = with_mac r (mac_of (member (codes "mac") r))
as_record _ = none

pub record Acc : Type 0 where
  pub mac : Str
  pub log_id : ℕ
  pub start_seq : Option ℕ
  pub first_sample_seq : Option ℕ
  pub loss_max : ℕ
  pub seen : List ℕ
  pub max_seq : ℕ

-- a ??= n
abbrev pub or_assign : Option ℕ → ℕ → Option ℕ
or_assign none n = some n
or_assign (some m) n = some m

unfoldable pub acc_step : Acc → ReadKind → Acc
acc_step a (start n) = record a { start_seq = or_assign a.start_seq (n - 1) }
acc_step a (sample q) = record a {
  seen = add q a.seen;
  first_sample_seq = or_assign a.first_sample_seq q;
  max_seq = max a.max_seq q;
}
acc_step a (loss t) = record a { loss_max = max a.loss_max t }

abbrev pub new_acc : Str → Str → Acc
new_acc mac log_id = record {
  mac = mac;
  log_id = parse_hex 0 log_id;
  start_seq = none;
  first_sample_seq = none;
  loss_max = 0;
  seen = [];
  max_seq = 0;
}

abbrev pub acc_or : Acc → Option Acc → Acc
acc_or new none = new
acc_or new (some a) = a

abbrev pub Accs : Type 0
Accs = List (Str × Acc)

unfoldable pub add_record : Accs → ReadRecord → Accs
add_record accs r =
    let key = key_of r.mac r.log_id in
    put key (acc_step (acc_or (new_acc r.mac r.log_id) (get key accs)) r.kind) accs

pub record Reading : Type 0 where
  pub accs : Accs
  pub skipped : ℕ

unfoldable pub read_line : Reading → Line → Reading
read_line r blank = r
read_line r torn = record r { skipped = r.skipped + 1 }
read_line r (value j) = elim (as_record j) [
  | none ↦ record r { skipped = r.skipped + 1 }
  | some rec ↦ record r { accs = add_record r.accs rec }
]

unfoldable pub read_lines : Reading → List Line → Reading
read_lines r [] = r
read_lines r (l ∷ ls) = read_lines (read_line r l) ls

-- a.start ?? (a.firstSampleSeq !== undefined ? a.firstSampleSeq - 1 : a.lossMax). The source's -1
-- for a first sample 0 is 0 here: it goes into a maximum with lossMax, which is at least 0.
unfoldable pub start_or : Option ℕ → Option ℕ → ℕ → ℕ
start_or (some s) first loss_max = s
start_or none (some q) loss_max = q - 1
start_or none none loss_max = loss_max

unfoldable pub finish : Acc → LogState
finish a = record {
  mac = a.mac;
  log_id = a.log_id;
  through =
      climb (length a.seen) (λ q. mem q a.seen)
        (max (start_or a.start_seq a.first_sample_seq a.loss_max) a.loss_max);
  seen = a.seen;
  max_seq = a.max_seq;
}

unfoldable pub finish_all : Accs → List (Str × LogState)
finish_all [] = []
finish_all ((k, a) ∷ r) = (k, finish a) ∷ finish_all r

pub record Rebuilt : Type 0 where
  pub logs : List (Str × LogState)
  pub skipped : ℕ

abbrev pub nothing_read : Reading
nothing_read = record { accs = []; skipped = 0 }

unfoldable pub rebuild : List Line → Rebuilt
rebuild lines =
    let r = read_lines nothing_read lines in
    record { logs = finish_all r.accs; skipped = r.skipped }
