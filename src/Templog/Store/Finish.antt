-- ===== src/Templog/Store/Finish.antt =====
-- One batch, as the journal tells it: the accumulator of `rebuild` that takes the batch's lines
-- finishes at the state that `ingest` of tools/templog-bridge/store.ts committed.
use mathlib.Core.Path.{subst}
use semantos_edge.Base.{
  ℕ, ◌%◌, ◌^◌, ◌-◌, ◌≤◌, ◌<◌, ◌≡◌, refl, sym, ap, ◌∙◌, max, true, Option, none, some, List, [], ◌∷◌,
  ◌++◌, map, arith, ltb, if◌then◌else◌, length,
}
use semantos_edge.Base.Map.{Str}
use semantos_edge.Base.Members.{mem, add_all}
use semantos_edge.Templog.Text.{parse_hex, parse_hex-hex_pad}
use semantos_edge.Templog.Batch.{DecodedBatch, IsU32}
use semantos_edge.Templog.Climb.{climb-IsTop, IsTop, IsTop-unique, IsTop-below}
use semantos_edge.Templog.Store.Records.{LossRecord, LogState}
use semantos_edge.Templog.Store.Plan.{
  plan_batch, taken_of, loss_of, log_id_hex, max_of, max_seq_of, start_through, is_first, seen_of,
}
use semantos_edge.Templog.Store.Rebuild.{
  ReadKind, Acc, acc_step, new_acc, or_assign, finish, start_or,
}
use semantos_edge.Templog.Store.Ingest.{committed, state_or}
use semantos_edge.Templog.Store.Advance.{after, mem-after, after-IsTop}
use semantos_edge.Templog.Store.Reading.{acc_steps}

pub first_of : Option ℕ → List ℕ → Option ℕ
first_of o [] = o
first_of o (q ∷ qs) = first_of (or_assign o q) qs

acc_steps-samples :
    (qs : List ℕ) (a : Acc)
    → acc_steps a (map ReadKind.sample qs) ≡ record a {
      first_sample_seq = first_of a.first_sample_seq qs;
      seen = add_all qs a.seen;
      max_seq = max_of a.max_seq qs;
    }
unfolding acc_step first_of add_all max_of
acc_steps-samples [] a = refl
acc_steps-samples (q ∷ qs) a = acc_steps-samples qs (acc_step a (ReadKind.sample q))

unfoldable pub loss_kinds : Option LossRecord → List ReadKind
loss_kinds none = []
loss_kinds (some l) = ReadKind.loss l.through_seq ∷ []

pub loss_top : Option LossRecord → ℕ → ℕ
loss_top none m = m
loss_top (some l) m = max m l.through_seq

-- The lines of a batch behind its start line.
unfoldable pub acc_after : Acc → Option LossRecord → List ℕ → Acc
acc_after a lost qs = record a {
  first_sample_seq = first_of a.first_sample_seq qs;
  loss_max = loss_top lost a.loss_max;
  seen = add_all qs a.seen;
  max_seq = max_of a.max_seq qs;
}

acc_steps-append :
    (xs ys : List ReadKind) (a : Acc) → acc_steps a (xs ++ ys) ≡ acc_steps (acc_steps a xs) ys
acc_steps-append [] ys a = refl
acc_steps-append (x ∷ xs) ys a = acc_steps-append xs ys (acc_step a x)

pub acc_steps_batch :
    (a : Acc) (lost : Option LossRecord) (qs : List ℕ)
    → acc_steps a (loss_kinds lost ++ map ReadKind.sample qs) ≡ acc_after a lost qs
unfolding loss_kinds loss_top acc_after acc_step
acc_steps_batch a none qs = acc_steps-samples qs a
acc_steps_batch a (some l) qs = acc_steps-samples qs (acc_step a (ReadKind.loss l.through_seq))

-- An accumulator with a start, and the state that it stands for.
pub record Tracks (a : Acc) (st : LogState) : Type 0 where
  pub started : ℕ
  pub start_ok : a.start_seq ≡ some started
  pub mac : a.mac ≡ st.mac
  pub log_id : a.log_id ≡ st.log_id
  pub seen : a.seen ≡ st.seen
  pub max_seq : a.max_seq ≡ st.max_seq
  pub top : IsTop (λ q. mem q a.seen) (max started a.loss_max) st.through

finish-IsTop :
    (a : Acc) (s : ℕ)
    → a.start_seq ≡ some s
    → IsTop (λ q. mem q a.seen) (max s a.loss_max) (finish a).through
unfolding finish start_or
finish-IsTop a s e =
    rw e (climb-IsTop (length a.seen) (λ q. mem q a.seen) a.seen _ (λ q. refl) (omega arith))

pub Tracks-finish : (a : Acc) (s : ℕ) → a.start_seq ≡ some s → Tracks a (finish a)
Tracks-finish a s e = record {
  started = s;
  start_ok = e;
  mac = unfold finish in refl;
  log_id = unfold finish in refl;
  seen = unfold finish in refl;
  max_seq = unfold finish in refl;
  top = finish-IsTop a s e;
}

pub finish-Tracks : (a : Acc) (st : LogState) → Tracks a st → finish a ≡ st
unfolding finish
finish-Tracks a st t = λ i. record {
  mac = t.mac i;
  log_id = t.log_id i;
  through = same i;
  seen = t.seen i;
  max_seq = t.max_seq i;
}
  where
    same : (finish a).through ≡ st.through
    same = IsTop-unique _ _ _ _ (finish-IsTop a t.started t.start_ok) t.top

loss_top-loss_of :
    (st : LogState) (mac log_id : Str) (batch : DecodedBatch) (now m : ℕ)
    → loss_top (loss_of (some st) mac log_id batch now) m
      ≡ (if ltb st.through batch.header.lost_through then max m batch.header.lost_through else m)
unfolding loss_top loss_of start_through is_first
loss_top-loss_of st mac log_id batch now m = ground arith

loss_top_first :
    (mac log_id : Str) (batch : DecodedBatch) (now : ℕ)
    → loss_top (loss_of none mac log_id batch now) 0 ≡ batch.header.lost_through
unfolding loss_top loss_of start_through is_first
loss_top_first mac log_id batch now = ground arith

parse_hex-hex_pad_u32 : (n : ℕ) → IsU32 n → parse_hex 0 (log_id_hex n) ≡ n
unfolding log_id_hex
parse_hex-hex_pad_u32 n u =
    let e : n % 2 ^ 32 ≡ n = omega arith in rw e (parse_hex-hex_pad 8 n (omega arith))

module _ (mac : Str) (batch : DecodedBatch) (now : ℕ) where
  abbrev pub hex : Str
  hex = log_id_hex batch.header.log_id

  abbrev pub added : Option LogState → List ℕ
  added prev = (taken_of prev mac hex batch now).added

  abbrev pub lost : Option LogState → Option LossRecord
  lost prev = loss_of prev mac hex batch now

  pub Tracks-first :
      IsU32 batch.header.log_id
      → Tracks
          (acc_after
            (acc_step (new_acc mac hex) (ReadKind.start batch.header.first_seq))
            (lost none)
            (added none))
          (after none mac batch now)
  unfolding acc_after acc_step committed plan_batch state_or
  Tracks-first u = record {
    started = batch.header.first_seq - 1;
    start_ok = refl;
    mac = refl;
    log_id = parse_hex-hex_pad_u32 batch.header.log_id u;
    seen = refl;
    max_seq = unfold max_seq_of in refl;
    top =
        subst
          (λ (m : ℕ).
            IsTop (λ q. mem q (after none mac batch now).seen) (max (batch.header.first_seq - 1) m)
              (after none mac batch now).through)
          (sym (loss_top_first mac hex batch now))
          (unfold start_through in (after-IsTop none mac batch now).0);
  }

  held_below :
      (a : Acc) (st : LogState) (t : Tracks a st) (q : ℕ)
      → max t.started (loss_top (lost (some st)) a.loss_max) < q
      → q ≤ max st.through batch.header.lost_through
      → mem q (after (some st) mac batch now).seen ≡ true
  unfolding seen_of
  held_below a st t q lo hi =
      mem-after (some st) mac batch now q
      ∙ ground
          (arith, loss_top-loss_of st mac hex batch now a.loss_max, t.top.held q, ap (mem q) t.seen)

  IsTop-next :
      (a : Acc) (st : LogState) (t : Tracks a st)
      → IsTop
          (λ q. mem q (after (some st) mac batch now).seen)
          (max t.started (loss_top (lost (some st)) a.loss_max))
          (after (some st) mac batch now).through
  IsTop-next a st t =
      IsTop-below _ _ (max st.through batch.header.lost_through) _
        (unfold start_through in
          ground (arith, loss_top-loss_of st mac hex batch now a.loss_max, t.top.low))
        (held_below a st t) (unfold start_through in (after-IsTop (some st) mac batch now).0)

  pub Tracks-next :
      (a : Acc) (st : LogState)
      → Tracks a st
      → Tracks (acc_after a (lost (some st)) (added (some st))) (after (some st) mac batch now)
  unfolding acc_after committed plan_batch state_or
  Tracks-next a st t = record {
    started = t.started;
    start_ok = t.start_ok;
    mac = t.mac;
    log_id = t.log_id;
    seen = ap (add_all (added (some st))) t.seen;
    max_seq = unfold max_seq_of in ap (λ m. max_of m (added (some st))) t.max_seq;
    top =
        subst
          (λ (xs : List ℕ).
            IsTop (λ q. mem q xs) (max t.started (loss_top (lost (some st)) a.loss_max))
              (after (some st) mac batch now).through)
          (ap (add_all (added (some st))) (sym t.seen)) (IsTop-next a st t);
  }
