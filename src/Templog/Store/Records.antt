-- ===== src/Templog/Store/Records.antt =====
-- The journal's records and the results of tools/templog-bridge/store.ts.
use semantos_edge.Base.{ℕ, Bool, Option, List, none, some}
use semantos_edge.Base.Int.{ℤ, pos}
use semantos_edge.Base.Map.{Str}
use semantos_edge.Templog.Text.{codes}
use semantos_edge.Templog.Json.{Json, str, num, null, obj, end, field}

pub data Anchor : Type 0 where
  receipt epoch unplaced : Anchor

pub record StartRecord : Type 0 where
  pub mac : Str
  pub log_id : Str
  pub first_seq : ℕ
  pub received_unix_s : ℕ

pub record SampleRecord : Type 0 where
  pub mac : Str
  pub log_id : Str
  pub seq : ℕ
  pub boot_id : ℕ
  pub uptime_s : ℕ
  pub centi_c : ℤ
  pub flags : ℕ
  pub t_unix : Option ℤ
  pub anchor : Anchor
  pub policy_min_centi : ℤ
  pub policy_max_centi : ℤ
  pub received_unix_s : ℕ

pub record LossRecord : Type 0 where
  pub mac : Str
  pub log_id : Str
  pub from_seq : Option ℕ
  pub through_seq : ℕ
  pub missing : Option ℤ
  pub received_unix_s : ℕ

pub data JournalRecord : Type 0 where
  start : StartRecord → JournalRecord
  sample : SampleRecord → JournalRecord
  loss : LossRecord → JournalRecord

pub record AckToSend : Type 0 where
  pub mac : Str
  pub acked_through : ℕ
  pub host_unix_s : ℕ

pub record IngestResult : Type 0 where
  pub mac : Str
  pub log_id : ℕ
  pub first_contact : Bool
  pub new_samples : List SampleRecord
  pub duplicates : ℕ
  pub lost : Option LossRecord
  pub previous_through : Option ℕ
  pub through : ℕ
  pub held_above : Option ℕ
  pub ack : AckToSend

pub record LogSummary : Type 0 where
  pub mac : Str
  pub log_id : ℕ
  pub through : ℕ
  pub held : ℕ
  pub held_above : Option ℕ

pub record LogState : Type 0 where
  pub mac : Str
  pub log_id : ℕ
  pub through : ℕ
  pub seen : List ℕ
  pub max_seq : ℕ

anchor_text : Anchor → Str
anchor_text receipt = codes "receipt"
anchor_text epoch = codes "epoch"
anchor_text unplaced = codes "unplaced"

number : ℕ → Json
number n = num (pos n)

or_null : Option ℤ → Json
or_null none = null
or_null (some z) = num z

seq_or_null : Option ℕ → Json
seq_or_null none = null
seq_or_null (some n) = num (pos n)

-- The object that JSON.stringify is given, its fields in order.
unfoldable pub to_json : JournalRecord → Json
unfolding anchor_text number or_null seq_or_null
to_json (start r) = obj (
    field (codes "kind") (str (codes "start")) (
      field (codes "mac") (str r.mac) (
        field (codes "logId") (str r.log_id) (
          field (codes "firstSeq") (number r.first_seq)
            (field (codes "receivedUnixS") (number r.received_unix_s) end)))))
to_json (sample r) = obj (
    field (codes "kind") (str (codes "sample")) (
      field (codes "mac") (str r.mac) (
        field (codes "logId") (str r.log_id) (
          field (codes "seq") (number r.seq) (
            field (codes "bootId") (number r.boot_id) (
              field (codes "uptimeS") (number r.uptime_s) (
                field (codes "centiC") (num r.centi_c) (
                  field (codes "flags") (number r.flags) (
                    field (codes "tUnix") (or_null r.t_unix) (
                      field (codes "anchor") (str (anchor_text r.anchor)) (
                        field (codes "policyMinCenti") (num r.policy_min_centi) (
                          field (codes "policyMaxCenti") (num r.policy_max_centi) (
                            field (codes "receivedUnixS") (number r.received_unix_s)
                              end)))))))))))))
to_json (loss r) = obj (
    field (codes "kind") (str (codes "loss")) (
      field (codes "mac") (str r.mac) (
        field (codes "logId") (str r.log_id) (
          field (codes "fromSeq") (seq_or_null r.from_seq) (
            field (codes "throughSeq") (number r.through_seq) (
              field (codes "missing") (or_null r.missing)
                (field (codes "receivedUnixS") (number r.received_unix_s) end)))))))
