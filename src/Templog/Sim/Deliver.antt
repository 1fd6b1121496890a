-- ===== src/Templog/Sim/Deliver.antt =====
-- What a node of tools/templog-bridge/sim.ts sends, and how an ack of it brings it on.
use semantos_edge.Base.{
  ℕ, zero, suc, ◌+◌, ◌-◌, ◌≤◌, ◌<◌, ◌≡◌, refl, true, Option, some, ltb, ◌==◌, ==_iff, Bool-cases,
  ltb→lt, Option-cases, inl, inr, arith, length,
}
use semantos_edge.Base.Int.{ℤ}
use semantos_edge.Templog.Sim.Node.{
  FlashRecord, SimNode, apply_ack, lost_through, pending_first, pending, collect, batch_samples,
  batch_boot,
}

-- No more samples than there is room for, and none beyond the newest.
length-collect :
    (room seq next boot : ℕ) (flash : ℕ → Option FlashRecord)
    → (length (collect room seq next boot flash) ≤ room)
      × (length (collect room seq next boot flash) ≤ next - seq)
unfolding collect
length-collect zero seq next boot flash = (omega arith, omega arith)
length-collect (suc room) seq next boot flash =
    let rest : _ = length-collect room (seq + 1) next boot flash in
    elim (Bool-cases (ltb seq next)) [
      | inr e ↦ rw e (omega arith, omega arith)
      | inl e ↦ rw e (elim (Option-cases (flash seq)) [
        | inl f ↦ rw f (omega (arith, rest.0), omega (arith, rest.1, ltb→lt seq next e))
        | inr (r, f) ↦ rw f (elim (Bool-cases (r.boot_id == boot)) [
          | inl g ↦ rw g (omega (arith, rest.0), omega (arith, rest.1, ltb→lt seq next e))
          | inr g ↦ rw g (omega arith, omega arith)
        ])
      ])
    ]

-- The first of the pending seqs is always sent.
collect-first :
    (room seq next boot : ℕ) (flash : ℕ → Option FlashRecord)
    → seq < next
    → ((r : FlashRecord) → flash seq ≡ some r → r.boot_id ≡ boot)
    → 1 ≤ length (collect (suc room) seq next boot flash)
unfolding collect
collect-first room seq next boot flash h same =
    let e : ltb seq next ≡ true = ground arith in
    rw e (elim (Option-cases (flash seq)) [
      | inl f ↦ rw f (omega arith)
      | inr (r, f) ↦
          let g : (r.boot_id == boot) ≡ true = (==_iff _ _).1 (same r f) in
          rw f (rw g (omega arith))
    ])

batch_boot-first :
    (n : SimNode) (r : FlashRecord) → n.flash (pending_first n) ≡ some r → r.boot_id ≡ batch_boot n
unfolding batch_boot
batch_boot-first n r f = rw (f, batch_boot) refl

pending-positive :
    (n : SimNode)
    → 0 < pending n
    → (pending_first n < n.next_seq) × (pending n ≡ n.next_seq - pending_first n)
unfolding pending
pending-positive n h = (ground arith, ground arith)

pending_first-oldest : (n : SimNode) → n.oldest_seq ≤ pending_first n
unfolding pending_first
pending_first-oldest n = omega arith

apply_ack-pending :
    (a : ℕ) (host now : ℤ) (n : SimNode)
    → n.oldest_seq ≤ a + 1
    → a < n.next_seq
    → (pending (apply_ack a host now n) ≡ n.next_seq - (a + 1))
      × (lost_through (apply_ack a host now n) ≡ 0)
unfolding apply_ack pending pending_first lost_through
apply_ack-pending a host now n h k = (ground arith, ground arith)

-- Where something is pending, the batch has between 1 and 91 samples, and an ack of exactly these
-- brings the node on by their number: what is pending falls by it, and no loss is left to report.
pub batch_samples-acked :
    (host now : ℤ) (n : SimNode)
    → 0 < pending n
    → (1 ≤ length (batch_samples n))
      × (length (batch_samples n) ≤ 91)
      × (pending (apply_ack (pending_first n + length (batch_samples n) - 1) host now n)
            + length (batch_samples n)
          ≡ pending n)
      × (lost_through (apply_ack (pending_first n + length (batch_samples n) - 1) host now n) ≡ 0)
unfolding batch_samples
batch_samples-acked host now n some_pending =
    let k : ℕ = length (collect 91 (pending_first n) n.next_seq (batch_boot n) n.flash) in
    let size : _ = length-collect 91 (pending_first n) n.next_seq (batch_boot n) n.flash in
    let some_left : _ = pending-positive n some_pending in
    let one : 1 ≤ k = collect-first 90 _ _ _ n.flash some_left.0 (batch_boot-first n) in
    let old : n.oldest_seq ≤ pending_first n = pending_first-oldest n in
    let then_left : _ =
      apply_ack-pending (pending_first n + k - 1) host now n (omega arith)
        (omega (arith, size.1, some_left.0)) in
    (one, size.0, omega (arith, then_left.0, some_left.1, size.1), then_left.1)
