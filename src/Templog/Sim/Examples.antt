-- ===== src/Templog/Sim/Examples.antt =====
-- A node of tools/templog-bridge/sim.ts with two readings.
use semantos_edge.Base.{ℕ, ◌+◌, ◌-◌, ◌≤◌, ◌<◌, ◌≡◌, refl, none, some, arith, length, Result}
use semantos_edge.Base.Int.{pos, negsuc}
use semantos_edge.Templog.Text.{codes}
use semantos_edge.Templog.Sim.Node.{
  FlashRecord, SimNode, fresh_node, new_node, append, starts_sector, sample, apply_ack,
  lost_through, pending_first, pending, batch_samples,
}
use semantos_edge.Templog.Sim.Ring.{Reachable, created, sampled, Reachable-fits}
use semantos_edge.Templog.Sim.Deliver.{batch_samples-acked}

abbrev fresh : SimNode
fresh = fresh_node (codes "02:00:5e:c0:1d:01") 7 (pos 1000) 512 60 (negsuc 199, pos 2800)

abbrev node : SimNode
node = sample (pos 1120) none (sample (pos 1060) (some (pos 400)) fresh)

fresh-created : new_node (codes "02:00:5e:c0:1d:01") 7 (pos 1000) none none none ≡ Result.ok fresh
unfolding new_node
fresh-created = refl

node-Reachable : Reachable node
node-Reachable =
    sampled (pos 1120) none
      (sampled (pos 1060) (some (pos 400)) (created _ 7 (pos 1000) none none none fresh-created))

Reachable-fits_example :
    (node.next_seq ≤ node.oldest_seq + node.capacity)
    × (node.acked_through < node.next_seq)
    × ((q : ℕ) (r : FlashRecord)
        → node.flash q ≡ some r
        → (node.oldest_seq ≤ q) × (q < node.next_seq))
Reachable-fits_example = Reachable-fits node node-Reachable

two_pending : 0 < pending node
unfolding pending pending_first sample append starts_sector
two_pending = omega arith

batch_samples-acked_example :
    (1 ≤ length (batch_samples node))
    × (length (batch_samples node) ≤ 91)
    × (pending (
            apply_ack
              (pending_first node + length (batch_samples node) - 1)
              (pos 1130)
              (pos 1121)
              node)
          + length (batch_samples node)
        ≡ pending node)
    × (lost_through (
          apply_ack
            (pending_first node + length (batch_samples node) - 1)
            (pos 1130)
            (pos 1121)
            node)
        ≡ 0)
batch_samples-acked_example = batch_samples-acked (pos 1130) (pos 1121) node two_pending
