-- ===== src/Mnca/Tiles.antt =====
-- The cells that a step of tools/x402-bridge/mnca-oracle.ts gives.
use semantos_edge.Base.{
  ℕ, zero, suc, ◌+◌, ◌≤◌, ◌≡◌, refl, Option, none, some, List, All, arith, length,
}
use semantos_edge.Mnca.{MncaRule, grown, decayed, next_cell, step_cells, step_tile, tile_cells}

grown_le : (rule : MncaRule) (me : Option ℕ) → grown rule me ≤ 255
unfolding grown
grown_le rule none = omega arith
grown_le rule (some me) = omega arith

decayed_le : (rule : MncaRule) (me : Option ℕ) → decayed rule me ≤ 255
unfolding decayed
decayed_le rule none = omega arith
decayed_le rule (some me) = ground arith

next_cell_le : (rule : MncaRule) (me : Option ℕ) (n : ℕ) → next_cell rule me n ≤ 255
unfolding next_cell
next_cell_le rule me n = ground (arith, grown_le rule me, decayed_le rule me)

step_cells-bytes :
    (rule : MncaRule) (cur : List ℕ) (n k : ℕ)
    → (length (step_cells rule cur n k) ≡ n) × All (λ v. v ≤ 255) (step_cells rule cur n k)
unfolding step_cells
step_cells-bytes rule cur zero k = (refl, tt)
step_cells-bytes rule cur (suc n) k =
    let (long, small) = step_cells-bytes rule cur n (k + 1) in
    (omega arith, (next_cell_le rule _ _, small))

-- A step gives 64 cells, each at most 255, whatever the rule and however long the array before it.
pub step_tile-bytes :
    (rule : MncaRule) (cur : List ℕ)
    → (length (step_tile rule cur) ≡ tile_cells) × All (λ v. v ≤ 255) (step_tile rule cur)
unfolding step_tile
step_tile-bytes rule cur = step_cells-bytes rule cur tile_cells 0
