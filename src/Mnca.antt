-- ===== src/Mnca.antt =====
-- The oracle of tools/x402-bridge/mnca-oracle.ts: the rule of the tiles, and what it signs.
pub mod Tiles
pub mod Oracle
pub mod Validated
mod Examples
use semantos_edge.Base.{
  ℕ, zero, suc, ◌+◌, ◌-◌, ◌*◌, ◌/◌, ◌%◌, min, Bool, true, false, not, ◌&&◌, ◌||◌, Option, none,
  some, List, [], ◌∷◌, ltb, leb, ◌==◌, if◌then◌else◌,
}

-- ruleId, which nothing reads, is left out.
pub record MncaRule : Type 0 where
  pub alive_threshold : ℕ
  pub inner_radius : ℕ
  pub birth_lo : ℕ
  pub birth_hi : ℕ
  pub survive_lo : ℕ
  pub survive_hi : ℕ
  pub grow_step : ℕ
  pub decay_step : ℕ

abbrev pub default_rule : MncaRule
default_rule = record {
  alive_threshold = 128;
  inner_radius = 1;
  birth_lo = 3;
  birth_hi = 3;
  survive_lo = 2;
  survive_hi = 3;
  grow_step = 64;
  decay_step = 64;
}

-- TILE_W and TILE_H, and TILE_CELLS
abbrev pub side : ℕ
side = 8

abbrev pub tile_cells : ℕ
tile_cells = 64

-- An element of a Uint8Array, none beyond its end.
unfoldable pub cell_at : List ℕ → ℕ → Option ℕ
cell_at [] i = none
cell_at (x ∷ xs) zero = some x
cell_at (x ∷ xs) (suc i) = cell_at xs i

-- A comparison with undefined is false.
unfoldable pub is_alive : MncaRule → Option ℕ → Bool
is_alive rule none = false
is_alive rule (some v) = leb rule.alive_threshold v

-- `i` is a delta, counted from -innerRadius on: the row or column, where it is in the tile.
unfoldable pub offset : MncaRule → ℕ → ℕ → Option ℕ
offset rule p i =
    let at = p + i - rule.inner_radius in
    if ltb (p + i) rule.inner_radius || leb side at then none else some at

unfoldable pub alive_at : MncaRule → List ℕ → Option ℕ → Option ℕ → Bool
alive_at rule cur none c = false
alive_at rule cur (some r) none = false
alive_at rule cur (some r) (some c) = is_alive rule (cell_at cur (r * side + c))

-- One neighbour of the cell, which is none of its own.
unfoldable pub counts : MncaRule → List ℕ → ℕ → ℕ → ℕ → ℕ → Bool
counts rule cur row col i j =
    if i == rule.inner_radius && j == rule.inner_radius
    then false
    else alive_at rule cur (offset rule row i) (offset rule col j)

-- The inner loop over `j`, and the outer over `i`, with `n` rounds left.
unfoldable pub count_columns : MncaRule → List ℕ → ℕ → ℕ → ℕ → ℕ → ℕ → ℕ
count_columns rule cur row col i zero j = 0
count_columns rule cur row col i (suc n) j =
    (if counts rule cur row col i j then 1 else 0) + count_columns rule cur row col i n (j + 1)

unfoldable pub count_rows : MncaRule → List ℕ → ℕ → ℕ → ℕ → ℕ → ℕ
count_rows rule cur row col zero i = 0
count_rows rule cur row col (suc n) i =
    count_columns rule cur row col i (2 * rule.inner_radius + 1) 0
    + count_rows rule cur row col n (i + 1)

unfoldable pub alive_count : MncaRule → List ℕ → ℕ → ℕ → ℕ
alive_count rule cur row col = count_rows rule cur row col (2 * rule.inner_radius + 1) 0

-- clampU8(me + growStep), where undefined gives NaN, which a Uint8Array stores as 0
unfoldable pub grown : MncaRule → Option ℕ → ℕ
grown rule none = 0
grown rule (some me) = min 255 (me + rule.grow_step)

unfoldable pub decayed : MncaRule → Option ℕ → ℕ
decayed rule none = 0
decayed rule (some me) = min 255 (if ltb rule.decay_step me then me - rule.decay_step else 0)

unfoldable pub next_cell : MncaRule → Option ℕ → ℕ → ℕ
next_cell rule me n =
    if is_alive rule me
    then (if leb rule.survive_lo n && leb n rule.survive_hi then grown rule me else decayed rule me)
    else (if leb rule.birth_lo n && leb n rule.birth_hi then grown rule me else decayed rule me)

-- The loops over the rows and columns, with `n` cells left, from cell `k` on.
unfoldable pub step_cells : MncaRule → List ℕ → ℕ → ℕ → List ℕ
step_cells rule cur zero k = []
step_cells rule cur (suc n) k =
    next_cell rule (cell_at cur k) (alive_count rule cur (k / side) (k % side))
    ∷ step_cells rule cur n (k + 1)

unfoldable pub step_tile : MncaRule → List ℕ → List ℕ
step_tile rule cur = step_cells rule cur tile_cells 0
