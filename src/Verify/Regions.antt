-- ===== src/Verify/Regions.antt =====
-- `mismatch_regions` of crates/hwatud/src/verify.rs: the mask of a pixel diff is cut into cells, and
-- cells with many mismatches are merged into bounding boxes by a flood fill. The stack is a list with
-- its top first. The fuel of the fill is the number of cells: each round takes one cell off the stack,
-- and a cell is put on it once.
pub mod Marks
pub mod Floods
pub mod Conserved
pub mod Boxes
pub mod Report
pub mod Order
use hwatu.Common.{
  ℕ, zero, suc, ◌+◌, ◌-◌, ◌*◌, ◌/◌, ◌%◌, min, max, List, [], ◌∷◌, ◌++◌, map, Bool, true, false, not,
  ◌&&◌, ◌||◌, ltb, leb, ◌==◌, if◌then◌else◌, get_or, length, replicate,
}
use hwatu.Verify.Frames.{DiffResult}

-- `CELL`.
abbrev pub cell_edge : ℕ
cell_edge = 32

-- `div_ceil(CELL)`.
abbrev pub cells_for : ℕ → ℕ
cells_for n = (n + (cell_edge - 1)) / cell_edge

-- `cells[i] += 1`.
pub add_at : List ℕ → ℕ → List ℕ
add_at [] i = []
add_at (c ∷ cs) zero = (c + 1) ∷ cs
add_at (c ∷ cs) (suc i) = c ∷ add_at cs i

-- The inner loop of the count, from `x` on for `n` pixels of row `y`.
pub count_row : List Bool → ℕ → ℕ → ℕ → ℕ → ℕ → List ℕ → List ℕ
unfolding add_at
count_row mask w cols y x zero cells = cells
count_row mask w cols y x (suc n) cells =
    let cells' =
      if get_or mask (y * w + x) false
      then add_at cells ((y / cell_edge) * cols + x / cell_edge)
      else cells in
    count_row mask w cols y (x + 1) n cells'

-- The outer loop of the count, from `y` on for `n` rows.
pub count_rows : List Bool → ℕ → ℕ → ℕ → ℕ → List ℕ → List ℕ
unfolding count_row
count_rows mask w cols y zero cells = cells
count_rows mask w cols y (suc n) cells =
    count_rows mask w cols (y + 1) n (count_row mask w cols y 0 w cells)

-- At least 5% of the pixels of a cell.
abbrev pub is_hot : ℕ → Bool
is_hot c = leb (cell_edge * cell_edge) (c * 20)

pub record Region : Type 0 where
  pub x0 : ℕ
  pub y0 : ℕ
  pub x1 : ℕ
  pub y1 : ℕ
  pub pixels : ℕ

-- The marks of the cells that were met, and the stack.
pub record Flood : Type 0 where
  pub seen : List Bool
  pub stack : List ℕ

-- `seen[j] = true`.
pub set_true : List Bool → ℕ → List Bool
set_true [] j = []
set_true (b ∷ bs) zero = true ∷ bs
set_true (b ∷ bs) (suc j) = b ∷ set_true bs j

-- `sort_by_key` with `Reverse`: stable, the largest first.
pub insert_region : Region → List Region → List Region
insert_region r [] = r ∷ []
insert_region r (q ∷ qs) =
    let rest = insert_region r qs in if leb q.pixels r.pixels then r ∷ q ∷ qs else q ∷ rest

pub sort_regions : List Region → List Region
unfolding insert_region
sort_regions [] = []
sort_regions (r ∷ rs) = insert_region r (sort_regions rs)

module _ (cols rows : ℕ) (cells : List ℕ) (hot : List Bool) where
  -- The closure `push`.
  pub push : ℕ → Flood → Flood
  unfolding set_true
  push j s =
      if get_or hot j false && not (get_or s.seen j false)
      then record { seen = set_true s.seen j; stack = j ∷ s.stack }
      else s

  pub push_if : Bool → ℕ → Flood → Flood
  unfolding push
  push_if b j s = if b then push j s else s

  -- The four neighbours of the cell `i`.
  pub spread : ℕ → Flood → Flood
  unfolding push_if
  spread i s =
      let cx = i % cols in
      let cy = i / cols in
      push_if (ltb (cy + 1) rows) (i + cols) (
        push_if (ltb 0 cy) (i - cols)
          (push_if (ltb (cx + 1) cols) (i + 1) (push_if (ltb 0 cx) (i - 1) s)))

  abbrev pub grow : ℕ → Region → Region
  grow i r = record {
    x0 = min r.x0 (i % cols);
    y0 = min r.y0 (i / cols);
    x1 = max r.x1 (i % cols);
    y1 = max r.y1 (i / cols);
    pixels = r.pixels + get_or cells i 0;
  }

  -- The `while let` loop: the marks and the region at its end.
  pub fill : ℕ → List Bool → List ℕ → Region → List Bool × Region
  unfolding spread
  fill zero seen stack r = (seen, r)
  fill (suc fuel) seen [] r = (seen, r)
  fill (suc fuel) seen (i ∷ stack) r =
      let s = spread i (record { seen = seen; stack = stack }) in
      fill fuel s.seen s.stack (grow i r)

  abbrev pub no_region : Region
  no_region = record { x0 = cols; y0 = rows; x1 = 0; y1 = 0; pixels = 0 }

  -- One round of the outer loop: the marks and the regions that it adds.
  pub visit : ℕ → List Bool → List Bool × List Region
  unfolding fill
  visit start seen =
      if not (get_or hot start false) || get_or seen start false
      then (seen, [])
      else let found = fill (length hot) (set_true seen start) (start ∷ []) no_region in
        (found.0, found.1 ∷ [])

  -- The outer loop, from `start` on for `n` cells.
  pub regions_from : ℕ → ℕ → List Bool → List Region
  unfolding visit
  regions_from start zero seen = []
  regions_from start (suc n) seen =
      let round = visit start seen in round.1 ++ regions_from (start + 1) n round.0

-- The mismatches of each cell.
unfoldable pub cell_counts : DiffResult → List ℕ
unfolding count_rows
cell_counts diff =
    let cols = cells_for diff.union_w in
    let rows = cells_for diff.union_h in
    count_rows diff.mask diff.union_w cols 0 diff.union_h (replicate (cols * rows) 0)

unfoldable pub mismatch_regions : DiffResult → List Region
unfolding cell_counts regions_from sort_regions
mismatch_regions diff =
    let cols = cells_for diff.union_w in
    let rows = cells_for diff.union_h in
    let cells = cell_counts diff in
    let hot = map is_hot cells in
    if diff.union_w == 0 || diff.union_h == 0
    then []
    else sort_regions
        (regions_from cols rows cells hot 0 (cols * rows) (replicate (cols * rows) false))
