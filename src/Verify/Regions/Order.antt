-- ===== src/Verify/Regions/Order.antt =====
-- The order in which the regions of a pixel diff are reported.
use hwatu.Common.{
  ℕ, ◌*◌, ◌≤◌, List, [], ◌∷◌, map, false, ◌||◌, inl, inr, leb, ◌==◌, replicate, arith, Bool-cases,
  All,
}
use hwatu.Verify.Frames.{DiffResult}
use hwatu.Verify.Regions.{
  Region, cell_counts, cells_for, is_hot, insert_region, sort_regions, regions_from,
  mismatch_regions,
}

-- Worst first.
abbrev pub Descending : List Region → Type 0
Descending [] = Unit
Descending (r ∷ rs) = All (λ (q : Region). q.pixels ≤ r.pixels) rs × Descending rs

insert_region-All :
    (m : ℕ) (r : Region) (rs : List Region)
    → r.pixels ≤ m
    → All (λ (q : Region). q.pixels ≤ m) rs
    → All (λ (q : Region). q.pixels ≤ m) (insert_region r rs)
unfolding insert_region
insert_region-All m r [] h all = (h, tt)
insert_region-All m r (q ∷ qs) h (a, all) = elim (Bool-cases (leb q.pixels r.pixels)) [
  | inl e ↦ rw e (h, (a, all))
  | inr e ↦ rw e (a, insert_region-All m r qs h all)
]

All-le_trans :
    (m n : ℕ) (rs : List Region)
    → m ≤ n
    → All (λ (q : Region). q.pixels ≤ m) rs
    → All (λ (q : Region). q.pixels ≤ n) rs
All-le_trans m n [] h all = tt
All-le_trans m n (r ∷ rs) h (a, all) = (omega arith, All-le_trans m n rs h all)

insert_region-Descending :
    (r : Region) (rs : List Region) → Descending rs → Descending (insert_region r rs)
unfolding insert_region
insert_region-Descending r [] d = (tt, tt)
insert_region-Descending r (q ∷ qs) (all, d) = elim (Bool-cases (leb q.pixels r.pixels)) [
  | inl e ↦
      let le : q.pixels ≤ r.pixels = ground arith in
      rw e ((le, All-le_trans q.pixels r.pixels qs le all), (all, d))
  | inr e ↦
      let le : r.pixels ≤ q.pixels = ground arith in
      rw e (insert_region-All q.pixels r qs le all, insert_region-Descending r qs d)
]

sort_regions-Descending : (rs : List Region) → Descending (sort_regions rs)
unfolding sort_regions
sort_regions-Descending [] = tt
sort_regions-Descending (r ∷ rs) =
    insert_region-Descending r (sort_regions rs) (sort_regions-Descending rs)

-- The regions are reported worst first: each holds at least as many mismatched pixels as any later.
pub mismatch_regions-Descending : (d : DiffResult) → Descending (mismatch_regions d)
unfolding mismatch_regions
mismatch_regions-Descending d = elim (Bool-cases (d.union_w == 0 || d.union_h == 0)) [
  | inl e ↦ rw e tt
  | inr e ↦
      let cols = cells_for d.union_w in
      let rows = cells_for d.union_h in
      let hot = map is_hot (cell_counts d) in
      rw e (
        sort_regions-Descending (
          regions_from cols rows (cell_counts d) hot 0 (cols * rows)
            (replicate (cols * rows) false)))
]
