-- ===== src/Snapdiff/Lcs.antt =====
-- The core that `diff` counts as unchanged is a longest common subsequence.
use hwatu.Common.{
  ℕ, zero, suc, ◌+◌, ◌%◌, ◌≤◌, ◌<◌, max, ◌≡◌, refl, List, [], ◌∷◌, if◌then◌else◌, length, drop,
  get_or, replicate, arith,
}
use native.Mathlib.Numerals.{add-one}
use hwatu.Json.{JsonApi}
use hwatu.Snapdiff.{Node, u32_mod, node_eq, fill_row, fill_table, cell, walk, report, diff}

module _ (J : JsonApi) where
  open J use {Value}

  -- The textbook recursion.
  unfoldable pub lcs : List (Node Value) → List (Node Value) → ℕ
  lcs [] ys = 0
  lcs (x ∷ xs) [] = 0
  lcs (x ∷ xs) (y ∷ ys) =
      let both = lcs xs ys in
      let skip_old = lcs xs (y ∷ ys) in
      let skip_new = lcs (x ∷ xs) ys in if node_eq J x y then suc both else max skip_old skip_new

  pub lcs-nil : (xs : List (Node Value)) → lcs xs [] ≡ 0
  unfolding lcs
  lcs-nil [] = refl
  lcs-nil (x ∷ xs) = refl

  lcs-le : (xs ys : List (Node Value)) → lcs xs ys ≤ length xs
  unfolding lcs
  lcs-le [] ys = omega arith
  lcs-le (x ∷ xs) [] = omega arith
  lcs-le (x ∷ xs) (y ∷ ys) = ground (arith, lcs-le xs ys, lcs-le xs (y ∷ ys), lcs-le (x ∷ xs) ys)

  -- The lengths for one old suffix against every suffix of `ys`.
  lcs_row : List (Node Value) → List (Node Value) → List ℕ
  lcs_row xs [] = lcs xs [] ∷ []
  lcs_row xs (y ∷ ys) = lcs xs (y ∷ ys) ∷ lcs_row xs ys

  head-lcs_row : (xs ys : List (Node Value)) → get_or (lcs_row xs ys) 0 0 ≡ lcs xs ys
  unfolding lcs_row
  head-lcs_row xs [] = refl
  head-lcs_row xs (y ∷ ys) = refl

  fill_row-lcs_row :
      (x : Node Value) (xs ys : List (Node Value))
      → length xs + 1 < u32_mod
      → fill_row J x ys (lcs_row xs ys) ≡ lcs_row (x ∷ xs) ys
  unfolding fill_row lcs_row lcs
  fill_row-lcs_row x xs [] h = refl
  fill_row-lcs_row x xs (y ∷ ys) h = rw (fill_row-lcs_row x xs ys h) (
      rw (head-lcs_row xs ys)
        (rw (head-lcs_row (x ∷ xs) ys) (rw (no_wrap (lcs xs ys) (omega (arith, lcs-le xs ys))))))
    where
      no_wrap : (n : ℕ) → n + 1 < u32_mod → (n + 1) % u32_mod ≡ suc n
      no_wrap n k = omega arith

  lcs_rows : List (Node Value) → List (Node Value) → List (List ℕ)
  lcs_rows [] ys = lcs_row [] ys ∷ []
  lcs_rows (x ∷ xs) ys = lcs_row (x ∷ xs) ys ∷ lcs_rows xs ys

  head-lcs_rows : (xs ys : List (Node Value)) → get_or (lcs_rows xs ys) 0 [] ≡ lcs_row xs ys
  unfolding lcs_rows
  head-lcs_rows [] ys = refl
  head-lcs_rows (x ∷ xs) ys = refl

  lcs_row-nil : (ys : List (Node Value)) → replicate (suc (length ys)) 0 ≡ lcs_row [] ys
  unfolding lcs_row lcs
  lcs_row-nil [] = refl
  lcs_row-nil (y ∷ ys) = rw (lcs_row-nil ys)

  fill_table-lcs_rows :
      (xs ys : List (Node Value)) → length xs < u32_mod → fill_table J xs ys ≡ lcs_rows xs ys
  unfolding fill_table lcs_rows
  fill_table-lcs_rows [] ys h = rw (add-one, lcs_row-nil ys)
  fill_table-lcs_rows (x ∷ xs) ys h =
      rw (fill_table-lcs_rows xs ys (omega arith))
        (rw (head-lcs_rows xs ys) (rw (fill_row-lcs_row x xs ys (omega arith))))

  get_or-lcs_row :
      (xs ys : List (Node Value)) (j : ℕ)
      → j ≤ length ys
      → get_or (lcs_row xs ys) j 0 ≡ lcs xs (drop j ys)
  unfolding lcs_row
  get_or-lcs_row xs ys zero h = head-lcs_row xs ys
  get_or-lcs_row xs [] (suc j) h = absurd (omega arith)
  get_or-lcs_row xs (y ∷ ys) (suc j) h = get_or-lcs_row xs ys j (omega arith)

  get_or-lcs_rows :
      (xs ys : List (Node Value)) (i : ℕ)
      → i ≤ length xs
      → get_or (lcs_rows xs ys) i [] ≡ lcs_row (drop i xs) ys
  unfolding lcs_rows
  get_or-lcs_rows xs ys zero h = head-lcs_rows xs ys
  get_or-lcs_rows [] ys (suc i) h = absurd (omega arith)
  get_or-lcs_rows (x ∷ xs) ys (suc i) h = get_or-lcs_rows xs ys i (omega arith)

  -- Every cell of the table is the length for the suffixes at its row and column.
  cell-fill_table :
      (xs ys : List (Node Value)) (i j : ℕ)
      → length xs < u32_mod
      → i ≤ length xs
      → j ≤ length ys
      → cell J (fill_table J xs ys) i j ≡ lcs (drop i xs) (drop j ys)
  cell-fill_table xs ys i j word hi hj =
      rw (fill_table-lcs_rows xs ys word)
        (rw (get_or-lcs_rows xs ys i hi) (get_or-lcs_row (drop i xs) ys j hj))

  -- The table agrees with the lengths from row `i` and column `j` on.
  record IsTableFrom (t : List (List ℕ)) (i j : ℕ) (xs ys : List (Node Value)) : Type 0 where
    at :
        (a b : ℕ)
        → a ≤ length xs
        → b ≤ length ys
        → cell J t (i + a) (j + b) ≡ lcs (drop a xs) (drop b ys)

  next_index : (n m : ℕ) → n + 1 + m ≡ n + suc m
  next_index n m = omega arith

  IsTableFrom-down :
      {t : List (List ℕ)} {i j : ℕ} {x : Node Value} {xs ys : List (Node Value)}
      → IsTableFrom t i j (x ∷ xs) ys
      → IsTableFrom t (i + 1) j xs ys
  IsTableFrom-down {i = i} h = record {
    at = λ a b ha hb. rw (next_index i a) (h.at (suc a) b (omega arith) hb);
  }

  IsTableFrom-right :
      {t : List (List ℕ)} {i j : ℕ} {xs : List (Node Value)} {y : Node Value}
      {ys : List (Node Value)}
      → IsTableFrom t i j xs (y ∷ ys)
      → IsTableFrom t i (j + 1) xs ys
  IsTableFrom-right {j = j} h = record {
    at = λ a b ha hb. rw (next_index j b) (h.at a (suc b) ha (omega arith));
  }

  cell_down :
      (t : List (List ℕ)) (i j : ℕ) (x : Node Value) (xs ys : List (Node Value))
      → IsTableFrom t i j (x ∷ xs) ys
      → cell J t (i + 1) j ≡ lcs xs ys
  cell_down t i j x xs ys h =
      let e : j ≡ j + 0 = omega arith in rw e (h.at 1 0 (omega arith) (omega arith))

  cell_right :
      (t : List (List ℕ)) (i j : ℕ) (xs : List (Node Value)) (y : Node Value)
      (ys : List (Node Value))
      → IsTableFrom t i j xs (y ∷ ys)
      → cell J t i (j + 1) ≡ lcs xs ys
  cell_right t i j xs y ys h =
      let e : i ≡ i + 0 = omega arith in rw e (h.at 0 1 (omega arith) (omega arith))

  walk-lcs :
      (t : List (List ℕ)) (i j : ℕ) (xs ys : List (Node Value))
      → IsTableFrom t i j xs ys
      → (walk J t i j xs ys).unchanged ≡ lcs xs ys
  unfolding walk lcs
  walk-lcs t i j [] ys h = refl
  walk-lcs t i j (x ∷ xs) [] h = refl
  walk-lcs t i j (x ∷ xs) (y ∷ ys) h = ground (
    arith,
    walk-lcs t (i + 1) (j + 1) xs ys (IsTableFrom-right (IsTableFrom-down h)),
    walk-lcs t (i + 1) j xs (y ∷ ys) (IsTableFrom-down h),
    walk-lcs t i (j + 1) (x ∷ xs) ys (IsTableFrom-right h),
    cell_down t i j x xs (y ∷ ys) h,
    cell_right t i j (x ∷ xs) y ys h,
  )

  pub diff-lcs :
      (old new : List (Node Value))
      → length old < u32_mod
      → (diff J old new).unchanged_count ≡ lcs old new
  unfolding diff report
  diff-lcs old new h = walk-lcs (fill_table J old new) 0 0 old new start
    where
      start : IsTableFrom (fill_table J old new) 0 0 old new
      start = record {
        at = λ a b ha hb.
            let ea : 0 + a ≡ a = omega arith in
            let eb : 0 + b ≡ b = omega arith in rw ea (rw eb (cell-fill_table old new a b h ha hb));
      }
