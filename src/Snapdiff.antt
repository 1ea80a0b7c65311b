-- ===== src/Snapdiff.antt =====
-- crates/hwatud/src/snapdiff.rs: `hwatu snapshot --diff`. `Node`, `normalize` and `diff`. Where the
-- source keeps indices into its slices the model keeps the elements that they index.
pub mod Lcs
pub mod Optimal
pub mod Normalize
pub mod Leftovers
pub mod Pairing
mod Tests
use hwatu.Common.{
  ℕ, zero, suc, ◌+◌, ◌%◌, ◌^◌, max, List, [], ◌∷◌, ◌++◌, map, Bool, true, false, not, ◌&&◌, Option,
  none, some, leb, if◌then◌else◌, length, get_or, replicate,
}
use hwatu.Common.Text.{Text, text_eq}
use hwatu.Json.{JsonApi}

abbrev pub u32_mod : ℕ
u32_mod = 2 ^ 32

pub record Node (Value : Type 0) : Type 0 where
  pub key : Text
  pub bare : Value
  pub emit : Value

-- An entry of `changed`.
pub data Change (Value : Type 0) : Type 0 where
  moved : Text → Value → Change Value
  edited : Text → Value → Value → Change Value

pub record Report (Value : Type 0) : Type 0 where
  pub added : List Value
  pub removed : List Value
  pub changed : List (Change Value)
  pub unchanged_count : ℕ

pub record Walk (Value : Type 0) : Type 0 where
  pub unchanged : ℕ
  pub unmatched_old : List (Node Value)
  pub unmatched_new : List (Node Value)

-- A leftover of the new snapshot with its `used` flag.
pub record Slot (Value : Type 0) : Type 0 where
  pub node : Node Value
  pub used : Bool

pub record Pairs (Value : Type 0) : Type 0 where
  pub pairs_changed : List (Change Value)
  pub pairs_removed : List (Node Value)
  pub slots : List (Slot Value)

module _ (J : JsonApi) where
  open J use {Value, same}

  -- `PartialEq for Node`.
  abbrev pub node_eq : Node Value → Node Value → Bool
  node_eq a b = text_eq a.key b.key && same a.bare b.bare

  -- One round of the outer loop that fills `dp`: row `i` from row `i + 1`, right to left.
  pub fill_row : Node Value → List (Node Value) → List ℕ → List ℕ
  fill_row x [] below = 0 ∷ []
  fill_row x (y ∷ ys) [] = 0 ∷ []
  fill_row x (y ∷ ys) (d ∷ ds) =
      let row = fill_row x ys ds in
      (if node_eq x y then (get_or ds 0 0 + 1) % u32_mod else max d (get_or row 0 0)) ∷ row

  -- `dp`: the last row and the last column are zero.
  pub fill_table : List (Node Value) → List (Node Value) → List (List ℕ)
  fill_table [] ys = replicate (length ys + 1) 0 ∷ []
  fill_table (x ∷ xs) ys = let table = fill_table xs ys in fill_row x ys (get_or table 0 []) ∷ table

  -- `dp[i][j]`.
  abbrev pub cell : List (List ℕ) → ℕ → ℕ → ℕ
  cell table i j = get_or (get_or table i []) j 0

  -- The `while` loop, from `old[i]` and `new[j]` on.
  pub walk : List (List ℕ) → ℕ → ℕ → List (Node Value) → List (Node Value) → Walk Value
  walk dp i j [] ys = record { unchanged = 0; unmatched_old = []; unmatched_new = ys }
  walk dp i j (x ∷ xs) [] = record { unchanged = 0; unmatched_old = x ∷ xs; unmatched_new = [] }
  walk dp i j (x ∷ xs) (y ∷ ys) =
      let both = walk dp (i + 1) (j + 1) xs ys in
      let skip_old = walk dp (i + 1) j xs (y ∷ ys) in
      let skip_new = walk dp i (j + 1) (x ∷ xs) ys in
      if node_eq x y
      then record both { unchanged = both.unchanged + 1 }
      else if leb (cell dp i (j + 1)) (cell dp (i + 1) j)
      then record skip_old { unmatched_old = x ∷ skip_old.unmatched_old }
      else record skip_new { unmatched_new = y ∷ skip_new.unmatched_new }

  -- The first free slot with the key, marked as used, and the node that stands in it.
  pub claim : Text → List (Slot Value) → Option (Node Value × List (Slot Value))
  claim k [] = none
  claim k (s ∷ rest) =
      let later = claim k rest in
      if not s.used && text_eq s.node.key k
      then some (s.node, record s { used = true } ∷ rest)
      else elim later [ none ↦ none | some (n, rest') ↦ some (n, s ∷ rest') ]

  abbrev pub change_of : Node Value → Node Value → Change Value
  change_of o n = if same o.bare n.bare then moved n.key n.emit else edited n.key o.bare n.emit

  -- The second pass over the leftovers of the old snapshot.
  pub pair_up : List (Node Value) → List (Slot Value) → Pairs Value
  pair_up [] slots = record { pairs_changed = []; pairs_removed = []; slots = slots }
  pair_up (o ∷ os) slots = elim (claim o.key slots) [
    | some (n, slots') ↦
        let rest = pair_up os slots' in
        record rest { pairs_changed = change_of o n ∷ rest.pairs_changed }
    | none ↦ let rest = pair_up os slots in record rest { pairs_removed = o ∷ rest.pairs_removed }
  ]

  abbrev pub free_slots : List (Node Value) → List (Slot Value)
  free_slots = map (λ n. record { node = n; used = false })

  -- The nodes of the slots that stayed free.
  pub unused : List (Slot Value) → List (Node Value)
  unused [] = []
  unused (s ∷ rest) = if s.used then unused rest else s.node ∷ unused rest

  pub report : Walk Value → Report Value
  unfolding pair_up unused
  report w =
      let p = pair_up w.unmatched_old (free_slots w.unmatched_new) in
      record {
        added = map (λ (n : Node Value). n.emit) (unused p.slots);
        removed = map (λ (o : Node Value). o.bare) p.pairs_removed;
        changed = p.pairs_changed;
        unchanged_count = w.unchanged;
      }

  pub diff : List (Node Value) → List (Node Value) → Report Value
  unfolding fill_table walk report
  diff old new = report (walk (fill_table old new) 0 0 old new)
