-- ===== src/Snapdiff/Optimal.antt =====
-- No common subsequence of the two snapshots is longer than the unchanged core, and one is as long.
use hwatu.Common.{
  ℕ, suc, ◌≤◌, ◌<◌, ◌≡◌, List, [], ◌∷◌, true, false, length, arith, Bool-cases, inl, inr, ◌⊎◌, sym,
  subst,
}
use hwatu.Json.{JsonApi}
use hwatu.Snapdiff.{Node, u32_mod, node_eq, diff}
use hwatu.Snapdiff.Lcs.{lcs, lcs-nil, diff-lcs}

module _ (J : JsonApi) where
  open J use {Value}

  -- `Common xs ys k`: `k` nodes, in order, that are equal as nodes and stand in both lists.
  pub data Common : List (Node Value) → List (Node Value) → ℕ → Type 0 where
    end : (xs ys : List (Node Value)) → Common xs ys 0
    skip_old :
        (x : Node Value) {xs ys : List (Node Value)} {k : ℕ} → Common xs ys k → Common (x ∷ xs) ys k
    skip_new :
        (y : Node Value) {xs ys : List (Node Value)} {k : ℕ} → Common xs ys k → Common xs (y ∷ ys) k
    keep :
        {x y : Node Value} {xs ys : List (Node Value)} {k : ℕ}
        → node_eq J x y ≡ true
        → Common xs ys k
        → Common (x ∷ xs) (y ∷ ys) (suc k)

  lcs_mono_old_of :
      (xs : List (Node Value))
      → ((y : Node Value) (ys : List (Node Value)) → lcs J xs (y ∷ ys) ≤ suc (lcs J xs ys))
      → (x : Node Value) (ys : List (Node Value)) → lcs J xs ys ≤ lcs J (x ∷ xs) ys
  unfolding lcs
  lcs_mono_old_of xs step x [] = rw (lcs-nil J xs) (omega arith)
  lcs_mono_old_of xs step x (y ∷ ys) = ground (arith, step y ys)

  lcs_step_new :
      (xs : List (Node Value)) (y : Node Value) (ys : List (Node Value))
      → lcs J xs (y ∷ ys) ≤ suc (lcs J xs ys)
  unfolding lcs
  lcs_step_new [] y ys = omega arith
  lcs_step_new (x ∷ xs) y ys =
      ground (arith, lcs_mono_old_of xs (lcs_step_new xs) x ys, lcs_step_new xs y ys)

  lcs_mono_old : (x : Node Value) (xs ys : List (Node Value)) → lcs J xs ys ≤ lcs J (x ∷ xs) ys
  lcs_mono_old x xs ys = lcs_mono_old_of xs (lcs_step_new xs) x ys

  lcs_step_old_of :
      (xs : List (Node Value))
      → ((y : Node Value) (ys : List (Node Value)) → lcs J xs ys ≤ lcs J xs (y ∷ ys))
      → (x : Node Value) (ys : List (Node Value)) → lcs J (x ∷ xs) ys ≤ suc (lcs J xs ys)
  unfolding lcs
  lcs_step_old_of xs mono x [] = omega arith
  lcs_step_old_of xs mono x (y ∷ ys) = ground (arith, mono y ys, lcs_step_old_of xs mono x ys)

  lcs_mono_new :
      (xs : List (Node Value)) (y : Node Value) (ys : List (Node Value))
      → lcs J xs ys ≤ lcs J xs (y ∷ ys)
  unfolding lcs
  lcs_mono_new [] y ys = omega arith
  lcs_mono_new (x ∷ xs) y ys = ground (arith, lcs_step_old_of xs (lcs_mono_new xs) x ys)

  lcs_keep :
      (x y : Node Value) (xs ys : List (Node Value))
      → node_eq J x y ≡ true
      → lcs J (x ∷ xs) (y ∷ ys) ≡ suc (lcs J xs ys)
  unfolding lcs
  lcs_keep x y xs ys e = rw e

  Common-le-lcs : {xs ys : List (Node Value)} {k : ℕ} → Common xs ys k → k ≤ lcs J xs ys
  Common-le-lcs (end xs ys) = omega arith
  Common-le-lcs (skip_old x {xs = xs} {ys = ys} c) =
      omega (arith, Common-le-lcs c, lcs_mono_old x xs ys)
  Common-le-lcs (skip_new y {xs = xs} {ys = ys} c) =
      omega (arith, Common-le-lcs c, lcs_mono_new xs y ys)
  Common-le-lcs (keep {x = x} {y = y} {xs = xs} {ys = ys} e c) =
      omega (arith, Common-le-lcs c, lcs_keep x y xs ys e)

  lcs_skip :
      (x y : Node Value) (xs ys : List (Node Value))
      → node_eq J x y ≡ false
      → (lcs J (x ∷ xs) (y ∷ ys) ≡ lcs J xs (y ∷ ys))
        ⊎ (lcs J (x ∷ xs) (y ∷ ys) ≡ lcs J (x ∷ xs) ys)
  unfolding lcs
  lcs_skip x y xs ys e = rw e (omega arith)

  Common-lcs : (xs ys : List (Node Value)) → Common xs ys (lcs J xs ys)
  unfolding lcs
  Common-lcs [] ys = end [] ys
  Common-lcs (x ∷ xs) [] = end (x ∷ xs) []
  Common-lcs (x ∷ xs) (y ∷ ys) = elim (Bool-cases (node_eq J x y)) [
    | inl e ↦
        subst (Common (x ∷ xs) (y ∷ ys)) (sym (lcs_keep x y xs ys e)) (keep e (Common-lcs xs ys))
    | inr e ↦ elim (lcs_skip x y xs ys e) [
      | inl p ↦ subst (Common (x ∷ xs) (y ∷ ys)) (sym p) (skip_old x (Common-lcs xs (y ∷ ys)))
      | inr p ↦ subst (Common (x ∷ xs) (y ∷ ys)) (sym p) (skip_new y (Common-lcs (x ∷ xs) ys))
    ]
  ]

-- With fewer than 2 ^ 32 nodes in the old snapshot, `unchanged_count` is the length of a longest
-- common subsequence: one of that length exists, and none is longer.
pub diff_optimal :
    (J : JsonApi) (old new : List (Node J.Value))
    → length old < u32_mod
    → Common J old new (diff J old new).unchanged_count
      × ((k : ℕ) → Common J old new k → k ≤ (diff J old new).unchanged_count)
diff_optimal J old new h =
    rw (diff-lcs J old new h) (Common-lcs J old new, λ k c. Common-le-lcs J c)
