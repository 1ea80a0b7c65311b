-- ===== src/Snapdiff/Pairing.antt =====
-- The second pass of `diff`: every leftover is reported once, and no key is left on both sides.
use hwatu.Common.{
  length-map, subst, ℕ, suc, ◌+◌, ◌≡◌, refl, ap, List, [], ◌∷◌, map, true, false, none, some,
  length, All, arith, Option-cases, inl, inr,
}
use hwatu.Common.Text.{Text, text_eq}
use native.Mathlib.Numerals.{add-one}
use hwatu.Json.{JsonApi}
use hwatu.Snapdiff.Leftovers.{Remains, Remains-trans, walk-Remains, pair_up-Remains}
use hwatu.Snapdiff.{
  Node, Slot, node_eq, fill_table, walk, claim, pair_up, free_slots, unused, report, diff,
}

module _ (J : JsonApi) where
  open J use {Value}

  walk_counts :
      (t : List (List ℕ)) (i j : ℕ) (xs ys : List (Node Value))
      → let w = walk J t i j xs ys in
        (w.unchanged + length w.unmatched_old ≡ length xs)
        × (w.unchanged + length w.unmatched_new ≡ length ys)
  unfolding walk
  walk_counts t i j [] ys = omega arith
  walk_counts t i j (x ∷ xs) [] = omega arith
  walk_counts t i j (x ∷ xs) (y ∷ ys) = ground (
    arith,
    walk_counts t (i + 1) (j + 1) xs ys,
    walk_counts t (i + 1) j xs (y ∷ ys),
    walk_counts t i (j + 1) (x ∷ xs) ys,
  )

  claim_counts :
      (k : Text) (slots : List (Slot Value)) (n : Node Value) (slots' : List (Slot Value))
      → claim J k slots ≡ some (n, slots')
      → length (unused J slots) ≡ suc (length (unused J slots'))
  unfolding claim unused
  claim_counts k [] n slots' h = ground arith
  claim_counts k (s ∷ rest) n slots' h = elim (Option-cases (claim J k rest)) [
    | inl e ↦ ground (arith, e)
    | inr ((m, later), e) ↦ ground (arith, e, claim_counts k rest m later e)
  ]

  pair_up_counts :
      (os : List (Node Value)) (slots : List (Slot Value))
      → let p = pair_up J os slots in
        (length p.pairs_changed + length p.pairs_removed ≡ length os)
        × (length p.pairs_changed + length (unused J p.slots) ≡ length (unused J slots))
  unfolding pair_up
  pair_up_counts [] slots = omega arith
  pair_up_counts (o ∷ os) slots = elim (Option-cases (claim J o.key slots)) [
    | inl e ↦ rw (e, pair_up) (ground (arith, pair_up_counts os slots))
    | inr ((n, slots'), e) ↦
        rw (e, pair_up)
          (ground (arith, claim_counts o.key slots n slots' e, pair_up_counts os slots'))
  ]

  unused-free_slots : (ns : List (Node Value)) → unused J (free_slots J ns) ≡ ns
  unfolding unused
  unused-free_slots [] = refl
  unused-free_slots (n ∷ ns) = rw (unused-free_slots ns)

  -- No free slot holds the key.
  abbrev IsAbsent : Text → List (Slot Value) → Type 0
  IsAbsent k slots = All (λ (n : Node Value). text_eq n.key k ≡ false) (unused J slots)

  claim-none : (k : Text) (slots : List (Slot Value)) → claim J k slots ≡ none → IsAbsent k slots
  unfolding claim unused
  claim-none k [] h = tt
  claim-none k (s ∷ rest) h = elim (Option-cases (claim J k rest)) [
    | inl e ↦ ground (arith, claim-none k rest e)
    | inr (found, e) ↦ ground (arith, e)
  ]

  claim_keeps_IsAbsent :
      (j k : Text) (slots : List (Slot Value)) (n : Node Value) (slots' : List (Slot Value))
      → claim J k slots ≡ some (n, slots')
      → IsAbsent j slots
      → IsAbsent j slots'
  unfolding claim unused
  claim_keeps_IsAbsent j k [] n slots' h a = ground arith
  claim_keeps_IsAbsent j k (s ∷ rest) n slots' h a = elim (Option-cases (claim J k rest)) [
    | inl e ↦ ground (arith, e)
    | inr ((m, later), e) ↦ ground (arith, e, claim_keeps_IsAbsent j k rest m later e)
  ]

  pair_up_keeps_IsAbsent :
      (j : Text) (os : List (Node Value)) (slots : List (Slot Value))
      → IsAbsent j slots
      → IsAbsent j (pair_up J os slots).slots
  unfolding pair_up
  pair_up_keeps_IsAbsent j [] slots a = a
  pair_up_keeps_IsAbsent j (o ∷ os) slots a = elim (Option-cases (claim J o.key slots)) [
    | inl e ↦ rw (e, pair_up) (pair_up_keeps_IsAbsent j os slots a)
    | inr ((n, slots'), e) ↦
        rw (e, pair_up)
          (pair_up_keeps_IsAbsent j os slots' (claim_keeps_IsAbsent j o.key slots n slots' e a))
  ]

  pair_up_apart :
      (os : List (Node Value)) (slots : List (Slot Value))
      → let p = pair_up J os slots in
        All (λ (o : Node Value). IsAbsent o.key p.slots) p.pairs_removed
  unfolding pair_up
  pair_up_apart [] slots = tt
  pair_up_apart (o ∷ os) slots = elim (Option-cases (claim J o.key slots)) [
    | inl e ↦
        rw (e, pair_up)
          (pair_up_keeps_IsAbsent o.key os slots (claim-none o.key slots e), pair_up_apart os slots)
    | inr ((n, slots'), e) ↦ rw (e, pair_up) (pair_up_apart os slots')
  ]

-- Every node is accounted for: the nodes of either snapshot are the unchanged ones, the changed
-- ones, and those reported as removed (of the old one) or added (of the new one).
pub diff_accounts :
    (J : JsonApi) (old new : List (Node J.Value))
    → let r = diff J old new in
      (r.unchanged_count + length r.changed + length r.removed ≡ length old)
      × (r.unchanged_count + length r.changed + length r.added ≡ length new)
unfolding diff report
diff_accounts J old new =
    let w = walk J (fill_table J old new) 0 0 old new in
    let p = pair_up J w.unmatched_old (free_slots J w.unmatched_new) in
    omega (
      arith,
      walk_counts J (fill_table J old new) 0 0 old new,
      pair_up_counts J w.unmatched_old (free_slots J w.unmatched_new),
      ap length (unused-free_slots J w.unmatched_new),
      length-map (λ (o : Node J.Value). o.bare) p.pairs_removed,
      length-map (λ (n : Node J.Value). n.emit) (unused J p.slots),
    )

-- What `removed` lists are contents of nodes of the old snapshot, and what `added` lists are those of
-- nodes of the new one, in order and each node at most once; and none of the one shares its key with
-- one of the other.
pub diff_apart :
    (J : JsonApi) (old new : List (Node J.Value))
    → (os ns : List (Node J.Value)) × Remains os old
      × Remains ns new
      × ((diff J old new).removed ≡ map (λ (o : Node J.Value). o.bare) os)
      × ((diff J old new).added ≡ map (λ (n : Node J.Value). n.emit) ns)
      × All (λ (o : Node J.Value). All (λ (n : Node J.Value). text_eq n.key o.key ≡ false) ns) os
unfolding diff report
diff_apart J old new =
    let w = walk J (fill_table J old new) 0 0 old new in
    let p = pair_up J w.unmatched_old (free_slots J w.unmatched_new) in
    let (unmatched_old, unmatched_new) = walk-Remains J (fill_table J old new) 0 0 old new in
    let (removed, added) = pair_up-Remains J w.unmatched_old (free_slots J w.unmatched_new) in
    (
      p.pairs_removed,
      unused J p.slots,
      Remains-trans removed unmatched_old,
      Remains-trans (subst (Remains (unused J p.slots)) (unused-free_slots J w.unmatched_new) added)
          unmatched_new,
      refl,
      refl,
      pair_up_apart J w.unmatched_old (free_slots J w.unmatched_new),
    )

-- Two lists of nodes that are equal one by one; their `emit` parts may differ.
abbrev pub SameNodes : (J : JsonApi) → List (Node J.Value) → List (Node J.Value) → Type 0
SameNodes J [] [] = Unit
SameNodes J [] (y ∷ ys) = ⊥
SameNodes J (x ∷ xs) [] = ⊥
SameNodes J (x ∷ xs) (y ∷ ys) = (node_eq J x y ≡ true) × SameNodes J xs ys

walk-SameNodes :
    (J : JsonApi) (t : List (List ℕ)) (i j : ℕ) (xs ys : List (Node J.Value))
    → SameNodes J xs ys
    → walk J t i j xs ys ≡ record { unchanged = length xs; unmatched_old = []; unmatched_new = [] }
unfolding walk
walk-SameNodes J t i j [] [] h = refl
walk-SameNodes J t i j [] (y ∷ ys) h = elim h [ ]
walk-SameNodes J t i j (x ∷ xs) [] h = elim h [ ]
walk-SameNodes J t i j (x ∷ xs) (y ∷ ys) h =
    rw h.0 (rw (walk-SameNodes J t (i + 1) (j + 1) xs ys h.1) (rw add-one))

-- Snapshots whose nodes are equal one by one, whatever refs they carry, differ in nothing.
pub diff-SameNodes :
    (J : JsonApi) (old new : List (Node J.Value))
    → SameNodes J old new
    → diff J old new
      ≡ record { added = []; removed = []; changed = []; unchanged_count = length old }
unfolding diff report pair_up unused
diff-SameNodes J old new h = rw (walk-SameNodes J (fill_table J old new) 0 0 old new h)
