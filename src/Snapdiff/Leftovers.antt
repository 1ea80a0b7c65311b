-- ===== src/Snapdiff/Leftovers.antt =====
-- The nodes that `diff` reports are nodes of the snapshots, each from a place of its own, in order.
use hwatu.Common.{
  ℕ, ◌+◌, ◌≡◌, subst, not, ◌&&◌, arith, List, [], ◌∷◌, true, false, some, leb, Bool-cases,
  Option-cases, inl, inr,
}
use hwatu.Common.Text.{Text, text_eq}
use hwatu.Json.{JsonApi}
use hwatu.Snapdiff.{Node, Slot, node_eq, cell, walk, claim, pair_up, unused}

-- The first list is what remains of the second when some elements are left out.
pub data Remains {A : Type 0} : List A → List A → Type 0 where
  done : Remains [] []
  left_out : {x : A} {ys zs : List A} → Remains ys zs → Remains ys (x ∷ zs)
  kept : {x : A} {ys zs : List A} → Remains ys zs → Remains (x ∷ ys) (x ∷ zs)

pub Remains-refl : {A : Type 0} (xs : List A) → Remains xs xs
Remains-refl [] = done
Remains-refl (x ∷ xs) = kept (Remains-refl xs)

none_Remains : {A : Type 0} (xs : List A) → Remains [] xs
none_Remains [] = done
none_Remains (x ∷ xs) = left_out (none_Remains xs)

pub Remains-trans : {A : Type 0} {xs ys zs : List A} → Remains xs ys → Remains ys zs → Remains xs zs
Remains-trans a done = a
Remains-trans a (left_out b) = left_out (Remains-trans a b)
Remains-trans (left_out a) (kept b) = left_out (Remains-trans a b)
Remains-trans (kept a) (kept b) = kept (Remains-trans a b)

module _ (J : JsonApi) where
  open J use {Value}

  pub walk-Remains :
      (t : List (List ℕ)) (i j : ℕ) (xs ys : List (Node Value))
      → let w = walk J t i j xs ys in Remains w.unmatched_old xs × Remains w.unmatched_new ys
  unfolding walk
  walk-Remains t i j [] ys = (done, Remains-refl ys)
  walk-Remains t i j (x ∷ xs) [] = (Remains-refl (x ∷ xs), done)
  walk-Remains t i j (x ∷ xs) (y ∷ ys) =
      let both = walk-Remains t (i + 1) (j + 1) xs ys in
      let skip_old = walk-Remains t (i + 1) j xs (y ∷ ys) in
      let skip_new = walk-Remains t i (j + 1) (x ∷ xs) ys in
      elim (Bool-cases (node_eq J x y)) [
        | inl e ↦ rw e (left_out both.0, left_out both.1)
        | inr e ↦ elim (Bool-cases (leb (cell J t i (j + 1)) (cell J t (i + 1) j))) [
          | inl f ↦ rw (e, f) (kept skip_old.0, skip_old.1)
          | inr f ↦ rw (e, f) (skip_new.0, kept skip_new.1)
        ]
      ]

  claim-Remains :
      (k : Text) (slots : List (Slot Value)) (n : Node Value) (slots' : List (Slot Value))
      → claim J k slots ≡ some (n, slots')
      → Remains (unused J slots') (unused J slots)
  unfolding claim unused
  claim-Remains k [] n slots' h = cc
  claim-Remains k (s ∷ rest) n slots' h = elim (Bool-cases (not s.used && text_eq s.node.key k)) [
    | inl e ↦
        let free : s.used ≡ false = ground arith in
        let found : some (s.node, record s { used = true } ∷ rest) ≡ some (n, slots') = rw e at h in
        let same : record s { used = true } ∷ rest ≡ slots' = cc in
        subst (λ l. Remains (unused J l) (unused J (s ∷ rest))) same
          (rw free (left_out (Remains-refl (unused J rest))))
    | inr e ↦ elim (Option-cases (claim J k rest)) [
      | inl f ↦ cc (rw (e, f) at h)
      | inr ((m, later), f) ↦
          let found : some (m, s ∷ later) ≡ some (n, slots') = rw (e, f) at h in
          let same : s ∷ later ≡ slots' = cc in
          let behind = claim-Remains k rest m later f in
          subst (λ l. Remains (unused J l) (unused J (s ∷ rest))) same
            (elim (Bool-cases s.used) [ inl u ↦ rw u behind | inr u ↦ rw u (kept behind) ])
    ]
  ]

  pub pair_up-Remains :
      (os : List (Node Value)) (slots : List (Slot Value))
      → let p = pair_up J os slots in
        Remains p.pairs_removed os × Remains (unused J p.slots) (unused J slots)
  unfolding pair_up
  pair_up-Remains [] slots = (done, Remains-refl (unused J slots))
  pair_up-Remains (o ∷ os) slots = elim (Option-cases (claim J o.key slots)) [
    | inl e ↦ let rest = pair_up-Remains os slots in rw (e, pair_up) (kept rest.0, rest.1)
    | inr ((n, slots'), e) ↦
        let rest = pair_up-Remains os slots' in
        rw (e, pair_up)
          (left_out rest.0, Remains-trans rest.1 (claim-Remains o.key slots n slots' e))
  ]
