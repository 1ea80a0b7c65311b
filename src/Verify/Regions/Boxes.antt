-- ===== src/Verify/Regions/Boxes.antt =====
-- Every cell that the flood fill takes is in the box of a region.
use hwatu.Common.{
  ℕ, zero, suc, ◌+◌, ◌-◌, ◌/◌, ◌%◌, ◌≤◌, ◌<◌, ◌≡◌, ◌∙◌, sym, subst, List, [], ◌∷◌, ◌++◌, Bool, true,
  false, inl, inr, leb, get_or, length, arith, Bool-cases, ◌⊎◌, ◌==◌, ==_iff,
}
use hwatu.Verify.Regions.{
  Flood, Region, push, push_if, spread, grow, fill, no_region, visit, regions_from, set_true,
  insert_region, sort_regions,
}
use hwatu.Verify.Regions.Marks.{
  unseen, length-set_true, unseen-set_true, get-set_true_new, lt-length_of_get, unseen_le_length,
}
use hwatu.Verify.Regions.Floods.{spread-Keeps}
use hwatu.Verify.Regions.Conserved.{visit-Visited}

-- The cell is in the box of the region; cells are numbered row by row.
pub record IsInside (cols : ℕ) (r : Region) (k : ℕ) : Type 0 where
  pub left : r.x0 ≤ k % cols
  pub right : k % cols ≤ r.x1
  pub top : r.y0 ≤ k / cols
  pub bottom : k / cols ≤ r.y1

-- The cell is in the box of one of the regions.
abbrev pub IsBoxed : ℕ → List Region → ℕ → Type 0
IsBoxed cols [] k = ⊥
IsBoxed cols (r ∷ rs) k = IsInside cols r k ⊎ IsBoxed cols rs k

abbrev OnStack : List ℕ → ℕ → Type 0
OnStack [] k = ⊥
OnStack (i ∷ is) k = (k ≡ i) ⊎ OnStack is k

IsBoxed-append :
    (cols : ℕ) (rs qs : List Region) (k : ℕ)
    → IsBoxed cols rs k ⊎ IsBoxed cols qs k
    → IsBoxed cols (rs ++ qs) k
IsBoxed-append cols [] qs k (inl h) = elim h [ ]
IsBoxed-append cols [] qs k (inr h) = h
IsBoxed-append cols (r ∷ rs) qs k (inl (inl h)) = inl h
IsBoxed-append cols (r ∷ rs) qs k (inl (inr h)) = inr (IsBoxed-append cols rs qs k (inl h))
IsBoxed-append cols (r ∷ rs) qs k (inr h) = inr (IsBoxed-append cols rs qs k (inr h))

insert_region-IsBoxed :
    (cols : ℕ) (r : Region) (rs : List Region) (k : ℕ)
    → IsBoxed cols (r ∷ rs) k
    → IsBoxed cols (insert_region r rs) k
unfolding insert_region
insert_region-IsBoxed cols r [] k h = h
insert_region-IsBoxed cols r (q ∷ qs) k h = elim (Bool-cases (leb q.pixels r.pixels)) [
  | inl e ↦ rw e h
  | inr e ↦
      let moved : IsInside cols q k ⊎ IsBoxed cols (insert_region r qs) k = elim h [
        | inl here ↦ inr (insert_region-IsBoxed cols r qs k (inl here))
        | inr later ↦ elim later [
          | inl first ↦ inl first
          | inr rest ↦ inr (insert_region-IsBoxed cols r qs k (inr rest))
        ]
      ] in
      rw e moved
]

pub sort_regions-IsBoxed :
    (cols : ℕ) (rs : List Region) (k : ℕ) → IsBoxed cols rs k → IsBoxed cols (sort_regions rs) k
unfolding sort_regions
sort_regions-IsBoxed cols [] k h = h
sort_regions-IsBoxed cols (r ∷ rs) k (inl h) =
    insert_region-IsBoxed cols r (sort_regions rs) k (inl h)
sort_regions-IsBoxed cols (r ∷ rs) k (inr h) =
    insert_region-IsBoxed cols r (sort_regions rs) k (inr (sort_regions-IsBoxed cols rs k h))

module _ (cols rows : ℕ) (cells : List ℕ) (hot : List Bool)
    (square : length hot ≡ length cells) where
  grow_self : (i : ℕ) (r : Region) → IsInside cols (grow cols rows cells hot i r) i
  grow_self i r = record {
    left = omega arith;
    right = omega arith;
    top = omega arith;
    bottom = omega arith;
  }

  grow_keeps :
      (i k : ℕ) (r : Region) → IsInside cols r k → IsInside cols (grow cols rows cells hot i r) k
  grow_keeps i k r h = record {
    left = omega (arith, h.left);
    right = omega (arith, h.right);
    top = omega (arith, h.top);
    bottom = omega (arith, h.bottom);
  }

  -- A new mark is on the stack, and nothing is taken off it.
  record Stacks (s t : Flood) : Type 0 where
    pub fresh :
        (k : ℕ) → get_or t.seen k false ≡ true → (get_or s.seen k false ≡ true) ⊎ OnStack t.stack k
    pub stays : (k : ℕ) → OnStack s.stack k → OnStack t.stack k

  Stacks-refl : (s : Flood) → Stacks s s
  Stacks-refl s = record { fresh = λ k h. inl h; stays = λ k h. h }

  Stacks-trans : (s t u : Flood) → Stacks s t → Stacks t u → Stacks s u
  Stacks-trans s t u p q = record {
    fresh = λ k h. elim (q.fresh k h) [
      | inr on ↦ inr on
      | inl old ↦ elim (p.fresh k old) [ inl older ↦ inl older | inr on ↦ inr (q.stays k on) ]
    ];
    stays = λ k h. q.stays k (p.stays k h);
  }

  push-Stacks : (j : ℕ) (s : Flood) → Stacks s (push cols rows cells hot j s)
  unfolding push
  push-Stacks j s = elim (Bool-cases (get_or hot j false)) [
    | inr h ↦ rw (h, push) (Stacks-refl s)
    | inl h ↦ elim (Bool-cases (get_or s.seen j false)) [
      | inl g ↦ rw (h, g, push) (Stacks-refl s)
      | inr g ↦
          let pushed : Stacks s (record { seen = set_true s.seen j; stack = j ∷ s.stack }) =
            record {
              fresh = λ k e. elim (get-set_true_new s.seen j k e) [
                | inl same ↦ inr (inl same)
                | inr old ↦ inl old
              ];
              stays = λ k e. inr e;
            } in
          rw (h, g, push) pushed
    ]
  ]

  push_if-Stacks :
      (b : Bool) (j : ℕ) (s t : Flood) → Stacks s t → Stacks s (push_if cols rows cells hot b j t)
  unfolding push_if
  push_if-Stacks true j s t p = Stacks-trans s t (push cols rows cells hot j t) p (push-Stacks j t)
  push_if-Stacks false j s t p = p

  spread-Stacks : (i : ℕ) (s : Flood) → Stacks s (spread cols rows cells hot i s)
  unfolding spread
  spread-Stacks i s = push_if-Stacks _ (i + cols) s _ (
      push_if-Stacks _ (i - cols) s _
        (push_if-Stacks _ (i + 1) s _ (push_if-Stacks _ (i - 1) s s (Stacks-refl s))))

  -- What is marked was so before, is in the box, or waits on the stack.
  abbrev IsTraced : (ℕ → Type 0) → List Bool → List ℕ → Region → Type 0
  IsTraced P seen stack r =
      (k : ℕ) → get_or seen k false ≡ true → P k ⊎ IsInside cols r k ⊎ OnStack stack k

  fill-IsInside :
      (P : ℕ → Type 0) (fuel : ℕ) (seen : List Bool) (stack : List ℕ) (r : Region)
      → length seen ≡ length hot
      → unseen seen + length stack ≤ fuel
      → IsTraced P seen stack r
      → (k : ℕ) → get_or (fill cols rows cells hot fuel seen stack r).0 k false ≡ true
      → P k ⊎ IsInside cols (fill cols rows cells hot fuel seen stack r).1 k
  unfolding fill
  fill-IsInside P zero seen [] r l enough traced k h = elim (traced k h) [
    | inl p ↦ inl p
    | inr (inl b) ↦ inr b
    | inr (inr on) ↦ elim on [ ]
  ]
  fill-IsInside P zero seen (i ∷ stack) r l enough traced k h = ground arith
  fill-IsInside P (suc fuel) seen [] r l enough traced k h = elim (traced k h) [
    | inl p ↦ inl p
    | inr (inl b) ↦ inr b
    | inr (inr on) ↦ elim on [ ]
  ]
  fill-IsInside P (suc fuel) seen (i ∷ stack) r l enough traced k h =
      let s : Flood = record { seen = seen; stack = stack } in
      let t = spread cols rows cells hot i s in
      let p = spread-Keeps cols rows cells hot square i s l in
      let q = spread-Stacks i s in
      let r' = grow cols rows cells hot i r in
      let traced' : IsTraced P t.seen t.stack r' = λ m e. elim (q.fresh m e) [
        | inr on ↦ inr (inr on)
        | inl old ↦ elim (traced m old) [
          | inl was ↦ inl was
          | inr (inl boxed) ↦ inr (inl (grow_keeps i m r boxed))
          | inr (inr (inl same)) ↦ inr (inl (subst (IsInside cols r') (sym same) (grow_self i r)))
          | inr (inr (inr on)) ↦ inr (inr (q.stays m on))
        ]
      ] in
      fill-IsInside P fuel t.seen t.stack r' (p.sized ∙ l) (omega (arith, p.budget, enough)) traced'
        k h

  visit-IsBoxed :
      (P : ℕ → Type 0) (start : ℕ) (seen : List Bool)
      → length seen ≡ length hot
      → ((k : ℕ) → get_or seen k false ≡ true → P k)
      → (k : ℕ) → get_or (visit cols rows cells hot start seen).0 k false ≡ true
      → P k ⊎ IsBoxed cols (visit cols rows cells hot start seen).1 k
  unfolding visit
  visit-IsBoxed P start seen l all k h = elim (Bool-cases (get_or hot start false)) [
    | inr cold ↦ inl (all k (rw (cold, visit) at h))
    | inl warm ↦ elim (Bool-cases (get_or seen start false)) [
      | inl g ↦ inl (all k (rw (warm, g, visit) at h))
      | inr g ↦
          let room : start < length seen = omega (arith, lt-length_of_get hot start warm) in
          let marked = set_true seen start in
          let fits : unseen marked + length (start ∷ []) ≤ length hot =
            omega (arith, unseen-set_true seen start room g, unseen_le_length seen) in
          let traced : IsTraced P marked (start ∷ []) (no_region cols rows cells hot) = λ m e.
            elim (get-set_true_new seen start m e) [
              | inl same ↦ inr (inr (inl same))
              | inr old ↦ inl (all m old)
            ] in
          let found =
            fill-IsInside P (length hot) marked (start ∷ []) (no_region cols rows cells hot)
              (length-set_true seen start ∙ l) fits traced k (rw (warm, g, visit) at h) in
          rw (warm, g, visit) (elim found [ inl p ↦ inl p | inr b ↦ inr (inl b) ])
    ]
  ]

  pub regions_from-IsBoxed :
      (P : ℕ → Type 0) (start n : ℕ) (seen : List Bool)
      → length seen ≡ length hot
      → ((k : ℕ) → get_or seen k false ≡ true → P k)
      → (k : ℕ) → start ≤ k
      → k < start + n
      → get_or hot k false ≡ true
      → P k ⊎ IsBoxed cols (regions_from cols rows cells hot start n seen) k
  unfolding regions_from
  regions_from-IsBoxed P start zero seen l all k low high h = ground arith
  regions_from-IsBoxed P start (suc n) seen l all k low high h =
      let round = visit cols rows cells hot start seen in
      let later = regions_from cols rows cells hot (start + 1) n round.0 in
      let v = visit-Visited cols rows cells hot square start seen l in
      let boxed = visit-IsBoxed P start seen l all in
      let found : (P k ⊎ IsBoxed cols round.1 k) ⊎ IsBoxed cols later k =
        elim (Bool-cases (k == start)) [
          | inl e ↦
              let same = (==_iff k start).0 e in
              inl (
                boxed k (
                  subst (λ z. get_or round.0 z false ≡ true) (sym same)
                    (v.done (subst (λ z. get_or hot z false ≡ true) same h))))
          | inr e ↦
              let above : start + 1 ≤ k = ground arith in
              regions_from-IsBoxed (λ m. P m ⊎ IsBoxed cols round.1 m) (start + 1) n round.0
                (v.sized ∙ l) boxed k above (omega arith) h
        ] in
      elim found [
        | inl (inl p) ↦ inl p
        | inl (inr b) ↦ inr (IsBoxed-append cols round.1 later k (inl b))
        | inr b ↦ inr (IsBoxed-append cols round.1 later k (inr b))
      ]
