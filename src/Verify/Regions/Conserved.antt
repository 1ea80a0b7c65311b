-- ===== src/Verify/Regions/Conserved.antt =====
-- The flood fill loses no pixel and counts none twice.
use hwatu.Common.{
  ℕ, zero, suc, ◌+◌, ◌≤◌, ◌<◌, ◌≡◌, refl, sym, ◌∙◌, subst, List, [], ◌∷◌, ◌++◌, Bool, true, false,
  inl, inr, ◌==◌, get_or, length, arith, Bool-cases, ==_iff,
}
use hwatu.Verify.Regions.{Region, fill, no_region, visit, regions_from, set_true}
use hwatu.Verify.Regions.Marks.{
  weight, unseen, length-set_true, weight-set_true, unseen-set_true, get-set_true_old, get-set_true,
  lt-length_of_get, unseen_le_length,
}
use hwatu.Verify.Regions.Floods.{owed, Sound, set_true-Sound, fill-Filled}

-- The pixels of the regions together.
unfoldable pub pixels_of : List Region → ℕ
pixels_of [] = 0
pixels_of (r ∷ rs) = r.pixels + pixels_of rs

module _ (cols rows : ℕ) (cells : List ℕ) (hot : List Bool)
    (square : length hot ≡ length cells) where
  -- What one round of the outer loop promises.
  pub record Visited (start : ℕ) (seen : List Bool) (out : List Bool × List Region) : Type 0 where
    pub counted : weight out.0 cells ≡ weight seen cells + pixels_of out.1
    pub sized : length out.0 ≡ length seen
    pub kept : (k : ℕ) → get_or seen k false ≡ true → get_or out.0 k false ≡ true
    pub sound : Sound cols rows cells hot square seen → Sound cols rows cells hot square out.0
    pub done : get_or hot start false ≡ true → get_or out.0 start false ≡ true

  visit_new-Visited :
      (start : ℕ) (seen : List Bool)
      → length seen ≡ length hot
      → get_or hot start false ≡ true
      → get_or seen start false ≡ false
      → let found =
          fill cols rows cells hot
            (length hot)
            (set_true seen start)
            (start ∷ [])
            (no_region cols rows cells hot) in
        Visited start seen (found.0, found.1 ∷ [])
  unfolding pixels_of owed
  visit_new-Visited start seen l h g =
      let room : start < length seen = omega (arith, lt-length_of_get hot start h) in
      let marked = set_true seen start in
      let fits : unseen marked + length (start ∷ []) ≤ length hot =
        omega (arith, unseen-set_true seen start room g, unseen_le_length seen) in
      let f =
        fill-Filled cols rows cells hot square (length hot) marked (start ∷ [])
          (no_region cols rows cells hot) (length-set_true seen start ∙ l) fits in
      record {
        counted = omega (arith, f.counted, weight-set_true seen cells start (l ∙ square) room g);
        sized = f.sized ∙ length-set_true seen start;
        kept = λ k e. f.kept k (get-set_true_old seen start k e);
        sound = λ all. f.sound (set_true-Sound cols rows cells hot square seen start h all);
        done = λ _. f.kept start (get-set_true seen start room);
      }

  pub visit-Visited :
      (start : ℕ) (seen : List Bool)
      → length seen ≡ length hot
      → Visited start seen (visit cols rows cells hot start seen)
  unfolding visit pixels_of
  visit-Visited start seen l = elim (Bool-cases (get_or hot start false)) [
    | inl h ↦ elim (Bool-cases (get_or seen start false)) [
      | inl g ↦
          rw (h, g, visit)
            (record {
              counted = omega arith;
              sized = refl;
              kept = λ k e. e;
              sound = λ e. e;
              done = λ _. g;
            })
      | inr g ↦ rw (h, g, visit) (visit_new-Visited start seen l h g)
    ]
    | inr h ↦
        rw (h, visit)
          (record {
            counted = omega arith;
            sized = refl;
            kept = λ k e. e;
            sound = λ e. e;
            done = λ e. cc (e, h);
          })
  ]

  -- What the outer loop promises: its final marks cover the hot cells that it passes.
  pub record Passed (start n : ℕ) (seen : List Bool) (rs : List Region) : Type 0 where
    pub final : List Bool
    pub counted : weight final cells ≡ weight seen cells + pixels_of rs
    pub sized : length final ≡ length seen
    pub kept : (k : ℕ) → get_or seen k false ≡ true → get_or final k false ≡ true
    pub sound : Sound cols rows cells hot square seen → Sound cols rows cells hot square final
    pub covered :
        (k : ℕ)
        → start ≤ k
        → k < start + n
        → get_or hot k false ≡ true
        → get_or final k false ≡ true

  pixels_of-append : (rs qs : List Region) → pixels_of (rs ++ qs) ≡ pixels_of rs + pixels_of qs
  unfolding pixels_of
  pixels_of-append [] qs = omega arith
  pixels_of-append (r ∷ rs) qs = omega (arith, pixels_of-append rs qs)

  pub regions_from-Passed :
      (start n : ℕ) (seen : List Bool)
      → length seen ≡ length hot
      → Passed start n seen (regions_from cols rows cells hot start n seen)
  unfolding regions_from pixels_of
  regions_from-Passed start zero seen l = record {
    final = seen;
    counted = omega arith;
    sized = refl;
    kept = λ k e. e;
    sound = λ e. e;
    covered = λ k a b h. ground arith;
  }
  regions_from-Passed start (suc n) seen l =
      let round = visit cols rows cells hot start seen in
      let v = visit-Visited start seen l in
      let rest = regions_from-Passed (start + 1) n round.0 (v.sized ∙ l) in
      let later = regions_from cols rows cells hot (start + 1) n round.0 in
      record {
        final = rest.final;
        counted = omega (arith, v.counted, rest.counted, pixels_of-append round.1 later);
        sized = rest.sized ∙ v.sized;
        kept = λ k e. rest.kept k (v.kept k e);
        sound = λ e. rest.sound (v.sound e);
        covered = λ k a b h. elim (Bool-cases (k == start)) [
          | inl e ↦
              subst (λ z. get_or rest.final z false ≡ true) (sym ((==_iff k start).0 e))
                (rest.kept start
                  (v.done (subst (λ z. get_or hot z false ≡ true) ((==_iff k start).0 e) h)))
          | inr e ↦ let above : start + 1 ≤ k = ground arith in rest.covered k above (omega arith) h
        ];
      }
