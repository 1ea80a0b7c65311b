-- ===== src/Verify/Resize/Bounds.antt =====
-- Whatever the page reports, the correction loop stays in its bounds and tells the truth.
use hwatu.Common.{
  true, Int32, nat, minus, ℕ, zero, suc, ◌+◌, ◌≤◌, ◌≡◌, refl, Option, none, some, ok, arith, ◌⊎◌,
  inl, inr, Option-cases, ap, sym, subst,
}
use hwatu.Verify.Resize.{
  in_range, Size, Outcome, Backend, max_side, resize_max_corrections, stop_if_exact, value_or,
  corrected_allocation, measure_and_correct, resize,
}

-- Both sides lie in 1..=16384.
abbrev pub IsSize : Size → Type 0
IsSize s = (1 ≤ s.0) × (s.0 ≤ max_side) × (1 ≤ s.1) × (s.1 ≤ max_side)

-- A side that needs no further correction: it is as requested, or the page reports no positive size.
abbrev pub IsSettled : ℕ → Int32 → Type 0
IsSettled r (minus n) = Unit
IsSettled r (nat n) = (n ≡ r) ⊎ (n ≡ 0)

corrected_in_range :
    (r a : ℕ) (m : Int32) (attempt : ℕ)
    → 1 ≤ a
    → a ≤ max_side
    → (1 ≤ value_or (corrected_allocation r a m attempt) a)
      × (value_or (corrected_allocation r a m attempt) a ≤ max_side)
unfolding corrected_allocation
corrected_in_range r a (minus n) attempt lo hi = (lo, hi)
corrected_in_range r a (nat n) attempt lo hi = ground arith

pub corrected_none :
    (r a : ℕ) (m : Int32) (attempt : ℕ) → corrected_allocation r a m attempt ≡ none → IsSettled r m
unfolding corrected_allocation
corrected_none r a (minus n) attempt h = tt
corrected_none r a (nat n) attempt h = ground arith

-- What a run of the loop promises of its outcome.
pub record IsHonest (measure : Backend) (requested : Size) (most : ℕ) (o : Outcome) : Type 0 where
  pub sized : IsSize o.allocated
  pub bounded : o.corrections ≤ most
  pub measured_last : o.measured ≡ measure o.corrections o.allocated
  pub settled :
      (cw ch : Int32)
      → o.measured ≡ some (cw, ch)
      → (o.corrections ≡ most) ⊎ (IsSettled requested.0 cw × IsSettled requested.1 ch)

module _ (aw ah : Option ℕ) (done next : Outcome) where
  stop_fst : (w : ℕ) → aw ≡ some w → stop_if_exact aw ah done next ≡ next
  stop_fst w p = ground arith

  stop_snd : (h : ℕ) → ah ≡ some h → stop_if_exact aw ah done next ≡ next
  stop_snd h p = ground arith

  stop_exact : aw ≡ none → ah ≡ none → stop_if_exact aw ah done next ≡ done
  stop_exact p q = ground arith

module _ (measure : Backend) (requested : Size) where
  -- The allocation for the next round.
  abbrev pub next_size : ℕ → Size → Int32 → Int32 → Size
  next_size attempt s cw ch = (
    value_or (corrected_allocation requested.0 s.0 cw attempt) s.0,
    value_or (corrected_allocation requested.1 s.1 ch attempt) s.1,
  )

  next_size-IsSize :
      (attempt : ℕ) (s : Size) (cw ch : Int32) → IsSize s → IsSize (next_size attempt s cw ch)
  next_size-IsSize attempt s cw ch h =
      let w = corrected_in_range requested.0 s.0 cw attempt h.0 h.1 in
      let v = corrected_in_range requested.1 s.1 ch attempt h.2 h.3 in (w.0, w.1, v.0, v.1)

  -- One round of the loop: it ends here, or goes on with the next allocation.
  pub data Round (left attempt : ℕ) (s : Size) (o : Outcome) : Type 0 where
    unmeasured :
        measure attempt s ≡ none
        → o ≡ record { allocated = s; measured = none; corrections = attempt }
        → Round left attempt s o
    exact :
        (cw ch : Int32)
        → measure attempt s ≡ some (cw, ch)
        → corrected_allocation requested.0 s.0 cw attempt ≡ none
        → corrected_allocation requested.1 s.1 ch attempt ≡ none
        → o ≡ record { allocated = s; measured = some (cw, ch); corrections = attempt }
        → Round left attempt s o
    again :
        (cw ch : Int32)
        → measure attempt s ≡ some (cw, ch)
        → o ≡ measure_and_correct measure requested left (attempt + 1) (next_size attempt s cw ch)
        → Round left attempt s o

  pub round :
      (left attempt : ℕ) (s : Size)
      → Round left attempt s (measure_and_correct measure requested (suc left) attempt s)
  unfolding measure_and_correct
  round left attempt s = elim (Option-cases (measure attempt s)) [
    | inl e ↦ unmeasured e (rw (e, measure_and_correct))
    | inr ((cw, ch), e) ↦ elim (Option-cases (corrected_allocation requested.0 s.0 cw attempt)) [
      | inr (aw, p) ↦ again cw ch e (rw (e, measure_and_correct) (stop_fst _ _ _ _ aw p))
      | inl p ↦ elim (Option-cases (corrected_allocation requested.1 s.1 ch attempt)) [
        | inr (ah, q) ↦ again cw ch e (rw (e, measure_and_correct) (stop_snd _ _ _ _ ah q))
        | inl q ↦ exact cw ch e p q (rw (e, measure_and_correct) (stop_exact _ _ _ _ p q))
      ]
    ]
  ]

  pub round_exact :
      (left attempt : ℕ) (s : Size) (cw ch : Int32)
      → measure attempt s ≡ some (cw, ch)
      → corrected_allocation requested.0 s.0 cw attempt ≡ none
      → corrected_allocation requested.1 s.1 ch attempt ≡ none
      → (measure_and_correct measure requested (suc left) attempt s).measured ≡ some (cw, ch)
  unfolding measure_and_correct
  round_exact left attempt s cw ch e p q =
      rw (e, measure_and_correct) (ap (λ (o : Outcome). o.measured) (stop_exact _ _ _ _ p q))

  Round-IsHonest :
      (left attempt most : ℕ) (s : Size) {o : Outcome}
      → most ≡ attempt + suc left
      → IsSize s
      → ((cw ch : Int32)
          → IsHonest measure requested most (
              measure_and_correct measure requested left (attempt + 1) (next_size attempt s cw ch)))
      → Round left attempt s o
      → IsHonest measure requested most o
  Round-IsHonest left attempt most s e h next (unmeasured m p) =
      rw p (record {
        sized = h;
        bounded = omega arith;
        measured_last = sym m;
        settled = λ cw ch k. cc;
      })
  Round-IsHonest left attempt most s e h next (exact cw ch m p q r) = rw r (record {
    sized = h;
    bounded = omega arith;
    measured_last = sym m;
    settled = λ cw' ch' k.
        let settled_w = corrected_none requested.0 s.0 cw attempt p in
        let settled_h = corrected_none requested.1 s.1 ch attempt q in
        inr (
          subst (IsSettled requested.0) (cc) settled_w,
          subst (IsSettled requested.1) (cc) settled_h,
        );
  })
  Round-IsHonest left attempt most s e h next (again cw ch m r) = rw r (next cw ch)

  measure_and_correct-IsHonest :
      (left attempt most : ℕ) (s : Size)
      → most ≡ attempt + left
      → IsSize s
      → IsHonest measure requested most (measure_and_correct measure requested left attempt s)
  unfolding measure_and_correct
  measure_and_correct-IsHonest zero attempt most s e h = record {
    sized = h;
    bounded = omega arith;
    measured_last = refl;
    settled = λ cw ch m. inl (omega arith);
  }
  measure_and_correct-IsHonest (suc left) attempt most s e h =
      Round-IsHonest left attempt most s e h
        (λ cw ch.
          measure_and_correct-IsHonest left (attempt + 1) most (next_size attempt s cw ch)
            (omega arith) (next_size-IsSize attempt s cw ch h))
        (round left attempt s)

-- Whatever sizes the page reports, a `resize` to sides in 1..=16384 ends after at most three
-- corrections, with an allocation in range; its reply carries the measurement made of exactly that
-- allocation; and unless the three corrections are used up, a reply with sizes is exact on each
-- side where the page reports a positive size.
pub resize-IsHonest :
    (measure : Backend) (w h : ℕ)
    → IsSize (w, h)
    → (o : Outcome) × (resize measure (nat w) (nat h) ≡ ok o)
      × IsHonest measure (w, h) resize_max_corrections o
unfolding resize
resize-IsHonest measure w h sized =
    let range_w : in_range (nat w) ≡ true = ground arith in
    let range_h : in_range (nat h) ≡ true = ground arith in
    (
      measure_and_correct measure (w, h) resize_max_corrections 0 (w, h),
      rw (range_w, range_h) refl,
      measure_and_correct-IsHonest measure (w, h) resize_max_corrections 0 resize_max_corrections
          (w, h) refl sized,
    )
