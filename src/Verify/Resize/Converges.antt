-- ===== src/Verify/Resize/Converges.antt =====
-- Window chrome that eats a fixed number of rows and columns is corrected away.
use hwatu.Common.{
  true, Int32, nat, minus, ℕ, suc, ◌+◌, ◌-◌, ◌*◌, ◌/◌, ◌≤◌, ◌<◌, ◌≡◌, refl, sym, subst, ap, ◌∙◌,
  none, some, ok, arith, ltb, if◌then◌else◌,
}
use hwatu.Verify.Resize.{
  in_range, Size, Outcome, Backend, max_side, scaled, value_or, corrected_allocation,
  measure_and_correct, resize,
}
use hwatu.Verify.Resize.Bounds.{
  IsSettled, corrected_none, next_size, Round, unmeasured, exact, again, round, round_exact,
}

-- A side of a page whose window spends `k` pixels on chrome.
abbrev pub inner : ℕ → ℕ → Int32
inner k a = if ltb k a then nat (a - k) else minus 0

abbrev pub chrome : ℕ → ℕ → Backend
chrome kw kh _ s = some (inner kw s.0, inner kh s.1)

product : (r m : ℕ) → m ≤ r → r * (2 * m) ≤ 2 * (r * r) + m
product r m h = grind arith

le_quotient : (x m n : ℕ) → 0 < m → x * (2 * m) ≤ n → x ≤ n / (2 * m)
le_quotient x m n p h = grind arith

module _ (r k : ℕ) (small : k < r) (room : r + k ≤ max_side) where
  scaled-ge : r ≤ scaled r r (r - k)
  scaled-ge =
      le_quotient r (r - k) (2 * (r * r) + (r - k)) (omega arith) (product r (r - k) (omega arith))

  first_correction : r ≤ value_or (corrected_allocation r r (inner k r) 0) r
  unfolding corrected_allocation
  first_correction = ground (arith, scaled-ge)

  second_correction : (a : ℕ) → r ≤ a → value_or (corrected_allocation r a (inner k a) 1) a ≡ r + k
  unfolding corrected_allocation
  second_correction a h = ground arith

  third_exact : (t : ℕ) → corrected_allocation r (r + k) (inner k (r + k)) t ≡ none
  unfolding corrected_allocation
  third_exact t = ground arith

  inner_exact : inner k (r + k) ≡ nat r
  inner_exact = ground arith

  settled_exact : (a : ℕ) → r ≤ a → IsSettled r (inner k a) → inner k a ≡ nat r
  settled_exact a h s = ground arith

module _ (kw kh w h : ℕ) (small_w : kw < w) (small_h : kh < h) (room_w : w + kw ≤ max_side)
    (room_h : h + kh ≤ max_side) where
  abbrev run : ℕ → ℕ → Size → Outcome
  run = measure_and_correct (chrome kw kh) (w, h)

  IsExact : Outcome → Type 0
  IsExact o = o.measured ≡ some (nat w, nat h)

  -- Any round that stops at sides not below the requested ones stops at an exact measurement.
  settled-IsExact :
      (t : ℕ) (s : Size) (cw ch : Int32) {o : Outcome}
      → w ≤ s.0
      → h ≤ s.1
      → chrome kw kh t s ≡ some (cw, ch)
      → corrected_allocation w s.0 cw t ≡ none
      → corrected_allocation h s.1 ch t ≡ none
      → o ≡ record { allocated = s; measured = some (cw, ch); corrections = t }
      → IsExact o
  unfolding IsExact
  settled-IsExact t s cw ch lw lh m p q r =
      let ew : inner kw s.0 ≡ cw = cc in
      let eh : inner kh s.1 ≡ ch = cc in
      let iw = settled_exact w kw small_w room_w s.0 lw (rw ew (corrected_none w s.0 cw t p)) in
      let ih = settled_exact h kh small_h room_h s.1 lh (rw eh (corrected_none h s.1 ch t q)) in cc

  third_round : (left t : ℕ) → IsExact (run (suc left) t (w + kw, h + kh))
  unfolding IsExact
  third_round left t =
      round_exact (chrome kw kh) (w, h) left t (w + kw, h + kh) (inner kw (w + kw))
        (inner kh (h + kh)) refl (third_exact w kw small_w room_w t)
        (third_exact h kh small_h room_h t)
      ∙ ap some (λ i. (inner_exact w kw small_w room_w i, inner_exact h kh small_h room_h i))

  second_round : (left : ℕ) (s : Size) → w ≤ s.0 → h ≤ s.1 → IsExact (run (suc (suc left)) 1 s)
  second_round left s lw lh = ended (round (chrome kw kh) (w, h) (suc left) 1 s)
    where
      ended : {o : Outcome} → Round (chrome kw kh) (w, h) (suc left) 1 s o → IsExact o
      ended (unmeasured m p) = absurd (cc)
      ended (exact cw ch m p q r) = settled-IsExact 1 s cw ch lw lh m p q r
      ended (again cw ch m r) =
          let iw : cw ≡ inner kw s.0 = cc in
          let ih : ch ≡ inner kh s.1 = cc in
          let ew =
            ap (λ c. value_or (corrected_allocation w s.0 c 1) s.0) iw
            ∙ second_correction w kw small_w room_w s.0 lw in
          let eh =
            ap (λ c. value_or (corrected_allocation h s.1 c 1) s.1) ih
            ∙ second_correction h kh small_h room_h s.1 lh in
          subst IsExact (sym (r ∙ ap (run (suc left) 2) (λ i. (ew i, eh i)))) (third_round left 2)

  first_round : (left : ℕ) → IsExact (run (suc (suc (suc left))) 0 (w, h))
  first_round left = ended (round (chrome kw kh) (w, h) (suc (suc left)) 0 (w, h))
    where
      ended : {o : Outcome} → Round (chrome kw kh) (w, h) (suc (suc left)) 0 (w, h) o → IsExact o
      ended (unmeasured m p) = absurd (cc)
      ended (exact cw ch m p q r) =
          settled-IsExact 0 (w, h) cw ch (omega arith) (omega arith) m p q r
      ended (again cw ch m r) =
          let iw : inner kw w ≡ cw = cc in
          let ih : inner kh h ≡ ch = cc in
          subst IsExact (sym r) (
            second_round left (next_size (chrome kw kh) (w, h) 0 (w, h) cw ch)
              (subst (λ c. w ≤ value_or (corrected_allocation w w c 0) w) iw
                (first_correction w kw small_w room_w))
              (subst (λ c. h ≤ value_or (corrected_allocation h h c 0) h) ih
                (first_correction h kh small_h room_h)))

-- If the window spends fewer pixels than requested on each side, and the requested side together
-- with them is at most 16384, `resize` replies, and its reply carries exactly the requested size.
pub resize-chrome :
    (kw kh w h : ℕ)
    → kw < w
    → kh < h
    → w + kw ≤ max_side
    → h + kh ≤ max_side
    → (o : Outcome) × (resize (chrome kw kh) (nat w) (nat h) ≡ ok o)
      × (o.measured ≡ some (nat w, nat h))
unfolding resize
resize-chrome kw kh w h small_w small_h room_w room_h =
    let range_w : in_range (nat w) ≡ true = ground arith in
    let range_h : in_range (nat h) ≡ true = ground arith in
    (
      run kw kh w h small_w small_h room_w room_h 3 0 (w, h),
      rw (range_w, range_h) refl,
      unfold IsExact in first_round kw kh w h small_w small_h room_w room_h 0,
    )
