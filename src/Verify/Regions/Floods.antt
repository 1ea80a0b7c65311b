-- ===== src/Verify/Regions/Floods.antt =====
-- The flood fill counts the pixels of the cells that it marks, each once, and empties its stack.
use hwatu.Common.{
  ℕ, zero, suc, ◌+◌, ◌-◌, ◌/◌, ◌%◌, ◌≤◌, ◌<◌, ◌≡◌, refl, ◌∙◌, List, [], ◌∷◌, Bool, true, false, inl,
  inr, ltb, get_or, length, arith, Bool-cases,
}
use hwatu.Verify.Regions.{Flood, Region, push, push_if, spread, grow, fill, set_true}
use hwatu.Verify.Regions.Marks.{
  weight, unseen, length-set_true, weight-set_true, unseen-set_true, get-set_true_old,
  get-set_true_new, lt-length_of_get,
}

module _ (cols rows : ℕ) (cells : List ℕ) (hot : List Bool)
    (square : length hot ≡ length cells) where
  -- The pixels of the cells on the stack, which are marked but not yet counted.
  unfoldable pub owed : List ℕ → ℕ
  owed [] = 0
  owed (i ∷ is) = get_or cells i 0 + owed is

  -- Every mark is on a hot cell.
  abbrev pub Sound : List Bool → Type 0
  Sound seen = (k : ℕ) → get_or seen k false ≡ true → get_or hot k false ≡ true

  -- What putting cells on the stack keeps.
  pub record Keeps (s t : Flood) : Type 0 where
    pub balance : weight t.seen cells + owed s.stack ≡ weight s.seen cells + owed t.stack
    pub budget : unseen t.seen + length t.stack ≡ unseen s.seen + length s.stack
    pub sized : length t.seen ≡ length s.seen
    pub kept : (k : ℕ) → get_or s.seen k false ≡ true → get_or t.seen k false ≡ true
    pub sound : Sound s.seen → Sound t.seen

  Keeps-refl : (s : Flood) → Keeps s s
  Keeps-refl s = record {
    balance = refl;
    budget = refl;
    sized = refl;
    kept = λ k h. h;
    sound = λ h. h;
  }

  Keeps-trans : (s t u : Flood) → Keeps s t → Keeps t u → Keeps s u
  Keeps-trans s t u p q = record {
    balance = omega (arith, p.balance, q.balance);
    budget = q.budget ∙ p.budget;
    sized = q.sized ∙ p.sized;
    kept = λ k h. q.kept k (p.kept k h);
    sound = λ h. q.sound (p.sound h);
  }

  pub set_true-Sound :
      (seen : List Bool) (j : ℕ) → get_or hot j false ≡ true → Sound seen → Sound (set_true seen j)
  set_true-Sound seen j h all k g = elim (get-set_true_new seen j k g) [
    | inl e ↦ rw e h
    | inr e ↦ all k e
  ]

  push_new-Keeps :
      (j : ℕ) (s : Flood)
      → length s.seen ≡ length hot
      → get_or hot j false ≡ true
      → get_or s.seen j false ≡ false
      → Keeps s (record { seen = set_true s.seen j; stack = j ∷ s.stack })
  unfolding owed
  push_new-Keeps j s l h g =
      let room : j < length s.seen = omega (arith, lt-length_of_get hot j h) in
      record {
        balance = omega (arith, weight-set_true s.seen cells j (l ∙ square) room g);
        budget = omega (arith, unseen-set_true s.seen j room g);
        sized = length-set_true s.seen j;
        kept = λ k. get-set_true_old s.seen j k;
        sound = set_true-Sound s.seen j h;
      }

  push-Keeps :
      (j : ℕ) (s : Flood) → length s.seen ≡ length hot → Keeps s (push cols rows cells hot j s)
  unfolding push
  push-Keeps j s l = elim (Bool-cases (get_or hot j false)) [
    | inl h ↦ elim (Bool-cases (get_or s.seen j false)) [
      | inl g ↦ rw (h, g, push) (Keeps-refl s)
      | inr g ↦ rw (h, g, push) (push_new-Keeps j s l h g)
    ]
    | inr h ↦ rw (h, push) (Keeps-refl s)
  ]

  push_if-Keeps :
      (b : Bool) (j : ℕ) (s : Flood)
      → length s.seen ≡ length hot
      → Keeps s (push_if cols rows cells hot b j s)
  unfolding push_if
  push_if-Keeps true j s l = push-Keeps j s l
  push_if-Keeps false j s l = Keeps-refl s

  push_after-Keeps :
      (b : Bool) (j : ℕ) (s t : Flood)
      → length s.seen ≡ length hot
      → Keeps s t
      → Keeps s (push_if cols rows cells hot b j t)
  push_after-Keeps b j s t l p =
      Keeps-trans s t (push_if cols rows cells hot b j t) p (push_if-Keeps b j t (p.sized ∙ l))

  pub spread-Keeps :
      (i : ℕ) (s : Flood) → length s.seen ≡ length hot → Keeps s (spread cols rows cells hot i s)
  unfolding spread
  spread-Keeps i s l =
      let cx = i % cols in
      let cy = i / cols in
      let s1 = push_if cols rows cells hot (ltb 0 cx) (i - 1) s in
      let s2 = push_if cols rows cells hot (ltb (cx + 1) cols) (i + 1) s1 in
      let s3 = push_if cols rows cells hot (ltb 0 cy) (i - cols) s2 in
      let k1 = push_if-Keeps (ltb 0 cx) (i - 1) s l in
      let k2 = push_after-Keeps (ltb (cx + 1) cols) (i + 1) s s1 l k1 in
      let k3 = push_after-Keeps (ltb 0 cy) (i - cols) s s2 l k2 in
      push_after-Keeps (ltb (cy + 1) rows) (i + cols) s s3 l k3

  -- What a fill promises of its outcome: all pixels of the cells that it marks, and of those that
  -- were on the stack, are in its region.
  pub record Filled (seen : List Bool) (stack : List ℕ) (r : Region) (out : List Bool × Region)
      : Type 0 where
    pub counted : weight out.0 cells + r.pixels + owed stack ≡ weight seen cells + out.1.pixels
    pub sized : length out.0 ≡ length seen
    pub kept : (k : ℕ) → get_or seen k false ≡ true → get_or out.0 k false ≡ true
    pub sound : Sound seen → Sound out.0

  pub fill-Filled :
      (fuel : ℕ) (seen : List Bool) (stack : List ℕ) (r : Region)
      → length seen ≡ length hot
      → unseen seen + length stack ≤ fuel
      → Filled seen stack r (fill cols rows cells hot fuel seen stack r)
  unfolding fill owed
  fill-Filled zero seen [] r l enough = record {
    counted = omega arith;
    sized = refl;
    kept = λ k h. h;
    sound = λ h. h;
  }
  fill-Filled zero seen (i ∷ stack) r l enough = ground arith
  fill-Filled (suc fuel) seen [] r l enough = record {
    counted = omega arith;
    sized = refl;
    kept = λ k h. h;
    sound = λ h. h;
  }
  fill-Filled (suc fuel) seen (i ∷ stack) r l enough =
      let s : Flood = record { seen = seen; stack = stack } in
      let t = spread cols rows cells hot i s in
      let p = spread-Keeps i s l in
      let rest =
        fill-Filled fuel t.seen t.stack (grow cols rows cells hot i r) (p.sized ∙ l)
          (omega (arith, p.budget, enough)) in
      record {
        counted = omega (arith, p.balance, rest.counted);
        sized = rest.sized ∙ p.sized;
        kept = λ k h. rest.kept k (p.kept k h);
        sound = λ h. rest.sound (p.sound h);
      }
