-- ===== src/Verify/Frames/Exact.antt =====
-- The mask and the counts of a pixel diff, and its symmetry.
use hwatu.Common.{
  ℕ, zero, suc, ◌+◌, ◌*◌, ◌≤◌, ◌<◌, max, ◌≡◌, refl, ap, ◌∙◌, List, [], ◌∷◌, Bool, some, ok, err,
  ltb, if◌then◌else◌, get_elem?, get_or, true, false, ◌||◌, ◌&&◌, length, arith, ◌⊎◌, ltb→lt,
  Bool-cases, inl, inr,
}
use hwatu.Verify.Frames.{
  Frame, DiffResult, canvas_too_large, max_diff_pixels, differs, inside, far, channel, far_channel,
  scan_row, scan_rows, diff_frames,
}

-- The number of set bits.
pub count_true : List Bool → ℕ
count_true [] = 0
count_true (b ∷ bs) = (if b then 1 else 0) + count_true bs

scan_row-count :
    (test : ℕ → Bool) (x n : ℕ) (rest : List Bool × ℕ)
    → rest.1 ≡ count_true rest.0
    → (scan_row test x n rest).1 ≡ count_true (scan_row test x n rest).0
unfolding scan_row count_true
scan_row-count test x zero rest h = h
scan_row-count test x (suc n) rest h =
    ap (λ k. (if test x then 1 else 0) + k) (scan_row-count test (x + 1) n rest h)

scan_rows-count :
    (test : ℕ → ℕ → Bool) (w y n : ℕ)
    → (scan_rows test w y n).1 ≡ count_true (scan_rows test w y n).0
unfolding scan_rows count_true
scan_rows-count test w y zero = refl
scan_rows-count test w y (suc n) =
    scan_row-count (λ x. test x y) 0 w (scan_rows test w (y + 1) n)
      (scan_rows-count test w (y + 1) n)

length-scan_row :
    (test : ℕ → Bool) (x n : ℕ) (rest : List Bool × ℕ)
    → length (scan_row test x n rest).0 ≡ n + length rest.0
unfolding scan_row
length-scan_row test x zero rest = omega arith
length-scan_row test x (suc n) rest = omega (arith, length-scan_row test (x + 1) n rest)

length-scan_rows : (test : ℕ → ℕ → Bool) (w y n : ℕ) → length (scan_rows test w y n).0 ≡ w * n
unfolding scan_rows
length-scan_rows test w y zero = omega arith
length-scan_rows test w y (suc n) = grind (
  arith,
  length-scan_row (λ x. test x y) 0 w (scan_rows test w (y + 1) n),
  length-scan_rows test w (y + 1) n,
)

-- A bit of the row itself, and one behind it.
get-scan_row :
    (test : ℕ → Bool) (x n i : ℕ) (rest : List Bool × ℕ)
    → i < n
    → get_elem? (scan_row test x n rest).0 i ≡ some (test (x + i))
unfolding scan_row
get-scan_row test x zero i rest h = ground arith
get-scan_row test x (suc n) zero rest h = ap (λ k. some (test k)) (omega arith)
get-scan_row test x (suc n) (suc i) rest h =
    get-scan_row test (x + 1) n i rest (omega arith) ∙ ap (λ k. some (test k)) (omega arith)

get-scan_row_after :
    (test : ℕ → Bool) (x n i : ℕ) (rest : List Bool × ℕ)
    → get_elem? (scan_row test x n rest).0 (n + i) ≡ get_elem? rest.0 i
unfolding scan_row
get-scan_row_after test x zero i rest = let e : 0 + i ≡ i = omega arith in ap (get_elem? rest.0) e
get-scan_row_after test x (suc n) i rest =
    let e : suc n + i ≡ suc (n + i) = omega arith in
    ap (get_elem? (scan_row test x (suc n) rest).0) e ∙ get-scan_row_after test (x + 1) n i rest

-- Row `k` after row `y` begins at `k * w`.
get-scan_rows :
    (test : ℕ → ℕ → Bool) (w y n x k : ℕ)
    → x < w
    → k < n
    → get_elem? (scan_rows test w y n).0 (k * w + x) ≡ some (test x (y + k))
unfolding scan_rows
get-scan_rows test w y zero x k hx hk = ground arith
get-scan_rows test w y (suc n) x zero hx hk =
    let e : 0 * w + x ≡ x = omega arith in
    let f : y ≡ y + 0 = omega arith in
    let g : 0 + x ≡ x = omega arith in
    let below = scan_rows test w (y + 1) n in
    ap (get_elem? (scan_row (λ z. test z y) 0 w below).0) e
    ∙ get-scan_row (λ z. test z y) 0 w x below hx
    ∙ cc (f, g)
get-scan_rows test w y (suc n) x (suc k) hx hk =
    let e : suc k * w + x ≡ w + (k * w + x) = grind arith in
    let f : y + 1 + k ≡ y + suc k = omega arith in
    let below = scan_rows test w (y + 1) n in
    ap (get_elem? (scan_row (λ z. test z y) 0 w below).0) e
    ∙ get-scan_row_after (λ z. test z y) 0 w (k * w + x) below
    ∙ get-scan_rows test w (y + 1) n x k hx (omega arith)
    ∙ ap (λ z. some (test x z)) f

-- A channel of a pixel that is in both frames lies further apart than the tolerance.
pub record IsFar (a b : Frame) (tolerance x y : ℕ) : Type 0 where
  pub c : ℕ
  pub rgba : c < 4
  pub apart :
      let p = get_or a.rgba ((y * a.width + x) * 4 + c) 0 in
      let q = get_or b.rgba ((y * b.width + x) * 4 + c) 0 in
      (q + tolerance < p) ⊎ (p + tolerance < q)

-- The pixel is outside of one of the frames.
abbrev pub IsOutside : Frame → ℕ → ℕ → Type 0
IsOutside f x y = (f.width ≤ x) ⊎ (f.height ≤ y)

-- What makes a pixel of the canvas a mismatch.
abbrev pub IsMismatch : ℕ → Frame → Frame → ℕ → ℕ → Type 0
IsMismatch tolerance a b x y = IsOutside a x y ⊎ IsOutside b x y ⊎ IsFar a b tolerance x y

far-channels :
    (t x y : ℕ) (a b : Frame) (c : ℕ)
    → c < 4
    → far t (channel a x y c) (channel b x y c) ≡ true
    → IsFar a b t x y
unfolding far channel
far-channels t x y a b c four h = record { c = c; rgba = four; apart = ground arith }

far-apart : (t p q : ℕ) → ((q + t < p) ⊎ (p + t < q)) → far t p q ≡ true
unfolding far
far-apart t p q h = ground arith

outside : (f : Frame) (x y : ℕ) → inside f x y ≡ false → IsOutside f x y
unfolding inside
outside f x y h = ground arith

outside-inside : (f : Frame) (x y : ℕ) → IsOutside f x y → inside f x y ≡ false
unfolding inside
outside-inside f x y (inl h) = ground arith
outside-inside f x y (inr h) = ground arith

or_cases : (p q : Bool) → (p || q) ≡ true → (p ≡ true) ⊎ (q ≡ true)
or_cases true q h = inl refl
or_cases false q h = inr h

some_channel : ℕ → ℕ → ℕ → Frame → Frame → Bool
some_channel t x y a b =
    far_channel t a b x y 0
    || (far_channel t a b x y 1 || (far_channel t a b x y 2 || far_channel t a b x y 3))

some_channel-IsFar : (t x y : ℕ) (a b : Frame) → some_channel t x y a b ≡ true → IsFar a b t x y
unfolding some_channel
some_channel-IsFar t x y a b h = elim (or_cases (far_channel t a b x y 0) _ h) [
  | inl e ↦ far-channels t x y a b 0 (omega arith) e
  | inr h ↦ elim (or_cases (far_channel t a b x y 1) _ h) [
    | inl e ↦ far-channels t x y a b 1 (omega arith) e
    | inr h ↦ elim (or_cases (far_channel t a b x y 2) _ h) [
      | inl e ↦ far-channels t x y a b 2 (omega arith) e
      | inr e ↦ far-channels t x y a b 3 (omega arith) e
    ]
  ]
]

or-right : (p : Bool) → (p || true) ≡ true
or-right true = refl
or-right false = refl

far-channel_at :
    (t x y c : ℕ) (a b : Frame) (v : c < 4)
    → far_channel t a b x y c ≡ true
    → some_channel t x y a b ≡ true
unfolding some_channel
far-channel_at t x y zero a b v h = rw h refl
far-channel_at t x y (suc zero) a b v h = ground arith
far-channel_at t x y (suc (suc zero)) a b v h = ground arith
far-channel_at t x y (suc (suc (suc zero))) a b v h = ground arith
far-channel_at t x y (suc (suc (suc (suc c)))) a b v h = ground arith

IsFar-some_channel : (t x y : ℕ) (a b : Frame) → IsFar a b t x y → some_channel t x y a b ≡ true
unfolding channel
IsFar-some_channel t x y a b f =
    far-channel_at t x y f.c a b f.rgba
      (far-apart t (channel a x y f.c) (channel b x y f.c) f.apart)

differs-IsMismatch : (t x y : ℕ) (a b : Frame) → differs t a b x y ≡ true → IsMismatch t a b x y
unfolding differs some_channel
differs-IsMismatch t x y a b h = elim (Bool-cases (inside a x y)) [
  | inr ea ↦ inl (outside a x y ea)
  | inl ea ↦ elim (Bool-cases (inside b x y)) [
    | inr eb ↦ inr (inl (outside b x y eb))
    | inl eb ↦ inr (inr (some_channel-IsFar t x y a b (rw (ea, eb, differs) at h)))
  ]
]

mismatch-differs : (t x y : ℕ) (a b : Frame) → IsMismatch t a b x y → differs t a b x y ≡ true
unfolding differs some_channel
mismatch-differs t x y a b (inl o) = rw (outside-inside a x y o, differs) refl
mismatch-differs t x y a b (inr (inl o)) = elim (Bool-cases (inside a x y)) [
  | inl e ↦ rw (e, outside-inside b x y o, differs) refl
  | inr e ↦ rw (e, differs) refl
]
mismatch-differs t x y a b (inr (inr f)) = elim (Bool-cases (inside a x y && inside b x y)) [
  | inl e ↦ rw (e, differs) (IsFar-some_channel t x y a b f)
  | inr e ↦ rw (e, differs) refl
]

-- What `diff_frames` promises of its result.
pub record IsExact (a b : Frame) (tolerance : ℕ) (r : DiffResult) : Type 0 where
  pub width : r.union_w ≡ max a.width b.width
  pub height : r.union_h ≡ max a.height b.height
  pub total : r.total ≡ r.union_w * r.union_h
  pub bounded : r.total ≤ max_diff_pixels
  pub sized : length r.mask ≡ r.total
  pub counted : r.mismatched ≡ count_true r.mask
  pub pixels :
      (x y : ℕ)
      → x < r.union_w
      → y < r.union_h
      → (bit : Bool) × (get_elem? r.mask (y * r.union_w + x) ≡ some bit)
        × (bit ≡ true → IsMismatch tolerance a b x y)
        × (IsMismatch tolerance a b x y → bit ≡ true)

-- Two frames whose union canvas has at most 64 Mi pixels are compared: the mask has one bit for each
-- pixel of the canvas, row by row, which is set exactly if the pixel lies outside one of the frames
-- or one of its channels differs by more than the tolerance; and the count of mismatches is the
-- number of set bits. A larger canvas is refused.
pub diff_frames-IsExact :
    (a b : Frame) (tolerance : ℕ)
    → ((max_diff_pixels < max a.width b.width * max a.height b.height)
        × (diff_frames a b tolerance
            ≡ err (canvas_too_large (max a.width b.width) (max a.height b.height))))
      ⊎ ((r : DiffResult) × (diff_frames a b tolerance ≡ ok r) × IsExact a b tolerance r)
unfolding diff_frames
diff_frames-IsExact a b tolerance =
    let w = max a.width b.width in
    let h = max a.height b.height in
    let scan = scan_rows (differs tolerance a b) w 0 h in
    elim (Bool-cases (ltb max_diff_pixels (w * h))) [
      | inl e ↦ inl (ltb→lt max_diff_pixels (w * h) e, rw e refl)
      | inr e ↦
          let small : w * h ≤ max_diff_pixels = ground arith in
          inr (
            record { total = w * h; mismatched = scan.1; mask = scan.0; union_w = w; union_h = h },
            rw e refl,
            record {
              width = refl;
              height = refl;
              total = refl;
              bounded = small;
              sized = length-scan_rows (differs tolerance a b) w 0 h;
              counted = scan_rows-count (differs tolerance a b) w 0 h;
              pixels = λ x y hx hy.
                  let f : 0 + y ≡ y = omega arith in
                  (
                    differs tolerance a b x y,
                    get-scan_rows (differs tolerance a b) w 0 h x y hx hy
                        ∙ ap (λ z. some (differs tolerance a b x z)) f,
                    differs-IsMismatch tolerance x y a b,
                    mismatch-differs tolerance x y a b,
                  );
            },
          )
    ]
