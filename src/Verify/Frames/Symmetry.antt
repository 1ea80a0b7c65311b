-- ===== src/Verify/Frames/Symmetry.antt =====
-- The pixel diff does not depend on which capture comes first, and finds no fault in a copy.
use hwatu.Common.{
  ℕ, zero, suc, ◌+◌, ◌-◌, ◌*◌, ◌≤◌, ◌<◌, max, ◌≡◌, refl, ap, ◌∙◌, List, Bool, true, false, ok, ltb,
  arith,
}
use mathlib.Core.Bool.{and_comm}
use hwatu.Verify.Frames.{
  Frame, DiffResult, inside, channel, far, far_channel, differs, scan_row, scan_rows, diff_frames,
  max_diff_pixels,
}

far_symm : (t p q : ℕ) → far t p q ≡ far t q p
unfolding far
far_symm t p q = let e : (p - q) + (q - p) ≡ (q - p) + (p - q) = omega arith in ap (ltb t) e

far_same : (t p : ℕ) → far t p p ≡ false
unfolding far
far_same t p = ground arith

differs_symm : (t : ℕ) (a b : Frame) (x y : ℕ) → differs t a b x y ≡ differs t b a x y
unfolding differs
differs_symm t a b x y =
    let ch : (c : ℕ) → far_channel t a b x y c ≡ far_channel t b a x y c =
      λ c. far_symm t (channel a x y c) (channel b x y c) in
    rw (and_comm (inside a x y) (inside b x y), ch 0, ch 1, ch 2, ch 3) refl

scan_row-ext :
    (f g : ℕ → Bool) (x n : ℕ) (rest : List Bool × ℕ)
    → ((z : ℕ) → f z ≡ g z)
    → scan_row f x n rest ≡ scan_row g x n rest
unfolding scan_row
scan_row-ext f g x zero rest h = refl
scan_row-ext f g x (suc n) rest h = cc (h x, scan_row-ext f g (x + 1) n rest h)

scan_rows-ext :
    (f g : ℕ → ℕ → Bool) (w y n : ℕ)
    → ((x z : ℕ) → f x z ≡ g x z)
    → scan_rows f w y n ≡ scan_rows g w y n
unfolding scan_rows
scan_rows-ext f g w y zero h = refl
scan_rows-ext f g w y (suc n) h =
    scan_row-ext (λ x. f x y) (λ x. g x y) 0 w (scan_rows f w (y + 1) n) (λ x. h x y)
    ∙ ap (scan_row (λ x. g x y) 0 w) (scan_rows-ext f g w (y + 1) n h)

-- The comparison of two captures does not depend on their order: the result, mask and counts
-- included, is the same with the two exchanged.
pub diff_frames_symm :
    (a b : Frame) (tolerance : ℕ) → diff_frames a b tolerance ≡ diff_frames b a tolerance
unfolding diff_frames
diff_frames_symm a b tolerance =
    let w : max a.width b.width ≡ max b.width a.width = omega arith in
    let h : max a.height b.height ≡ max b.height a.height = omega arith in
    let scan =
      scan_rows-ext (differs tolerance a b) (differs tolerance b a) (max b.width a.width) 0
        (max b.height a.height) (differs_symm tolerance a b) in
    rw (w, h, scan) refl

in_frame : (f : Frame) (x y : ℕ) → x < f.width → y < 0 + f.height → inside f x y ≡ true
unfolding inside
in_frame f x y h k = ground arith

differs_same : (t : ℕ) (a : Frame) (x y : ℕ) → inside a x y ≡ true → differs t a a x y ≡ false
unfolding differs
differs_same t a x y h =
    let ch : (c : ℕ) → far_channel t a a x y c ≡ false = λ c. far_same t (channel a x y c) in
    rw (h, ch 0, ch 1, ch 2, ch 3) refl

scan_row-clear :
    (f : ℕ → Bool) (x n : ℕ) (rest : List Bool × ℕ)
    → rest.1 ≡ 0
    → ((z : ℕ) → z < x + n → f z ≡ false)
    → (scan_row f x n rest).1 ≡ 0
unfolding scan_row
scan_row-clear f x zero rest h c = h
scan_row-clear f x (suc n) rest h c =
    rw (c x (omega arith), scan_row-clear f (x + 1) n rest h (λ z l. c z (omega arith))) refl

scan_rows-clear :
    (f : ℕ → ℕ → Bool) (w y n : ℕ)
    → ((x z : ℕ) → x < w → z < y + n → f x z ≡ false)
    → (scan_rows f w y n).1 ≡ 0
unfolding scan_rows
scan_rows-clear f w y zero c = refl
scan_rows-clear f w y (suc n) c =
    scan_row-clear (λ x. f x y) 0 w (scan_rows f w (y + 1) n)
      (scan_rows-clear f w (y + 1) n (λ x z l m. c x z l (omega arith)))
      (λ x l. c x y (omega arith) (omega arith))

-- A capture of at most 64 Mi pixels, compared with itself, has no mismatch, at any tolerance.
pub diff_frames_same :
    (a : Frame) (tolerance : ℕ)
    → a.width * a.height ≤ max_diff_pixels
    → (r : DiffResult) × (diff_frames a a tolerance ≡ ok r) × (r.mismatched ≡ 0)
unfolding diff_frames
diff_frames_same a tolerance small =
    let w : max a.width a.width ≡ a.width = omega arith in
    let h : max a.height a.height ≡ a.height = omega arith in
    let fits : ltb max_diff_pixels (a.width * a.height) ≡ false = ground arith in
    let clear =
      scan_rows-clear (differs tolerance a a) a.width 0 a.height
        (λ x z l m. differs_same tolerance a x z (in_frame a x z l m)) in
    rw (w, h, fits)
      (
        record {
          total = a.width * a.height;
          mismatched = (scan_rows (differs tolerance a a) a.width 0 a.height).1;
          mask = (scan_rows (differs tolerance a a) a.width 0 a.height).0;
          union_w = a.width;
          union_h = a.height;
        },
        refl,
        clear,
      )
