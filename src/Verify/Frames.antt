-- ===== src/Verify/Frames.antt =====
-- `Frame`, `DiffResult` and `diff_frames` of crates/hwatud/src/verify.rs: the pixel diff of two
-- captures. A slice of `rgba` out of range, which would be a panic, reads as 0 here; a frame is
-- tightly packed and has no such slice. The difference of two channels is an `i16` in the source,
-- which holds it.
pub mod Exact
pub mod Symmetry
use hwatu.Common.{
  ℕ, zero, suc, ◌+◌, ◌-◌, ◌*◌, max, List, [], ◌∷◌, ◌++◌, Bool, true, false, not, ◌&&◌, ◌||◌, Result,
  ok, err, ltb, if◌then◌else◌, get_or,
}

pub record Frame : Type 0 where
  pub width : ℕ
  pub height : ℕ
  pub rgba : List ℕ

pub record DiffResult : Type 0 where
  pub total : ℕ
  pub mismatched : ℕ
  pub mask : List Bool
  pub union_w : ℕ
  pub union_h : ℕ

abbrev pub max_diff_pixels : ℕ
max_diff_pixels = 64 * 1024 * 1024

pub data CanvasError : Type 0 where
  canvas_too_large : ℕ → ℕ → CanvasError

-- `x < width && y < height`.
unfoldable pub inside : Frame → ℕ → ℕ → Bool
inside f x y = ltb x f.width && ltb y f.height

-- `rgba[(y * width + x) * 4 + c]`.
unfoldable pub channel : Frame → ℕ → ℕ → ℕ → ℕ
channel f x y c = get_or f.rgba ((y * f.width + x) * 4 + c) 0

-- `(pa[c] as i16 - pb[c] as i16).abs() > tol`.
unfoldable pub far : ℕ → ℕ → ℕ → Bool
far tolerance p q = ltb tolerance ((p - q) + (q - p))

abbrev pub far_channel : ℕ → Frame → Frame → ℕ → ℕ → ℕ → Bool
far_channel tolerance a b x y c = far tolerance (channel a x y c) (channel b x y c)

-- The `match` on where the pixel lies; `any` over the four channels.
unfoldable pub differs : ℕ → Frame → Frame → ℕ → ℕ → Bool
differs tolerance a b x y =
    if inside a x y && inside b x y
    then far_channel tolerance a b x y 0
      || (far_channel tolerance a b x y 1
          || (far_channel tolerance a b x y 2 || far_channel tolerance a b x y 3))
    else true

-- The inner loop, from `x` on for `n` pixels, then `rest`: the mask and the mismatches.
unfoldable pub scan_row : (ℕ → Bool) → ℕ → ℕ → List Bool × ℕ → List Bool × ℕ
scan_row test x zero rest = rest
scan_row test x (suc n) rest =
    let later = scan_row test (x + 1) n rest in
    (test x ∷ later.0, (if test x then 1 else 0) + later.1)

-- The outer loop, from `y` on for `n` rows.
unfoldable pub scan_rows : (ℕ → ℕ → Bool) → ℕ → ℕ → ℕ → List Bool × ℕ
unfolding scan_row
scan_rows test w y zero = ([], 0)
scan_rows test w y (suc n) = scan_row (λ x. test x y) 0 w (scan_rows test w (y + 1) n)

unfoldable pub diff_frames : Frame → Frame → ℕ → Result CanvasError DiffResult
unfolding scan_rows
diff_frames a b tolerance =
    let union_w = max a.width b.width in
    let union_h = max a.height b.height in
    let scan = scan_rows (differs tolerance a b) union_w 0 union_h in
    if ltb max_diff_pixels (union_w * union_h)
    then err (canvas_too_large union_w union_h)
    else ok (record {
      total = union_w * union_h;
      mismatched = scan.1;
      mask = scan.0;
      union_w = union_w;
      union_h = union_h;
    })
