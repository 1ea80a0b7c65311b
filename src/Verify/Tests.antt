-- ===== src/Verify/Tests.antt =====
-- Concrete runs of the verification primitives.
use hwatu.Common.{
  replicate, ◌*◌, ◌<◌, ◌⊎◌, err, [], ◌∷◌, true, false, nat, ◌≡◌, refl, some, ok, arith,
}
use hwatu.Verify.Frames.{
  Frame, DiffResult, canvas_too_large, max_diff_pixels, diff_frames, scan_rows, scan_row, differs,
  inside, channel, far,
}
use hwatu.Verify.Frames.Exact.{IsExact, diff_frames-IsExact}
use hwatu.Verify.Frames.Symmetry.{diff_frames_symm}
use hwatu.Verify.Regions.{cell_counts, mismatch_regions}
use hwatu.Verify.Resize.{Outcome, resize, resize_max_corrections}
use hwatu.Verify.Resize.Bounds.{IsHonest, resize-IsHonest}
use hwatu.Verify.Resize.Converges.{chrome, resize-chrome}

abbrev two_rows_outcome : Outcome
two_rows_outcome = record {
  allocated = (360, 642);
  measured = some (nat 360, nat 640);
  corrections = 1;
}

-- A compositor that takes 2 rows: 360x640 needs two corrections.
two_rows : resize (chrome 0 2) (nat 360) (nat 640) ≡ ok two_rows_outcome
unfolding resize
two_rows = refl

resize-IsHonest_example :
    (o : Outcome) × (resize (chrome 0 2) (nat 360) (nat 640) ≡ ok o)
    × IsHonest (chrome 0 2) (360, 640) resize_max_corrections o
resize-IsHonest_example =
    resize-IsHonest (chrome 0 2) 360 640 (omega arith, omega arith, omega arith, omega arith)

resize-chrome_example :
    (o : Outcome) × (resize (chrome 0 2) (nat 360) (nat 640) ≡ ok o)
    × (o.measured ≡ some (nat 360, nat 640))
resize-chrome_example =
    resize-chrome 0 2 360 640 (omega arith) (omega arith) (omega arith) (omega arith)

-- A white pixel, and a row of a grey and a white one.
abbrev one_pixel : Frame
one_pixel = record { width = 1; height = 1; rgba = 255 ∷ 255 ∷ 255 ∷ 255 ∷ [] }

abbrev two_pixels : Frame
two_pixels = record {
  width = 2;
  height = 1;
  rgba = 250 ∷ 250 ∷ 250 ∷ 255 ∷ 255 ∷ 255 ∷ 255 ∷ 255 ∷ [];
}

within_tolerance :
    diff_frames one_pixel two_pixels 8
    ≡ ok (record { total = 2; mismatched = 1; mask = false ∷ true ∷ []; union_w = 2; union_h = 1 })
unfolding diff_frames scan_rows scan_row differs inside channel far
within_tolerance = refl

diff_frames-IsExact_example :
    ((max_diff_pixels < 2 * 1) × (diff_frames one_pixel two_pixels 8 ≡ err (canvas_too_large 2 1)))
    ⊎ ((r : DiffResult) × (diff_frames one_pixel two_pixels 8 ≡ ok r)
        × IsExact one_pixel two_pixels 8 r)
diff_frames-IsExact_example = diff_frames-IsExact one_pixel two_pixels 8

diff_frames_symm_example : diff_frames one_pixel two_pixels 8 ≡ diff_frames two_pixels one_pixel 8
diff_frames_symm_example = diff_frames_symm one_pixel two_pixels 8

-- An 8x8 canvas on which every pixel differs: one cell, which is hot.
abbrev all_different : DiffResult
all_different = record {
  total = 64;
  mismatched = 64;
  mask = replicate 64 true;
  union_w = 8;
  union_h = 8;
}

one_region :
    mismatch_regions all_different ≡ record { x0 = 0; y0 = 0; x1 = 0; y1 = 0; pixels = 64 } ∷ []
unfolding mismatch_regions cell_counts
one_region = refl
