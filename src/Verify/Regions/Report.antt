-- ===== src/Verify/Regions/Report.antt =====
-- The regions that a pixel diff reports.
use hwatu.Common.{ℕ, ◌+◌, List, [], ◌∷◌, if◌then◌else◌}
use hwatu.Verify.Regions.{is_hot}

-- The pixels of the hot cells together.
pub hot_pixels : List ℕ → ℕ
hot_pixels [] = 0
hot_pixels (c ∷ cs) = (if is_hot c then c else 0) + hot_pixels cs
