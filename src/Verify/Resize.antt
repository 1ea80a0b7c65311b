-- ===== src/Verify/Resize.antt =====
-- `resize`, `measure_and_correct` and `corrected_allocation` of crates/hwatud/src/verify.rs. The
-- window system and the page are a parameter: `measure k size` is the CSS size that the page reports
-- for the allocation `size` after `k` corrections, or `none` where the measurement fails.
pub mod Bounds
pub mod Converges
use hwatu.Common.{
  Int32, nat, minus, ℕ, zero, suc, ◌+◌, ◌-◌, ◌*◌, ◌/◌, min, max, ◌<◌, Bool, true, false, ◌||◌, ◌&&◌,
  Option, none, some, Result, ok, err, ltb, leb, ◌==◌, if◌then◌else◌,
}

abbrev pub max_side : ℕ
max_side = 16384

abbrev pub resize_max_corrections : ℕ
resize_max_corrections = 3

-- `clamp(1, 16384)`. On ℕ a negative value is 0, and is clamped to 1 as the source's would be.
abbrev pub clamp_side : ℕ → ℕ
clamp_side n = min max_side (max 1 n)

-- `f64::round` of `allocated * requested / measured`: for sides up to 16384 the double is closer to
-- the quotient than the quotient is to any half that it differs from, so this is exact.
abbrev pub scaled : ℕ → ℕ → ℕ → ℕ
scaled requested allocated measured = (2 * (allocated * requested) + measured) / (2 * measured)

unfoldable pub corrected_allocation : ℕ → ℕ → Int32 → ℕ → Option ℕ
corrected_allocation requested allocated (minus n) attempt = none
corrected_allocation requested allocated (nat measured) attempt =
    if measured == requested || measured == 0
    then none
    else some (
        clamp_side (
          if attempt == 0
          then scaled requested allocated measured
          else allocated + requested - measured))

abbrev pub Size : Type 0
Size = ℕ × ℕ

abbrev pub value_or : Option ℕ → ℕ → ℕ
value_or none d = d
value_or (some n) d = n

-- How the loop ends: the last allocation, and the measurement that the reply carries.
pub record Outcome : Type 0 where
  pub allocated : Size
  pub measured : Option (Int32 × Int32)
  pub corrections : ℕ

-- The `match (aw, ah)`: done when neither side has a correction.
abbrev pub stop_if_exact : Option ℕ → Option ℕ → Outcome → Outcome → Outcome
stop_if_exact none none exact again = exact
stop_if_exact none (some _) exact again = again
stop_if_exact (some _) ah exact again = again

abbrev pub Backend : Type 0
Backend = ℕ → Size → Option (Int32 × Int32)

-- `measure_and_correct` when `left` corrections are still allowed: `attempt >= 3` is `left = 0`.
pub measure_and_correct : Backend → Size → ℕ → ℕ → Size → Outcome
measure_and_correct measure requested zero attempt allocated = record {
  allocated = allocated;
  measured = measure attempt allocated;
  corrections = attempt;
}
measure_and_correct measure requested (suc left) attempt allocated =
    elim (measure attempt allocated) [
      | none ↦ record { allocated = allocated; measured = none; corrections = attempt }
      | some (cw, ch) ↦
          let aw = corrected_allocation requested.0 allocated.0 cw attempt in
          let ah = corrected_allocation requested.1 allocated.1 ch attempt in
          let next : Size = (value_or aw allocated.0, value_or ah allocated.1) in
          let again = measure_and_correct measure requested left (attempt + 1) next in
          let exact : Outcome = record {
            allocated = allocated;
            measured = some (cw, ch);
            corrections = attempt;
          } in
          stop_if_exact aw ah exact again
    ]

-- `!(1..=16384).contains(&w)`.
abbrev pub in_range : Int32 → Bool
in_range (minus n) = false
in_range (nat n) = leb 1 n && leb n max_side

abbrev pub magnitude : Int32 → ℕ
magnitude (minus n) = 0
magnitude (nat n) = n

pub data ResizeError : Type 0 where
  bad_viewport : Int32 → Int32 → ResizeError

-- `resize` of a window that exists.
unfoldable pub resize : Backend → Int32 → Int32 → Result ResizeError Outcome
unfolding measure_and_correct corrected_allocation
resize measure w h =
    if in_range w && in_range h
    then ok (
        measure_and_correct measure (magnitude w, magnitude h) resize_max_corrections 0
          (magnitude w, magnitude h))
    else err (bad_viewport w h)
