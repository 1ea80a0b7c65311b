-- ===== src/Common/Ints.antt =====
-- Rust's `i32`, and the parsers of numbers.
use Prim.Native.Nat.{ℕ, zero, suc, ◌+◌, ◌^◌}
use mathlib.Core.List.{[], ◌∷◌}
use mathlib.Core.Option.{Option, none, some}
use hwatu.Common.Tests.{if◌then◌else◌, leb, ltb, ◌==◌}
use hwatu.Common.Text.{Text, digits_value, decimal}

-- `minus n` is -(n + 1).
pub data Int32 : Type 0 where
  nat : ℕ → Int32
  minus : ℕ → Int32

abbrev pub negated : ℕ → Int32
negated zero = nat 0
negated (suc n) = minus n

abbrev without_plus : Text → Text
without_plus [] = []
without_plus (c ∷ s) = if c == b'+' then s else c ∷ s

-- `parse::<u16>().ok()`: an optional `+`, then digits.
abbrev pub parse_unsigned : ℕ → Text → Option ℕ
parse_unsigned bits s = elim (digits_value (without_plus s)) [
  | none ↦ none
  | some n ↦ if ltb n (2 ^ bits) then some n else none
]

abbrev pub small_nat : Option ℕ → Option Int32
small_nat none = none
small_nat (some n) = if ltb n (2 ^ 31) then some (nat n) else none

abbrev pub small_negated : Option ℕ → Option Int32
small_negated none = none
small_negated (some n) = if leb n (2 ^ 31) then some (negated n) else none

-- `parse::<i32>().ok()`.
abbrev pub parse_i32 : Text → Option Int32
parse_i32 [] = none
parse_i32 (c ∷ rest) =
    if c == b'+'
    then small_nat (digits_value rest)
    else if c == b'-'
    then small_negated (digits_value rest)
    else small_nat (digits_value (c ∷ rest))

-- `Display`.
abbrev pub i32_text : Int32 → Text
i32_text (nat n) = decimal n
i32_text (minus n) = b'-' ∷ decimal (n + 1)
