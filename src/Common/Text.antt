-- ===== src/Common/Text.antt =====
-- Rust's `str` as the list of its code points, with the methods of the standard library that
-- the program calls. Lengths are in UTF-8 bytes, as Rust counts them.
use Prim.Native.Nat.{ℕ, zero, suc, ◌+◌, ◌-◌, ◌*◌, ◌/◌, ◌%◌}
use Prim.Native.Char.{code}
use Prim.Native.String.{String}
use mathlib.Core.Path.{◌≡◌, refl}
use mathlib.Core.Bool.{Bool, true, false, ◌&&◌, ◌||◌}
use mathlib.Core.List.{List, [], ◌∷◌, ◌++◌, map}
use mathlib.Core.Option.{Option, none, some}
use native.Mathlib.Omega.{arith}
use hwatu.Common.Tests.{if◌then◌else◌, leb, ltb, ◌==◌}
use hwatu.Common.Lists.{is_empty, length}

abbrev pub Text : Type 0
Text = List ℕ

-- A literal of the source.
abbrev pub codes : String → Text
codes String.[] = []
codes (String.◌∷◌ c s) = code c ∷ codes s

abbrev pub text_eq : Text → Text → Bool
text_eq [] [] = true
text_eq [] (d ∷ t) = false
text_eq (c ∷ s) [] = false
text_eq (c ∷ s) (d ∷ t) = (c == d) && text_eq s t

pub text_eq→eq : (s t : Text) → text_eq s t ≡ true → s ≡ t
text_eq→eq [] [] h = refl
text_eq→eq [] (d ∷ t) h = ground arith
text_eq→eq (c ∷ s) [] h = ground arith
text_eq→eq (c ∷ s) (d ∷ t) h = ground (arith, text_eq→eq s t)

pub text_eq_refl : (s : Text) → text_eq s s ≡ true
text_eq_refl [] = refl
text_eq_refl (c ∷ s) = ground (arith, text_eq_refl s)

-- The order of `str`: by bytes, which is by code points.
abbrev pub text_le : Text → Text → Bool
text_le [] t = true
text_le (c ∷ s) [] = false
text_le (c ∷ s) (d ∷ t) = ltb c d || ((c == d) && text_le s t)

-- UTF-8 bytes of one code point.
abbrev pub utf8_len : ℕ → ℕ
utf8_len c = if ltb c 0x80 then 1 else if ltb c 0x800 then 2 else if ltb c 0x10000 then 3 else 4

-- `str::len`.
abbrev pub byte_len : Text → ℕ
byte_len [] = 0
byte_len (c ∷ s) = utf8_len c + byte_len s

-- `char::is_whitespace`: the Unicode property White_Space.
abbrev pub is_whitespace : ℕ → Bool
is_whitespace c =
    (leb 9 c && leb c 13)
    || (c == 32)
    || (c == 0x85)
    || (c == 0xa0)
    || (c == 0x1680)
    || (leb 0x2000 c && leb c 0x200a)
    || (c == 0x2028)
    || (c == 0x2029)
    || (c == 0x202f)
    || (c == 0x205f)
    || (c == 0x3000)

abbrev pub is_ascii_lowercase : ℕ → Bool
is_ascii_lowercase c = leb b'a' c && leb c b'z'

abbrev pub is_ascii_uppercase : ℕ → Bool
is_ascii_uppercase c = leb b'A' c && leb c b'Z'

abbrev pub is_ascii_digit : ℕ → Bool
is_ascii_digit c = leb b'0' c && leb c b'9'

abbrev pub is_ascii_alphanumeric : ℕ → Bool
is_ascii_alphanumeric c = is_ascii_lowercase c || is_ascii_uppercase c || is_ascii_digit c

abbrev pub is_ascii : ℕ → Bool
is_ascii c = ltb c 128

abbrev pub to_ascii_lowercase : ℕ → ℕ
to_ascii_lowercase c = if is_ascii_uppercase c then c + 32 else c

abbrev pub lowercase : Text → Text
lowercase = map to_ascii_lowercase

abbrev pub eq_ignore_ascii_case : Text → Text → Bool
eq_ignore_ascii_case s t = text_eq (lowercase s) (lowercase t)

-- `trim_start_matches` over a test of characters.
abbrev pub trim_start_by : (ℕ → Bool) → Text → Text
trim_start_by p [] = []
trim_start_by p (c ∷ s) = if p c then trim_start_by p s else c ∷ s

-- `trim_end_matches` over a test of characters.
abbrev pub trim_end_by : (ℕ → Bool) → Text → Text
trim_end_by p [] = []
trim_end_by p (c ∷ s) = let rest = trim_end_by p s in if p c && is_empty rest then [] else c ∷ rest

abbrev pub trim : Text → Text
trim s = trim_end_by is_whitespace (trim_start_by is_whitespace s)

-- `strip_prefix`; `starts_with` is whether it succeeds.
abbrev pub strip_prefix : Text → Text → Option Text
strip_prefix [] s = some s
strip_prefix (p ∷ ps) [] = none
strip_prefix (p ∷ ps) (c ∷ s) = if p == c then strip_prefix ps s else none

abbrev pub is_some {ℓ} : {A : Type ℓ} → Option A → Bool
is_some none = false
is_some (some a) = true

pub is_some→some {ℓ} : {A : Type ℓ} (o : Option A) → is_some o ≡ true → (a : A) × (o ≡ some a)
is_some→some none h = cc
is_some→some (some a) h = (a, refl)

abbrev pub starts_with : Text → Text → Bool
starts_with p s = is_some (strip_prefix p s)

-- `split_once`: around the first occurrence of a pattern.
abbrev pub split_once : Text → Text → Option (Text × Text)
split_once p [] = if is_empty p then some ([], []) else none
split_once p (c ∷ s) =
    let rest = split_once p s in
    elim (strip_prefix p (c ∷ s)) [
      | some after ↦ some ([], after)
      | none ↦ elim rest [ none ↦ none | some ba ↦ some (c ∷ ba.0, ba.1) ]
    ]

-- `split_once` around the first character that passes a test.
abbrev pub split_once_by : (ℕ → Bool) → Text → Option (Text × Text)
split_once_by p [] = none
split_once_by p (c ∷ s) =
    let rest = split_once_by p s in
    if p c then some ([], s) else elim rest [ none ↦ none | some ba ↦ some (c ∷ ba.0, ba.1) ]

-- `rsplit_once`: around the last character that is `sep`.
abbrev pub rsplit_once : ℕ → Text → Option (Text × Text)
rsplit_once sep [] = none
rsplit_once sep (c ∷ s) = elim (rsplit_once sep s) [
  | some ba ↦ some (c ∷ ba.0, ba.1)
  | none ↦ if c == sep then some ([], s) else none
]

abbrev pub contains : Text → Text → Bool
contains p s = is_some (split_once p s)

abbrev pub contains_char : (ℕ → Bool) → Text → Bool
contains_char p [] = false
contains_char p (c ∷ s) = p c || contains_char p s

-- `split` at one character: never empty.
abbrev pub push_head : ℕ → List Text → List Text
push_head c [] = (c ∷ []) ∷ []
push_head c (w ∷ ws) = (c ∷ w) ∷ ws

abbrev pub split_by : (ℕ → Bool) → Text → List Text
split_by p [] = [] ∷ []
split_by p (c ∷ s) = let rest = split_by p s in if p c then [] ∷ rest else push_head c rest

abbrev pub split_at_char : ℕ → Text → List Text
split_at_char sep = split_by (λ c. c == sep)

abbrev drop_last_empty : List Text → List Text
drop_last_empty [] = []
drop_last_empty (l ∷ []) = if is_empty l then [] else l ∷ []
drop_last_empty (l ∷ m ∷ ls) = l ∷ drop_last_empty (m ∷ ls)

-- `lines`: a trailing newline ends the last line. The `\r` that `lines` drops before a newline is
-- kept here; the callers trim each line, and it is white space.
abbrev pub lines : Text → List Text
lines text = drop_last_empty (split_at_char 10 text)

-- `replace` of a pattern that is not empty; the number is what is left of a match.
abbrev pub replace_from : ℕ → Text → Text → Text → Text
replace_from k p r [] = []
replace_from (suc k) p r (c ∷ s) = replace_from k p r s
replace_from zero p r (c ∷ s) =
    let rest = replace_from zero p r s in
    let after = replace_from (length p - 1) p r s in
    elim (strip_prefix p (c ∷ s)) [ some _ ↦ r ++ after | none ↦ c ∷ rest ]

-- `ends_with` for one character.
abbrev pub ends_with_char : ℕ → Text → Bool
ends_with_char k [] = false
ends_with_char k (c ∷ []) = c == k
ends_with_char k (c ∷ d ∷ s) = ends_with_char k (d ∷ s)

-- `strip_suffix`.
abbrev pub strip_suffix : Text → Text → Option Text
strip_suffix p [] = if is_empty p then some [] else none
strip_suffix p (c ∷ s) =
    let rest = strip_suffix p s in
    if text_eq (c ∷ s) p then some [] else elim rest [ none ↦ none | some b ↦ some (c ∷ b) ]

-- `join`.
abbrev pub join : Text → List Text → Text
join sep [] = []
join sep (w ∷ []) = w
join sep (w ∷ v ∷ ws) = w ++ (sep ++ join sep (v ∷ ws))

-- The value of an unsigned decimal numeral, as `parse::<u16>()` and the like read it before the
-- bound of the type is applied: an optional `+`, then one or more digits.
abbrev pub decimal_from : ℕ → Text → Option ℕ
decimal_from n [] = some n
decimal_from n (c ∷ s) = if is_ascii_digit c then decimal_from (n * 10 + (c - b'0')) s else none

abbrev pub digits_value : Text → Option ℕ
digits_value [] = none
digits_value (c ∷ s) = decimal_from 0 (c ∷ s)

-- `Display` of an unsigned number; the fuel `n` is more than its digits need.
unfoldable pub decimal_of : ℕ → ℕ → Text → Text
decimal_of zero n acc = (b'0' + n % 10) ∷ acc
decimal_of (suc fuel) n acc =
    let more = decimal_of fuel (n / 10) ((b'0' + n % 10) ∷ acc) in
    if ltb n 10 then (b'0' + n) ∷ acc else more

unfoldable pub decimal : ℕ → Text
unfolding decimal_of
decimal n = decimal_of n n []

decimal_test : decimal 40960 ≡ codes "40960"
unfolding decimal
decimal_test = refl
