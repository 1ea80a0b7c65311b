-- ===== src/Coverage/Hosts.antt =====
-- `url::host_of` of crates/hwatud/src/coverage.rs.
use hwatu.Common.{
  ℕ, zero, suc, List, [], ◌∷◌, Bool, ◌||◌, Option, none, some, ◌==◌, if◌then◌else◌, is_empty,
  length,
}
use hwatu.Common.Text.{Text, codes, strip_prefix, split_by, split_at_char, rsplit_once, lowercase}

-- `split(...).next()`: what is before the first separator.
abbrev pub first_part : List Text → Text
first_part [] = []
first_part (w ∷ ws) = w

-- `trim_start_matches` of a text that is not empty; the fuel is the length of the text.
abbrev pub trim_start_matches : ℕ → Text → Text → Text
trim_start_matches zero p s = s
trim_start_matches (suc fuel) p s = elim (strip_prefix p s) [
  | none ↦ s
  | some rest ↦ trim_start_matches fuel p rest
]

abbrev pub without_scheme : Text → Option Text
without_scheme url = elim (strip_prefix (codes "https://") url) [
  | some rest ↦ some rest
  | none ↦ strip_prefix (codes "http://") url
]

abbrev pub is_host_end : ℕ → Bool
is_host_end c = (c == b'/') || (c == b'?') || (c == b'#')

-- `split('@').next_back()`.
abbrev pub after_last_at : Text → Text
after_last_at s = elim (rsplit_once b'@' s) [ none ↦ s | some ba ↦ ba.1 ]

abbrev pub host_part : Text → Text
host_part rest =
    first_part (split_at_char b':' (after_last_at (first_part (split_by is_host_end rest))))

abbrev pub named_host : Text → Option Text
named_host host =
    if is_empty host
    then none
    else some (lowercase (trim_start_matches (length host) (codes "www.") host))

unfoldable pub host_of : Text → Option Text
host_of url = elim (without_scheme url) [ none ↦ none | some rest ↦ named_host (host_part rest) ]
