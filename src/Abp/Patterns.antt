-- ===== src/Abp/Patterns.antt =====
-- `pattern_to_regex` and `plain_domain` of crates/hwatud/src/abp.rs.
pub mod Meaning
pub mod Ascii
use hwatu.Common.{
  ℕ, List, [], ◌∷◌, ◌++◌, Bool, true, false, not, ◌&&◌, ◌||◌, Option, none, some, ◌==◌,
  if◌then◌else◌, any, all, is_empty,
}
use hwatu.Common.Text.{
  Text, codes, strip_prefix, strip_suffix, contains_char, is_ascii, is_ascii_alphanumeric,
  lowercase, trim_end_by,
}
use hwatu.Abp.{stripped_or}

-- `SEPARATOR`: `[/:&?]?`.
abbrev pub separator_class : Text
separator_class = b'[' ∷ b'/' ∷ b':' ∷ b'&' ∷ b'?' ∷ b']' ∷ b'?' ∷ []

-- `DOMAIN_ANCHOR`.
abbrev pub domain_anchor : Text
domain_anchor = codes "^[htpsw]+:\\/\\/([a-z0-9_-]+\\.)*"

abbrev pub backslash : ℕ
backslash = 92

abbrev pub special_characters : Text
special_characters =
    b'.' ∷ b'+' ∷ b'?' ∷ b'$' ∷ b'{' ∷ b'}' ∷ b'(' ∷ b')' ∷ b'[' ∷ b']' ∷ backslash ∷ b'/' ∷ []

abbrev pub is_special : ℕ → Bool
is_special c = any (λ k. k == c) special_characters

-- One round of the loop over the characters.
abbrev pub translate_char : ℕ → Option Text
translate_char c =
    if c == b'*'
    then some (b'.' ∷ b'*' ∷ [])
    else if c == b'^'
    then some separator_class
    else if is_special c
    then some (backslash ∷ c ∷ [])
    else if is_ascii c
    then some (c ∷ [])
    else none

abbrev pub joined : Option Text → Option Text → Option Text
joined none r = none
joined (some t) none = none
joined (some t) (some r) = some (t ++ r)

unfoldable pub translate : Text → Option Text
translate [] = some []
translate (c ∷ s) = joined (translate_char c) (translate s)

abbrev pub start_of : Bool → Bool → Text
start_of true start_anchored = domain_anchor
start_of false true = b'^' ∷ []
start_of false false = []

abbrev pub end_of : Bool → Text
end_of true = b'$' ∷ []
end_of false = []

-- WebKit rejects an empty filter.
abbrev pub or_anything : Text → Text
or_anything [] = b'.' ∷ b'*' ∷ []
or_anything (c ∷ s) = c ∷ s

-- The anchors of a pattern, whether it starts at a domain, at the start and at the end of an address,
-- and what is between them.
abbrev pub anchors : Text → (Bool × Bool × Bool) × Text
anchors pattern =
    let (domain_anchored, rest) = stripped_or (strip_prefix (b'|' ∷ b'|' ∷ []) pattern) pattern in
    let (start_anchored, rest') : Bool × Text =
      if domain_anchored then (false, rest) else stripped_or (strip_prefix (b'|' ∷ []) rest) rest in
    let (end_anchored, rest'') = stripped_or (strip_suffix (b'|' ∷ []) rest') rest' in
    ((domain_anchored, start_anchored, end_anchored), rest'')

abbrev pub assembled : Bool × Bool × Bool → Option Text → Option Text
assembled a none = none
assembled (domain_anchored, start_anchored, end_anchored) (some body) =
    some (or_anything (start_of domain_anchored start_anchored ++ (body ++ end_of end_anchored)))

unfoldable pub pattern_to_regex : Text → Option Text
unfolding translate
pattern_to_regex pattern =
    let (a, rest) = anchors pattern in
    if contains_char (λ c. c == b'|') rest then none else assembled a (translate rest)

abbrev pub is_host_char : ℕ → Bool
is_host_char c = is_ascii_alphanumeric c || (c == b'.') || (c == b'-')

abbrev pub bare_host : Text → Option Text
bare_host rest =
    let host =
      trim_end_by (λ c. c == b'/')
        (trim_end_by (λ c. c == b'^') (trim_end_by (λ c. c == b'|') rest)) in
    if not (is_empty host) && all is_host_char host then some (lowercase host) else none

-- The `?` on the prefix.
unfoldable pub plain_domain : Text → Option Text
plain_domain pattern = elim (strip_prefix (b'|' ∷ b'|' ∷ []) pattern) [
  | none ↦ none
  | some rest ↦ bare_host rest
]
