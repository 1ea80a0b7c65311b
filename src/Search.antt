-- ===== src/Search.antt =====
-- crates/hwatud/src/search.rs: search engines, keywords and quickmarks. The two files are their texts,
-- or none where they cannot be read.
pub mod Escapes
pub mod Input
pub mod Schemes
mod Tests
use hwatu.Common.{
  ℕ, zero, suc, ◌+◌, ◌-◌, ◌*◌, ◌/◌, ◌%◌, List, [], ◌∷◌, ◌++◌, Bool, true, false, not, ◌&&◌, ◌||◌,
  Option, none, some, ltb, leb, ◌==◌, if◌then◌else◌, is_empty,
}
use hwatu.Common.Text.{
  Text, codes, trim, lines, is_whitespace, is_ascii_alphanumeric, eq_ignore_ascii_case, contains,
  contains_char, starts_with, split_once_by, replace_from,
}

-- `ENGINES`.
abbrev pub engines : List (Text × Text)
engines =
    (codes "duckduckgo", codes "https://duckduckgo.com/?q=%s")
    ∷ (codes "google", codes "https://www.google.com/search?q=%s")
    ∷ (codes "bing", codes "https://www.bing.com/search?q=%s")
    ∷ (codes "brave", codes "https://search.brave.com/search?q=%s")
    ∷ (codes "startpage", codes "https://www.startpage.com/sp/search?query=%s")
    ∷ (codes "kagi", codes "https://kagi.com/search?q=%s")
    ∷ (codes "ecosia", codes "https://www.ecosia.org/search?q=%s")
    ∷ []

abbrev pub engine_named : Text → List (Text × Text) → Option Text
engine_named spec [] = none
engine_named spec ((n, t) ∷ es) =
    let rest = engine_named spec es in if eq_ignore_ascii_case n spec then some t else rest

unfoldable pub resolve_engine : Text → Option Text
resolve_engine spec = elim (engine_named spec engines) [
  | some t ↦ some t
  | none ↦ if contains (codes "%s") spec && contains (codes "://") spec then some spec else none
]

-- An empty line or a comment.
abbrev pub is_blank : Text → Bool
is_blank l = is_empty l || starts_with (codes "#") l

-- The first line that is not blank.
abbrev pub first_meaningful : List Text → Option Text
first_meaningful [] = none
first_meaningful (l ∷ ls) =
    let rest = first_meaningful ls in if is_blank (trim l) then rest else some (trim l)

unfoldable pub parse_template : Text → Option Text
unfolding resolve_engine
parse_template conf = elim (first_meaningful (lines conf)) [
  | none ↦ none
  | some line ↦ if contains_char is_whitespace line then none else resolve_engine line
]

-- The loop of `parse_keyword`.
unfoldable pub keyword_in : Text → List Text → Option Text
unfolding resolve_engine
keyword_in keyword [] = none
keyword_in keyword (l ∷ ls) =
    let rest = keyword_in keyword ls in
    if is_blank (trim l) then rest else elim (split_once_by is_whitespace (trim l)) [
      | none ↦ rest
      | some (n, spec) ↦ if eq_ignore_ascii_case n keyword then resolve_engine (trim spec) else rest
    ]

-- The loop of `parse_quickmark`.
unfoldable pub quickmark_in : Text → List Text → Option Text
quickmark_in n [] = none
quickmark_in n (l ∷ ls) =
    let rest = quickmark_in n ls in
    if is_blank (trim l) then rest else elim (split_once_by is_whitespace (trim l)) [
      | none ↦ rest
      | some (mark, url) ↦
          if eq_ignore_ascii_case mark n && contains (codes "://") (trim url)
          then some (trim url)
          else rest
    ]

-- The UTF-8 bytes of a code point, and of a text.
abbrev pub utf8_bytes : ℕ → List ℕ
utf8_bytes c =
    if ltb c 0x80
    then c ∷ []
    else if ltb c 0x800
    then (0xc0 + c / 64) ∷ (0x80 + c % 64) ∷ []
    else if ltb c 0x10000
    then (0xe0 + c / 4096) ∷ (0x80 + c / 64 % 64) ∷ (0x80 + c % 64) ∷ []
    else (0xf0 + c / 262144) ∷ (0x80 + c / 4096 % 64) ∷ (0x80 + c / 64 % 64) ∷ (0x80 + c % 64) ∷ []

abbrev pub bytes_of : Text → List ℕ
bytes_of [] = []
bytes_of (c ∷ s) = utf8_bytes c ++ bytes_of s

abbrev pub is_unreserved : ℕ → Bool
is_unreserved b =
    is_ascii_alphanumeric b || (b == b'-') || (b == b'.') || (b == b'_') || (b == b'~')

-- A digit of `{:X}`.
abbrev pub hex_digit : ℕ → ℕ
hex_digit d = if ltb d 10 then b'0' + d else b'A' + (d - 10)

-- `%{byte:02X}`.
abbrev pub escape : ℕ → Text
escape b = b'%' ∷ hex_digit (b / 16) ∷ hex_digit (b % 16) ∷ []

unfoldable pub encode_byte : ℕ → Text
encode_byte b = if is_unreserved b then b ∷ [] else if b == b' ' then b'+' ∷ [] else escape b

unfoldable pub encode_bytes : List ℕ → Text
unfolding encode_byte
encode_bytes [] = []
encode_bytes (b ∷ bs) = encode_byte b ++ encode_bytes bs

abbrev pub encode : Text → Text
unfolding encode_bytes
encode query = encode_bytes (bytes_of query)

abbrev pub fill_in : Text → Text → Text
fill_in template query = replace_from 0 (codes "%s") (encode query) template

-- `template`; the default is the first engine.
abbrev pub template_for : Option Text → Text
template_for none = codes "https://duckduckgo.com/?q=%s"
template_for (some conf) = elim (parse_template conf) [
  | some t ↦ t
  | none ↦ codes "https://duckduckgo.com/?q=%s"
]

abbrev pub quickmark : Option Text → Text → Option Text
quickmark none n = none
quickmark (some marks) n =
    if is_empty n || contains_char is_whitespace n then none else quickmark_in n (lines marks)

abbrev pub keyword_template : Option Text → Text → Option Text
keyword_template none keyword = none
keyword_template (some conf) keyword = keyword_in keyword (lines conf)

abbrev pub by_keyword : Option Text → Text → Option Text
by_keyword conf query = elim (split_once_by is_whitespace query) [
  | none ↦ none
  | some (keyword, rest) ↦ elim (keyword_template conf keyword) [
    | none ↦ none
    | some t ↦ some (fill_in t (trim rest))
  ]
]

-- `url_for`.
unfoldable pub url_for : Option Text → Option Text → Text → Text
url_for conf marks input =
    let query = trim input in
    elim (quickmark marks query) [
      | some url ↦ url
      | none ↦ elim (by_keyword conf query) [
        | some url ↦ url
        | none ↦ fill_in (template_for conf) query
      ]
    ]
